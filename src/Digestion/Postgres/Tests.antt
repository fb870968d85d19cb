-- ===== src/Digestion/Postgres/Tests.antt =====
-- core-services-sql-engine/internal/digestion/connector/postgres.go: runs on single inputs.
use manju_backend.Prelude.{
  ℕ, ◌≡◌, refl, String, Bool, true, false, List, [], ◌∷◌, none, some, codes, All,
}
use manju_backend.Exec.{failure, ok, err}
use manju_backend.Digestion.Connector.{ColumnMeta}
use manju_backend.Digestion.Postgres.{
  nil, uuid, Pool, Driven, discover_columns, read_rows, fill_row, normalize_value, uuid_text,
  scan_rows,
}
use manju_backend.Digestion.Postgres.Types.{map_type, type_by_name, detect_semantic_type}
use manju_backend.Digestion.Postgres.Columns.{IsDescribed, discover_columns-IsDescribed}

-- Values are texts.
abbrev driven : Driven (List ℕ)
driven = record {
  new_pool = λ dsn. err (failure "no server");
  sanitize = λ name. name;
  decimal = λ n. "5432";
  rfc3339 = λ t. [];
  null = [];
  text = λ s. s;
  lower = λ c. c;
}

abbrev scanned : String → String → Bool → ColumnMeta
scanned name data_type is_pk = record {
  name = name;
  ordinal_position = 1;
  data_type = data_type;
  mapped_type = "";
  max_length = 0;
  numeric_precision = 0;
  numeric_scale = 0;
  is_nullable = false;
  is_primary_key = is_pk;
  is_unique = false;
  has_default = false;
  default_value = "";
  semantic_type = "";
}

abbrev described : String → String → Bool → String → String → ColumnMeta
described name data_type is_pk mapped semantic = record (scanned name data_type is_pk) {
  mapped_type = mapped;
  semantic_type = semantic;
}

abbrev pool : Pool (List ℕ)
pool = record {
  tables = err (failure "no tables");
  primary_keys = λ schema table. err (failure "no keys");
  timestamp_column = λ schema table. err (failure "no rows");
  columns = λ schema table. ok (record {
    items =
        ok (scanned "id" "uuid" true)
        ∷ ok (scanned "paid" "interval" false)
        ∷ ok (scanned "Status" "time without time zone" false)
        ∷ [];
    ending = none;
  });
  foreign_keys = err (failure "no keys");
  fields = λ q since. [];
  select_rows = λ q since. err (failure "no rows");
  count = λ q. ok 0;
}

abbrev columns_found : List ColumnMeta
columns_found =
    described "id" "uuid" true "uuid" "primary_key"
    ∷ described "paid" "interval" false "integer" "foreign_key"
    ∷ described "Status" "time without time zone" false "text" "status_enum"
    ∷ []

discover_columns-IsDescribed_example : All (IsDescribed driven.lower) columns_found
unfolding discover_columns scan_rows map_type type_by_name detect_semantic_type
discover_columns-IsDescribed_example =
    discover_columns-IsDescribed driven pool "public" "orders" columns_found refl

-- A row whose values cannot be read ends the stream; the rows before it stay.
read_rows-bad :
    read_rows driven ("id" ∷ "note" ∷ []) none (
      ok (
        uuid (1 ∷ 2 ∷ 171 ∷ 4 ∷ 5 ∷ 6 ∷ 7 ∷ 8 ∷ 9 ∷ 10 ∷ 11 ∷ 12 ∷ 13 ∷ 14 ∷ 15 ∷ 16 ∷ [])
        ∷ nil
        ∷ [])
      ∷ err (failure "bad value")
      ∷ ok (nil ∷ nil ∷ [])
      ∷ [])
    ≡ record {
      rows = (("id", codes "0102ab04-0506-0708-090a-0b0c0d0e0f10") ∷ ("note", []) ∷ []) ∷ [];
      error = some (failure "bad value");
    }
unfolding read_rows fill_row normalize_value uuid_text
read_rows-bad = refl
