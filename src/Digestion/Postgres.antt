-- ===== src/Digestion/Postgres.antt =====
-- core-services-sql-engine/internal/digestion/connector/postgres.go: the connector of PostgreSQL over
-- what pgx answers to its queries.
pub mod Pipe
pub mod Types
pub mod Documented
pub mod Columns
mod Tests
use Prim.Native.Nat.{◌/◌}
use manju_backend.Prelude.{
  ℕ, ℤ, String, Bool, true, false, List, [], ◌∷◌, Option, none, some, str_eq, if◌then◌else◌, take,
  drop, ltb, ◌+◌, ◌%◌, codes, ◌⧺◌, ◌++◌,
}
use manju_backend.Exec.{Error, wrap, Result, ok, err, wrap_result}
use manju_backend.Digestion.{Row}
use manju_backend.Digestion.Connector.{
  SourceConfig, TableMeta, ColumnMeta, ForeignKeyMeta, Stream, Connector, Driver, postgres,
}
use manju_backend.Digestion.Postgres.Types.{map_type, detect_semantic_type}

-- pgx.Rows: what the scan of each row gives, and rows.Err() behind them.
pub record Rows (A : Type 0) : Type 0 where
  pub items : List (Result A)
  pub ending : Option Error

-- A value of pgx: a UUID's 16 bytes, other bytes, a time, or a value that is kept.
pub data PgValue (V : Type 0) : Type 0 where
  nil : PgValue V
  uuid bytes : List ℕ → PgValue V
  time : ℕ → PgValue V
  other : V → PgValue V

-- pgxpool.Pool: the answers to the queries on the catalog, of which the timestamp column is one row
-- at most, and to the queries on rows by their text and argument.
pub record Pool (V : Type 0) : Type 0 where
  pub tables : Result (Rows TableMeta)
  pub primary_keys : String → String → Result (Rows String)
  pub timestamp_column : String → String → Result String
  pub columns : String → String → Result (Rows ColumnMeta)
  pub foreign_keys : Result (Rows ForeignKeyMeta)
  pub fields : String → Option ℕ → List String
  pub select_rows : String → Option ℕ → Result (Rows (List (PgValue V)))
  pub count : String → Result ℕ

-- pgx and the standard library: pgxpool.New, Identifier.Sanitize, the verb %d, time.Format, the value
-- of a Go string of bytes, and strings.ToLower on the code points behind ASCII.
pub record Driven (V : Type 0) : Type 0 where
  pub new_pool : String → Result (Pool V)
  pub sanitize : String → String
  pub decimal : ℤ → String
  pub rfc3339 : ℕ → List ℕ
  pub null : V
  pub text : List ℕ → V
  pub lower : ℕ → ℕ

-- `for rows.Next() { … }; return list, rows.Err()`
module _ {B : Type 0} where
  abbrev pub closed_with : Option Error → List B → Result (List B)
  closed_with none list = ok list
  closed_with (some e) list = err e

  abbrev pub consed : Result B → Result (List B) → Result (List B)
  consed (ok b) (ok list) = ok (b ∷ list)
  consed (ok b) (err e) = err e
  consed (err e) rest = err e

module _ {A B : Type 0} where
  abbrev pub and_scan : (A → Result B) → Result A → Result B
  and_scan f (ok a) = f a
  and_scan f (err e) = err e

  abbrev pub scan_items : (A → Result B) → Option Error → List (Result A) → Result (List B)
  scan_items f ending [] = closed_with ending []
  scan_items f ending (item ∷ items) = consed (and_scan f item) (scan_items f ending items)

  unfoldable pub scan_rows : (A → Result B) → Result (Rows A) → Result (List B)
  scan_rows f (ok rows) = scan_items f rows.ending rows.items
  scan_rows f (err e) = err e

module _ {V : Type 0} (pool : Pool V) where
  unfoldable pub discover_primary_keys : String → String → Result (List String)
  unfolding scan_rows
  discover_primary_keys schema table = scan_rows (λ col. ok col) (pool.primary_keys schema table)

  -- An error of the scan is ignored, and leaves the name empty.
  abbrev scanned_or_empty : Result String → String
  scanned_or_empty (ok col) = col
  scanned_or_empty (err e) = ""

  unfoldable pub guess_timestamp_column : String → String → String
  guess_timestamp_column schema table = scanned_or_empty (pool.timestamp_column schema table)

  abbrev pub with_keys : TableMeta → Result (List String) → Result TableMeta
  with_keys t (ok pks) =
      ok
        (record t { primary_keys = pks; timestamp_column = guess_timestamp_column t.schema t.name })
  with_keys t (err e) = err e

  unfoldable pub discover_tables : Result (List TableMeta)
  unfolding scan_rows discover_primary_keys guess_timestamp_column
  discover_tables =
      scan_rows (λ t. with_keys t (discover_primary_keys t.schema t.name))
        (wrap_result "discover tables" pool.tables)

  unfoldable pub discover_foreign_keys : Result (List ForeignKeyMeta)
  unfolding scan_rows
  discover_foreign_keys =
      scan_rows (λ fk. ok fk) (wrap_result "discover foreign keys" pool.foreign_keys)

-- The digits of %x.
abbrev hex_digit : ℕ → ℕ
hex_digit d = if ltb d 10 then d + 48 else d + 87

abbrev pub hex : List ℕ → List ℕ
hex [] = []
hex (b ∷ bs) = hex_digit (b / 16) ∷ hex_digit (b % 16) ∷ hex bs

abbrev pub hyphen : List ℕ
hyphen = codes "-"

unfoldable pub uuid_text : List ℕ → List ℕ
uuid_text val =
    hex (take 4 val)
    ++ hyphen
    ++ hex (take 2 (drop 4 val))
    ++ hyphen
    ++ hex (take 2 (drop 6 val))
    ++ hyphen
    ++ hex (take 2 (drop 8 val))
    ++ hyphen
    ++ hex (drop 10 val)

module _ {V : Type 0} where
  -- `row[name] = v`
  abbrev put_value : String → V → Row V → Row V
  put_value name v [] = (name, v) ∷ []
  put_value name v (entry ∷ row) =
      let rest = put_value name v row in
      if str_eq entry.0 name then (name, v) ∷ row else entry ∷ rest

  abbrev pub prepend : Row V → Stream V → Stream V
  prepend row s = record { rows = row ∷ s.rows; error = s.error }

module _ {V : Type 0} (env : Driven V) where
  abbrev pub typed_column : ColumnMeta → ColumnMeta
  typed_column col = record col {
    mapped_type = map_type col.data_type;
    semantic_type = detect_semantic_type env.lower col.name col.is_primary_key;
  }

  unfoldable pub normalize_value : PgValue V → V
  unfolding uuid_text
  normalize_value nil = env.null
  normalize_value (uuid val) = env.text (uuid_text val)
  normalize_value (bytes val) = env.text val
  normalize_value (time t) = env.text (env.rfc3339 t)
  normalize_value (other v) = v

  -- pgx gives a value to each of the fields; of two fields of one name the later stays.
  unfoldable pub fill_row : List String → List (PgValue V) → Row V → Row V
  unfolding normalize_value
  fill_row [] values row = row
  fill_row (name ∷ fields) [] row = row
  fill_row (name ∷ fields) (v ∷ values) row =
      fill_row fields values (put_value name (normalize_value v) row)

  unfoldable pub select_all : String → String → Option ℕ → String
  select_all schema table none = "SELECT * FROM " ⧺ env.sanitize schema ⧺ "." ⧺ env.sanitize table
  select_all schema table (some since) =
      "SELECT * FROM "
      ⧺ env.sanitize schema
      ⧺ "."
      ⧺ env.sanitize table
      ⧺ " WHERE updated_at > $1 ORDER BY updated_at"

  -- The rows up to the first that has no values, and what goes to errCh.
  unfoldable pub read_rows :
      List String → Option Error → List (Result (List (PgValue V))) → Stream V
  unfolding fill_row
  read_rows fields ending [] = record { rows = []; error = ending }
  read_rows fields ending (err e ∷ items) = record { rows = []; error = some e }
  read_rows fields ending (ok values ∷ items) =
      prepend (fill_row fields values []) (read_rows fields ending items)

  unfoldable pub queried : String → List String → Result (Rows (List (PgValue V))) → Stream V
  unfolding read_rows
  queried name fields (err e) = record {
    rows = [];
    error = some (wrap ("stream rows from " ⧺ name) e);
  }
  queried name fields (ok rows) = read_rows fields rows.ending rows.items

module _ {V : Type 0} (env : Driven V) (pool : Pool V) where
  unfoldable pub discover_columns : String → String → Result (List ColumnMeta)
  unfolding scan_rows
  discover_columns schema table =
      scan_rows (λ col. ok (typed_column env col))
        (wrap_result "discover columns" (pool.columns schema table))

  unfoldable pub stream_rows : String → String → Option ℕ → Stream V
  unfolding queried select_all
  stream_rows schema table since =
      let q = select_all env schema table since in
      queried env (schema ⧺ "." ⧺ table) (pool.fields q since) (pool.select_rows q since)

  unfoldable pub count_rows : String → String → Result ℕ
  count_rows schema table =
      pool.count ("SELECT COUNT(*) FROM " ⧺ env.sanitize schema ⧺ "." ⧺ env.sanitize table)

module _ {V : Type 0} (env : Driven V) where
  unfoldable pub dsn : SourceConfig → String
  dsn cfg =
      "host="
      ⧺ cfg.host
      ⧺ " port="
      ⧺ env.decimal cfg.port
      ⧺ " dbname="
      ⧺ cfg.database
      ⧺ " user="
      ⧺ cfg.username
      ⧺ " password="
      ⧺ cfg.password
      ⧺ " sslmode="
      ⧺ cfg.ssl_mode

  unfoldable pub connected : Result (Pool V) → Result (Connector V)
  unfolding discover_tables discover_columns discover_foreign_keys stream_rows count_rows
  connected (err e) = err e
  connected (ok pool) = ok (record {
    discover_tables = discover_tables pool;
    discover_columns = discover_columns env pool;
    discover_foreign_keys = discover_foreign_keys pool;
    stream_rows = stream_rows env pool;
    count_rows = count_rows env pool;
  })

  unfoldable pub connect : Driver → Result (Connector V)
  unfolding dsn connected
  connect (postgres cfg) = connected (wrap_result "connect to source" (env.new_pool (dsn cfg)))
