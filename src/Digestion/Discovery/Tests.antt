-- ===== src/Digestion/Discovery/Tests.antt =====
-- A discovery of a source with two tables, one of which was known.
use manju_backend.Prelude.{◌≡◌, refl, ◌+◌, arith, String, true, false, [], ◌∷◌, none, pos, All}
use manju_backend.Exec.{Result, ok}
use manju_backend.Digestion.{Source, DiscoveredTable, Env, World}
use manju_backend.Digestion.Connector.{
  Connector, Driver, TableMeta, ColumnMeta, ForeignKeyMeta, new,
}
use manju_backend.Digestion.SourceStore.{get_source, update_source_connected}
use manju_backend.Digestion.SchemaStore.{upsert_table, insert_column, insert_fk, rediscovered}
use manju_backend.Digestion.Sync.{opened}
use manju_backend.Digestion.Discovery.{discover, table_to_store, column_to_store}
use manju_backend.Digestion.Discovery.Keeps.{Keeps}
use manju_backend.Digestion.Discovery.Others.{columns_of}
use manju_backend.Digestion.Discovery.Columns.{discover-SparesOthers}
use manju_backend.Digestion.Discovery.Status.{Settles, discover-Settles}
use manju_backend.Digestion.Discovery.Upserts.{IsListed}
use manju_backend.Digestion.Discovery.Listed.{discover-IsListed}
use manju_backend.Digestion.Tests.{quiet, before}

abbrev warehouse : Source
warehouse = record {
  id = 1;
  name = "warehouse";
  description = "";
  db_type = "postgres";
  host = "localhost";
  port = pos 5432;
  database_name = "warehouse";
  username = "u";
  password = "p";
  ssl_mode = "disable";
  sync_enabled = true;
  sync_interval_seconds = pos 900;
  sync_strategy = "full";
  status = "pending";
  last_error = "";
  last_connected = none;
  last_sync_at = none;
  created_at = 0;
  updated_at = 0;
}

abbrev listed_people : TableMeta
listed_people = record {
  schema = "public";
  name = "people";
  estimated_rows = 3;
  primary_keys = "id" ∷ [];
  timestamp_column = "updated_at";
}

abbrev listed_items : TableMeta
listed_items = record listed_people { name = "items"; timestamp_column = "" }

abbrev column : ColumnMeta
column = record {
  name = "id";
  ordinal_position = 1;
  data_type = "uuid";
  mapped_type = "uuid";
  max_length = 0;
  numeric_precision = 0;
  numeric_scale = 0;
  is_nullable = false;
  is_primary_key = true;
  is_unique = false;
  has_default = false;
  default_value = "";
  semantic_type = "primary_key";
}

abbrev owner_key : ForeignKeyMeta
owner_key = record {
  constraint_name = "items_owner";
  from_schema = "public";
  from_table = "items";
  from_column = "owner_id";
  to_schema = "public";
  to_table = "people";
  to_column = "id";
}

abbrev connector : Connector String
connector = record {
  discover_tables = ok (listed_people ∷ listed_items ∷ []);
  discover_columns = λ schema name. ok (column ∷ []);
  discover_foreign_keys = ok (owner_key ∷ []);
  stream_rows = λ schema name since. record { rows = []; error = none };
  count_rows = λ schema name. ok 0;
}

abbrev connect : Driver → Result (Connector String)
connect driver = ok connector

abbrev with_source : World String
with_source = record before { sources = warehouse ∷ [] }

-- A table of another source, and its column.
abbrev theirs : DiscoveredTable
theirs = record (table_to_store 2 listed_people) { id = 7 }

abbrev shared : World String
shared = record with_source { tables = theirs ∷ []; columns = column_to_store 7 column ∷ [] }

-- Ids from 10 on.
abbrev drawing : Env String
drawing = record quiet { fresh = λ n. n + 10 }

discover-SparesOthers_example :
    Keeps 1 shared (discover drawing connect 1 shared).1
    × (columns_of 7 (discover drawing connect 1 shared).1 ≡ columns_of 7 shared)
discover-SparesOthers_example =
    discover-SparesOthers drawing connect 1 7 shared (λ n. ground arith)
      (unfold table_to_store in refl)

discover-Settles_example : Settles quiet 1 (discover quiet connect 1 with_source)
discover-Settles_example = discover-Settles quiet connect (λ n. refl) 1 warehouse with_source refl

discovered : (discover quiet connect 1 with_source).0 ≡ ok tt
unfolding discover get_source upsert_table insert_column insert_fk new opened
    update_source_connected rediscovered
discovered = refl

discover-IsListed_example :
    All
      (λ t. IsListed 1 t (discover quiet connect 1 with_source).1.tables)
      (listed_people ∷ listed_items ∷ [])
discover-IsListed_example =
    discover-IsListed quiet connect 1 warehouse connector (listed_people ∷ listed_items ∷ [])
      with_source (unfold get_source in refl) (unfold new opened in refl) refl
      ((refl, tt), (tt, tt)) discovered
