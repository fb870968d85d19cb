-- ===== src/Digestion/Discovery.antt =====
-- core-services-sql-engine/internal/digestion/discovery.go: the catalog of a source, read through
-- its connector and stored table by table.
pub mod Keeps
pub mod Careful
pub mod Status
pub mod Upserts
pub mod Listed
pub mod Others
pub mod Columns
mod Tests
use manju_backend.Prelude.{
  ℕ, String, ◌⧺◌, Bool, true, false, List, [], ◌∷◌, Option, none, some, ◌==◌, str_eq, if◌then◌else◌,
}
use manju_backend.Exec.{
  Error, Result, ok, err, wrap, Exec, pure, raise, context, ignore, ◌>>=◌, ◌>>◌,
}
use manju_backend.Digestion.{
  Uuid, Source, DiscoveredTable, DiscoveredColumn, DiscoveredForeignKey, Env, World,
}
use manju_backend.Digestion.Connector.{
  TableMeta, ColumnMeta, ForeignKeyMeta, Connector, Driver, new,
}
use manju_backend.Digestion.SourceStore.{
  get_source, update_source_status, update_source_connected, source_error, source_discovered,
}
use manju_backend.Digestion.SchemaStore.{
  upsert_table, insert_column, delete_fks_for_source, insert_fk,
}
use manju_backend.Digestion.Sync.{opened, source_config}

abbrev pub dotted : String → String → String
dotted schema name = schema ⧺ ("." ⧺ name)

-- The map from schema.table to the id of the table.
abbrev pub TableIds : Type 0
TableIds = String → Option Uuid

abbrev pub no_tables : TableIds
no_tables key = none

abbrev pub put_id : String → Uuid → TableIds → TableIds
put_id key id ids k = if str_eq k key then some id else ids k

unfoldable pub table_to_store : Uuid → TableMeta → DiscoveredTable
table_to_store source_id t = record {
  id = 0;
  source_id = source_id;
  schema_name = t.schema;
  table_name = t.name;
  estimated_row_count = t.estimated_rows;
  sync_enabled = true;
  primary_key_columns = t.primary_keys;
  timestamp_column = t.timestamp_column;
  last_sync_at = none;
  last_row_count = 0;
  last_snapshot_version = 0;
  discovered_at = 0;
  updated_at = 0;
}

unfoldable pub column_to_store : Uuid → ColumnMeta → DiscoveredColumn
column_to_store table_id c = record {
  id = 0;
  table_id = table_id;
  column_name = c.name;
  ordinal_position = c.ordinal_position;
  data_type = c.data_type;
  mapped_type = c.mapped_type;
  max_length = c.max_length;
  numeric_precision = c.numeric_precision;
  numeric_scale = c.numeric_scale;
  is_nullable = c.is_nullable;
  is_primary_key = c.is_primary_key;
  is_unique = c.is_unique;
  has_default = c.has_default;
  default_value = c.default_value;
  semantic_type = c.semantic_type;
}

-- An entry of the map that is missing reads as the zero UUID, and so does one that is zero.
abbrev pub target_id : Option Uuid → Option Uuid
target_id none = none
target_id (some id) = if id == 0 then none else some id

unfoldable pub fk_to_store : Uuid → Uuid → Option Uuid → ForeignKeyMeta → DiscoveredForeignKey
fk_to_store source_id from_id to_id fk = record {
  id = 0;
  source_id = source_id;
  from_table_id = from_id;
  from_column = fk.from_column;
  to_table_id = target_id to_id;
  to_table_schema = fk.to_schema;
  to_table_name = fk.to_table;
  to_column = fk.to_column;
  constraint_name = fk.constraint_name;
}

module _ {V : Type 0} (env : Env V) where
  -- `if err != nil { _ = UpdateSourceStatus(…, "error", err.Error()); return fmt.Errorf(…) }`
  unfoldable pub report : {A : Type 0} → Uuid → String → Result A → Exec (World V) A
  report source_id msg (ok a) = pure a
  report source_id msg (err e) = do
    ignore (update_source_status env source_id source_error (env.message e))
    raise (wrap msg e)

  -- A column that cannot be stored is logged and passed over.
  unfoldable pub insert_columns : Uuid → List ColumnMeta → Exec (World V) (Unit {0})
  unfolding column_to_store
  insert_columns table_id [] = pure tt
  insert_columns table_id (c ∷ cols) = do
    ignore (insert_column env (column_to_store table_id c))
    insert_columns table_id cols

  -- So is a table whose columns cannot be listed.
  unfoldable pub discovered_columns : Uuid → Result (List ColumnMeta) → Exec (World V) (Unit {0})
  unfolding insert_columns
  discovered_columns table_id (err e) = pure tt
  discovered_columns table_id (ok cols) = insert_columns table_id cols

  unfoldable pub discover_table : Connector V → Uuid → TableMeta → Exec (World V) Uuid
  unfolding table_to_store discovered_columns
  discover_table conn source_id t = do
    id ←
        context ("upsert table " ⧺ dotted t.schema t.name)
          (upsert_table env (table_to_store source_id t))
    discovered_columns id (conn.discover_columns t.schema t.name)
    pure id

  -- `for _, t := range tables`, which ends at a table that cannot be stored.
  unfoldable pub discover_tables :
      Connector V → Uuid → List TableMeta → TableIds → Exec (World V) TableIds
  unfolding discover_table
  discover_tables conn source_id [] ids = pure ids
  discover_tables conn source_id (t ∷ tables) ids =
      let rest = discover_tables conn source_id tables in
      discover_table conn source_id t >>= λ id. rest (put_id (dotted t.schema t.name) id ids)

  -- A key whose own table was not discovered is passed over.
  unfoldable pub discover_fk :
      Uuid → TableIds → Option Uuid → ForeignKeyMeta → Exec (World V) (Unit {0})
  unfolding fk_to_store
  discover_fk source_id ids none fk = pure tt
  discover_fk source_id ids (some from_id) fk =
      ignore
        (insert_fk env (fk_to_store source_id from_id (ids (dotted fk.to_schema fk.to_table)) fk))

  unfoldable pub discover_fks : Uuid → TableIds → List ForeignKeyMeta → Exec (World V) (Unit {0})
  unfolding discover_fk
  discover_fks source_id ids [] = pure tt
  discover_fks source_id ids (fk ∷ fks) = do
    discover_fk source_id ids (ids (dotted fk.from_schema fk.from_table)) fk
    discover_fks source_id ids fks

  -- If the keys cannot be listed, those that are stored stay.
  unfoldable pub replace_fks :
      Uuid → TableIds → Result (List ForeignKeyMeta) → Exec (World V) (Unit {0})
  unfolding discover_fks
  replace_fks source_id ids (err e) = pure tt
  replace_fks source_id ids (ok fks) = do
    ignore (delete_fks_for_source env source_id)
    discover_fks source_id ids fks

  -- What follows once the tables are listed.
  unfoldable pub discover_listed : Connector V → Uuid → List TableMeta → Exec (World V) (Unit {0})
  unfolding discover_tables replace_fks
  discover_listed conn source_id tables = do
    ids ← discover_tables conn source_id tables no_tables
    replace_fks source_id ids conn.discover_foreign_keys
    ignore (update_source_status env source_id source_discovered "")

  -- What follows once the connection stands.
  unfoldable pub discover_connected : Connector V → Uuid → Exec (World V) (Unit {0})
  unfolding report discover_listed
  discover_connected conn source_id = do
    ignore (update_source_connected env source_id)
    tables ← report source_id "discover tables" conn.discover_tables
    discover_listed conn source_id tables

module _ {V : Type 0} (env : Env V) (connect : Driver → Result (Connector V)) where
  unfoldable pub discover : Uuid → Exec (World V) (Unit {0})
  unfolding discover_connected report
  discover source_id = do
    src ← context "get source" (get_source env source_id)
    conn ←
        report env source_id "connect to source"
          (opened connect (new env.quote (source_config src)))
    discover_connected env conn source_id
