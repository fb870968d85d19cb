-- ===== src/Digestion/SchemaStore.antt =====
-- core-services-sql-engine/internal/digestion/store/store.go: the statements over the discovered
-- schema, and the deletion of a source with the cascades of
-- core-services-database/scripts/init-platform.sql.
pub mod Rediscovery
mod Tests
use manju_backend.Prelude.{
  ℕ, String, Bool, true, false, not, ◌&&◌, ◌||◌, List, [], ◌∷◌, ◌++◌, map, Option, none, some, ◌==◌,
  str_eq, if◌then◌else◌,
}
use manju_backend.Exec.{
  Error, failure, no_rows, Result, ok, err, Exec, pure, raise, gets, lift_option, ◌>>=◌, ◌>>◌,
}
use manju_backend.Table.{where_rows, first_row, update_rows, delete_rows, any_row, order_asc}
use manju_backend.Digestion.{
  Uuid, Source, DiscoveredTable, DiscoveredColumn, DiscoveredForeignKey, Env, World,
}
use manju_backend.Digestion.RowStore.{statement, now, fresh_id}
use manju_backend.Digestion.SourceStore.{source_is}

-- UNIQUE (source_id, schema_name, table_name)
abbrev pub same_table : Uuid → String → String → DiscoveredTable → Bool
same_table source_id schema name t =
    t.source_id == source_id && (str_eq t.schema_name schema && str_eq t.table_name name)

-- UNIQUE (table_id, column_name)
abbrev pub same_column : DiscoveredColumn → DiscoveredColumn → Bool
same_column a b = b.table_id == a.table_id && str_eq b.column_name a.column_name

-- The row that the INSERT adds.
unfoldable pub discovered_table : Uuid → ℕ → DiscoveredTable → DiscoveredTable
discovered_table id time t = record t {
  id = id;
  last_sync_at = none;
  last_row_count = 0;
  last_snapshot_version = 0;
  discovered_at = time;
  updated_at = time;
}

-- ON CONFLICT … DO UPDATE: the id, the settings and the history of the table stay.
unfoldable pub rediscovered : ℕ → DiscoveredTable → DiscoveredTable → DiscoveredTable
rediscovered time t row = record row {
  estimated_row_count = t.estimated_row_count;
  primary_key_columns = t.primary_key_columns;
  timestamp_column = t.timestamp_column;
  updated_at = time;
}

-- ON CONFLICT … DO UPDATE: the columns that the statement does not name stay as they were.
unfoldable pub redescribed : DiscoveredColumn → DiscoveredColumn → DiscoveredColumn
redescribed col row = record row {
  ordinal_position = col.ordinal_position;
  data_type = col.data_type;
  mapped_type = col.mapped_type;
  is_nullable = col.is_nullable;
  is_primary_key = col.is_primary_key;
  semantic_type = col.semantic_type;
}

module _ {V : Type 0} where
  abbrev pub set_tables : List DiscoveredTable → Exec (World V) (Unit {0})
  set_tables tables w = (ok tt, record w { tables = tables })

  abbrev set_columns : List DiscoveredColumn → Exec (World V) (Unit {0})
  set_columns columns w = (ok tt, record w { columns = columns })

  abbrev set_foreign_keys : List DiscoveredForeignKey → Exec (World V) (Unit {0})
  set_foreign_keys fks w = (ok tt, record w { foreign_keys = fks })

  -- RETURNING id
  abbrev pub put_table : Uuid → ℕ → DiscoveredTable → Option DiscoveredTable → Exec (World V) Uuid
  put_table id time t none = do
    tables ← gets (λ w. w.tables)
    set_tables (tables ++ discovered_table id time t ∷ [])
    pure id
  put_table id time t (some row) = do
    tables ← gets (λ w. w.tables)
    set_tables (
        update_rows (same_table t.source_id t.schema_name t.table_name) (rediscovered time t)
          tables)
    pure row.id

  -- The tables of a source.
  abbrev owned_table : World V → Uuid → Uuid → Bool
  owned_table w source_id id = any_row (λ t. t.id == id && t.source_id == source_id) w.tables

  abbrev owned_job_table : World V → Uuid → Option Uuid → Bool
  owned_job_table w source_id none = false
  owned_job_table w source_id (some id) = owned_table w source_id id

  -- ON DELETE SET NULL
  abbrev detached : World V → Uuid → DiscoveredForeignKey → DiscoveredForeignKey
  detached w source_id fk = record fk {
    to_table_id = if owned_job_table w source_id fk.to_table_id then none else fk.to_table_id;
  }

  -- The row of the source, and what refers to it or to its tables ON DELETE CASCADE.
  unfoldable pub without_source : Uuid → World V → World V
  without_source id w = record w {
    sources = delete_rows (source_is id) w.sources;
    tables = delete_rows (λ t. t.source_id == id) w.tables;
    columns = delete_rows (λ c. owned_table w id c.table_id) w.columns;
    foreign_keys = map (detached w id) (
        delete_rows (λ fk. fk.source_id == id || owned_table w id fk.from_table_id) w.foreign_keys);
    jobs = delete_rows (λ j. j.source_id == id || owned_job_table w id j.table_id) w.jobs;
    rows = delete_rows (λ r. owned_table w id r.table_id) w.rows;
    changes = delete_rows (λ c. owned_table w id c.table_id) w.changes;
    snapshots = delete_rows (λ s. owned_table w id s.table_id) w.snapshots;
  }

module _ {V : Type 0} (env : Env V) where
  unfoldable pub delete_source : Uuid → Exec (World V) (Unit {0})
  delete_source id = do statement env; λ w. (ok tt, without_source id w)

  unfoldable pub upsert_table : DiscoveredTable → Exec (World V) Uuid
  upsert_table t = do
    id ← fresh_id env
    statement env
    time ← now env
    found ← gets (λ w. first_row (same_table t.source_id t.schema_name t.table_name) w.tables)
    put_table id time t found

  unfoldable pub table_by_name : Uuid → String → String → Exec (World V) DiscoveredTable
  table_by_name source_id schema name = do
    statement env
    found ← gets (λ w. first_row (same_table source_id schema name) w.tables)
    lift_option no_rows found

  -- `err == pgx.ErrNoRows` gives nil, nil.
  abbrev none_if_no_rows : Result DiscoveredTable → Exec (World V) (Option Uuid)
  none_if_no_rows (ok t) = pure (some t.id)
  none_if_no_rows (err no_rows) = pure none
  none_if_no_rows (err e) = raise e

  unfoldable pub fk_table_id : Uuid → String → String → Exec (World V) (Option Uuid)
  unfolding table_by_name
  fk_table_id source_id schema name w =
      let (r, w') = table_by_name source_id schema name w in none_if_no_rows r w'

  unfoldable pub delete_columns_for_table : Uuid → Exec (World V) (Unit {0})
  delete_columns_for_table table_id = do
    statement env
    columns ← gets (λ w. w.columns)
    set_columns (delete_rows (λ c. c.table_id == table_id) columns)

  unfoldable pub insert_column : DiscoveredColumn → Exec (World V) (Unit {0})
  insert_column col = do
    id ← fresh_id env
    statement env
    columns ← gets (λ w. w.columns)
    set_columns (
        if any_row (same_column col) columns
        then update_rows (same_column col) (redescribed col) columns
        else columns ++ record col { id = id } ∷ [])

  unfoldable pub list_columns : Uuid → Exec (World V) (List DiscoveredColumn)
  list_columns table_id = do
    statement env
    gets (λ w.
        order_asc (λ c. c.ordinal_position) (where_rows (λ c. c.table_id == table_id) w.columns))

  unfoldable pub delete_fks_for_source : Uuid → Exec (World V) (Unit {0})
  delete_fks_for_source source_id = do
    statement env
    fks ← gets (λ w. w.foreign_keys)
    set_foreign_keys (delete_rows (λ fk. fk.source_id == source_id) fks)

  unfoldable pub insert_fk : DiscoveredForeignKey → Exec (World V) (Unit {0})
  insert_fk fk = do
    id ← fresh_id env
    statement env
    fks ← gets (λ w. w.foreign_keys)
    set_foreign_keys (fks ++ record fk { id = id } ∷ [])
