-- ===== src/Digestion/SourceStore.antt =====
-- core-services-sql-engine/internal/digestion/store/store.go: the statements over sources and
-- discovered_tables.
use text.Mathlib.Text.{is_le, is_eq}
use Prim.Native.String.{compare}
use manju_backend.Prelude.{ℕ, String, Bool, List, [], ◌∷◌, ◌++◌, none, some, ◌==◌, if◌then◌else◌}
use manju_backend.Exec.{no_rows, ok, Exec, pure, gets, lift_option, ◌>>=◌, ◌>>◌}
use manju_backend.Table.{where_rows, first_row, update_rows, order_desc, order_asc}
use manju_backend.Digestion.{Uuid, Source, DiscoveredTable, Env, World}
use manju_backend.Digestion.RowStore.{statement, now, fresh_id}

abbrev pub source_pending : String
source_pending = "pending"

abbrev pub source_connected : String
source_connected = "connected"

abbrev pub source_error : String
source_error = "error"

abbrev pub source_discovered : String
source_discovered = "discovered"

abbrev pub source_is : Uuid → Source → Bool
source_is id source = source.id == id

abbrev pub table_is : Uuid → DiscoveredTable → Bool
table_is id table = table.id == id

unfoldable pub created_source : Uuid → ℕ → Source → Source
created_source id time source = record source {
  id = id;
  status = source_pending;
  last_error = "";
  last_connected = none;
  last_sync_at = none;
  created_at = time;
  updated_at = time;
}

unfoldable pub status_set : String → String → ℕ → Source → Source
status_set status last_error time source = record source {
  status = status;
  last_error = last_error;
  updated_at = time;
}

unfoldable pub connected_source : ℕ → Source → Source
connected_source time source = record source {
  last_connected = some time;
  status = source_connected;
  updated_at = time;
}

unfoldable pub synced_source : ℕ → Source → Source
synced_source time source = record source { last_sync_at = some time; updated_at = time }

pub sync_stats_set : ℕ → ℕ → ℕ → DiscoveredTable → DiscoveredTable
sync_stats_set row_count snapshot_version time table = record table {
  last_sync_at = some time;
  last_row_count = row_count;
  last_snapshot_version = snapshot_version;
  updated_at = time;
}

-- ORDER BY schema_name, table_name
table_le : DiscoveredTable → DiscoveredTable → Bool
table_le a b =
    if is_eq (compare a.schema_name b.schema_name)
    then is_le (compare a.table_name b.table_name)
    else is_le (compare a.schema_name b.schema_name)

insert_by_name : DiscoveredTable → List DiscoveredTable → List DiscoveredTable
insert_by_name a [] = a ∷ []
insert_by_name a (b ∷ bs) =
    let rest = insert_by_name a bs in if table_le a b then a ∷ b ∷ bs else b ∷ rest

order_by_name : List DiscoveredTable → List DiscoveredTable
unfolding insert_by_name table_le
order_by_name [] = []
order_by_name (a ∷ as') = insert_by_name a (order_by_name as')

module _ {V : Type 0} (env : Env V) where
  abbrev change_sources : (ℕ → List Source → List Source) → Exec (World V) (Unit {0})
  change_sources change = do
    statement env
    time ← now env
    λ w. (ok tt, record w { sources = change time w.sources })

  unfoldable pub get_source : Uuid → Exec (World V) Source
  get_source id = do
    statement env
    found ← gets (λ w. first_row (source_is id) w.sources)
    lift_option no_rows found

  unfoldable pub list_sources : Exec (World V) (List Source)
  list_sources = do statement env; gets (λ w. order_desc (λ s. s.created_at) w.sources)

  -- WHERE sync_enabled = TRUE ORDER BY created_at
  unfoldable pub list_sync_enabled_sources : Exec (World V) (List Source)
  list_sync_enabled_sources = do
    statement env
    gets (λ w. order_asc (λ s. s.created_at) (where_rows (λ s. s.sync_enabled) w.sources))

  unfoldable pub create_source : Source → Exec (World V) Uuid
  create_source source = do
    id ← fresh_id env
    change_sources (λ time sources. sources ++ created_source id time source ∷ [])
    pure id

  unfoldable pub update_source_status : Uuid → String → String → Exec (World V) (Unit {0})
  update_source_status id status last_error =
      change_sources (λ time. update_rows (source_is id) (status_set status last_error time))

  unfoldable pub update_source_connected : Uuid → Exec (World V) (Unit {0})
  update_source_connected id =
      change_sources (λ time. update_rows (source_is id) (connected_source time))

  unfoldable pub update_source_sync_time : Uuid → Exec (World V) (Unit {0})
  update_source_sync_time id =
      change_sources (λ time. update_rows (source_is id) (synced_source time))

  unfoldable pub get_table : Uuid → Exec (World V) DiscoveredTable
  get_table id = do
    statement env
    found ← gets (λ w. first_row (table_is id) w.tables)
    lift_option no_rows found

  unfoldable pub list_tables : Uuid → Exec (World V) (List DiscoveredTable)
  unfolding order_by_name
  list_tables source_id = do
    statement env
    gets (λ w. order_by_name (where_rows (λ t. t.source_id == source_id) w.tables))

  unfoldable pub update_table_sync_stats : Uuid → ℕ → ℕ → Exec (World V) (Unit {0})
  update_table_sync_stats id row_count snapshot_version = do
    statement env
    time ← now env
    λ w. (
      ok tt,
      record w {
        tables =
            update_rows (table_is id) (sync_stats_set row_count snapshot_version time) w.tables;
      },
    )
