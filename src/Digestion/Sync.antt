-- ===== src/Digestion/Sync.antt =====
-- core-services-sql-engine/internal/digestion/sync.go and `connectorForSource` of engine.go.
pub mod Mirror
pub mod Deletions
pub mod Live
pub mod Counts
pub mod Frame
pub mod Jobs
pub mod Log
pub mod Replay
pub mod Sources
use Prim.Native.String.{◌++◌}
use manju_backend.Prelude.{
  ℕ, String, Bool, true, false, List, [], ◌∷◌, Option, none, some, if◌then◌else◌, incr64, length,
  ◌%◌, ◌^◌,
}
use manju_backend.Exec.{
  Error, wrap, Result, ok, err, Exec, pure, raise, context, ignore, ◌>>=◌, ◌>>◌,
}
use manju_backend.Digestion.{
  Uuid, Row, Source, DiscoveredTable, SyncJob, Change, Snapshot, Env, World,
}
use manju_backend.Digestion.RowStore.{
  UpsertRowResult, upsert_row, mark_deleted_rows, get_deleted_row_data, now,
}
use manju_backend.Digestion.JobStore.{
  create_sync_job, start_sync_job, complete_sync_job, fail_sync_job, get_sync_job, insert_change,
  create_snapshot,
}
use manju_backend.Digestion.SourceStore.{
  get_source, get_table, list_tables, update_source_status, update_source_sync_time,
  update_table_sync_stats, source_error,
}
use manju_backend.Digestion.Changes.{compute_hash, build_row_key, changed_columns}
use manju_backend.Digestion.Connector.{SourceConfig, Connector, Driver, Stream, new}

-- The zero value of the counters, at a version.
unfoldable pub empty_stats : ℕ → SyncJob
empty_stats version = record {
  id = 0;
  source_id = 0;
  table_id = none;
  job_type = "";
  strategy = "";
  status = "";
  started_at = none;
  completed_at = none;
  error_message = "";
  rows_scanned = 0;
  rows_inserted = 0;
  rows_updated = 0;
  rows_deleted = 0;
  rows_unchanged = 0;
  snapshot_version = version;
  created_at = 0;
}

abbrev pub change_of :
    {V : Type 0}
    → Uuid
    → Uuid
    → String
    → String
    → Option (Row V)
    → Option (Row V)
    → List String
    → ℕ
    → Change V
change_of table_id job_id operation row_key old_data new_data changed_columns version = record {
  id = 0;
  table_id = table_id;
  sync_job_id = some job_id;
  operation = operation;
  row_key = row_key;
  old_data = old_data;
  new_data = new_data;
  changed_columns = changed_columns;
  snapshot_version = version;
  detected_at = 0;
}

data_or_nil : {V : Type 0} → Result (Row V) → Option (Row V)
data_or_nil (ok contents) = some contents
data_or_nil (err e) = none

abbrev pub source_config : Source → SourceConfig
source_config src = record {
  kind = src.db_type;
  host = src.host;
  port = src.port;
  database = src.database_name;
  username = src.username;
  password = src.password;
  ssl_mode = src.ssl_mode;
}

unfoldable pub opened :
    {V : Type 0} → (Driver → Result (Connector V)) → Result Driver → Result (Connector V)
opened connect (ok driver) = connect driver
opened connect (err e) = err e

module _ {V : Type 0} (env : Env V) (connect : Driver → Result (Connector V)) where
  connector_for_source : Source → Exec (World V) (Connector V)
  connector_for_source src w = (opened connect (new env.quote (source_config src)), w)

module _ {V : Type 0} (env : Env V) (table : DiscoveredTable) (job_id : Uuid) (version : ℕ) where
  -- The switch on the outcome of the upsert, on is_new and is_changed: the counter, and the change
  -- to record. An error of the record is dropped.
  unfoldable pub record_outcome :
      String → Row V → SyncJob → Option (Row V) → Bool → Bool → Exec (World V) SyncJob
  record_outcome row_key row stats old_data true is_changed = do
    ignore
        (insert_change env (change_of table.id job_id "INSERT" row_key none (some row) [] version))
    pure (record stats { rows_inserted = incr64 stats.rows_inserted })
  record_outcome row_key row stats old_data false true = do
    ignore (
        insert_change env (
          change_of table.id job_id "UPDATE" row_key old_data (some row)
            (changed_columns env old_data row) version))
    pure (record stats { rows_updated = incr64 stats.rows_updated })
  record_outcome row_key row stats old_data false false =
      pure (record stats { rows_unchanged = incr64 stats.rows_unchanged })

  unfoldable pub sync_row : Row V → SyncJob → Exec (World V) SyncJob
  unfolding record_outcome
  sync_row row stats = do
    let row_key = build_row_key env row table.primary_key_columns
    result ←
        context ("upsert row " ++ env.quote row_key)
          (upsert_row env table.id row_key (compute_hash env row) row version)
    record_outcome row_key row (record stats { rows_scanned = incr64 stats.rows_scanned })
        result.old_data result.is_new result.is_changed

  -- `for row := range rowCh`
  unfoldable pub sync_rows : List (Row V) → SyncJob → Exec (World V) SyncJob
  sync_rows [] stats = pure stats
  sync_rows (row ∷ rest) stats = let next = sync_rows rest in sync_row row stats >>= next

  -- The data of the row may be gone, and the record may fail: both errors are dropped.
  record_delete : String → Result (Row V) → Exec (World V) (Unit {0})
  unfolding data_or_nil
  record_delete key found = ignore (
      insert_change env
        (change_of table.id job_id "DELETE" key (data_or_nil found) none [] version))

  unfoldable pub record_deletes : List String → Exec (World V) (Unit {0})
  unfolding record_delete
  record_deletes [] w = (ok tt, w)
  record_deletes (key ∷ keys) w =
      let (found, w') = get_deleted_row_data env table.id key w in
      record_deletes keys (record_delete key found w').1

  -- What follows once the channel of rows is closed.
  unfoldable pub finish_sync : Option Error → SyncJob → Exec (World V) SyncJob
  finish_sync (some e) stats = raise (wrap "stream rows" e)
  finish_sync none stats = do
    deleted_keys ← context "mark deleted" (mark_deleted_rows env table.id version)
    record_deletes deleted_keys
    pure (record stats { rows_deleted = length deleted_keys % 2 ^ 64 })

  unfoldable pub sync_stream : Stream V → Exec (World V) SyncJob
  unfolding sync_rows finish_sync
  sync_stream stream = do
    stats ← sync_rows stream.rows (empty_stats version)
    finish_sync stream.error stats

module _ {V : Type 0} (env : Env V) (connect : Driver → Result (Connector V)) where
  unfoldable pub run_full_sync : Source → DiscoveredTable → Uuid → Exec (World V) SyncJob
  unfolding connector_for_source
  run_full_sync src table job_id = do
    version ← now env
    conn ← connector_for_source env connect src
    sync_stream env table job_id version (conn.stream_rows table.schema_name table.table_name none)

  abbrev pub snapshot_job : Uuid → Uuid → SyncJob
  snapshot_job source_id table_id = record (empty_stats 0) {
    source_id = source_id;
    table_id = some table_id;
    job_type = "snapshot";
    strategy = "full";
  }

  abbrev pub snapshot_of : Uuid → Uuid → SyncJob → Snapshot
  snapshot_of table_id job_id stats = record {
    id = 0;
    table_id = table_id;
    sync_job_id = some job_id;
    version = stats.snapshot_version;
    row_count = stats.rows_scanned;
    inserts = stats.rows_inserted;
    updates = stats.rows_updated;
    deletes = stats.rows_deleted;
    created_at = 0;
  }

  -- Errors of the bookkeeping are logged and dropped.
  pub settle : Uuid → Uuid → Uuid → Result SyncJob → Exec (World V) SyncJob
  settle source_id table_id job_id (err e) = do
    ignore (fail_sync_job env job_id (env.message e))
    ignore (update_source_status env source_id source_error (env.message e))
    raise (wrap "run full sync" e)
  settle source_id table_id job_id (ok stats) = do
    ignore (complete_sync_job env job_id stats)
    ignore (update_table_sync_stats env table_id stats.rows_scanned stats.snapshot_version)
    ignore (create_snapshot env (snapshot_of table_id job_id stats))
    get_sync_job env job_id

  pub run_job : Source → DiscoveredTable → Uuid → Uuid → Uuid → Exec (World V) SyncJob
  unfolding settle
  run_job src table source_id table_id job_id w =
      let (r, w') = run_full_sync src table job_id w in settle source_id table_id job_id r w'

  unfoldable pub sync_table : Uuid → Uuid → Exec (World V) SyncJob
  unfolding run_job empty_stats
  sync_table source_id table_id = do
    src ← context "get source" (get_source env source_id)
    table ← context "get table" (get_table env table_id)
    job_id ← context "create sync job" (create_sync_job env (snapshot_job source_id table_id))
    context "start sync job" (start_sync_job env job_id)
    run_job src table source_id table_id job_id

  abbrev first_error : Option Error → Result SyncJob → Option Error
  first_error first (ok job) = first
  first_error none (err e) = some e
  first_error (some first) (err e) = some first

  sync_listed : Uuid → DiscoveredTable → Option Error → Bool → World V → Option Error × World V
  sync_listed source_id t first false w = (first, w)
  sync_listed source_id t first true w =
      let (r, v) = sync_table source_id t.id w in (first_error first r, v)

  -- A table that fails does not stop the others; the first error is kept.
  unfoldable pub sync_tables :
      Uuid → List DiscoveredTable → Option Error → World V → Option Error × World V
  unfolding sync_listed
  sync_tables source_id [] first w = (first, w)
  sync_tables source_id (t ∷ ts) first w =
      let (first', w') = sync_listed source_id t first t.sync_enabled w in
      sync_tables source_id ts first' w'

  unfoldable pub end_sync : Uuid → Option Error → Exec (World V) (Unit {0})
  end_sync source_id none = ignore (update_source_sync_time env source_id)
  end_sync source_id (some e) = raise e

  unfoldable pub sync_source : Uuid → Exec (World V) (Unit {0})
  unfolding sync_tables end_sync
  sync_source source_id = do
    tables ← context "list tables" (list_tables env source_id)
    λ w. let (first, w') = sync_tables source_id tables none w in end_sync source_id first w'
