-- ===== src/Digestion/JobStore.antt =====
-- core-services-sql-engine/internal/digestion/store/store.go: the statements over sync_jobs, changes
-- and snapshots.
use manju_backend.Prelude.{
  ℕ, String, Bool, List, [], ◌∷◌, ◌++◌, pos, none, some, ◌==◌, ◌&&◌, if◌then◌else◌, ℤ,
}
use manju_backend.Exec.{no_rows, ok, Exec, pure, gets, lift_option, ◌>>=◌, ◌>>◌}
use manju_backend.Table.{where_rows, first_row, update_rows, any_row, order_desc}
use manju_backend.Digestion.{Uuid, SyncJob, Change, Snapshot, Env, World}
use manju_backend.Digestion.RowStore.{statement, now, fresh_id, page}

abbrev pub job_pending : String
job_pending = "pending"

abbrev pub job_running : String
job_running = "running"

abbrev pub job_completed : String
job_completed = "completed"

abbrev pub job_failed : String
job_failed = "failed"

-- The row that the INSERT adds: the columns that it does not name have their defaults.
unfoldable pub pending_job : Uuid → ℕ → SyncJob → SyncJob
pending_job id time job = record job {
  id = id;
  status = job_pending;
  started_at = none;
  completed_at = none;
  error_message = "";
  rows_scanned = 0;
  rows_inserted = 0;
  rows_updated = 0;
  rows_deleted = 0;
  rows_unchanged = 0;
  snapshot_version = 0;
  created_at = time;
}

unfoldable pub started_job : ℕ → SyncJob → SyncJob
started_job time job = record job { status = job_running; started_at = some time }

unfoldable pub completed_job : ℕ → SyncJob → SyncJob → SyncJob
completed_job time stats job = record job {
  status = job_completed;
  completed_at = some time;
  rows_scanned = stats.rows_scanned;
  rows_inserted = stats.rows_inserted;
  rows_updated = stats.rows_updated;
  rows_deleted = stats.rows_deleted;
  rows_unchanged = stats.rows_unchanged;
  snapshot_version = stats.snapshot_version;
}

unfoldable pub failed_job : ℕ → String → SyncJob → SyncJob
failed_job time msg job = record job {
  status = job_failed;
  completed_at = some time;
  error_message = msg;
}

abbrev pub job_is : Uuid → SyncJob → Bool
job_is id job = job.id == id

module _ {V : Type 0} (env : Env V) where
  abbrev change_jobs : (ℕ → List SyncJob → List SyncJob) → Exec (World V) (Unit {0})
  change_jobs change = do
    statement env
    time ← now env
    λ w. (ok tt, record w { jobs = change time w.jobs })

  unfoldable pub create_sync_job : SyncJob → Exec (World V) Uuid
  create_sync_job job = do
    id ← fresh_id env
    change_jobs (λ time jobs. jobs ++ pending_job id time job ∷ [])
    pure id

  unfoldable pub start_sync_job : Uuid → Exec (World V) (Unit {0})
  start_sync_job id = change_jobs (λ time. update_rows (job_is id) (started_job time))

  unfoldable pub complete_sync_job : Uuid → SyncJob → Exec (World V) (Unit {0})
  complete_sync_job id stats =
      change_jobs (λ time. update_rows (job_is id) (completed_job time stats))

  unfoldable pub fail_sync_job : Uuid → String → Exec (World V) (Unit {0})
  fail_sync_job id msg = change_jobs (λ time. update_rows (job_is id) (failed_job time msg))

  unfoldable pub get_sync_job : Uuid → Exec (World V) SyncJob
  get_sync_job id = do
    statement env
    found ← gets (λ w. first_row (job_is id) w.jobs)
    lift_option no_rows found

  unfoldable pub list_sync_jobs : Uuid → ℤ → Exec (World V) (List SyncJob)
  list_sync_jobs source_id limit = do
    statement env
    page limit (pos 0)
        (λ w. order_desc (λ j. j.created_at) (where_rows (λ j. j.source_id == source_id) w.jobs))

  unfoldable pub insert_change : Change V → Exec (World V) (Unit {0})
  insert_change change = do
    id ← fresh_id env
    statement env
    time ← now env
    λ w. (
      ok tt,
      record w { changes = w.changes ++ record change { id = id; detected_at = time } ∷ [] },
    )

  unfoldable pub list_changes : Uuid → ℤ → Exec (World V) (List (Change V))
  list_changes table_id limit = do
    statement env
    page limit (pos 0)
        (λ w. order_desc (λ c. c.detected_at) (where_rows (λ c. c.table_id == table_id) w.changes))

  abbrev same_snapshot : Snapshot → Snapshot → Bool
  same_snapshot snap row = row.table_id == snap.table_id && row.version == snap.version

  -- ON CONFLICT (table_id, version) DO NOTHING
  abbrev add_snapshot : Snapshot → List Snapshot → List Snapshot
  add_snapshot snap rows = if any_row (same_snapshot snap) rows then rows else rows ++ snap ∷ []

  unfoldable pub create_snapshot : Snapshot → Exec (World V) (Unit {0})
  create_snapshot snap = do
    id ← fresh_id env
    statement env
    time ← now env
    λ w. (
      ok tt,
      record w {
        snapshots = add_snapshot (record snap { id = id; created_at = time }) w.snapshots;
      },
    )

  unfoldable pub list_snapshots : Uuid → ℤ → Exec (World V) (List Snapshot)
  list_snapshots table_id limit = do
    statement env
    page limit (pos 0)
        (λ w. order_desc (λ s. s.version) (where_rows (λ s. s.table_id == table_id) w.snapshots))
