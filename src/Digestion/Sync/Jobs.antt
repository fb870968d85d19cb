-- ===== src/Digestion/Sync/Jobs.antt =====
-- The life of a job of SyncTable of sync.go: pending, running, and completed or failed.
use manju_backend.Prelude.{
  ℕ, suc, ◌≡◌, refl, ap, ◌∙◌, true, String, List, Option, none, some, arith,
}
use manju_backend.Exec.{Error, Result, ok, err, wrap, context, context-cases, ◌>>=◌}
use manju_backend.Table.{first_row, update_rows}
use manju_backend.Table.Laws.{first_row-append_new, first_row-update_rows, first_row-holds}
use manju_backend.Digestion.{Uuid, DiscoveredTable, Source, SyncJob, Env, World}
use manju_backend.Digestion.JobStore.{
  job_is, job_completed, job_failed, pending_job, started_job, completed_job, failed_job,
  create_sync_job, start_sync_job, complete_sync_job, fail_sync_job, get_sync_job,
}
use manju_backend.Digestion.SourceStore.{get_source, get_table}
use manju_backend.Digestion.Connector.{Connector, Driver}
use manju_backend.Digestion.Sync.{snapshot_job, settle, run_job, sync_table}
use manju_backend.Digestion.Sync.Frame.{
  get_source_state, get_table_state, update_source_status-KeepsJobs,
  update_table_sync_stats-KeepsJobs, create_snapshot-KeepsJobs, run_full_sync-KeepsJobs,
}

abbrev pub job_at : {V : Type 0} → Uuid → World V → Option SyncJob
job_at id w = first_row (job_is id) w.jobs

updated_job :
    (id : Uuid) (f : SyncJob → SyncJob)
    → ((job : SyncJob) → job_is id (f job) ≡ job_is id job)
    → (jobs : List SyncJob) (job : SyncJob) → first_row (job_is id) jobs ≡ some job
    → first_row (job_is id) (update_rows (job_is id) f jobs) ≡ some (f job)
updated_job id f keeps jobs job found =
    let here : job_is id job ≡ true = first_row-holds (job_is id) jobs job found in
    first_row-update_rows (job_is id) (job_is id) f keeps jobs job found ∙ rw here refl

module _ {V : Type 0} (env : Env V) (quiet : (n : ℕ) → env.fault n ≡ none) where
  created :
      (job : SyncJob) (w : World V)
      → job_at (env.fresh w.calls) w ≡ none
      → ((create_sync_job env job w).0 ≡ ok (env.fresh w.calls))
        × (job_at (env.fresh w.calls) (create_sync_job env job w).1
            ≡ some (pending_job (env.fresh w.calls) (env.clock (suc (suc w.calls))) job))
  unfolding create_sync_job pending_job
  created job w free =
      rw (quiet (suc w.calls))
        (refl, first_row-append_new (job_is (env.fresh w.calls)) w.jobs _ free (ground arith))

  started :
      (id : Uuid) (job : SyncJob) (w : World V)
      → job_at id w ≡ some job
      → ((start_sync_job env id w).0 ≡ ok tt)
        × (job_at id (start_sync_job env id w).1 ≡ some (started_job (env.clock (suc w.calls)) job))
  unfolding start_sync_job started_job
  started id job w found =
      rw (quiet w.calls) (refl, updated_job id (started_job _) (λ _. refl) w.jobs job found)

  completed :
      (id : Uuid) (stats job : SyncJob) (w : World V)
      → job_at id w ≡ some job
      → job_at id (complete_sync_job env id stats w).1
        ≡ some (completed_job (env.clock (suc w.calls)) stats job)
  unfolding complete_sync_job completed_job
  completed id stats job w found =
      rw (quiet w.calls) (updated_job id (completed_job _ stats) (λ _. refl) w.jobs job found)

  failed :
      (id : Uuid) (message : String) (job : SyncJob) (w : World V)
      → job_at id w ≡ some job
      → job_at id (fail_sync_job env id message w).1
        ≡ some (failed_job (env.clock (suc w.calls)) message job)
  unfolding fail_sync_job failed_job
  failed id message job w found =
      rw (quiet w.calls) (updated_job id (failed_job _ message) (λ _. refl) w.jobs job found)

  read_back :
      (id : Uuid) (job : SyncJob) (w : World V)
      → job_at id w ≡ some job
      → ((get_sync_job env id w).0 ≡ ok job) × (job_at id (get_sync_job env id w).1 ≡ some job)
  unfolding get_sync_job
  read_back id job w found = rw (quiet w.calls, found) (refl, found)

-- How a sync of a table ends for the job with this id: no job was made, or the job is completed and
-- returned, or it is failed with the message of the error that is returned.
pub data JobEnds {V : Type 0} (env : Env V) (id : Uuid) (w : World V) (r : Result SyncJob × World V)
    : Type 0 where
  no_job : (cause : Error) → r.0 ≡ err cause → r.1.jobs ≡ w.jobs → JobEnds env id w r
  is_completed :
      (job : SyncJob)
      → r.0 ≡ ok job
      → job_at id r.1 ≡ some job
      → job.status ≡ job_completed
      → JobEnds env id w r
  is_failed :
      (job : SyncJob) (cause : Error)
      → r.0 ≡ err (wrap "run full sync" cause)
      → job_at id r.1 ≡ some job
      → job.status ≡ job_failed
      → job.error_message ≡ env.message cause
      → JobEnds env id w r

module _ {V : Type 0} (env : Env V) (connect : Driver → Result (Connector V))
    (quiet : (n : ℕ) → env.fault n ≡ none) where
  settle-JobEnds :
      (source_id table_id id : Uuid) (w v : World V) (r : Result SyncJob) (job : SyncJob)
      → job_at id v ≡ some job
      → JobEnds env id w (settle env connect source_id table_id id r v)
  unfolding settle completed_job failed_job
  settle-JobEnds source_id table_id id w v (err e) job found =
      is_failed _ e refl
        (ap (first_row (job_is id)) (update_source_status-KeepsJobs env _ _ _ _)
          ∙ failed env quiet id (env.message e) job v found)
        refl refl
  settle-JobEnds source_id table_id id w v (ok stats) job found =
      let back = read_back env quiet id _ _ (
        ap (first_row (job_is id))
          (create_snapshot-KeepsJobs env _ _ ∙ update_table_sync_stats-KeepsJobs env _ _ _ _)
        ∙ completed env quiet id stats job v found) in
      is_completed _ back.0 back.1 refl

  module _ (source_id table_id : Uuid) (w : World V)
      (free : job_at (env.fresh (suc (suc w.calls))) w ≡ none) where
    abbrev id : Uuid
    id = env.fresh (suc (suc w.calls))

    abbrev looked_up : World V
    looked_up = record w { calls = suc (suc w.calls) }

    running :
        (src : Source) (table : DiscoveredTable) (job : SyncJob) (v : World V)
        → job_at id v ≡ some job
        → JobEnds env id w (
            (context "start sync job" (start_sync_job env id) >>= λ _.
            run_job env connect src table source_id table_id id)
              v)
    unfolding run_job
    running src table job v found =
        context-cases (JobEnds env id w) (start_sync_job env id) _ v _
          (λ _ _. settle-JobEnds source_id table_id id w _ _ _ (
            ap (first_row (job_is id)) (run_full_sync-KeepsJobs env connect src table id _)
            ∙ (started env quiet id job v found).1))
          (λ e h. cc (h, (started env quiet id job v found).0))

    made :
        (src : Source) (table : DiscoveredTable)
        → JobEnds env id w (
            (context "create sync job"
                  (create_sync_job env (snapshot_job env connect source_id table_id))
                >>= λ job_id. context "start sync job" (start_sync_job env job_id) >>= λ _.
                    run_job env connect src table source_id table_id job_id)
              looked_up)
    made src table =
        let new = created env quiet (snapshot_job env connect source_id table_id) looked_up free in
        context-cases (JobEnds env id w)
          (create_sync_job env (snapshot_job env connect source_id table_id)) _ looked_up _
          (λ job_id e.
            let same : job_id ≡ id = cc (e, new.0) in rw same (running src table _ _ new.1))
          (λ e h. cc (h, new.0))

    -- If no statement fails and the id of the new job is unused, a sync of a table makes no job, as
    -- when the source or the table is unknown, or it leaves the job completed and returns it, or it
    -- leaves the job failed with the message of the error that it returns: no job stays pending or
    -- running.
    pub sync_table-JobEnds : JobEnds env id w (sync_table env connect source_id table_id w)
    unfolding sync_table
    sync_table-JobEnds =
        context-cases (JobEnds env id w) (get_source env source_id) _ w _
          (λ src _. rw (get_source_state env source_id w) (
            context-cases (JobEnds env id w) (get_table env table_id) _ _ _
              (λ table _.
                rw (get_table_state env table_id (record w { calls = suc w.calls }))
                  (made src table))
              (λ e _. no_job _ refl (ap (λ v. v.jobs) (get_table_state env table_id _)))))
          (λ e _. no_job _ refl (ap (λ v. v.jobs) (get_source_state env source_id w)))
