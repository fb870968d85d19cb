-- ===== src/Digestion/Sync/Frame.antt =====
-- A run of runFullSync of sync.go does not touch the table sync_jobs.
use manju_backend.Prelude.{
  ℕ, suc, ◌≡◌, refl, ap, ◌∙◌, Bool, true, false, String, List, [], ◌∷◌, Option, none, some, inl,
  inr,
}
use manju_backend.Exec.{Error, Result, Exec, lift_option, context, ◌>>=◌, bind-cases, context-cases}
use manju_backend.Digestion.{Uuid, Row, DiscoveredTable, Source, SyncJob, Change, Env, World}
use manju_backend.Digestion.RowStore.{
  statement, upsert_row, mark_deleted_rows, get_deleted_row_data,
}
use manju_backend.Digestion.RowStore.Laws.{upsert_row-Ends}
use manju_backend.Digestion.JobStore.{insert_change}
use manju_backend.Digestion.SourceStore.{
  get_source, get_table, update_source_status, update_table_sync_stats,
}
use manju_backend.Digestion.JobStore.{create_snapshot}
use manju_backend.Digestion.Connector.{Stream, Connector, Driver}
use manju_backend.Digestion.Sync.{
  record_outcome, sync_row, sync_rows, record_delete, record_deletes, finish_sync, sync_stream,
  connector_for_source, run_full_sync, empty_stats,
}

abbrev pub KeepsJobs : {V A : Type 0} → Exec (World V) A → Type 0
KeepsJobs {V} m = (w : World V) → (m w).1.jobs ≡ w.jobs

module _ {V A B : Type 0} (m : Exec (World V) A) (f : A → Exec (World V) B) where
  KeepsJobs-bind : KeepsJobs m → ((a : A) → KeepsJobs (f a)) → KeepsJobs (m >>= f)
  KeepsJobs-bind km kf w =
      bind-cases (λ r. r.1.jobs ≡ w.jobs) m f w (λ a _. kf a _ ∙ km w) (λ _ _. km w)

  KeepsJobs-context :
      (msg : String) → KeepsJobs m → ((a : A) → KeepsJobs (f a)) → KeepsJobs (context msg m >>= f)
  KeepsJobs-context msg km kf w =
      context-cases (λ r. r.1.jobs ≡ w.jobs) m f w msg (λ a _. kf a _ ∙ km w) (λ _ _. km w)

lift_state : {V A : Type 0} (e : Error) (o : Option A) (w : World V) → (lift_option e o w).1 ≡ w
lift_state e none w = refl
lift_state e (some a) w = refl

KeepsJobs-lift :
    {V A : Type 0} (e : Error) (o : Option A) (w : World V) → (lift_option e o w).1.jobs ≡ w.jobs
KeepsJobs-lift e none w = refl
KeepsJobs-lift e (some a) w = refl

module _ {V : Type 0} (env : Env V) where
  insert_change-KeepsJobs : (change : Change V) → KeepsJobs (insert_change env change)
  unfolding insert_change
  insert_change-KeepsJobs change w =
      bind-cases (λ r. r.1.jobs ≡ w.jobs) (statement env) _ _ (λ _ _. refl) (λ _ _. refl)

  pub update_source_status-KeepsJobs :
      (id : Uuid) (status message : String) → KeepsJobs (update_source_status env id status message)
  unfolding update_source_status
  update_source_status-KeepsJobs id status message w =
      bind-cases (λ r. r.1.jobs ≡ w.jobs) (statement env) _ _ (λ _ _. refl) (λ _ _. refl)

  pub update_table_sync_stats-KeepsJobs :
      (id : Uuid) (rows version : ℕ) → KeepsJobs (update_table_sync_stats env id rows version)
  unfolding update_table_sync_stats
  update_table_sync_stats-KeepsJobs id rows version w =
      bind-cases (λ r. r.1.jobs ≡ w.jobs) (statement env) _ _ (λ _ _. refl) (λ _ _. refl)

  pub create_snapshot-KeepsJobs : (snap : _) → KeepsJobs (create_snapshot env snap)
  unfolding create_snapshot
  create_snapshot-KeepsJobs snap w =
      bind-cases (λ r. r.1.jobs ≡ w.jobs) (statement env) _ _ (λ _ _. refl) (λ _ _. refl)

  -- A lookup is one call and changes nothing else.
  pub get_source_state :
      (id : Uuid) (w : World V) → (get_source env id w).1 ≡ record w { calls = suc w.calls }
  unfolding get_source
  get_source_state id w =
      bind-cases (λ r. r.1 ≡ record w { calls = suc w.calls }) (statement env) _ _
        (λ _ _. lift_state _ _ _) (λ _ _. refl)

  -- A lookup is one call and changes nothing else.
  pub get_table_state :
      (id : Uuid) (w : World V) → (get_table env id w).1 ≡ record w { calls = suc w.calls }
  unfolding get_table
  get_table_state id w =
      bind-cases (λ r. r.1 ≡ record w { calls = suc w.calls }) (statement env) _ _
        (λ _ _. lift_state _ _ _) (λ _ _. refl)

  get_deleted_row_data-KeepsJobs :
      (table_id : Uuid) (key : String) → KeepsJobs (get_deleted_row_data env table_id key)
  unfolding get_deleted_row_data
  get_deleted_row_data-KeepsJobs table_id key w =
      bind-cases (λ r. r.1.jobs ≡ w.jobs) (statement env) _ _ (λ _ _. KeepsJobs-lift _ _ _)
        (λ _ _. refl)

  mark_deleted_rows-KeepsJobs :
      (table_id : Uuid) (version : ℕ) → KeepsJobs (mark_deleted_rows env table_id version)
  unfolding mark_deleted_rows
  mark_deleted_rows-KeepsJobs table_id version w =
      bind-cases (λ r. r.1.jobs ≡ w.jobs) (statement env) _ _ (λ _ _. refl) (λ _ _. refl)

  upsert_row-KeepsJobs :
      (table_id : Uuid) (key hash : String) (row : Row V) (version : ℕ)
      → KeepsJobs (upsert_row env table_id key hash row version)
  upsert_row-KeepsJobs table_id key hash row version w =
      elim (upsert_row-Ends env table_id key hash row version w) [
        | inl n ↦ ap (λ v. v.jobs) n.rest
        | inr u ↦ ap (λ v. v.jobs) u.rest
      ]

module _ {V : Type 0} (env : Env V) (table : DiscoveredTable) (job_id : Uuid) (version : ℕ) where
  record_outcome-KeepsJobs :
      (key : String) (row : Row V) (stats : SyncJob) (old : Option (Row V))
      (is_new is_changed : Bool)
      → KeepsJobs (record_outcome env table job_id version key row stats old is_new is_changed)
  unfolding record_outcome
  record_outcome-KeepsJobs key row stats old true c w = insert_change-KeepsJobs env _ w
  record_outcome-KeepsJobs key row stats old false true w = insert_change-KeepsJobs env _ w
  record_outcome-KeepsJobs key row stats old false false w = refl

  sync_row-KeepsJobs :
      (row : Row V) (stats : SyncJob) → KeepsJobs (sync_row env table job_id version row stats)
  unfolding sync_row
  sync_row-KeepsJobs row stats =
      KeepsJobs-context (upsert_row env _ _ _ _ _) _ _ (upsert_row-KeepsJobs env _ _ _ _ _)
        (λ a. record_outcome-KeepsJobs _ row _ a.old_data a.is_new a.is_changed)

  sync_rows-KeepsJobs :
      (rows : List (Row V)) (stats : SyncJob)
      → KeepsJobs (sync_rows env table job_id version rows stats)
  unfolding sync_rows
  sync_rows-KeepsJobs [] stats = λ w. refl
  sync_rows-KeepsJobs (row ∷ rest) stats =
      KeepsJobs-bind (sync_row env table job_id version row stats) _ (sync_row-KeepsJobs row stats)
        (λ a. sync_rows-KeepsJobs rest a)

  record_deletes-KeepsJobs :
      (keys : List String) → KeepsJobs (record_deletes env table job_id version keys)
  unfolding record_deletes record_delete
  record_deletes-KeepsJobs [] w = refl
  record_deletes-KeepsJobs (key ∷ keys) w =
      record_deletes-KeepsJobs keys _
      ∙ insert_change-KeepsJobs env _ _
      ∙ get_deleted_row_data-KeepsJobs env table.id key w

  finish_sync-KeepsJobs :
      (error : Option Error) (stats : SyncJob)
      → KeepsJobs (finish_sync env table job_id version error stats)
  unfolding finish_sync
  finish_sync-KeepsJobs (some e) stats = λ w. refl
  finish_sync-KeepsJobs none stats =
      KeepsJobs-context (mark_deleted_rows env table.id version) _ _
        (mark_deleted_rows-KeepsJobs env _ _)
        (λ keys.
          KeepsJobs-bind (record_deletes env table job_id version keys) _
            (record_deletes-KeepsJobs keys) (λ _ w. refl))

  sync_stream-KeepsJobs :
      (stream : Stream V) → KeepsJobs (sync_stream env table job_id version stream)
  unfolding sync_stream
  sync_stream-KeepsJobs stream =
      KeepsJobs-bind (sync_rows env table job_id version stream.rows (empty_stats version)) _
        (sync_rows-KeepsJobs stream.rows _) (λ a. finish_sync-KeepsJobs stream.error a)

module _ {V : Type 0} (env : Env V) (connect : Driver → Result (Connector V)) where
  pub run_full_sync-KeepsJobs :
      (src : Source) (table : DiscoveredTable) (job_id : Uuid)
      → KeepsJobs (run_full_sync env connect src table job_id)
  unfolding run_full_sync connector_for_source
  run_full_sync-KeepsJobs src table job_id w =
      bind-cases (λ r. r.1.jobs ≡ w.jobs) (connector_for_source env connect src) _ _
        (λ conn _. sync_stream-KeepsJobs env table job_id _ _ _) (λ _ _. refl)
