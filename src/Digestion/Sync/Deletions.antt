-- ===== src/Digestion/Sync/Deletions.antt =====
-- The end of runFullSync of sync.go: the rows that a sync did not see are marked deleted. What the
-- whole sync leaves, and which source rows are live in it.
use mathlib.Core.Option.{map as map_option}
use manju_backend.Prelude.{
  ℕ, ◌≡◌, refl, ap, subst, ◌∙◌, String, Bool, true, false, ◌||◌, Option, none, some, ◌==◌, arith,
  ltb, if◌then◌else◌,
}
use manju_backend.Exec.{Error, ok, bind-cases, context-cases}
use manju_backend.Digestion.{Uuid, DiscoveredTable, SyncJob, IngestedRow, Env, World}
use manju_backend.Digestion.RowStore.{mark_deleted_rows, stale, marked, statement}
use manju_backend.Digestion.RowStore.Keys.{at, at-update_stale, at-holds}
use manju_backend.Digestion.Connector.{Stream}
use manju_backend.Digestion.Sync.{sync_rows, sync_stream, record_deletes, finish_sync, empty_stats}
use manju_backend.Digestion.Sync.Mirror.{
  mark, mark_at, streamed, expired, WhenOk, WhenOk-map, WhenOk-ok, Leaves, Leaves-then, Leaves-rows,
  record_deletes-rows, sync_rows-marks,
}

module _ {V : Type 0} (env : Env V) (table : DiscoveredTable) (job_id : Uuid) (version : ℕ) where
  marked-mark :
      (t : Uuid) (time : ℕ) (row : IngestedRow V)
      → (row.table_id == t) ≡ true
      → mark (if stale t version row then marked time row else row)
        ≡ record (mark row) { dead = row.is_deleted || ltb row.last_seen_version version }
  unfolding marked
  marked-mark t time row h = go row.is_deleted (ltb row.last_seen_version version) refl refl
    where
      go :
          (b c : Bool)
          → row.is_deleted ≡ b
          → ltb row.last_seen_version version ≡ c
          → mark (if stale t version row then marked time row else row)
            ≡ record (mark row) { dead = row.is_deleted || ltb row.last_seen_version version }
      go true c e f = rw (h, e) refl
      go false true e f = rw (h, e, f) refl
      go false false e f = rw (h, e, f) refl

  marked-at :
      (t : Uuid) (time : ℕ) (k : String) (w : World V)
      → map_option mark
          (map_option (λ row. if stale t version row then marked time row else row) (at t k w.rows))
        ≡ expired version (map_option mark (at t k w.rows))
  marked-at t time k w = go (at t k w.rows) refl
    where
      go :
          (o : Option (IngestedRow V))
          → at t k w.rows ≡ o
          → map_option mark
              (map_option (λ row. if stale t version row then marked time row else row) o)
            ≡ expired version (map_option mark o)
      go none e = refl
      go (some row) e = ap some (marked-mark t time row (ground (arith, at-holds t k w.rows row e)))

  other_table :
      (t t' : Uuid) (time : ℕ) (k : String) (w : World V)
      → (t' == t) ≡ false
      → map_option (λ row. if stale t version row then marked time row else row) (at t' k w.rows)
        ≡ at t' k w.rows
  other_table t t' time k w d = go (at t' k w.rows) refl
    where
      go :
          (o : Option (IngestedRow V))
          → at t' k w.rows ≡ o
          → map_option (λ row. if stale t version row then marked time row else row) o ≡ o
      go none e = refl
      go (some row) e = rw different refl
        where
          different : (row.table_id == t) ≡ false
          different = ground (arith, at-holds t' k w.rows row e)

  mark_deleted_rows-marks :
      (w : World V)
      → WhenOk
          (λ _.
            Leaves env table job_id version
              (λ k. expired version)
              w
              (mark_deleted_rows env table.id version w).1)
          (mark_deleted_rows env table.id version w).0
  unfolding mark_deleted_rows mark_at
  mark_deleted_rows-marks w =
      bind-cases
        (λ r. WhenOk (λ _. Leaves env table job_id version (λ k. expired version) w r.1) r.0)
        (statement env) _ w
        (λ _ _. record {
          here = λ k.
              ap (map_option mark) (at-update_stale table.id version w.rows _ table.id k)
              ∙ marked-at table.id _ k w;
          others = λ t k d.
              at-update_stale table.id version w.rows _ t k ∙ other_table table.id t _ k w d;
        })
        (λ _ _. tt)

  finish_sync-marks :
      (error : Option Error) (stats : SyncJob) (w : World V)
      → WhenOk
          (λ _.
            Leaves env table job_id version
              (λ k. expired version)
              w
              (finish_sync env table job_id version error stats w).1)
          (finish_sync env table job_id version error stats w).0
  unfolding finish_sync
  finish_sync-marks (some e) stats w = tt
  finish_sync-marks none stats w =
      context-cases
        (λ r. WhenOk (λ _. Leaves env table job_id version (λ k. expired version) w r.1) r.0)
        (mark_deleted_rows env table.id version) _ w _
        (λ keys e.
          bind-cases
            (λ r. WhenOk (λ _. Leaves env table job_id version (λ k. expired version) w r.1) r.0)
            (record_deletes env table job_id version keys) _ _
            (λ _ _.
              Leaves-rows env table job_id version _ w _ _
                (record_deletes-rows env table job_id version keys _)
                (WhenOk-ok e (mark_deleted_rows-marks w)))
            (λ _ _. tt))
        (λ _ _. tt)

  sync_stream-WhenOk :
      (stream : Stream V) (w : World V)
      → WhenOk
          (λ _.
            Leaves env table job_id version
              (λ k before.
                expired version
                  (streamed env table.primary_key_columns version k stream.rows before))
              w
              (sync_stream env table job_id version stream w).1)
          (sync_stream env table job_id version stream w).0
  unfolding sync_stream
  sync_stream-WhenOk stream w =
      bind-cases
        (λ r.
          WhenOk
            (λ _.
              Leaves env table job_id version
                (λ k before.
                  expired version
                    (streamed env table.primary_key_columns version k stream.rows before))
                w r.1)
            r.0)
        (sync_rows env table job_id version stream.rows (empty_stats version)) _ w
        (λ a e.
          WhenOk-map
            (λ _.
              Leaves-then env table job_id version _ _ w _ _
                (WhenOk-ok e (sync_rows-marks env table job_id version stream.rows _ w)))
            _ (finish_sync-marks stream.error a _))
        (λ _ _. tt)

  -- When a sync of a table succeeds, the hash, the watermark and the tombstone at each key of the
  -- table are those of the specification: the rows of the stream are taken in turn, a row's upsert
  -- sets the hash and the watermark, and what is older than the sync is marked deleted. The rows of
  -- other tables are as they were.
  pub sync_stream-marks :
      (stream : Stream V) (stats : SyncJob) (w v : World V)
      → sync_stream env table job_id version stream w ≡ (ok stats, v)
      → Leaves env table job_id version
          (λ k before.
            expired version (streamed env table.primary_key_columns version k stream.rows before))
          w
          v
  sync_stream-marks stream stats w v e =
      subst
        (λ u.
          Leaves env table job_id version
            (λ k before.
              expired version (streamed env table.primary_key_columns version k stream.rows before))
            w u)
        (ap (λ r. r.1) e) (WhenOk-ok (ap (λ r. r.0) e) (sync_stream-WhenOk stream w))
