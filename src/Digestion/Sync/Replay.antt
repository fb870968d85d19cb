-- ===== src/Digestion/Sync/Replay.antt =====
-- The log of changes replays to the live rows: runFullSync of sync.go keeps the two in step.
use manju_backend.Prelude.{
  ℕ, suc, ◌≡◌, refl, ap, sym, subst, ◌∙◌, false, not, String, List, [], ◌∷◌, Option, none, some,
  arith, str_eq, eq_iff, if◌then◌else◌, inl, inr, Bool-cases, map,
}
use mathlib.Core.Option.{map as map_option}
use manju_backend.Exec.{Error, Result, ok, bind-cases, context-cases}
use manju_backend.Table.{where_rows, update_rows}
use manju_backend.Digestion.{Uuid, Row, DiscoveredTable, SyncJob, IngestedRow, Change, Env, World}
use manju_backend.Digestion.RowStore.{stale, marked, upsert_row, mark_deleted_rows, UpsertRowResult}
use manju_backend.Digestion.RowStore.Keys.{
  at, IsUnique, outcome, still_dead, contents_after, at-update_stale, IsUnique-update_rows,
}
use manju_backend.Digestion.RowStore.Laws.{IsUpserted, Upserted, UpsertEnds, upsert_row-Ends}
use manju_backend.Digestion.JobStore.{insert_change}
use manju_backend.Digestion.Changes.{compute_hash, build_row_key}
use manju_backend.Digestion.Connector.{Stream}
use manju_backend.Digestion.Sync.{
  record_outcome, sync_row, sync_rows, record_deletes, finish_sync, sync_stream, empty_stats,
}
use manju_backend.Digestion.Sync.Mirror.{record_deletes-rows}
use manju_backend.Digestion.Sync.Log.{
  live_data, change_at, replayed, IsLogged, has_key, stale_found, has_key-stale,
  insert_change-appends, record_deletes-replayed,
}

module _ {V : Type 0} where
  -- What an upsert leaves live at its key.
  written : String → Row V → Option (IngestedRow V) → Option (Row V)
  written hash contents none = some contents
  written hash contents (some row) =
      if not (str_eq row.row_hash hash) then some contents else live_data (some row)

  written_lem :
      (hash : String) (contents : Row V) (version : ℕ) (before after : Option (IngestedRow V))
      → IsUpserted hash contents version before after
      → live_data after ≡ written hash contents before
  unfolding live_data still_dead contents_after written
  written_lem hash contents version before after i = rw (i.found, i.dead, i.kept) (by_hash before)
    where
      by_hash :
          (o : Option (IngestedRow V))
          → (if still_dead hash o then none else some (contents_after hash contents o))
            ≡ written hash contents o
      by_hash none = refl
      by_hash (some row) = elim (Bool-cases (str_eq row.row_hash hash)) [
        | inl e ↦ rw e refl
        | inr e ↦ rw e refl
      ]

module _ {V : Type 0} (env : Env V) (quiet : (n : ℕ) → env.fault n ≡ none) (table : DiscoveredTable)
    (job_id : Uuid) (version : ℕ) where
  module _ (row : Row V) (key : String) (w : World V) (r : Result (UpsertRowResult V) × World V)
      (u : Upserted env table.id key (compute_hash env row) row version w r)
      (h : IsLogged table.id w) where
    abbrev hash : String
    hash = compute_hash env row

    same_changes :
        (k : String) → replayed table.id k r.1.changes none ≡ replayed table.id k w.changes none
    same_changes k = ap (λ v. replayed table.id k v.changes none) u.rest

    elsewhere_log :
        (k : String)
        → str_eq key k ≡ false
        → live_data (at table.id k r.1.rows) ≡ replayed table.id k r.1.changes none
    elsewhere_log k d =
        ap live_data (u.elsewhere table.id k (ground (arith, eq_iff k key, eq_iff key k)))
        ∙ h.log k
        ∙ sym (same_changes k)

    -- An upsert whose change says what it wrote.
    change-IsLogged :
        (c : Change V)
        → ((k : String) → change_at table.id k c ≡ str_eq key k)
        → c.new_data ≡ written hash row (at table.id key w.rows)
        → IsLogged table.id (insert_change env c r.1).1
    change-IsLogged c here wrote = record {
      log = λ k.
          let added = insert_change-appends env quiet c r.1 table.id k in
          ap (λ rows. live_data (at table.id k rows)) added.0 ∙ by_key k ∙ sym added.1;
      unique =
          subst (IsUnique table.id) (sym (insert_change-appends env quiet c r.1 table.id key).0)
            (u.unique h.unique);
    }
      where
        by_key :
            (k : String)
            → live_data (at table.id k r.1.rows) ≡ (
                if change_at table.id k c then c.new_data else replayed table.id k r.1.changes none)
        by_key k = rw (here k) (elim (Bool-cases (str_eq key k)) [
          | inl e ↦ rw e (
              subst (λ q. live_data (at table.id q r.1.rows) ≡ c.new_data) ((eq_iff key k).0 e)
                (written_lem hash row version _ _ u.here ∙ sym wrote))
          | inr e ↦ rw e (elsewhere_log k e)
        ])

    unchanged-IsLogged :
        live_data (at table.id key w.rows) ≡ written hash row (at table.id key w.rows)
        → IsLogged table.id r.1
    unchanged-IsLogged same = record { log = by_key; unique = u.unique h.unique }
      where
        by_key :
            (k : String) → live_data (at table.id k r.1.rows) ≡ replayed table.id k r.1.changes none
        by_key k = elim (Bool-cases (str_eq key k)) [
          | inl e ↦
              subst (λ q. live_data (at table.id q r.1.rows) ≡ replayed table.id q r.1.changes none)
                ((eq_iff key k).0 e)
                (written_lem hash row version _ _ u.here
                  ∙ sym same
                  ∙ h.log key
                  ∙ sym (same_changes key))
          | inr e ↦ elsewhere_log k e
        ]

    -- The switch on the outcome writes the change that the upsert needs.
    outcome-IsLogged :
        (stats : SyncJob) (before : Option (IngestedRow V))
        → at table.id key w.rows ≡ before
        → let o : UpsertRowResult V = outcome env hash before in
          IsLogged table.id
            (record_outcome env table job_id version key row stats o.old_data o.is_new o.is_changed
              r.1).1
    unfolding record_outcome outcome
    outcome-IsLogged stats none e =
        change-IsLogged _ (λ k. ground arith) (unfold written in rw e refl)
    outcome-IsLogged stats (some existing) e = elim (Bool-cases (str_eq existing.row_hash hash)) [
      | inl same ↦ rw same (unchanged-IsLogged (unfold written in rw (e, same) refl))
      | inr differs ↦
          rw differs
            (change-IsLogged _ (λ k. ground arith) (unfold written in rw (e, differs) refl))
    ]

  kept-IsLogged :
      (w v : World V)
      → v.rows ≡ w.rows
      → v.changes ≡ w.changes
      → IsLogged table.id w
      → IsLogged table.id v
  kept-IsLogged w v rows changes h = record {
    log = λ k.
        ap (λ rs. live_data (at table.id k rs)) rows
        ∙ h.log k
        ∙ sym (ap (λ cs. replayed table.id k cs none) changes);
    unique = subst (IsUnique table.id) (sym rows) h.unique;
  }

  sync_row-IsLogged :
      (row : Row V) (stats : SyncJob) (w : World V)
      → IsLogged table.id w
      → IsLogged table.id (sync_row env table job_id version row stats w).1
  unfolding sync_row
  sync_row-IsLogged row stats w h =
      context-cases (λ r. IsLogged table.id r.1) (upsert_row env table.id key hash_of row version) _
        w _
        (λ a e. elim ends [
          | inl n ↦ cc (e, n.result)
          | inr u ↦
              let same : a ≡ outcome env hash_of (at table.id key w.rows) = cc (e, u.result) in
              rw same (outcome-IsLogged row key w _ u h _ _ refl)
        ])
        (λ e x. elim ends [
          | inl n ↦ kept-IsLogged w _ n.rows (ap (λ v. v.changes) n.rest) h
          | inr u ↦ cc (x, u.result)
        ])
    where
      key : String
      key = build_row_key env row table.primary_key_columns

      hash_of : String
      hash_of = compute_hash env row

      ends :
          UpsertEnds env table.id key hash_of row version w
            (upsert_row env table.id key hash_of row version w)
      ends = upsert_row-Ends env table.id key hash_of row version w

  sync_rows-IsLogged :
      (rows : List (Row V)) (stats : SyncJob) (w : World V)
      → IsLogged table.id w
      → IsLogged table.id (sync_rows env table job_id version rows stats w).1
  unfolding sync_rows
  sync_rows-IsLogged [] stats w h = h
  sync_rows-IsLogged (row ∷ rest) stats w h =
      bind-cases (λ r. IsLogged table.id r.1) (sync_row env table job_id version row stats) _ w
        (λ a _. sync_rows-IsLogged rest a _ (sync_row-IsLogged row stats w h))
        (λ _ _. sync_row-IsLogged row stats w h)

  mark_deleted_rows_lem :
      (w : World V)
      → ((mark_deleted_rows env table.id version w).0
          ≡ ok (map (λ row. row.row_key) (where_rows (stale table.id version) w.rows)))
        × ((mark_deleted_rows env table.id version w).1.rows
            ≡ update_rows (stale table.id version) (marked (env.clock (suc w.calls))) w.rows)
        × ((mark_deleted_rows env table.id version w).1.changes ≡ w.changes)
  unfolding mark_deleted_rows
  mark_deleted_rows_lem w = rw (quiet w.calls) (refl, refl, refl)

  marked_live :
      (time : ℕ) (o : Option (IngestedRow V))
      → live_data
          (map_option (λ row. if stale table.id version row then marked time row else row) o)
        ≡ (if stale_found table.id version o then none else live_data o)
  unfolding live_data marked
  marked_live time none = refl
  marked_live time (some row) = elim (Bool-cases (stale table.id version row)) [
    | inl e ↦ rw e refl
    | inr e ↦ rw e refl
  ]

  marked_place :
      (time : ℕ) (row : IngestedRow V)
      → ((marked time row).table_id ≡ row.table_id) × ((marked time row).row_key ≡ row.row_key)
  unfolding marked
  marked_place time row = (refl, refl)

  deletes-IsLogged :
      (keys : List String) (w : World V)
      → (mark_deleted_rows env table.id version w).0 ≡ ok keys
      → IsLogged table.id w
      → IsLogged table.id
          (record_deletes env table job_id version keys
            (mark_deleted_rows env table.id version w).1).1
  deletes-IsLogged keys w e h = record {
    log = λ k.
        ap (λ rows. live_data (at table.id k rows)) all_rows
        ∙ ap live_data (at-update_stale table.id version w.rows _ table.id k)
        ∙ marked_live _ (at table.id k w.rows)
        ∙ ap (λ b. if b then none else live_data (at table.id k w.rows)) (sym (listed k))
        ∙ ap (λ found. if has_key k keys then none else found)
            (h.log k ∙ sym (ap (λ cs. replayed table.id k cs none) did.2))
        ∙ sym (record_deletes-replayed env quiet table job_id version keys _ k);
    unique =
        subst (IsUnique table.id) (sym all_rows)
          (IsUnique-update_rows table.id _ (marked _) (marked_place _) w.rows h.unique);
  }
    where
      did :
          ((mark_deleted_rows env table.id version w).0
            ≡ ok (map (λ row. row.row_key) (where_rows (stale table.id version) w.rows)))
          × ((mark_deleted_rows env table.id version w).1.rows
              ≡ update_rows (stale table.id version) (marked (env.clock (suc w.calls))) w.rows)
          × ((mark_deleted_rows env table.id version w).1.changes ≡ w.changes)
      did = mark_deleted_rows_lem w

      all_rows :
          (record_deletes env table job_id version keys
            (mark_deleted_rows env table.id version w).1).1.rows
          ≡ update_rows (stale table.id version) (marked (env.clock (suc w.calls))) w.rows
      all_rows = record_deletes-rows env table job_id version keys _ ∙ did.1

      listed : (k : String) → has_key k keys ≡ stale_found table.id version (at table.id k w.rows)
      listed k =
          let same : keys ≡ map (λ row. row.row_key) (where_rows (stale table.id version) w.rows) =
            cc (e, did.0) in
          ap (has_key k) same ∙ has_key-stale table.id version k w.rows h.unique

  finish_sync-IsLogged :
      (error : Option Error) (stats : SyncJob) (w : World V)
      → IsLogged table.id w
      → IsLogged table.id (finish_sync env table job_id version error stats w).1
  unfolding finish_sync
  finish_sync-IsLogged (some e) stats w h = h
  finish_sync-IsLogged none stats w h =
      context-cases (λ r. IsLogged table.id r.1) (mark_deleted_rows env table.id version) _ w _
        (λ keys e.
          bind-cases (λ r. IsLogged table.id r.1) (record_deletes env table job_id version keys) _ _
            (λ _ _. deletes-IsLogged keys w e h) (λ _ _. deletes-IsLogged keys w e h))
        (λ e x. cc (x, (mark_deleted_rows_lem w).0))

  -- If no statement fails, a sync of a table keeps the log of its changes in step with its rows,
  -- whether the stream ends well or not: replayed from the start, the log has at each key the
  -- contents of the row that is live there, and nothing where none is.
  pub sync_stream-IsLogged :
      (stream : Stream V) (w : World V)
      → IsLogged table.id w
      → IsLogged table.id (sync_stream env table job_id version stream w).1
  unfolding sync_stream
  sync_stream-IsLogged stream w h =
      bind-cases (λ r. IsLogged table.id r.1)
        (sync_rows env table job_id version stream.rows (empty_stats version)) _ w
        (λ a _. finish_sync-IsLogged stream.error a _ (sync_rows-IsLogged stream.rows _ w h))
        (λ _ _. sync_rows-IsLogged stream.rows _ w h)
