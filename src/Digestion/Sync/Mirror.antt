-- ===== src/Digestion/Sync/Mirror.antt =====
-- What a sync that succeeds leaves in ingested_rows, key by key: runFullSync of sync.go.
use mathlib.Core.Option.{map as map_option}
use manju_backend.Prelude.{
  ℕ, ◌≡◌, refl, ap, subst, ◌∙◌, String, Bool, true, false, not, ◌||◌, List, [], ◌∷◌, Option, none,
  some, ◌==◌, arith, ltb, str_eq, eq_iff, if◌then◌else◌, inl, inr,
}
use manju_backend.Exec.{Error, Result, ok, err, lift_option, bind-cases, context-cases}
use manju_backend.Digestion.{Uuid, Row, DiscoveredTable, SyncJob, IngestedRow, Env, World}
use manju_backend.Digestion.RowStore.{UpsertRowResult, upsert_row, statement, get_deleted_row_data}
use manju_backend.Digestion.RowStore.Keys.{at, still_dead}
use manju_backend.Digestion.RowStore.Laws.{IsUpserted, Upserted, UpsertEnds, upsert_row-Ends}
use manju_backend.Digestion.JobStore.{insert_change}
use manju_backend.Digestion.Changes.{compute_hash, build_row_key}
use manju_backend.Digestion.Sync.{
  sync_row, sync_rows, record_outcome, record_deletes, record_delete,
}

-- What a sync reads and writes of a row: its hash, its watermark and its tombstone.
pub record Mark : Type 0 where
  pub hash : String
  pub seen : ℕ
  pub dead : Bool

module _ {V : Type 0} where
  abbrev pub mark : IngestedRow V → Mark
  mark row = record { hash = row.row_hash; seen = row.last_seen_version; dead = row.is_deleted }

  -- The mark at a key of a table.
  unfoldable pub mark_at : Uuid → String → World V → Option Mark
  mark_at t k w = map_option mark (at t k w.rows)

-- The tombstone that an upsert with this hash leaves.
abbrev pub dead_after : String → Option Mark → Bool
dead_after hash none = false
dead_after hash (some m) = if not (str_eq m.hash hash) then false else m.dead

abbrev pub upserted : ℕ → String → Option Mark → Option Mark
upserted version hash before =
    some (record { hash = hash; seen = version; dead = dead_after hash before })

-- The mark at a key after the rows of a stream.
unfoldable pub streamed :
    {V : Type 0} → Env V → List String → ℕ → String → List (Row V) → Option Mark → Option Mark
streamed env columns version k [] before = before
streamed env columns version k (row ∷ rest) before = streamed env columns version k rest (
    if str_eq k (build_row_key env row columns)
    then upserted version (compute_hash env row) before
    else before)

-- The mark once the rows that the sync did not see are marked deleted.
abbrev pub expired : ℕ → Option Mark → Option Mark
expired version none = none
expired version (some m) = some (record m { dead = m.dead || ltb m.seen version })

-- A property of what an action that succeeds returns.
abbrev pub WhenOk : {A : Type 0} → (A → Type 0) → Result A → Type 0
WhenOk Q (ok a) = Q a
WhenOk Q (err e) = Unit {0}

pub WhenOk-map :
    {A : Type 0} {Q Q' : A → Type 0}
    → ((a : A) → Q a → Q' a)
    → (r : Result A) → WhenOk Q r
    → WhenOk Q' r
WhenOk-map f (ok a) q = f a q
WhenOk-map f (err e) q = tt

pub WhenOk-always : {A : Type 0} {Q : A → Type 0} → ((a : A) → Q a) → (r : Result A) → WhenOk Q r
WhenOk-always f (ok a) = f a
WhenOk-always f (err e) = tt

pub WhenOk-ok : {A Q : Type 0} {r : Result A} {a : A} → r ≡ ok a → WhenOk (λ _. Q) r → Q
WhenOk-ok {Q = Q} e q = subst (WhenOk (λ _. Q)) e q

module _ {V : Type 0} (env : Env V) where
  insert_change-rows : (change : _) (w : World V) → (insert_change env change w).1.rows ≡ w.rows
  unfolding insert_change
  insert_change-rows change w =
      bind-cases (λ r. r.1.rows ≡ w.rows) (statement env) _ _ (λ _ _. refl) (λ _ _. refl)

module _ {V : Type 0} (env : Env V) (table : DiscoveredTable) (job_id : Uuid) (version : ℕ) where
  abbrev pub key_of : Row V → String
  key_of row = build_row_key env row table.primary_key_columns

  record_outcome-rows :
      (row_key : String) (row : Row V) (stats : SyncJob) (old : Option (Row V))
      (is_new is_changed : Bool) (w : World V)
      → (record_outcome env table job_id version row_key row stats old is_new is_changed w).1.rows
        ≡ w.rows
  unfolding record_outcome
  record_outcome-rows row_key row stats old true c w = insert_change-rows env _ w
  record_outcome-rows row_key row stats old false true w = insert_change-rows env _ w
  record_outcome-rows row_key row stats old false false w = refl

  lift_option-state :
      {A : Type 0} (e : Error) (o : Option A) (w : World V) → (lift_option e o w).1 ≡ w
  lift_option-state e none w = refl
  lift_option-state e (some a) w = refl

  get_deleted_row_data-rows :
      (key : String) (w : World V) → (get_deleted_row_data env table.id key w).1.rows ≡ w.rows
  unfolding get_deleted_row_data
  get_deleted_row_data-rows key w =
      bind-cases (λ r. r.1.rows ≡ w.rows) (statement env) _ _
        (λ _ _. ap (λ v. v.rows) (lift_option-state _ _ _)) (λ _ _. refl)

  pub record_deletes-rows :
      (keys : List String) (w : World V)
      → (record_deletes env table job_id version keys w).1.rows ≡ w.rows
  unfolding record_deletes record_delete
  record_deletes-rows [] w = refl
  record_deletes-rows (key ∷ keys) w =
      record_deletes-rows keys _ ∙ insert_change-rows env _ _ ∙ get_deleted_row_data-rows key w

  still_dead-mark :
      (hash : String) (o : Option (IngestedRow V))
      → still_dead hash o ≡ dead_after hash (map_option mark o)
  unfolding still_dead
  still_dead-mark hash none = refl
  still_dead-mark hash (some row) = refl

  -- What one step leaves: the marks of the table as a function of those before, and the rows of
  -- other tables as they were.
  pub record Leaves (after : String → Option Mark → Option Mark) (w v : World V) : Type 0 where
    pub here : (k : String) → mark_at table.id k v ≡ after k (mark_at table.id k w)
    pub others : (t : Uuid) (k : String) → (t == table.id) ≡ false → at t k v.rows ≡ at t k w.rows

  abbrev after_row : Row V → String → Option Mark → Option Mark
  after_row row k before =
      if str_eq k (key_of row) then upserted version (compute_hash env row) before else before

  pub Leaves-rows :
      (after : String → Option Mark → Option Mark) (w v v' : World V)
      → v'.rows ≡ v.rows
      → Leaves after w v
      → Leaves after w v'
  unfolding mark_at
  Leaves-rows after w v v' e l = record {
    here = λ k. ap (λ rows. map_option mark (at table.id k rows)) e ∙ l.here k;
    others = λ t k d. ap (at t k) e ∙ l.others t k d;
  }

  pub Leaves-then :
      (first then_ : String → Option Mark → Option Mark) (w v u : World V)
      → Leaves first w v
      → Leaves then_ v u
      → Leaves (λ k before. then_ k (first k before)) w u
  Leaves-then first then_ w v u l l' = record {
    here = λ k. l'.here k ∙ ap (then_ k) (l.here k);
    others = λ t k d. l'.others t k d ∙ l.others t k d;
  }

  Upserted-marks :
      (row : Row V) (w : World V) (r : Result (UpsertRowResult V) × World V)
      → Upserted env table.id (key_of row) (compute_hash env row) row version w r
      → Leaves (after_row row) w r.1
  unfolding mark_at
  Upserted-marks row w r u = record { here = here; others = others }
    where
      seen_here :
          (before : Option (IngestedRow V)) (after : Option (IngestedRow V))
          → IsUpserted (compute_hash env row) row version before after
          → map_option mark after ≡ upserted version (compute_hash env row) (map_option mark before)
      seen_here before after i =
          rw (i.found, i.hash, i.seen, i.dead, still_dead-mark (compute_hash env row) before) refl

      here : (k : String) → mark_at table.id k r.1 ≡ after_row row k (mark_at table.id k w)
      here k = key_cases _ refl
        where
          key_cases :
              (b : Bool)
              → str_eq k (key_of row) ≡ b
              → mark_at table.id k r.1 ≡ after_row row k (mark_at table.id k w)
          key_cases true e = rw (e, (eq_iff k (key_of row)).0 e) (seen_here _ _ u.here)
          key_cases false e = rw e (ap (map_option mark) (u.elsewhere table.id k (ground arith)))

      others : (t : Uuid) (k : String) → (t == table.id) ≡ false → at t k r.1.rows ≡ at t k w.rows
      others t k h = u.elsewhere t k (ground arith)

  upserted_of :
      (row : Row V) (w : World V) (r : Result (UpsertRowResult V) × World V)
      → UpsertEnds env table.id (key_of row) (compute_hash env row) row version w r
      → WhenOk (λ _. Leaves (after_row row) w r.1) r.0
  upserted_of row w r (inl n) = rw n.result tt
  upserted_of row w r (inr u) = rw u.result (Upserted-marks row w r u)

  sync_row-marks :
      (row : Row V) (stats : SyncJob) (w : World V)
      → WhenOk
          (λ _. Leaves (after_row row) w (sync_row env table job_id version row stats w).1)
          (sync_row env table job_id version row stats w).0
  unfolding sync_row
  sync_row-marks row stats w =
      context-cases (λ r. WhenOk (λ _. Leaves (after_row row) w r.1) r.0)
        (upsert_row env table.id (key_of row) (compute_hash env row) row version) _ w _
        (λ a e.
          WhenOk-always
            (λ _.
              Leaves-rows _ w _ _
                (record_outcome-rows (key_of row) row _ a.old_data a.is_new a.is_changed _)
                (WhenOk-ok e
                  (upserted_of row w _ (upsert_row-Ends env table.id _ _ row version w))))
            _)
        (λ _ _. tt)

  pub sync_rows-marks :
      (rows : List (Row V)) (stats : SyncJob) (w : World V)
      → WhenOk
          (λ _.
            Leaves
              (λ k. streamed env table.primary_key_columns version k rows)
              w
              (sync_rows env table job_id version rows stats w).1)
          (sync_rows env table job_id version rows stats w).0
  unfolding sync_rows streamed
  sync_rows-marks [] stats w = record { here = λ _. refl; others = λ _ _ _. refl }
  sync_rows-marks (row ∷ rest) stats w =
      bind-cases
        (λ r.
          WhenOk
            (λ _. Leaves (λ k. streamed env table.primary_key_columns version k (row ∷ rest)) w r.1)
            r.0)
        (sync_row env table job_id version row stats) _ w
        (λ a e.
          WhenOk-map (λ _. Leaves-then _ _ w _ _ (WhenOk-ok e (sync_row-marks row stats w))) _
            (sync_rows-marks rest a _))
        (λ _ _. tt)
