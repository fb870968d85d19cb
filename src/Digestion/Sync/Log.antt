-- ===== src/Digestion/Sync/Log.antt =====
-- The table changes as a log: what it says of each key, and how the steps of runFullSync of sync.go
-- write it.
use manju_backend.Prelude.{
  ℕ, suc, ◌≡◌, refl, ap, subst, ◌∙◌, Bool, true, false, String, List, [], ◌∷◌, ◌++◌, Option, none,
  some, ◌==◌, ◌&&◌, arith, str_eq, eq_iff, if◌then◌else◌, inl, inr, Bool-cases, map,
}
use manju_backend.Exec.{Error, bind-cases, lift_option}
use manju_backend.Table.{where_rows, any_row}
use manju_backend.Digestion.{Uuid, Row, DiscoveredTable, IngestedRow, Change, Env, World}
use manju_backend.Digestion.RowStore.{row_at, stale, statement, get_deleted_row_data}
use manju_backend.Digestion.RowStore.Keys.{at, IsUnique}
use manju_backend.Digestion.JobStore.{insert_change}
use manju_backend.Digestion.Sync.{change_of, data_or_nil, record_deletes, record_delete}

abbrev pub has_key : String → List String → Bool
has_key k = any_row (λ key. str_eq key k)

module _ {V : Type 0} where
  -- The contents of a row that is there and not deleted.
  unfoldable pub live_data : Option (IngestedRow V) → Option (Row V)
  live_data none = none
  live_data (some row) = if row.is_deleted then none else some row.contents

  abbrev pub change_at : Uuid → String → Change V → Bool
  change_at t k c = c.table_id == t && str_eq c.row_key k

  -- What the last change at a key of a table left there.
  unfoldable pub replayed : Uuid → String → List (Change V) → Option (Row V) → Option (Row V)
  replayed t k [] found = found
  replayed t k (c ∷ cs) found = replayed t k cs (if change_at t k c then c.new_data else found)

  pub replayed-append :
      (t : Uuid) (k : String) (cs : List (Change V)) (c : Change V) (found : Option (Row V))
      → replayed t k (cs ++ c ∷ []) found
        ≡ (if change_at t k c then c.new_data else replayed t k cs found)
  unfolding replayed
  replayed-append t k [] c found = refl
  replayed-append t k (d ∷ cs) c found = replayed-append t k cs c _

  -- The log of a table agrees with its rows, which have one row for a key.
  pub record IsLogged (t : Uuid) (w : World V) : Type 0 where
    pub log : (k : String) → live_data (at t k w.rows) ≡ replayed t k w.changes none
    pub unique : IsUnique t w.rows

  abbrev pub stale_found : Uuid → ℕ → Option (IngestedRow V) → Bool
  stale_found t version none = false
  stale_found t version (some row) = stale t version row

  -- A key is among those of the stale rows exactly if the row at the key is stale.
  pub has_key-stale :
      (t : Uuid) (version : ℕ) (k : String) (rows : List (IngestedRow V))
      → IsUnique t rows
      → has_key k (map (λ row. row.row_key) (where_rows (stale t version) rows))
        ≡ stale_found t version (at t k rows)
  unfolding at IsUnique
  has_key-stale t version k [] u = refl
  has_key-stale t version k (x ∷ xs) u = elim (Bool-cases (row_at t k x)) [
    | inl e ↦ elim (Bool-cases (stale t version x)) [
      | inl h ↦ let same : str_eq x.row_key k ≡ true = ground arith in rw (e, h, same) refl
      | inr h ↦
          let owned : (x.table_id == t ≡ true) × (str_eq x.row_key k ≡ true) = ground arith in
          let absent : at t k xs ≡ none =
            subst (λ q. at t q xs ≡ none) ((eq_iff x.row_key k).0 owned.1) (u.0 owned.0) in
          rw (e, h) (has_key-stale t version k xs u.1 ∙ ap (stale_found t version) absent)
    ]
    | inr e ↦ elim (Bool-cases (stale t version x)) [
      | inl h ↦
          let differ : str_eq x.row_key k ≡ false = ground arith in
          rw (e, h, differ) (has_key-stale t version k xs u.1)
      | inr h ↦ rw (e, h) (has_key-stale t version k xs u.1)
    ]
  ]

module _ {V : Type 0} (env : Env V) (quiet : (n : ℕ) → env.fault n ≡ none) where
  -- Without a fault a change is appended, and nothing else is written.
  pub insert_change-appends :
      (c : Change V) (w : World V) (t : Uuid) (k : String)
      → ((insert_change env c w).1.rows ≡ w.rows)
        × (replayed t k (insert_change env c w).1.changes none
            ≡ (if change_at t k c then c.new_data else replayed t k w.changes none))
  unfolding insert_change
  insert_change-appends c w t k =
      rw (quiet (suc w.calls)) (refl, replayed-append t k w.changes _ none)

module _ {V : Type 0} (env : Env V) (quiet : (n : ℕ) → env.fault n ≡ none) (table : DiscoveredTable)
    (job_id : Uuid) (version : ℕ) where
  get_deleted_row_data-changes :
      (key : String) (w : World V) → (get_deleted_row_data env table.id key w).1.changes ≡ w.changes
  unfolding get_deleted_row_data
  get_deleted_row_data-changes key w =
      bind-cases (λ r. r.1.changes ≡ w.changes) (statement env) _ _ (λ _ _. lifted _ _ _)
        (λ _ _. refl)
    where
      lifted :
          (e : Error) (o : Option (Row V)) (v : World V) → (lift_option e o v).1.changes ≡ v.changes
      lifted e none v = refl
      lifted e (some a) v = refl

  two_tests :
      (a b c : Bool) (x : Option (Row V))
      → c ≡ true
      → (if a then none else if c && b then none else x)
        ≡ (if (if b then true else a) then none else x)
  two_tests true true c x h = refl
  two_tests true false c x h = refl
  two_tests false true c x h = rw h refl
  two_tests false false c x h = rw h refl

  -- The changes for the deleted keys say that these keys are gone.
  pub record_deletes-replayed :
      (keys : List String) (w : World V) (k : String)
      → replayed table.id k (record_deletes env table job_id version keys w).1.changes none
        ≡ (if has_key k keys then none else replayed table.id k w.changes none)
  unfolding record_deletes record_delete
  record_deletes-replayed [] w k = refl
  record_deletes-replayed (key ∷ keys) w k =
      let found = get_deleted_row_data env table.id key w in
      record_deletes-replayed keys _ k
      ∙ ap (λ found. if has_key k keys then none else found)
          ((insert_change-appends env quiet _ found.1 table.id k).1
            ∙ ap
                (λ changes.
                  if change_at table.id k
                    (change_of table.id job_id "DELETE" key (data_or_nil found.0) none [] version)
                  then none
                  else replayed table.id k changes none)
                (get_deleted_row_data-changes key w))
      ∙ two_tests (has_key k keys) (str_eq key k) (table.id == table.id) _ (ground arith)
