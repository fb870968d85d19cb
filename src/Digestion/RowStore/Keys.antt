-- ===== src/Digestion/RowStore/Keys.antt =====
-- The row at a key of ingested_rows, what an upsert makes of it, and the uniqueness of keys.
use mathlib.Core.Option.{map as map_option}
use manju_backend.Prelude.{
  ℕ, ◌≡◌, refl, ◌∙◌, String, Bool, true, false, not, ◌&&◌, List, [], ◌∷◌, ◌++◌, Option, none, some,
  ◌==◌, arith, str_eq, eq_iff, if◌then◌else◌, inl, inr, Bool-cases,
}
use manju_backend.Table.{first_row, update_rows}
use manju_backend.Table.Laws.{first_row-append_miss, first_row-update, first_row-holds}
use manju_backend.Digestion.{Uuid, Row, IngestedRow, Env}
use manju_backend.Digestion.RowStore.{
  UpsertRowResult, row_at, stale, marked, inserted_result, changed_result, unchanged_result,
}

module _ {V : Type 0} where
  -- The row of a table at a key: the pair is unique in ingested_rows.
  unfoldable pub at : Uuid → String → List (IngestedRow V) → Option (IngestedRow V)
  at table_id row_key = first_row (row_at table_id row_key)

  pub at-holds :
      (t : Uuid) (k : String) (rows : List (IngestedRow V)) (row : IngestedRow V)
      → at t k rows ≡ some row
      → row_at t k row ≡ true
  unfolding at
  at-holds t k rows row e = first_row-holds (row_at t k) rows row e

  pub other_key :
      (t t' : Uuid) (k k' : String) (row : IngestedRow V)
      → row_at t k row ≡ true
      → (t == t' && str_eq k k') ≡ false
      → row_at t' k' row ≡ false
  other_key t t' k k' row h e =
      ground (arith, eq_iff row.row_key k, eq_iff row.row_key k', eq_iff k k')

  -- Whether an upsert with this hash leaves the row deleted: it does if the row was deleted and the
  -- hash is the same.
  unfoldable pub still_dead : String → Option (IngestedRow V) → Bool
  still_dead row_hash none = false
  still_dead row_hash (some row) =
      if not (str_eq row.row_hash row_hash) then false else row.is_deleted

  -- The contents that an upsert leaves: the new ones, unless the row has the same hash.
  unfoldable pub contents_after : String → Row V → Option (IngestedRow V) → Row V
  contents_after row_hash contents none = contents
  contents_after row_hash contents (some row) =
      if not (str_eq row.row_hash row_hash) then contents else row.contents

  -- No two rows of a table have the same key.
  unfoldable pub IsUnique : Uuid → List (IngestedRow V) → Type 0
  IsUnique t [] = Unit {0}
  IsUnique t (x ∷ xs) = ((x.table_id == t) ≡ true → at t x.row_key xs ≡ none) × IsUnique t xs

  pub IsUnique-update_rows :
      (t : Uuid) (p : IngestedRow V → Bool) (f : IngestedRow V → IngestedRow V)
      → ((row : IngestedRow V)
          → ((f row).table_id ≡ row.table_id) × ((f row).row_key ≡ row.row_key))
      → (rows : List (IngestedRow V)) → IsUnique t rows
      → IsUnique t (update_rows p f rows)
  unfolding IsUnique at
  IsUnique-update_rows t p f keeps [] u = tt
  IsUnique-update_rows t p f keeps (x ∷ xs) u = (head, IsUnique-update_rows t p f keeps xs u.1)
    where
      moved : (k : String) (row : IngestedRow V) → row_at t k (f row) ≡ row_at t k row
      moved k row = rw ((keeps row).0, (keeps row).1) refl

      same_key : (x.table_id == t) ≡ true → at t x.row_key (update_rows p f xs) ≡ none
      same_key h = first_row-update (row_at t x.row_key) p f (moved x.row_key) xs ∙ rw (u.0 h) refl

      head :
          ((if p x then f x else x).table_id == t) ≡ true
          → at t (if p x then f x else x).row_key (update_rows p f xs) ≡ none
      head = elim (Bool-cases (p x)) [
        | inl e ↦ rw (e, (keeps x).0, (keeps x).1) same_key
        | inr e ↦ rw e same_key
      ]

  pub IsUnique-append :
      (t : Uuid) (row : IngestedRow V) (rows : List (IngestedRow V))
      → at t row.row_key rows ≡ none
      → IsUnique t rows
      → IsUnique t (rows ++ row ∷ [])
  unfolding IsUnique at
  IsUnique-append t row [] h u = (λ _. refl, tt)
  IsUnique-append t row (x ∷ xs) h u =
      let apart : (row_at t row.row_key x ≡ false) × (at t row.row_key xs ≡ none) = ground arith in
      (
        λ e.
            first_row-append_miss (row_at t x.row_key) xs row
              (ground (arith, eq_iff row.row_key x.row_key, eq_iff x.row_key row.row_key))
            ∙ u.0 e,
        IsUnique-append t row xs apart.1 u.1,
      )

  -- What the upsert reports, from the row that was there.
  unfoldable pub outcome : Env V → String → Option (IngestedRow V) → UpsertRowResult V
  outcome env row_hash none = inserted_result
  outcome env row_hash (some row) =
      if not (str_eq row.row_hash row_hash) then changed_result env row else unchanged_result

-- The row at a key once the stale rows of a table are marked.
pub at-update_stale :
    {V : Type 0} (table_id : Uuid) (version : ℕ) (rows : List (IngestedRow V)) (time : ℕ) (t : Uuid)
    (k : String)
    → at t k (update_rows (stale table_id version) (marked time) rows)
      ≡ map_option
          (λ row. if stale table_id version row then marked time row else row)
          (at t k rows)
unfolding at marked
at-update_stale table_id version rows time t k =
    first_row-update (row_at t k) (stale table_id version) (marked time) (λ row. refl) rows
