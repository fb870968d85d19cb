-- ===== src/FileStore/Invariant.antt =====
-- When a table stored_files is sound: no two rows share an id or a place in the storage, categories
-- and statuses are of the declared ones, and exactly the deleted rows have a time of deletion.
use manju_backend.Prelude.{
  ℕ, ◌≡◌, refl, Bool, true, false, ◌&&◌, ◌||◌, List, [], ◌∷◌, ◌++◌, ◌==◌, arith, str_eq, eq_iff,
  All, All-append, String,
}
use manju_backend.Table.{any_row, update_rows}
use manju_backend.Table.Laws.{any_row-append, All-update_rows}
use manju_backend.FileStore.{FileRecord, FileRow}
use manju_backend.FileStore.Rows.{
  conflicts, inserted_row, valid_category, valid_status, with_status, soft_deleted,
}

pub clashes : FileRow → FileRow → Bool
clashes x y = y.id == x.id || (str_eq y.bucket x.bucket && str_eq y.object_key x.object_key)

abbrev pub Distinct : List FileRow → Type 0
Distinct [] = Unit
Distinct (x ∷ xs) = (any_row (clashes x) xs ≡ false) × Distinct xs

pub record RowIsSound (row : FileRow) : Type 0 where
  pub category : valid_category row.category ≡ true
  pub status : valid_status row.status ≡ true
  pub dated : row.deleted_at.valid ≡ row.is_deleted

pub record IsSound (files : List FileRow) : Type 0 where
  pub distinct : Distinct files
  pub rows : All RowIsSound files

clashes_sym : (x y : FileRow) → clashes x y ≡ clashes y x
unfolding clashes
clashes_sym x y = ground (
  arith,
  eq_iff y.bucket x.bucket,
  eq_iff x.bucket y.bucket,
  eq_iff y.object_key x.object_key,
  eq_iff x.object_key y.object_key,
)

any-clashes-append :
    (x y : FileRow) (xs : List FileRow)
    → any_row (clashes x) xs ≡ false
    → clashes y x ≡ false
    → any_row (clashes x) (xs ++ y ∷ []) ≡ false
any-clashes-append x y xs h k =
    ground (arith, any_row-append (clashes x) xs (y ∷ []), clashes_sym x y)

Distinct-append :
    (y : FileRow) (xs : List FileRow)
    → Distinct xs
    → any_row (clashes y) xs ≡ false
    → Distinct (xs ++ y ∷ [])
Distinct-append y [] d h = (refl, tt)
Distinct-append y (x ∷ xs) d h =
    let split : (clashes y x ≡ false) × (any_row (clashes y) xs ≡ false) = ground arith in
    (any-clashes-append x y xs d.0 split.0, Distinct-append y xs d.1 split.1)

module _ (p : FileRow → Bool) (f : FileRow → FileRow)
    (keeps : (x y : FileRow)
      → (clashes (f x) y ≡ clashes x y) × (clashes x (f y) ≡ clashes x y)) where
  any-clashes-update :
      (x : FileRow) (xs : List FileRow)
      → any_row (clashes x) (update_rows p f xs) ≡ any_row (clashes x) xs
  any-clashes-update x [] = refl
  any-clashes-update x (y ∷ xs) = ground (arith, keeps x y, any-clashes-update x xs)

  any-clashes-moved :
      (x : FileRow) (xs : List FileRow) → any_row (clashes (f x)) xs ≡ any_row (clashes x) xs
  any-clashes-moved x [] = refl
  any-clashes-moved x (y ∷ xs) = ground (arith, keeps x y, any-clashes-moved x xs)

  Distinct-update : (xs : List FileRow) → Distinct xs → Distinct (update_rows p f xs)
  Distinct-update [] d = tt
  Distinct-update (x ∷ xs) d = (
    ground (arith, any-clashes-moved x (update_rows p f xs), any-clashes-update x xs),
    Distinct-update xs d.1,
  )

pub IsSound-nil : IsSound []
IsSound-nil = record { distinct = tt; rows = tt }

-- A row that passed the checks of an insert may be appended.
pub IsSound-inserted :
    (t : ℕ) (rec : FileRecord) (files : List FileRow)
    → any_row (conflicts rec) files ≡ false
    → valid_category rec.category ≡ true
    → valid_status rec.status ≡ true
    → IsSound files
    → IsSound (files ++ inserted_row t rec ∷ [])
unfolding inserted_row conflicts clashes
IsSound-inserted t rec files fresh c v s = record {
  distinct = Distinct-append (inserted_row t rec) files s.distinct fresh;
  rows =
      All-append RowIsSound files (inserted_row t rec ∷ []) s.rows
        (record { category = c; status = v; dated = refl }, tt);
}

pub IsSound-with_status :
    (p : FileRow → Bool) (status : String) (t : ℕ) (files : List FileRow)
    → valid_status status ≡ true
    → IsSound files
    → IsSound (update_rows p (with_status status t) files)
unfolding clashes
IsSound-with_status p status t files v s = record {
  distinct = Distinct-update p (with_status status t) (λ x y. (refl, refl)) files s.distinct;
  rows =
      All-update_rows RowIsSound p (with_status status t)
        (λ x r. record { category = r.category; status = v; dated = r.dated }) files s.rows;
}

pub IsSound-soft_deleted :
    (p : FileRow → Bool) (at t : ℕ) (files : List FileRow)
    → IsSound files
    → IsSound (update_rows p (soft_deleted at t) files)
unfolding clashes valid_status
IsSound-soft_deleted p at t files s = record {
  distinct = Distinct-update p (soft_deleted at t) (λ x y. (refl, refl)) files s.distinct;
  rows =
      All-update_rows RowIsSound p (soft_deleted at t)
        (λ x r. record { category = r.category; status = refl; dated = refl }) files s.rows;
}
