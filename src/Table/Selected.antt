-- ===== src/Table/Selected.antt =====
-- What a SELECT … WHERE … ORDER BY … DESC LIMIT … OFFSET … returns, said without its WHERE clause.
use mathlib.Core.List.{Mem, mem-cons_self, mem-cons_of_mem, Perm, perm_middle}
use mathlib.Core.List.Perm
use manju_backend.Prelude.{
  ℕ, zero, suc, ℤ, pos, negsuc, ◌%◌, ◌<◌, ltb, ◌&&◌, ◌⊎◌, none, some, length, arith, ◌≡◌, refl,
  Bool, true, false, not, List, [], ◌∷◌, ◌++◌, All, All-imp, if◌then◌else◌, take, drop, Bool-cases,
  inl, inr,
}
use manju_backend.Table.{where_rows, nth, picked, order_desc}
use manju_backend.Table.Laws.{
  IsDescending, order_desc-IsDescending, order_desc-perm, All-order_desc, All-where_rows,
}

-- The rows of a table that meet a condition, the one with the highest key first: the table is made
-- up of these and of rows that do not meet it.
pub record IsSelection {A : Type 0} (Meets : A → Type 0) (key : A → ℕ) (table rows : List A)
    : Type 0 where
  pub others : List A
  pub whole : Perm (rows ++ others) table
  pub meeting : All Meets rows
  pub missing : All (λ row. ¬ Meets row) others
  pub newest_first : IsDescending key rows

-- The rows of a selection from `offset` on, `count` at most.
pub record IsPageOf {A : Type 0} (Meets : A → Type 0) (key : A → ℕ) (table : List A)
    (offset count : ℕ) (rows : List A) : Type 0 where
  pub selected : List A
  pub selection : IsSelection Meets key table selected
  pub cut : rows ≡ take count (drop offset selected)

module _ {A : Type 0} (p : A → Bool) where
  where_rows-perm : (xs : List A) → Perm (where_rows p xs ++ where_rows (λ x. not (p x)) xs) xs
  where_rows-perm [] = Perm.nil
  where_rows-perm (x ∷ xs) = elim (Bool-cases (p x)) [
    | inl e ↦ rw e (Perm.cons x (where_rows-perm xs))
    | inr e ↦ rw e (
        Perm.trans (perm_middle (where_rows p xs) (where_rows (λ x. not (p x)) xs))
          (Perm.cons x (where_rows-perm xs)))
  ]

  -- A WHERE clause that decides the condition selects by it.
  pub order_desc-IsSelection :
      (Meets : A → Type 0) (key : A → ℕ) (table : List A)
      → ((x : A) → p x ≡ true → Meets x)
      → ((x : A) → Meets x → p x ≡ true)
      → IsSelection Meets key table (order_desc key (where_rows p table))
  order_desc-IsSelection Meets key table sound complete = record {
    others = where_rows (λ x. not (p x)) table;
    whole =
        Perm.trans (Perm.append_right _ (order_desc-perm key (where_rows p table)))
          (where_rows-perm table);
    meeting =
        All-order_desc key Meets (where_rows p table)
          (All-imp _ _ (where_rows p table) sound (All-where_rows p table));
    missing =
        All-imp _ _ (where_rows (λ x. not (p x)) table)
          (λ x (e : not (p x) ≡ true) m. let t = complete x m in ground arith)
          (All-where_rows (λ x. not (p x)) table);
    newest_first = order_desc-IsDescending key (where_rows p table);
  }

-- How many rows a page has: as many as were asked for, between 1 and 1000, or else a default.
abbrev pub wanted : ℕ → ℤ → ℕ
wanted default (pos n) = if ltb 0 n && ltb n 1001 then n else default
wanted default (negsuc n) = default

module _ {A : Type 0} where
  nth-some :
      (P : A → Type 0) (n : ℕ) (xs : List A)
      → n < length xs
      → All P xs
      → (x : A) × (nth n xs ≡ some x) × P x
  nth-some P n [] l h = absurd (omega arith)
  nth-some P zero (x ∷ xs) l h = (x, refl, h.0)
  nth-some P (suc n) (x ∷ xs) l h = nth-some P n xs (omega arith) h.1

  where_rows-Mem :
      (p : A → Bool) (xs : List A) → All (λ x. (p x ≡ true) × Mem x xs) (where_rows p xs)
  where_rows-Mem p [] = tt
  where_rows-Mem p (x ∷ xs) =
      let behind : All (λ y. (p y ≡ true) × Mem y (x ∷ xs)) (where_rows p xs) =
        All-imp (λ y. (p y ≡ true) × Mem y xs) (λ y. (p y ≡ true) × Mem y (x ∷ xs))
          (where_rows p xs) (λ y h. (h.0, mem-cons_of_mem x h.1)) (where_rows-Mem p xs) in
      elim (Bool-cases (p x)) [ inl e ↦ rw e ((e, mem-cons_self), behind) | inr e ↦ rw e behind ]

  where_rows-none : (p : A → Bool) (xs : List A) → where_rows p xs ≡ [] → All (λ x. p x ≡ false) xs
  where_rows-none p [] e = tt
  where_rows-none p (x ∷ xs) e = elim (Bool-cases (p x)) [
    | inl t ↦ cc (rw t at e)
    | inr t ↦ (t, where_rows-none p xs (rw t at e))
  ]

  -- A row that is picked is one of the table that matches; none is only where none does.
  pub picked-cases :
      (pick : List A → ℕ) (p : A → Bool) (xs : List A)
      → ((x : A) × (picked pick (where_rows p xs) ≡ some x) × (p x ≡ true) × Mem x xs)
        ⊎ ((picked pick (where_rows p xs) ≡ none) × All (λ x. p x ≡ false) xs)
  picked-cases pick p xs = go (where_rows p xs) refl (where_rows-Mem p xs)
    where
      go :
          (ys : List A)
          → where_rows p xs ≡ ys
          → All (λ x. (p x ≡ true) × Mem x xs) ys
          → ((x : A) × (picked pick ys ≡ some x) × (p x ≡ true) × Mem x xs)
            ⊎ ((picked pick ys ≡ none) × All (λ x. p x ≡ false) xs)
      go [] e h = inr (refl, where_rows-none p xs e)
      go (y ∷ ys) e h =
          let (x, found, holds) =
            nth-some (λ x. (p x ≡ true) × Mem x xs) (pick (y ∷ ys) % suc (length ys)) (y ∷ ys)
              (omega arith) h in
          inl (x, found, holds.0, holds.1)
