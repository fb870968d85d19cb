-- ===== src/Table/Laws.antt =====
-- Laws of the statements of Table.antt.
use mathlib.Core.List.{Perm}
use mathlib.Core.List.Perm
use mathlib.Core.Option.{map as map_option}
use manju_backend.Prelude.{
  map, ℕ, suc, ◌≤◌, ◌≡◌, refl, ap, Bool, true, false, ◌||◌, List, [], ◌∷◌, ◌++◌, none, some, arith,
  ltb, if◌then◌else◌, length, All, All-imp, All-take, Bool-cases, inl, inr, take, drop, zero,
}
use manju_backend.Table.{
  where_rows, first_row, update_rows, delete_rows, any_row, insert_desc, order_desc,
}

module _ {ℓ} {A : Type ℓ} where
  pub length-update_rows :
      (p : A → Bool) (f : A → A) (xs : List A) → length (update_rows p f xs) ≡ length xs
  length-update_rows p f [] = refl
  length-update_rows p f (x ∷ xs) = ap suc (length-update_rows p f xs)

  pub any_row-append :
      (p : A → Bool) (xs ys : List A) → any_row p (xs ++ ys) ≡ (any_row p xs || any_row p ys)
  any_row-append p [] ys = refl
  any_row-append p (x ∷ xs) ys = ground (arith, any_row-append p xs ys)

  pub where_rows-append :
      (p : A → Bool) (xs ys : List A) → where_rows p (xs ++ ys) ≡ where_rows p xs ++ where_rows p ys
  where_rows-append p [] ys = refl
  where_rows-append p (x ∷ xs) ys = ground (arith, where_rows-append p xs ys)

  -- An update that touches no row of `q`, before or after, leaves the selection as it was.
  pub where_rows-update_rows :
      (q p : A → Bool) (f : A → A)
      → ((x : A) → p x ≡ true → (q x ≡ false) × (q (f x) ≡ false))
      → (xs : List A) → where_rows q (update_rows p f xs) ≡ where_rows q xs
  where_rows-update_rows q p f h [] = refl
  where_rows-update_rows q p f h (x ∷ xs) = ground (arith, h x, where_rows-update_rows q p f h xs)

  -- A row appended behind the first match changes nothing, and is found if nothing matched before.
  pub first_row-append :
      (p : A → Bool) (xs : List A) (y : A)
      → any_row p xs ≡ false
      → p y ≡ true
      → first_row p (xs ++ y ∷ []) ≡ some y
  first_row-append p [] y h k = ground arith
  first_row-append p (x ∷ xs) y h k = ground (arith, first_row-append p xs y)

  pub any_row-false_imp :
      (p q : A → Bool)
      → ((x : A) → q x ≡ true → p x ≡ true)
      → (xs : List A) → any_row p xs ≡ false
      → any_row q xs ≡ false
  any_row-false_imp p q h [] e = refl
  any_row-false_imp p q h (x ∷ xs) e = ground (arith, h x, any_row-false_imp p q h xs)

  -- A selection within a wider one finds what it finds in the whole table.
  pub first_row-where_rows :
      (p q : A → Bool)
      → ((x : A) → p x ≡ true → q x ≡ true)
      → (xs : List A) → first_row p (where_rows q xs) ≡ first_row p xs
  first_row-where_rows p q h [] = refl
  first_row-where_rows p q h (x ∷ xs) = ground (arith, h x, first_row-where_rows p q h xs)

  pub where_rows-where_rows :
      (p q : A → Bool)
      → ((x : A) → p x ≡ true → q x ≡ true)
      → (xs : List A) → where_rows p (where_rows q xs) ≡ where_rows p xs
  where_rows-where_rows p q h [] = refl
  where_rows-where_rows p q h (x ∷ xs) = ground (arith, h x, where_rows-where_rows p q h xs)

  pub first_row-append_miss :
      (p : A → Bool) (xs : List A) (y : A)
      → p y ≡ false
      → first_row p (xs ++ y ∷ []) ≡ first_row p xs
  first_row-append_miss p [] y h = ground arith
  first_row-append_miss p (x ∷ xs) y h = ground (arith, first_row-append_miss p xs y)

  pub first_row-append_new :
      (p : A → Bool) (xs : List A) (y : A)
      → first_row p xs ≡ none
      → p y ≡ true
      → first_row p (xs ++ y ∷ []) ≡ some y
  first_row-append_new p [] y h k = ground arith
  first_row-append_new p (x ∷ xs) y h k = ground (arith, first_row-append_new p xs y)

  -- What a selection finds after an update that moves no row into it or out of it.
  pub first_row-update :
      (q p : A → Bool) (f : A → A)
      → ((x : A) → q (f x) ≡ q x)
      → (xs : List A)
      → first_row q (update_rows p f xs) ≡ map_option (λ x. if p x then f x else x) (first_row q xs)
  first_row-update q p f h [] = refl
  first_row-update q p f h (x ∷ xs) = ground (arith, h x, first_row-update q p f h xs)

  pub any_row-first_row :
      (p : A → Bool) (xs : List A) (x : A) → first_row p xs ≡ some x → any_row p xs ≡ true
  any_row-first_row p [] x e = ground arith
  any_row-first_row p (y ∷ xs) x e = ground (arith, any_row-first_row p xs x)

  pub first_row-holds : (p : A → Bool) (xs : List A) (x : A) → first_row p xs ≡ some x → p x ≡ true
  first_row-holds p [] x e = ground arith
  first_row-holds p (y ∷ xs) x e = ground (arith, first_row-holds p xs x)

  -- A selection by what the update keeps finds the updated row.
  pub first_row-update_rows :
      (q p : A → Bool) (f : A → A)
      → ((x : A) → q (f x) ≡ q x)
      → (xs : List A) (x : A) → first_row q xs ≡ some x
      → first_row q (update_rows p f xs) ≡ some (if p x then f x else x)
  first_row-update_rows q p f h [] x e = ground arith
  first_row-update_rows q p f h (y ∷ xs) x e =
      ground (arith, h y, first_row-update_rows q p f h xs x)

  pub All-where_rows : (p : A → Bool) (xs : List A) → All (λ x. p x ≡ true) (where_rows p xs)
  All-where_rows p [] = tt
  All-where_rows p (x ∷ xs) = elim (Bool-cases (p x)) [
    | inl e ↦ rw e (e, All-where_rows p xs)
    | inr e ↦ rw e (All-where_rows p xs)
  ]

  pub All-update_rows {κ} :
      (P : A → Type κ) (p : A → Bool) (f : A → A)
      → ((x : A) → P x → P (f x))
      → (xs : List A) → All P xs
      → All P (update_rows p f xs)
  All-update_rows P p f h [] a = tt
  All-update_rows P p f h (x ∷ xs) a = (first (p x), All-update_rows P p f h xs a.1)
    where
      first : (b : Bool) → P (if b then f x else x)
      first true = h x a.0
      first false = a.0

module _ {ℓ} {A : Type ℓ} (key : A → ℕ) where
  abbrev pub IsDescending : List A → Type 0
  IsDescending [] = Unit
  IsDescending (x ∷ xs) = All (λ y. key y ≤ key x) xs × IsDescending xs

  insert_desc-perm : (a : A) (xs : List A) → Perm (insert_desc key a xs) (a ∷ xs)
  insert_desc-perm a [] = Perm.refl _
  insert_desc-perm a (x ∷ xs) = elim (Bool-cases (ltb (key a) (key x))) [
    | inl e ↦ rw e (Perm.trans (Perm.cons x (insert_desc-perm a xs)) (Perm.swap a x xs))
    | inr e ↦ rw e (Perm.refl _)
  ]

  -- Sorting keeps every row, as often.
  pub order_desc-perm : (xs : List A) → Perm (order_desc key xs) xs
  order_desc-perm [] = Perm.refl _
  order_desc-perm (x ∷ xs) =
      Perm.trans (insert_desc-perm x (order_desc key xs)) (Perm.cons x (order_desc-perm xs))

  pub All-insert_desc {κ} :
      (P : A → Type κ) (a : A) (xs : List A) → P a → All P xs → All P (insert_desc key a xs)
  All-insert_desc P a [] h k = (h, tt)
  All-insert_desc P a (x ∷ xs) h k = elim (Bool-cases (ltb (key a) (key x))) [
    | inl e ↦ rw e (k.0, All-insert_desc P a xs h k.1)
    | inr e ↦ rw e (h, k)
  ]

  pub All-order_desc {κ} : (P : A → Type κ) (xs : List A) → All P xs → All P (order_desc key xs)
  All-order_desc P [] k = tt
  All-order_desc P (x ∷ xs) k =
      All-insert_desc P x (order_desc key xs) k.0 (All-order_desc P xs k.1)

  insert_desc-IsDescending :
      (a : A) (xs : List A) → IsDescending xs → IsDescending (insert_desc key a xs)
  insert_desc-IsDescending a [] h = (tt, tt)
  insert_desc-IsDescending a (x ∷ xs) h = elim (Bool-cases (ltb (key a) (key x))) [
    | inl e ↦ rw e (
      All-insert_desc (λ y. key y ≤ key x) a xs (ground arith) h.0,
      insert_desc-IsDescending a xs h.1,
    )
    | inr e ↦ rw e ((ground arith, All-imp _ _ xs (λ y (k : key y ≤ key x). ground arith) h.0), h)
  ]

  pub order_desc-IsDescending : (xs : List A) → IsDescending (order_desc key xs)
  order_desc-IsDescending [] = tt
  order_desc-IsDescending (x ∷ xs) =
      insert_desc-IsDescending x (order_desc key xs) (order_desc-IsDescending xs)

  pub IsDescending-take : (n : ℕ) (xs : List A) → IsDescending xs → IsDescending (take n xs)
  IsDescending-take zero xs h = tt
  IsDescending-take (suc n) [] h = tt
  IsDescending-take (suc n) (x ∷ xs) h = (All-take _ n xs h.0, IsDescending-take n xs h.1)

  pub IsDescending-drop : (n : ℕ) (xs : List A) → IsDescending xs → IsDescending (drop n xs)
  IsDescending-drop zero xs h = h
  IsDescending-drop (suc n) [] h = tt
  IsDescending-drop (suc n) (x ∷ xs) h = IsDescending-drop n xs h.1

module _ {ℓ} {A : Type ℓ} where
  -- A row appended, or rows deleted, that a selection does not take.
  pub where_rows-append_miss :
      (q : A → Bool) (xs : List A) (y : A)
      → q y ≡ false
      → where_rows q (xs ++ y ∷ []) ≡ where_rows q xs
  where_rows-append_miss q [] y h = rw h refl
  where_rows-append_miss q (x ∷ xs) y h = ground (arith, where_rows-append_miss q xs y h)

  pub where_rows-delete_rows :
      (q p : A → Bool)
      → ((x : A) → p x ≡ true → q x ≡ false)
      → (xs : List A) → where_rows q (delete_rows p xs) ≡ where_rows q xs
  where_rows-delete_rows q p h [] = refl
  where_rows-delete_rows q p h (x ∷ xs) = ground (arith, h x, where_rows-delete_rows q p h xs)

  -- An update that `p` does not see leaves as many rows of `p`.
  pub any_row-update_rows :
      (p q : A → Bool) (f : A → A)
      → ((x : A) → p (f x) ≡ p x)
      → (xs : List A) → any_row p (update_rows q f xs) ≡ any_row p xs
  any_row-update_rows p q f h [] = refl
  any_row-update_rows p q f h (x ∷ xs) = ground (arith, h x, any_row-update_rows p q f h xs)

module _ {ℓ κ} {A : Type ℓ} {B : Type κ} where
  -- An update is not seen by a function that forgets what it changes.
  pub map-update_rows :
      (f : A → B) (p : A → Bool) (g : A → A)
      → ((x : A) → f (g x) ≡ f x)
      → (xs : List A) → map f (update_rows p g xs) ≡ map f xs
  map-update_rows f p g h [] = refl
  map-update_rows f p g h (x ∷ xs) = elim (Bool-cases (p x)) [
    | inl e ↦ rw (e, h x, map-update_rows f p g h xs) refl
    | inr e ↦ rw (e, map-update_rows f p g h xs) refl
  ]

module _ {ℓ} {A : Type ℓ} where
  pub first_row-delete_rows : (p : A → Bool) (xs : List A) → first_row p (delete_rows p xs) ≡ none
  first_row-delete_rows p [] = refl
  first_row-delete_rows p (x ∷ xs) = ground (arith, first_row-delete_rows p xs)
