-- ===== src/Table.antt =====
-- A database table as the list of its rows, and the statements of SQL that the program sends:
-- SELECT … WHERE, UPDATE … WHERE, DELETE … WHERE and ORDER BY … DESC over such a list.
pub mod Laws
pub mod Selected
use manju_backend.Prelude.{
  ℕ, zero, suc, ◌%◌, Bool, true, false, not, List, [], ◌∷◌, Option, none, some, ltb, if◌then◌else◌,
  length,
}

module _ {ℓ} {A : Type ℓ} where
  abbrev pub where_rows : (A → Bool) → List A → List A
  where_rows p [] = []
  where_rows p (x ∷ xs) = let rest = where_rows p xs in if p x then x ∷ rest else rest

  -- The first row that matches.
  abbrev pub first_row : (A → Bool) → List A → Option A
  first_row p [] = none
  first_row p (x ∷ xs) = let rest = first_row p xs in if p x then some x else rest

  abbrev pub nth : ℕ → List A → Option A
  nth n [] = none
  nth zero (x ∷ xs) = some x
  nth (suc n) (x ∷ xs) = nth n xs

  -- LIMIT 1 without ORDER BY: one of the rows that match, of which the server picks any.
  abbrev pub picked : (List A → ℕ) → List A → Option A
  picked pick matching = nth (pick matching % length matching) matching

  abbrev pub update_rows : (A → Bool) → (A → A) → List A → List A
  update_rows p f [] = []
  update_rows p f (x ∷ xs) = (if p x then f x else x) ∷ update_rows p f xs

  abbrev pub delete_rows : (A → Bool) → List A → List A
  delete_rows p [] = []
  delete_rows p (x ∷ xs) = let rest = delete_rows p xs in if p x then rest else x ∷ rest

  abbrev pub any_row : (A → Bool) → List A → Bool
  any_row p [] = false
  any_row p (x ∷ xs) = let rest = any_row p xs in if p x then true else rest

  -- ORDER BY key DESC; rows with one key keep the order of the table.
  abbrev pub insert_desc : (A → ℕ) → A → List A → List A
  insert_desc key a [] = a ∷ []
  insert_desc key a (x ∷ xs) =
      let rest = insert_desc key a xs in if ltb (key a) (key x) then x ∷ rest else a ∷ x ∷ xs

  abbrev pub order_desc : (A → ℕ) → List A → List A
  order_desc key [] = []
  order_desc key (x ∷ xs) = insert_desc key x (order_desc key xs)

  -- ORDER BY key; rows with one key keep the order of the table.
  abbrev pub insert_asc : (A → ℕ) → A → List A → List A
  insert_asc key a [] = a ∷ []
  insert_asc key a (x ∷ xs) =
      let rest = insert_asc key a xs in if ltb (key x) (key a) then x ∷ rest else a ∷ x ∷ xs

  abbrev pub order_asc : (A → ℕ) → List A → List A
  order_asc key [] = []
  order_asc key (x ∷ xs) = insert_asc key x (order_asc key xs)
