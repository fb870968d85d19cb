-- ===== src/Digestion/Changes/Columns.antt =====
-- Which columns changedColumns of changes.go lists.
use manju_backend.Prelude.{
  ◌≡◌, refl, ap, subst, String, Bool, false, not, ◌&&◌, ◌||◌, List, [], ◌∷◌, Option, some, arith,
  str_eq, eq_iff, if◌then◌else◌, inl, inr, Bool-cases,
}
use mathlib.Core.List.{◌++◌ as append}
use manju_backend.Table.{any_row}
use manju_backend.Table.Laws.{any_row-append}
use manju_backend.Digestion.{Row, Env}
use manju_backend.Digestion.Changes.{
  insert_string, sort_strings, value_or, has_column, json_equal, decoded, differing, added,
  changed_columns,
}

abbrev pub lists : String → List String → Bool
lists c = any_row (λ s. str_eq s c)

lists-insert_string :
    (c s : String) (ts : List String) → lists c (insert_string s ts) ≡ (str_eq s c || lists c ts)
unfolding insert_string
lists-insert_string c s [] = ground arith
lists-insert_string c s (t ∷ ts) = ground (arith, lists-insert_string c s ts)

lists-sort_strings : (c : String) (ss : List String) → lists c (sort_strings ss) ≡ lists c ss
unfolding sort_strings
lists-sort_strings c [] = refl
lists-sort_strings c (s ∷ ss) =
    ground (arith, lists-insert_string c s (sort_strings ss), lists-sort_strings c ss)

module _ {V : Type 0} where
  -- A map has each column once.
  unfoldable pub IsMap : Row V → Type 0
  IsMap [] = Unit {0}
  IsMap ((c, v) ∷ rest) = (has_column c rest ≡ false) × IsMap rest

module _ {V : Type 0} (env : Env V) where
  lists-added :
      (c : String) (old new : Row V)
      → lists c (added env old new) ≡ (has_column c new && not (has_column c old))
  unfolding added has_column
  lists-added c old [] = refl
  lists-added c old ((k, nv) ∷ new) = elim (Bool-cases (str_eq k c)) [
    | inl e ↦
        let cols : has_column k old ≡ has_column c old =
          ap (λ q. has_column q old) ((eq_iff k c).0 e) in
        rw (e, cols) (ground (arith, lists-added c old new))
    | inr e ↦ rw e (ground (arith, lists-added c old new))
  ]

  lists-differing :
      (c : String) (old new : Row V)
      → IsMap old
      → lists c (differing env old new) ≡ (
          has_column c old
          && not (json_equal env (value_or env.nil c old) (value_or env.nil c new)))
  unfolding differing has_column value_or IsMap
  lists-differing c [] new u = refl
  lists-differing c ((k, ov) ∷ old) new u = elim (Bool-cases (str_eq k c)) [
    | inl e ↦
        let same : k ≡ c = (eq_iff k c).0 e in
        let cols : has_column c old ≡ false = subst (λ q. has_column q old ≡ false) same u.0 in
        let values : json_equal env ov (value_or env.nil k new)
            ≡ json_equal env ov (value_or env.nil c new) =
          ap (λ q. json_equal env ov (value_or env.nil q new)) same in
        rw (e, values) (ground (arith, lists-differing c old new u.1))
    | inr e ↦ elim (Bool-cases (json_equal env ov (value_or env.nil k new))) [
      | inl b ↦ rw (b, e) (lists-differing c old new u.1)
      | inr b ↦ rw (b, e) (lists-differing c old new u.1)
    ]
  ]

  -- The changed columns are those that the old data has and whose value in the new data, nil if it
  -- has none, marshals differently, and those that only the new data has. The old data has each
  -- column once.
  pub lists-changed_columns :
      (c : String) (old_data : Option (Row V)) (new_data : Row V)
      → IsMap (decoded env old_data)
      → lists c (changed_columns env old_data new_data) ≡ (
          if has_column c (decoded env old_data)
          then not (
              json_equal env
                (value_or env.nil c (decoded env old_data))
                (value_or env.nil c (decoded env (some new_data))))
          else has_column c (decoded env (some new_data)))
  unfolding changed_columns
  lists-changed_columns c old_data new_data u =
      let old : Row V = decoded env old_data in
      let new : Row V = decoded env (some new_data) in
      ground (
        arith,
        lists-sort_strings c (append (differing env old new) (added env old new)),
        any_row-append (λ s. str_eq s c) (differing env old new) (added env old new),
        lists-differing c old new u,
        lists-added c old new,
      )
