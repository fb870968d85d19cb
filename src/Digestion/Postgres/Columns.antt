-- ===== src/Digestion/Postgres/Columns.antt =====
-- core-services-sql-engine/internal/digestion/connector/postgres.go: the types of the columns that
-- DiscoverColumns describes, as the README lists them.
use manju_backend.Prelude.{
  ℕ, str_eq, ◌≡◌, refl, subst, String, Bool, true, false, List, [], ◌∷◌, Option, none, some, All,
  codes,
}
use manju_backend.Exec.{Error, Result, ok, err, wrap_result}
use manju_backend.Digestion.Connector.{ColumnMeta}
use manju_backend.Digestion.Postgres.{
  Rows, Pool, Driven, closed_with, consed, and_scan, scan_items, scan_rows, typed_column,
  discover_columns,
}
use manju_backend.Digestion.Postgres.Documented.{
  standard_types, documented, documented_meaning, map_type-documented, type_by_name-documented,
}
use manju_backend.Digestion.Postgres.Types.{
  mapped_types, name_types, IsOneOf, map_type-IsOneOf, to_lower, type_by_name-IsOneOf,
  detect_semantic_type,
}

abbrev pub IfOk : {A : Type 0} → (A → Type 0) → Result A → Type 0
IfOk P (ok a) = P a
IfOk P (err e) = Unit

module _ {A B : Type 0} (P : B → Type 0) (f : A → B) (h : (a : A) → P (f a)) where
  IfOk-closed : (ending : Option Error) → IfOk (All P) (closed_with ending [])
  IfOk-closed none = tt
  IfOk-closed (some e) = tt

  IfOk-consed :
      (item : Result A) (rest : Result (List B))
      → IfOk (All P) rest
      → IfOk (All P) (consed (and_scan (λ a. ok (f a)) item) rest)
  IfOk-consed (ok a) (ok list) k = (h a, k)
  IfOk-consed (ok a) (err e) k = tt
  IfOk-consed (err e) rest k = tt

  IfOk-scan_items :
      (ending : Option Error) (items : List (Result A))
      → IfOk (All P) (scan_items (λ a. ok (f a)) ending items)
  IfOk-scan_items ending [] = IfOk-closed ending
  IfOk-scan_items ending (item ∷ items) =
      IfOk-consed item (scan_items (λ a. ok (f a)) ending items) (IfOk-scan_items ending items)

  IfOk-scan_rows : (rows : Result (Rows A)) → IfOk (All P) (scan_rows (λ a. ok (f a)) rows)
  unfolding scan_rows
  IfOk-scan_rows (ok rows) = IfOk-scan_items rows.ending rows.items
  IfOk-scan_rows (err e) = tt

-- What the name of a column that is lowered means, if it is part of the primary key or not.
abbrev pub IsMeaning : Bool → List ℕ → String → Type 0
IsMeaning true name s = s ≡ "primary_key"
IsMeaning false name s = IsOneOf name_types s × (s ≡ documented_meaning name s)

abbrev pub IsMapped : String → String → Type 0
IsMapped data_type s =
    IsOneOf mapped_types s × (s ≡ documented (λ k. str_eq k data_type) standard_types s)

abbrev pub IsDescribed : (ℕ → ℕ) → ColumnMeta → Type 0
IsDescribed lower col =
    IsMapped col.data_type col.mapped_type
    × IsMeaning col.is_primary_key (to_lower lower (codes col.name)) col.semantic_type

detect_semantic_type-IsMeaning :
    (lower : ℕ → ℕ) (name : String) (is_pk : Bool)
    → IsMeaning is_pk (to_lower lower (codes name)) (detect_semantic_type lower name is_pk)
unfolding detect_semantic_type
detect_semantic_type-IsMeaning lower name true = refl
detect_semantic_type-IsMeaning lower name false = (
  type_by_name-IsOneOf (to_lower lower (codes name)),
  type_by_name-documented (to_lower lower (codes name)),
)

-- Each column that DiscoverColumns returns has one of the README's mapped types, and the one that
-- the table of PostgreSQL's types gives if its type is in the table. Its semantic type is
-- "primary_key" if it is part of the primary key; otherwise it is one of the README's other types or
-- empty: it is "foreign_key" if the lowered name ends in `_id`, and else what the table of usual
-- names gives if the lowered name is in it.
pub discover_columns-IsDescribed :
    {V : Type 0} (env : Driven V) (pool : Pool V) (schema table : String) (cols : List ColumnMeta)
    → discover_columns env pool schema table ≡ ok cols
    → All (IsDescribed env.lower) cols
unfolding discover_columns
discover_columns-IsDescribed env pool schema table cols r =
    subst (IfOk (All (IsDescribed env.lower))) r (
      IfOk-scan_rows (IsDescribed env.lower) (typed_column env)
        (λ col. (
          (map_type-IsOneOf col.data_type, map_type-documented col.data_type),
          detect_semantic_type-IsMeaning env.lower col.name col.is_primary_key,
        ))
        (wrap_result "discover columns" (pool.columns schema table)))
