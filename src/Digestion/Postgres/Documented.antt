-- ===== src/Digestion/Postgres/Documented.antt =====
-- core-services-sql-engine/internal/digestion/connector/postgres.go: the types of information_schema
-- with the mapped type of each, and names of columns with the semantic type of each.
use manju_backend.Prelude.{
  ℕ, ◌≡◌, refl, sym, ◌∙◌, ap, arith, String, Bool, true, false, List, [], ◌∷◌, ◌==◌, str_eq, eq_iff,
  if◌then◌else◌, codes, has_suffix, equals, length, starts_with, All, inl, inr, Bool-cases,
}
use manju_backend.Digestion.Postgres.Types.{map_type, type_by_name}

abbrev pub standard_types : List (String × String)
standard_types =
    ("smallint", "integer")
    ∷ ("integer", "integer")
    ∷ ("bigint", "integer")
    ∷ ("numeric", "float")
    ∷ ("real", "float")
    ∷ ("double precision", "float")
    ∷ ("character varying", "text")
    ∷ ("character", "text")
    ∷ ("text", "text")
    ∷ ("name", "text")
    ∷ ("bytea", "text")
    ∷ ("boolean", "boolean")
    ∷ ("timestamp without time zone", "datetime")
    ∷ ("timestamp with time zone", "datetime")
    ∷ ("date", "datetime")
    ∷ ("json", "json")
    ∷ ("jsonb", "json")
    ∷ ("uuid", "uuid")
    ∷ []

abbrev pub usual_names : List (String × String)
usual_names =
    ("updated_at", "updated_at")
    ∷ ("modified_at", "updated_at")
    ∷ ("created_at", "created_at")
    ∷ ("lat", "latitude")
    ∷ ("latitude", "latitude")
    ∷ ("lon", "longitude")
    ∷ ("lng", "longitude")
    ∷ ("longitude", "longitude")
    ∷ ("status", "status_enum")
    ∷ ("email", "email")
    ∷ ("contact_email", "email")
    ∷ ("phone", "phone")
    ∷ ("phone_number", "phone")
    ∷ ("name", "name")
    ∷ ("first_name", "name")
    ∷ ("quantity", "")
    ∷ ("price", "")
    ∷ ("description", "")
    ∷ []

-- What the table says of a key, or the given text if it has no such key.
abbrev pub documented : (String → Bool) → List (String × String) → String → String
documented is_key [] otherwise = otherwise
documented is_key (entry ∷ table) otherwise =
    let rest = documented is_key table otherwise in if is_key entry.0 then entry.1 else rest

documented-agrees :
    (is_key : String → Bool) (value : String) (of_key : String → String)
    → ((k : String) → is_key k ≡ true → value ≡ of_key k)
    → (table : List (String × String)) → All (λ e. of_key e.0 ≡ e.1) table
    → value ≡ documented is_key table value
documented-agrees is_key value of_key h [] a = refl
documented-agrees is_key value of_key h (e ∷ table) a = elim (Bool-cases (is_key e.0)) [
  | inl p ↦ rw p (h e.0 p ∙ a.0)
  | inr p ↦ rw p (documented-agrees is_key value of_key h table a.1)
]

pub map_type-documented :
    (t : String) → map_type t ≡ documented (λ k. str_eq k t) standard_types (map_type t)
unfolding map_type
map_type-documented t =
    documented-agrees (λ k. str_eq k t) (map_type t) map_type
      (λ k p. ap map_type (sym ((eq_iff k t).0 p))) standard_types
      (
        refl,
        (
          refl,
          (
            refl,
            (
              refl,
              (
                refl,
                (
                  refl,
                  (
                    refl,
                    (
                      refl,
                      (
                        refl,
                        (refl, (refl, (refl, (refl, (refl, (refl, (refl, (refl, (refl, tt))))))))),
                      ),
                    ),
                  ),
                ),
              ),
            ),
          ),
        ),
      )

exact : (word s : List ℕ) → starts_with word s ≡ true → (length word == length s) ≡ true → s ≡ word
exact [] [] h k = refl
exact [] (b ∷ s) h k = ground arith
exact (c ∷ word) [] h k = ground arith
exact (c ∷ word) (b ∷ s) h k = ground (arith, exact word s)

by_name-documented :
    (s : List ℕ) → type_by_name s ≡ documented (equals s) usual_names (type_by_name s)
unfolding type_by_name
by_name-documented s =
    documented-agrees (equals s) (type_by_name s) (λ k. type_by_name (codes k))
      (λ k p. ap type_by_name (exact (codes k) s (ground (arith, p)) (ground (arith, p))))
      usual_names
      (
        refl,
        (
          refl,
          (
            refl,
            (
              refl,
              (
                refl,
                (
                  refl,
                  (
                    refl,
                    (
                      refl,
                      (
                        refl,
                        (refl, (refl, (refl, (refl, (refl, (refl, (refl, (refl, (refl, tt))))))))),
                      ),
                    ),
                  ),
                ),
              ),
            ),
          ),
        ),
      )

-- A key that ends in `_id` refers to another table; else the table of names decides.
abbrev pub documented_meaning : List ℕ → String → String
documented_meaning name otherwise =
    if has_suffix name "_id" then "foreign_key" else documented (equals name) usual_names otherwise

id-foreign_key : (s : List ℕ) → has_suffix s "_id" ≡ true → type_by_name s ≡ "foreign_key"
unfolding type_by_name
id-foreign_key s e = rw e refl

either :
    (b : Bool) (value first second : String)
    → (b ≡ true → value ≡ first)
    → value ≡ second
    → value ≡ (if b then first else second)
either true value first second h k = h refl
either false value first second h k = k

pub type_by_name-documented : (s : List ℕ) → type_by_name s ≡ documented_meaning s (type_by_name s)
type_by_name-documented s =
    either (has_suffix s "_id") (type_by_name s) "foreign_key"
      (documented (equals s) usual_names (type_by_name s)) (id-foreign_key s) (by_name-documented s)
