-- ===== src/Digestion/Postgres/Types.antt =====
-- core-services-sql-engine/internal/digestion/connector/postgres.go: mapType and detectSemanticType.
use manju_backend.Prelude.{
  ℕ, ◌+◌, ◌≡◌, refl, String, Bool, true, false, ◌||◌, List, [], ◌∷◌, map, str_eq, ltb,
  if◌then◌else◌, codes, contains, has_suffix, equals,
}

-- A `switch` without a value: the first case that holds.
abbrev pub switch : List (Bool × String) → String → String
switch [] otherwise = otherwise
switch (c ∷ cases) otherwise = if c.0 then c.1 else switch cases otherwise

abbrev type_cases : String → List (Bool × String)
type_cases pg_type =
    let s = codes pg_type in
    (contains s "int", "integer")
    ∷ (
      contains s "numeric" || contains s "decimal" || str_eq pg_type "real" || contains s "double",
      "float",
    )
    ∷ (contains s "char" || str_eq pg_type "text" || str_eq pg_type "name", "text")
    ∷ (str_eq pg_type "boolean", "boolean")
    ∷ (contains s "timestamp" || str_eq pg_type "date" || str_eq pg_type "time", "datetime")
    ∷ (str_eq pg_type "json" || str_eq pg_type "jsonb", "json")
    ∷ (str_eq pg_type "uuid", "uuid")
    ∷ (contains s "geometry" || contains s "geography", "geometry")
    ∷ []

unfoldable pub map_type : String → String
map_type pg_type = switch (type_cases pg_type) "text"

-- strings.ToLower; `lower` is its map on the code points behind ASCII.
abbrev pub to_lower : (ℕ → ℕ) → List ℕ → List ℕ
to_lower lower =
    map (λ c. if ltb c 65 then c else if ltb c 91 then c + 32 else if ltb c 128 then c else lower c)

-- The switch on the name, when the column is not part of the primary key.
abbrev name_cases : List ℕ → List (Bool × String)
name_cases s =
    (has_suffix s "_id" || has_suffix s "id", "foreign_key")
    ∷ (equals s "latitude" || equals s "lat", "latitude")
    ∷ (equals s "longitude" || equals s "lng" || equals s "lon", "longitude")
    ∷ (equals s "status", "status_enum")
    ∷ (contains s "email", "email")
    ∷ (contains s "phone", "phone")
    ∷ (equals s "name" || has_suffix s "_name", "name")
    ∷ (contains s "updated_at" || contains s "modified_at", "updated_at")
    ∷ (contains s "created_at", "created_at")
    ∷ []

unfoldable pub type_by_name : List ℕ → String
type_by_name s = switch (name_cases s) ""

unfoldable pub detect_semantic_type : (ℕ → ℕ) → String → Bool → String
detect_semantic_type lower name is_pk =
    if is_pk then "primary_key" else type_by_name (to_lower lower (codes name))

-- The values that the README lists.
abbrev pub mapped_types : List String
mapped_types =
    "text" ∷ "integer" ∷ "float" ∷ "boolean" ∷ "datetime" ∷ "json" ∷ "uuid" ∷ "geometry" ∷ []

abbrev pub name_types : List String
name_types =
    "foreign_key" ∷ "updated_at" ∷ "created_at" ∷ "latitude" ∷ "longitude" ∷ "status_enum" ∷ "email"
    ∷ "phone" ∷ "name" ∷ "" ∷ []

abbrev pub is_one_of : List String → String → Bool
is_one_of [] s = false
is_one_of (t ∷ ts) s = str_eq t s || is_one_of ts s

abbrev pub IsOneOf : List String → String → Type 0
IsOneOf ts s = is_one_of ts s ≡ true

abbrev AllOneOf : List String → List (Bool × String) → Type 0
AllOneOf ts [] = Unit
AllOneOf ts (c ∷ cases) = IsOneOf ts c.1 × AllOneOf ts cases

chosen-IsOneOf :
    (ts : List String) (c : Bool) (a b : String)
    → IsOneOf ts a
    → IsOneOf ts b
    → IsOneOf ts (if c then a else b)
chosen-IsOneOf ts true a b h k = h
chosen-IsOneOf ts false a b h k = k

switch-IsOneOf :
    (ts : List String) (cases : List (Bool × String)) (otherwise : String)
    → AllOneOf ts cases
    → IsOneOf ts otherwise
    → IsOneOf ts (switch cases otherwise)
switch-IsOneOf ts [] otherwise h k = k
switch-IsOneOf ts (c ∷ cases) otherwise h k =
    chosen-IsOneOf ts c.0 c.1 (switch cases otherwise) h.0 (switch-IsOneOf ts cases otherwise h.1 k)

pub map_type-IsOneOf : (t : String) → IsOneOf mapped_types (map_type t)
unfolding map_type
map_type-IsOneOf t =
    switch-IsOneOf mapped_types (type_cases t) "text"
      (refl, (refl, (refl, (refl, (refl, (refl, (refl, (refl, tt)))))))) refl

pub type_by_name-IsOneOf : (s : List ℕ) → IsOneOf name_types (type_by_name s)
unfolding type_by_name
type_by_name-IsOneOf s =
    switch-IsOneOf name_types (name_cases s) ""
      (refl, (refl, (refl, (refl, (refl, (refl, (refl, (refl, (refl, tt))))))))) refl
