-- ===== src/Digestion/Changes.antt =====
-- core-services-sql-engine/internal/digestion/changes.go, and `buildRowKey` of sync.go.
pub mod Columns
mod Tests
use Prim.Native.String.{◌++◌, compare}
use text.Mathlib.Text.{is_le}
use manju_backend.Prelude.{
  String, Bool, true, false, not, List, [], ◌∷◌, map, Option, none, some, str_eq, if◌then◌else◌,
}
use mathlib.Core.List.{◌++◌ as append}
use manju_backend.Digestion.{Row, Env}

-- sort.Strings and the order in which encoding/json writes the keys of a map: by bytes.
pub insert_string : String → List String → List String
insert_string s [] = s ∷ []
insert_string s (t ∷ ts) =
    let rest = insert_string s ts in if is_le (compare s t) then s ∷ t ∷ ts else t ∷ rest

pub sort_strings : List String → List String
unfolding insert_string
sort_strings [] = []
sort_strings (s ∷ ss) = insert_string s (sort_strings ss)

module _ {V : Type 0} where
  insert_entry : String × V → Row V → Row V
  insert_entry e [] = e ∷ []
  insert_entry e (f ∷ fs) =
      let rest = insert_entry e fs in if is_le (compare e.0 f.0) then e ∷ f ∷ fs else f ∷ rest

  -- The entries of a map in the order of its columns.
  unfoldable pub sorted_entries : Row V → Row V
  unfolding insert_entry
  sorted_entries [] = []
  sorted_entries (e ∷ es) = insert_entry e (sorted_entries es)

  -- `row[col]`, which is nil for a column that is not there.
  unfoldable pub value_or : V → String → Row V → V
  value_or nil col [] = nil
  value_or nil col ((c, v) ∷ rest) = if str_eq c col then v else value_or nil col rest

  unfoldable pub has_column : String → Row V → Bool
  has_column col [] = false
  has_column col ((c, v) ∷ rest) = if str_eq c col then true else has_column col rest

  abbrev pub columns : Row V → List String
  columns = map (λ e. e.0)

-- The copy that is marshalled: values are normalised by the connector.
abbrev pub normalized_row : {V : Type 0} → Row V → Row V
normalized_row row = row

module _ {V : Type 0} (env : Env V) where
  -- If the row does not marshal, its sorted columns and values are encoded one after another.
  unfoldable pub compute_hash : Row V → String
  unfolding sorted_entries
  compute_hash row = elim (env.marshal (sorted_entries (normalized_row row))) [
    | some text ↦ env.sha256_hex text
    | none ↦ env.sha256_hex (env.encode_entries (sorted_entries row))
  ]

  pub json_equal : V → V → Bool
  json_equal a b = str_eq (env.marshal_value a) (env.marshal_value b)

  -- The map that comes back from JSON; nothing of a row that does not marshal, or of a nil map.
  pub decoded : Option (Row V) → Row V
  decoded none = []
  decoded (some row) = elim (env.marshal (sorted_entries (normalized_row row))) [
    | some text ↦ map (λ e. (e.0, env.reloaded e.1)) row
    | none ↦ []
  ]

  pub differing : Row V → Row V → List String
  unfolding json_equal value_or
  differing [] new = []
  differing ((k, ov) ∷ old) new =
      let rest = differing old new in
      if not (json_equal ov (value_or env.nil k new)) then k ∷ rest else rest

  pub added : Row V → Row V → List String
  unfolding has_column
  added old [] = []
  added old ((k, nv) ∷ new) =
      let rest = added old new in if not (has_column k old) then k ∷ rest else rest

  unfoldable pub changed_columns : Option (Row V) → Row V → List String
  unfolding sort_strings differing added decoded sorted_entries
  changed_columns old_data new_data =
      let old = decoded old_data in
      let new = decoded (some new_data) in sort_strings (append (differing old new) (added old new))

-- strings.Join
pub join : String → List String → String
join sep [] = ""
join sep (s ∷ []) = s
join sep (s ∷ t ∷ ts) = s ++ (sep ++ join sep (t ∷ ts))

key_columns : {V : Type 0} → Row V → List String → List String
key_columns row [] = columns row
key_columns row (c ∷ cs) = c ∷ cs

-- Without primary key columns the parts stand in the order in which the map was iterated.
unfoldable pub build_row_key : {V : Type 0} → Env V → Row V → List String → String
unfolding join key_columns value_or
build_row_key env row pk_columns =
    join "|" (map (λ col. env.format (value_or env.nil col row)) (key_columns row pk_columns))
