-- ===== src/Prelude/Text.antt =====
-- Go strings: the native `String` where they are compared or joined, and a list of byte values
-- where the program walks them.
use Prim.Native.Nat.{ℕ, ◌+◌}
use Prim.Native.Char.{code}
use Prim.Native.String.{String, ◌++◌}
use mathlib.Core.List.{List, [], ◌∷◌}
use mathlib.Core.Bool.{Bool, true, false, ◌&&◌, ◌||◌}
use manju_backend.Prelude.Lists.{length}
use manju_backend.Prelude.Tests.{ltb, ◌==◌, if◌then◌else◌}

abbrev pub codes : String → List ℕ
codes String.[] = []
codes (String.◌∷◌ c s) = code c ∷ codes s

infixr 66 ◌⧺◌
abbrev pub ◌⧺◌ : String → String → String
s ⧺ t = s ++ t

-- The bytes of a code point in UTF-8.
abbrev utf8_width : ℕ → ℕ
utf8_width c = if ltb c 128 then 1 else if ltb c 2048 then 2 else if ltb c 65536 then 3 else 4

-- `len(s)`, which counts bytes.
abbrev pub byte_length : String → ℕ
byte_length String.[] = 0
byte_length (String.◌∷◌ c s) = utf8_width (code c) + byte_length s

abbrev pub starts_with : List ℕ → List ℕ → Bool
starts_with [] s = true
starts_with (c ∷ cs) [] = false
starts_with (c ∷ cs) (b ∷ s) = c == b && starts_with cs s

abbrev occurs : List ℕ → List ℕ → Bool
occurs cs [] = starts_with cs []
occurs cs (b ∷ s) = starts_with cs (b ∷ s) || occurs cs s

abbrev ends_in : List ℕ → List ℕ → Bool
ends_in cs [] = starts_with cs []
ends_in cs (b ∷ s) = (starts_with cs (b ∷ s) && length cs == length (b ∷ s)) || ends_in cs s

abbrev pub equals : List ℕ → String → Bool
equals s word = starts_with (codes word) s && length (codes word) == length s

-- strings.Contains and strings.HasSuffix
abbrev pub contains : List ℕ → String → Bool
contains s sub = occurs (codes sub) s

abbrev pub has_suffix : List ℕ → String → Bool
has_suffix s suffix = ends_in (codes suffix) s
