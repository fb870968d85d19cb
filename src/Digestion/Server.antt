-- ===== src/Digestion/Server.antt =====
-- core-services-sql-engine/cmd/server/main.go: the configuration, and the mask on what is logged of
-- it. Texts that are walked are lists of bytes.
mod Tests
use manju_backend.Prelude.{
  ℕ, ℤ, pos, ◌≡◌, refl, sym, ap, ◌≤◌, ◌<◌, String, Bool, true, false, ◌&&◌, List, [], ◌∷◌, ◌++◌,
  Option, none, some, ◌==◌, str_eq, ltb, if◌then◌else◌, length, starts_with, length-append, drop,
  lt→ltb, codes, arith,
}
use mathlib.Core.List.{append_assoc}

pub record Config : Type 0 where
  pub platform_dsn : String
  pub port : ℤ

-- `getenv` is os.Getenv and `atoi` is strconv.Atoi.
module _ (getenv : String → String) (atoi : String → Option ℤ) where
  unfoldable pub get_env : String → String → String
  get_env key fallback = if str_eq (getenv key) "" then fallback else getenv key

  abbrev parsed_or : ℤ → Option ℤ → ℤ
  parsed_or fallback none = fallback
  parsed_or fallback (some n) = n

  unfoldable pub get_env_int : String → ℤ → ℤ
  get_env_int key fallback =
      if str_eq (getenv key) "" then fallback else parsed_or fallback (atoi (getenv key))

  unfoldable pub load_config : Config
  unfolding get_env get_env_int
  load_config = record {
    platform_dsn =
        get_env "PLATFORM_DB_DSN"
          "host=localhost port=5432 dbname=manju user=manju password=manju sslmode=disable";
    port = get_env_int "PORT" (pos 8080);
  }

abbrev pub marker : List ℕ
marker = codes "password="

abbrev pub stars : List ℕ
stars = codes "*****"

-- `len(dsn[i:]) > 9 && dsn[i:i+9] == "password="`
unfoldable pub is_marked : List ℕ → Bool
is_marked s = ltb 9 (length s) && starts_with marker s

-- `for end < len(dsn) && dsn[end] != ' ' { end++ }`
unfoldable pub after_value : List ℕ → List ℕ
after_value [] = []
after_value (b ∷ s) = let rest = after_value s in if b == 32 then b ∷ s else rest

-- The loop over i: what is left of the text at i, and what is printed for it.
unfoldable pub mask_password : List ℕ → List ℕ
unfolding is_marked after_value
mask_password [] = []
mask_password (b ∷ s) =
    let rest = mask_password s in
    if is_marked (b ∷ s) then marker ++ stars ++ after_value (drop 9 (b ∷ s)) else b ∷ rest

-- No mark starts within `p` where the mark itself follows.
abbrev pub IsUnmarked : List ℕ → Type 0
IsUnmarked [] = Unit
IsUnmarked (b ∷ p) = (starts_with marker (b ∷ p ++ marker) ≡ false) × IsUnmarked p

-- A text that holds no space.
abbrev pub IsUnspaced : List ℕ → Type 0
IsUnspaced [] = Unit
IsUnspaced (b ∷ v) = ((b == 32) ≡ false) × IsUnspaced v

-- What follows a value: nothing, or something behind a space.
abbrev pub EndsValue : List ℕ → Type 0
EndsValue [] = Unit
EndsValue (b ∷ rest) = (b == 32) ≡ true

after_value-append :
    (v rest : List ℕ) → IsUnspaced v → EndsValue rest → after_value (v ++ rest) ≡ rest
unfolding after_value
after_value-append [] [] h k = refl
after_value-append [] (b ∷ rest) h k = rw k refl
after_value-append (b ∷ v) rest h k = rw h.0 (after_value-append v rest h.1 k)

-- A test on a prefix does not see what follows a text that is long enough.
starts_with-append :
    (cs s t : List ℕ) → length cs ≤ length s → starts_with cs (s ++ t) ≡ starts_with cs s
starts_with-append [] s t h = refl
starts_with-append (c ∷ cs) [] t h = absurd (omega arith)
starts_with-append (c ∷ cs) (b ∷ s) t h =
    ap (λ x. c == b && x) (starts_with-append cs s t (omega arith))

mask_password-cons :
    (b : ℕ)
    → (s : List ℕ)
    → mask_password (b ∷ s) ≡ (
        if is_marked (b ∷ s)
        then marker ++ stars ++ after_value (drop 9 (b ∷ s))
        else b ∷ mask_password s)
unfolding mask_password
mask_password-cons b s = refl

and_false_right : (a : Bool) → a && false ≡ false
and_false_right false = refl
and_false_right true = refl

is_marked-marker : (t : List ℕ) → 0 < length t → is_marked (marker ++ t) ≡ true
unfolding is_marked
is_marked-marker [] n = absurd (omega arith)
is_marked-marker (b ∷ t) n = rw (lt→ltb 9 (length (marker ++ (b ∷ t))) (omega arith)) refl

is_marked-append :
    (s t : List ℕ) → 9 ≤ length s → starts_with marker s ≡ false → is_marked (s ++ t) ≡ false
unfolding is_marked
is_marked-append s t h u =
    rw (starts_with-append marker s t h) (rw u (and_false_right (ltb 9 (length (s ++ t)))))

length-marker : (p : List ℕ) → 9 ≤ length (p ++ marker)
length-marker [] = omega arith
length-marker (b ∷ p) = let h = length-marker p in omega arith

-- If the first mark of a DSN is followed by a password without a space, then what is logged is the
-- DSN with stars in its place: no part of the password is left, nor its length.
pub mask_password-hides :
    (p v rest : List ℕ)
    → IsUnmarked p
    → IsUnspaced v
    → 0 < length v
    → EndsValue rest
    → mask_password (p ++ (marker ++ (v ++ rest))) ≡ p ++ (marker ++ (stars ++ rest))
mask_password-hides [] v rest u h n k =
    rw (mask_password-cons 112 (codes "assword=" ++ (v ++ rest))) (
      rw (is_marked-marker (v ++ rest) (rw (length-append v rest) (omega arith)))
        (ap (λ t. marker ++ stars ++ t) (after_value-append v rest h k)))
mask_password-hides (b ∷ p) v rest u h n k =
    rw (mask_password-cons b (p ++ (marker ++ (v ++ rest))))
      (rw no_mark (ap (λ s. b ∷ s) (mask_password-hides p v rest u.1 h n k)))
  where
    no_mark : is_marked (b ∷ p ++ (marker ++ (v ++ rest))) ≡ false
    no_mark =
        rw (sym (append_assoc (b ∷ p) marker (v ++ rest)))
          (is_marked-append (b ∷ p ++ marker) (v ++ rest) (length-marker (b ∷ p)) u.0)
