-- ===== src/Http.antt =====
-- What the Echo handlers of both services share: a handler either goes on with a value or answers
-- at once, and what it did to the state before stays done. Echo itself, which parses the requests
-- and picks the handler, is not part of the repository.
use manju_backend.Prelude.{◌≡◌, refl, ℕ, ℤ, String, Bool, true, false, List, Option, none, some}
use manju_backend.Exec.{Error, Result, ok, err, Exec}

-- `headers` are those that the handler sets itself.
pub record Response (Body : Type 0) : Type 0 where
  pub status : ℕ
  pub headers : List (String × String)
  pub body : Body

pub data Outcome (R A : Type 0) : Type 0 where
  value : A → Outcome R A
  reply : R → Outcome R A

abbrev pub Handler : Type 0 → Type 0 → Type 0 → Type 0
Handler R S A = S → Outcome R A × S

-- What the handlers take from fmt, strconv, time, the UUID library and the error values.
pub record Codecs : Type 0 where
  pub parse_uuid : String → Option ℕ
  pub scan_int : String → Option ℤ
  pub parse_int : String → Option ℤ
  pub parse_duration : String → Option ℤ
  pub duration_string : ℤ → String
  pub decimal : ℤ → String
  pub quoted : String → String
  pub message : Error → String

abbrev pub outcome_of : {R A : Type 0} → R → Option A → Outcome R A
outcome_of r none = reply r
outcome_of r (some a) = value a

abbrev pub called : {R A : Type 0} → (Error → R) → Result A → Outcome R A
called fail (ok a) = value a
called fail (err e) = reply (fail e)

abbrev pub final : {R : Type 0} → Outcome R R → R
final (value r) = r
final (reply r) = r

module _ {R S A : Type 0} where
  abbrev pub proceed : A → Handler R S A
  proceed a s = (value a, s)

  -- `if err != nil { return … }` after a step that only parses.
  abbrev pub required : R → Option A → Handler R S A
  required r o s = (outcome_of r o, s)

  -- `if err := store.…; err != nil { return … }`
  abbrev pub call : (Error → R) → Exec S A → Handler R S A
  call fail m s = let (r, s') = m s in (called fail r, s')

module _ {R S : Type 0} where
  abbrev pub demand : R → Bool → Handler R S (Unit {0})
  demand r b s = (elim b [ true ↦ value tt | false ↦ reply r ], s)

  abbrev pub serve : Handler R S R → S → R × S
  serve m s = let (o, s') = m s in (final o, s')

module _ {R S A B : Type 0} where
  abbrev pub next : Outcome R A → (A → Handler R S B) → Handler R S B
  next (value a) f s = f a s
  next (reply r) f s = (reply r, s)

  infixl 5 ◌>>=◌ ◌>>◌
  abbrev pub ◌>>=◌ : Handler R S A → (A → Handler R S B) → Handler R S B
  ◌>>=◌ m f s = let (o, s') = m s in next o f s'

  abbrev pub ◌>>◌ : Handler R S A → Handler R S B → Handler R S B
  m >> n = m >>= λ _. n

module _ {κ} {R S A B : Type 0} (P : Outcome R B × S → Type κ) (f : A → Handler R S B) (s : S) where
  -- To prove something of a handler, prove it of the answer to a bad request and of the rest.
  pub required-cases :
      (r : R) (o : Option A)
      → ((a : A) → o ≡ some a → P (f a s))
      → (o ≡ none → P (reply r, s))
      → P ((required r o >>= f) s)
  required-cases r none good bad = bad refl
  required-cases r (some a) good bad = good a refl

  called_cases :
      (fail : Error → R) (r : Result A) (s' : S)
      → ((a : A) → r ≡ ok a → P (f a s'))
      → ((e : Error) → r ≡ err e → P (reply (fail e), s'))
      → P (next (called fail r) f s')
  called_cases fail (ok a) s' good bad = good a refl
  called_cases fail (err e) s' good bad = bad e refl

  pub call-cases :
      (fail : Error → R) (m : Exec S A)
      → ((a : A) → (m s).0 ≡ ok a → P (f a (m s).1))
      → ((e : Error) → (m s).0 ≡ err e → P (reply (fail e), (m s).1))
      → P ((call fail m >>= f) s)
  call-cases fail m good bad = called_cases fail (m s).0 (m s).1 good bad

module _ {κ} {R S B : Type 0} (P : Outcome R B × S → Type κ) (f : Unit {0} → Handler R S B)
    (s : S) where
  pub demand-cases :
      (r : R) (b : Bool)
      → (b ≡ true → P (f tt s))
      → (b ≡ false → P (reply r, s))
      → P ((demand r b >>= f) s)
  demand-cases r true good bad = good refl
  demand-cases r false good bad = bad refl

module _ {R A : Type 0} (fail : Error → R) (done : A → R) where
  abbrev pub settled : Result A → R
  settled (ok a) = done a
  settled (err e) = fail e

  served_result :
      {S : Type 0} (r : Result A) (s : S)
      → serve (next (called fail r) (λ a. proceed (done a))) s ≡ (settled r, s)
  served_result (ok a) s = refl
  served_result (err e) s = refl

  -- A handler that ends with a call answers by its result, and keeps what the call did.
  pub serve-call :
      {S : Type 0} (m : Exec S A) (s : S)
      → serve (call fail m >>= λ a. proceed (done a)) s ≡ (settled (m s).0, (m s).1)
  serve-call m s = served_result (m s).0 (m s).1
