-- ===== src/Exec.antt =====
-- Go's error results: an error value with its chain of wrapped causes, and the actions that change
-- a state and may fail. What was written before an error stays written.
use manju_backend.Prelude.{◌≡◌, refl, Bool, true, false, String, Option, none, some}

-- `failure` is an error of a driver, a client or the runtime; `wrap` is `fmt.Errorf("…: %w", err)`.
pub data Error : Type 0 where
  not_found deleted no_rows : Error
  failure : String → Error
  wrap : String → Error → Error

-- errors.Is(err, filestore.ErrNotFound)
abbrev pub is_not_found : Error → Bool
is_not_found not_found = true
is_not_found (wrap msg e) = is_not_found e
is_not_found _ = false

-- errors.Is(err, filestore.ErrDeleted)
abbrev pub is_deleted : Error → Bool
is_deleted deleted = true
is_deleted (wrap msg e) = is_deleted e
is_deleted _ = false

pub data Result {ℓ} (A : Type ℓ) : Type ℓ where
  ok : A → Result A
  err : Error → Result A

abbrev pub Exec {ℓ} : Type ℓ → Type ℓ → Type ℓ
Exec S A = S → Result A × S

-- `if err != nil { return fmt.Errorf(msg: %w, err) }`
abbrev pub wrap_result {ℓ} : {A : Type ℓ} → String → Result A → Result A
wrap_result msg (ok a) = ok a
wrap_result msg (err e) = err (wrap msg e)

module _ {ℓ} {S A : Type ℓ} where
  abbrev pub pure : A → Exec S A
  pure a s = (ok a, s)

  abbrev pub raise : Error → Exec S A
  raise e s = (err e, s)

  abbrev pub gets : (S → A) → Exec S A
  gets f s = (ok (f s), s)

  abbrev pub lift_option : Error → Option A → Exec S A
  lift_option e none s = (err e, s)
  lift_option e (some a) s = (ok a, s)

  abbrev pub context : String → Exec S A → Exec S A
  context msg m s = let (r, s') = m s in (wrap_result msg r, s')

  abbrev pub rescue : Result A → Exec S (Unit {ℓ}) → Exec S A
  rescue (ok a) cleanup s = (ok a, s)
  rescue (err e) cleanup s = (err e, (cleanup s).1)

  -- `if err != nil { _ = cleanup(); return err }`
  abbrev pub on_error : Exec S A → Exec S (Unit {ℓ}) → Exec S A
  on_error m cleanup s = let (r, s') = m s in rescue r cleanup s'

  -- `_ = m()`
  abbrev pub ignore : Exec S A → Exec S (Unit {ℓ})
  ignore m s = (ok tt, (m s).1)

module _ {ℓ} {S A B : Type ℓ} where
  abbrev pub continue : Result A → (A → Exec S B) → Exec S B
  continue (ok a) f s = f a s
  continue (err e) f s = (err e, s)

  infixl 5 ◌>>=◌ ◌>>◌
  abbrev pub ◌>>=◌ : Exec S A → (A → Exec S B) → Exec S B
  ◌>>=◌ m f s = let (r, s') = m s in continue r f s'

  abbrev pub ◌>>◌ : Exec S A → Exec S B → Exec S B
  m >> n = m >>= λ _. n

module _ {ℓ κ} {S A B : Type ℓ} (P : Result B × S → Type κ) (m : Exec S A) (f : A → Exec S B)
    (s : S) where
  continue-cases :
      (r : Result A)
      → (m s).0 ≡ r
      → ((a : A) → (m s).0 ≡ ok a → P (f a (m s).1))
      → ((e : Error) → (m s).0 ≡ err e → P (err e, (m s).1))
      → P (continue r f (m s).1)
  continue-cases (ok a) e good bad = good a e
  continue-cases (err x) e good bad = bad x e

  -- To prove something of a block, prove it of the rest of the block at each value of the first
  -- step, and at each of its errors.
  pub bind-cases :
      ((a : A) → (m s).0 ≡ ok a → P (f a (m s).1))
      → ((e : Error) → (m s).0 ≡ err e → P (err e, (m s).1))
      → P ((m >>= f) s)
  bind-cases good bad = continue-cases (m s).0 refl good bad

  wrap-cases :
      (msg : String) (r : Result A)
      → (m s).0 ≡ r
      → ((a : A) → (m s).0 ≡ ok a → P (f a (m s).1))
      → ((e : Error) → (m s).0 ≡ err e → P (err (wrap msg e), (m s).1))
      → P (continue (wrap_result msg r) f (m s).1)
  wrap-cases msg (ok a) e good bad = good a e
  wrap-cases msg (err x) e good bad = bad x e

  pub context-cases :
      (msg : String)
      → ((a : A) → (m s).0 ≡ ok a → P (f a (m s).1))
      → ((e : Error) → (m s).0 ≡ err e → P (err (wrap msg e), (m s).1))
      → P ((context msg m >>= f) s)
  context-cases msg good bad = wrap-cases msg (m s).0 refl good bad

module _ {ℓ κ} {S A : Type ℓ} (P : Result A × S → Type κ) (m : Exec S A)
    (cleanup : Exec S (Unit {ℓ})) (s : S) where
  rescue-cases :
      (r : Result A)
      → (m s).0 ≡ r
      → ((a : A) → (m s).0 ≡ ok a → P (ok a, (m s).1))
      → ((e : Error) → (m s).0 ≡ err e → P (err e, (cleanup (m s).1).1))
      → P (rescue r cleanup (m s).1)
  rescue-cases (ok a) e good bad = good a e
  rescue-cases (err x) e good bad = bad x e

  pub on_error-cases :
      ((a : A) → (m s).0 ≡ ok a → P (ok a, (m s).1))
      → ((e : Error) → (m s).0 ≡ err e → P (err e, (cleanup (m s).1).1))
      → P (on_error m cleanup s)
  on_error-cases good bad = rescue-cases (m s).0 refl good bad

-- The same of a first step that is cleaned up after an error.
module _ {ℓ κ} {S A B : Type ℓ} (P : Result B × S → Type κ) (m : Exec S A)
    (cleanup : Exec S (Unit {ℓ})) (f : A → Exec S B) (s : S) where
  guarded_result :
      (msg : String) (r : Result A)
      → (m s).0 ≡ r
      → ((a : A) → (m s).0 ≡ ok a → P (f a (m s).1))
      → ((e : Error) → (m s).0 ≡ err e → P (err (wrap msg e), (cleanup (m s).1).1))
      → P (continue (wrap_result msg (rescue r cleanup (m s).1).0) f (rescue r cleanup (m s).1).1)
  guarded_result msg (ok a) e good bad = good a e
  guarded_result msg (err x) e good bad = bad x e

  pub guarded-cases :
      (msg : String)
      → ((a : A) → (m s).0 ≡ ok a → P (f a (m s).1))
      → ((e : Error) → (m s).0 ≡ err e → P (err (wrap msg e), (cleanup (m s).1).1))
      → P ((context msg (on_error m cleanup) >>= f) s)
  guarded-cases msg good bad = guarded_result msg (m s).0 refl good bad
