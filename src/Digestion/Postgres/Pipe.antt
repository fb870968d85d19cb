-- ===== src/Digestion/Postgres/Pipe.antt =====
-- core-services-sql-engine/internal/digestion/connector/postgres.go: the goroutine of StreamRows and
-- whoever ranges over its channels, move by move.
pub mod Delivers
pub mod Blocked
mod Tests
use manju_backend.Prelude.{ℕ, List, [], ◌∷◌, ◌++◌, Option, none, some, if◌then◌else◌, length, ltb}
use manju_backend.Exec.{Error, failure}

-- `rowCh := make(chan Row, 100)`
abbrev pub capacity : ℕ
capacity = 100

-- Where the goroutine stands: at `rows.Next()`, at the select with a row in hand, at the send on
-- errCh, between the two deferred closes, or behind them.
pub data Producer (A : Type 0) : Type 0 where
  reading : List A → Option Error → Producer A
  sending : A → List A → Option Error → Producer A
  reporting : Option Error → Producer A
  closing closed : Producer A

-- Whoever ranges over rowCh with the rows that came so far, has then read errCh, or returned
-- before the channel was closed.
pub data Consumer (A : Type 0) : Type 0 where
  ranging : List A → Consumer A
  finished : List A → Option Error → Consumer A
  left : Consumer A

pub record Pipe (A : Type 0) : Type 0 where
  pub producer : Producer A
  pub row_ch : List A
  pub err_ch : Option Error
  pub consumer : Consumer A

pub data Move : Type 0 where
  produce cancel consume leave : Move

module _ {A : Type 0} where
  -- The rows that the cursor has, and the error that it ends with.
  abbrev pub start : List A → Option Error → Pipe A
  start rows stop = record {
    producer = reading rows stop;
    row_ch = [];
    err_ch = none;
    consumer = ranging [];
  }

  -- The next move of the goroutine. A send on the full channel blocks; errCh has room for its one
  -- error; errCh is closed before rowCh.
  unfoldable pub produced : Producer A → Pipe A → Option (Pipe A)
  produced (reading [] stop) p = some (record p { producer = reporting stop })
  produced (reading (a ∷ rows) stop) p = some (record p { producer = sending a rows stop })
  produced (sending a rows stop) p =
      if ltb (length p.row_ch) capacity
      then some (record p { producer = reading rows stop; row_ch = p.row_ch ++ a ∷ [] })
      else none
  produced (reporting e) p = some (record p { producer = closing; err_ch = e })
  produced closing p = some (record p { producer = closed })
  produced closed p = none

  -- `case <-ctx.Done()` of the select.
  unfoldable pub cancelled : Producer A → Pipe A → Option (Pipe A)
  cancelled (sending a rows stop) p =
      some (record p { producer = reporting (some (failure "context canceled")) })
  cancelled _ p = none

  -- The range ends when rowCh is closed and empty; then errCh gives its error, or nil.
  unfoldable pub ended : Producer A → List A → Pipe A → Option (Pipe A)
  ended closed taken p = some (record p { consumer = finished taken p.err_ch })
  ended _ taken p = none

  unfoldable pub received : List A → List A → Pipe A → Option (Pipe A)
  received [] taken p = ended p.producer taken p
  received (a ∷ row_ch) taken p =
      some (record p { row_ch = row_ch; consumer = ranging (taken ++ a ∷ []) })

  unfoldable pub consumed : Consumer A → Pipe A → Option (Pipe A)
  consumed (ranging taken) p = received p.row_ch taken p
  consumed _ p = none

  unfoldable pub departed : Consumer A → Pipe A → Option (Pipe A)
  departed (ranging taken) p = some (record p { consumer = left })
  departed _ p = none

  unfoldable pub move : Move → Pipe A → Option (Pipe A)
  move produce p = produced p.producer p
  move cancel p = cancelled p.producer p
  move consume p = consumed p.consumer p
  move leave p = departed p.consumer p

  abbrev pub and_then : Option (Pipe A) → (Pipe A → Option (Pipe A)) → Option (Pipe A)
  and_then none f = none
  and_then (some p) f = f p

  -- The moves one after another, and none if one of them is not possible when its turn comes.
  unfoldable pub run : List Move → Pipe A → Option (Pipe A)
  unfolding move
  run [] p = some p
  run (m ∷ moves) p = and_then (move m p) (run moves)

  abbrev pub AtSome : (Pipe A → Type 0) → Option (Pipe A) → Type 0
  AtSome P none = Unit
  AtSome P (some p) = P p

  AtSome-then :
      (P : Pipe A → Type 0) (f : Pipe A → Option (Pipe A)) (o : Option (Pipe A))
      → AtSome (λ q. AtSome P (f q)) o
      → AtSome P (and_then o f)
  AtSome-then P f none h = tt
  AtSome-then P f (some q) h = h

  pub AtSome-run :
      (P : Pipe A → Type 0) (m : Move) (moves : List Move) (p : Pipe A)
      → AtSome (λ q. AtSome P (run moves q)) (move m p)
      → AtSome P (run (m ∷ moves) p)
  unfolding run
  AtSome-run P m moves p h = AtSome-then P (run moves) (move m p) h

  pub AtSome-map :
      (P Q : Pipe A → Type 0) (f : (q : Pipe A) → P q → Q q) (o : Option (Pipe A))
      → AtSome P o
      → AtSome Q o
  AtSome-map P Q f none h = tt
  AtSome-map P Q f (some q) h = f q h

  -- What the goroutine has not put on rowCh yet.
  abbrev pub unsent : Producer A → List A
  unsent (reading rows stop) = rows
  unsent (sending a rows stop) = a ∷ rows
  unsent _ = []

-- The moves of the goroutine and of a caller who neither cancels nor returns.
abbrev pub IsTurn : Move → Type 0
IsTurn produce = Unit
IsTurn consume = Unit
IsTurn _ = ⊥
