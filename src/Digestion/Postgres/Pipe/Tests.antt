-- ===== src/Digestion/Postgres/Pipe/Tests.antt =====
-- core-services-sql-engine/internal/digestion/connector/postgres.go: runs of the channels.
use manju_backend.Prelude.{
  ℕ, zero, suc, ◌+◌, ◌*◌, ◌≡◌, ◌≤◌, ◌≢◌, refl, List, [], ◌∷◌, none, some, ◌⊎◌, length, arith,
}
use manju_backend.Exec.{failure}
use manju_backend.Digestion.Postgres.Pipe.{
  Pipe, Move, produce, consume, run, move, produced, consumed, received, ended, reading, sending,
  closed, finished, left,
}
use manju_backend.Digestion.Postgres.Pipe.Delivers.{CanMove, run-delivers}
use manju_backend.Digestion.Postgres.Pipe.Blocked.{run-blocked}

-- A caller that is ahead of the goroutine once.
abbrev turns : List Move
turns =
    produce ∷ produce ∷ consume ∷ produce ∷ produce ∷ produce ∷ produce ∷ consume ∷ produce
    ∷ consume ∷ []

abbrev sent : List ℕ
sent = 7 ∷ 8 ∷ []

abbrev delivered : Pipe ℕ
delivered = record {
  producer = closed;
  row_ch = [];
  err_ch = some (failure "connection reset");
  consumer = finished sent (some (failure "connection reset"));
}

run-delivers_example :
    (length turns ≤ 3 * length sent + 4)
    × (CanMove delivered ⊎ (delivered.consumer ≡ finished sent (some (failure "connection reset"))))
unfolding run move produced consumed received ended
run-delivers_example =
    run-delivers sent (some (failure "connection reset")) turns delivered
      (tt, (tt, (tt, (tt, (tt, (tt, (tt, (tt, (tt, (tt, tt)))))))))) refl

abbrev numbers : ℕ → List ℕ
numbers zero = []
numbers (suc n) = n ∷ numbers n

-- The caller returned when the channel was full, and 10 rows were still to come.
abbrev abandoned : Pipe ℕ
abandoned = record {
  producer = reading (numbers 10) none;
  row_ch = numbers 100;
  err_ch = none;
  consumer = left;
}

abbrev waiting : Pipe ℕ
waiting = record abandoned { producer = sending 9 (numbers 9) none }

run-blocked_example : waiting.producer ≢ closed
unfolding run move produced
run-blocked_example =
    run-blocked abandoned (produce ∷ []) waiting (refl, omega arith, omega arith) (tt, tt) refl
