-- ===== src/Digestion/Postgres/Pipe/Blocked.antt =====
-- core-services-sql-engine/internal/digestion/connector/postgres.go: the goroutine of StreamRows when
-- its caller has returned, as runFullSync of sync.go does on an error of UpsertRow.
use manju_backend.Prelude.{
  ℕ, ◌≢◌, ◌+◌, ◌≡◌, ◌≤◌, ◌<◌, refl, Bool, true, false, List, [], ◌∷◌, none, some, if◌then◌else◌,
  length, length-append, ltb, ltb→lt, All, arith, subst,
}
use manju_backend.Digestion.Postgres.Pipe.{
  Producer, reading, sending, reporting, closing, closed, Consumer, ranging, finished, left, Pipe,
  Move, produce, cancel, consume, leave, move, run, produced, consumed, AtSome, AtSome-run,
  AtSome-map, unsent, IsTurn, capacity,
}

module _ {A : Type 0} where
  -- The caller has returned, and there are more rows than fit in the channel.
  abbrev pub IsAbandoned : Pipe A → Type 0
  IsAbandoned p =
      (p.consumer ≡ left)
      × (length p.row_ch ≤ capacity)
      × (capacity < length p.row_ch + length (unsent p.producer))

  sent-IsAbandoned :
      (q : Pipe A) (b : Bool)
      → (b ≡ true → IsAbandoned q)
      → AtSome IsAbandoned (if b then some q else none)
  sent-IsAbandoned q true h = h refl
  sent-IsAbandoned q false h = tt

  produced-IsAbandoned :
      (x : Producer A) (p : Pipe A)
      → p.consumer ≡ left
      → length p.row_ch ≤ capacity
      → capacity < length p.row_ch + length (unsent x)
      → AtSome IsAbandoned (produced x p)
  unfolding produced
  produced-IsAbandoned (reading [] e) p l h k = absurd (omega arith)
  produced-IsAbandoned (reading (a ∷ rest) e) p l h k = (l, h, k)
  produced-IsAbandoned (sending a rest e) p l h k =
      sent-IsAbandoned _ (ltb (length p.row_ch) capacity) (λ t. (
        l,
        (let lt = ltb→lt (length p.row_ch) capacity t in
            omega (arith, length-append p.row_ch (a ∷ []))),
        omega (arith, length-append p.row_ch (a ∷ [])),
      ))
  produced-IsAbandoned (reporting e) p l h k = absurd (omega arith)
  produced-IsAbandoned closing p l h k = absurd (omega arith)
  produced-IsAbandoned closed p l h k = tt

  consumed-IsAbandoned :
      (c : Consumer A) (p : Pipe A) → c ≡ left → AtSome IsAbandoned (consumed c p)
  unfolding consumed
  consumed-IsAbandoned (ranging taken) p l = absurd cc
  consumed-IsAbandoned (finished taken e) p l = tt
  consumed-IsAbandoned left p l = tt

  move-IsAbandoned :
      (m : Move) (p : Pipe A) → IsTurn m → IsAbandoned p → AtSome IsAbandoned (move m p)
  unfolding move
  move-IsAbandoned produce p t h = produced-IsAbandoned p.producer p h.0 h.1 h.2
  move-IsAbandoned consume p t h = consumed-IsAbandoned p.consumer p h.0
  move-IsAbandoned cancel p t h = absurd t
  move-IsAbandoned leave p t h = absurd t

  run-IsAbandoned :
      (moves : List Move) (p : Pipe A)
      → All IsTurn moves
      → IsAbandoned p
      → AtSome IsAbandoned (run moves p)
  unfolding run
  run-IsAbandoned [] p t h = h
  run-IsAbandoned (m ∷ moves) p t h = AtSome-run IsAbandoned m moves p (
      AtSome-map IsAbandoned (λ q. AtSome IsAbandoned (run moves q))
        (λ q k. run-IsAbandoned moves q t.1 k) (move m p) (move-IsAbandoned m p t.0 h))

  IsAbandoned-open :
      (x : Producer A) (n : ℕ) → n ≤ capacity → capacity < n + length (unsent x) → x ≢ closed
  IsAbandoned-open (reading rest e) n h k = λ c. absurd cc
  IsAbandoned-open (sending a rest e) n h k = λ c. absurd cc
  IsAbandoned-open (reporting e) n h k = absurd (omega arith)
  IsAbandoned-open closing n h k = absurd (omega arith)
  IsAbandoned-open closed n h k = absurd (omega arith)

-- If the caller of StreamRows returns while more rows are on their way than the channel holds, and
-- the context is not cancelled, then the goroutine never ends: whatever moves follow, it has not
-- closed the channel.
pub run-blocked :
    {A : Type 0} (p : Pipe A) (moves : List Move) (q : Pipe A)
    → IsAbandoned p
    → All IsTurn moves
    → run moves p ≡ some q
    → q.producer ≢ closed
run-blocked p moves q h t r = IsAbandoned-open q.producer (length q.row_ch) kept.1 kept.2
  where
    kept : IsAbandoned q
    kept = subst (AtSome IsAbandoned) r (run-IsAbandoned moves p t h)
