-- ===== src/Digestion/Postgres/Pipe/Delivers.antt =====
-- core-services-sql-engine/internal/digestion/connector/postgres.go: what comes through the channels
-- of StreamRows to a caller who drains them.
use manju_backend.Prelude.{
  ℕ, suc, ◌≢◌, ◌+◌, ◌*◌, ◌≡◌, ◌≤◌, refl, sym, ap, ◌∙◌, subst, Bool, true, false, List, [], ◌∷◌,
  ◌++◌, Option, none, some, ◌⊎◌, inl, inr, if◌then◌else◌, length, length-append, ltb, All, arith,
}
use mathlib.Core.List.{append_assoc, append-nil}
use manju_backend.Exec.{Error}
use manju_backend.Digestion.Postgres.Pipe.{
  Producer, reading, sending, reporting, closing, closed, Consumer, ranging, finished, left, Pipe,
  Move, produce, cancel, consume, leave, start, move, run, produced, consumed, received, ended,
  AtSome, AtSome-run, AtSome-map, unsent, IsTurn, capacity,
}

some≢none : {A : Type 0} (a : A) → some a ≢ none
some≢none a e = cc

module _ {A : Type 0} where
  -- The moves that are left at most: a row is fetched, sent and received.
  abbrev pub producer_moves : Producer A → ℕ
  producer_moves (reading rows stop) = 3 * length rows + 3
  producer_moves (sending a rows stop) = 3 * length rows + 5
  producer_moves (reporting e) = 2
  producer_moves closing = 1
  producer_moves closed = 0

  abbrev pub consumer_moves : Consumer A → ℕ
  consumer_moves (ranging taken) = 1
  consumer_moves _ = 0

  abbrev pub moves_left : Pipe A → ℕ
  moves_left p = producer_moves p.producer + length p.row_ch + consumer_moves p.consumer

  -- The goroutine or the caller can go on.
  abbrev pub CanMove : Pipe A → Type 0
  CanMove p = (move produce p ≢ none) ⊎ (move consume p ≢ none)

  module _ (rows : List A) (stop : Option Error) where
    abbrev EndsWith : Producer A → Option Error → Type 0
    EndsWith (reading _ e) err_ch = e ≡ stop
    EndsWith (sending _ _ e) err_ch = e ≡ stop
    EndsWith (reporting e) err_ch = e ≡ stop
    EndsWith _ err_ch = err_ch ≡ stop

    abbrev Fed : Consumer A → Producer A → List A → Option Error → Type 0
    Fed (ranging taken) x row_ch err_ch = (taken ++ (row_ch ++ unsent x) ≡ rows) × EndsWith x err_ch
    Fed (finished taken e) closed row_ch err_ch = (taken ≡ rows) × (e ≡ stop)
    Fed (finished taken e) _ row_ch err_ch = ⊥
    Fed left x row_ch err_ch = ⊥

    -- Nothing is lost, doubled or out of order on the way.
    abbrev IsFed : Pipe A → Type 0
    IsFed p = Fed p.consumer p.producer p.row_ch p.err_ch

    abbrev Next : Pipe A → Pipe A → Type 0
    Next p q = IsFed q × (1 + moves_left q ≤ moves_left p)

    abbrev pipe : Producer A → List A → Option Error → Consumer A → Pipe A
    pipe x row_ch err_ch c = record { producer = x; row_ch = row_ch; err_ch = err_ch; consumer = c }

    sent-Next : (p q : Pipe A) (b : Bool) → Next p q → AtSome (Next p) (if b then some q else none)
    sent-Next p q true h = h
    sent-Next p q false h = tt

    produced-Next :
        (x : Producer A) (row_ch : List A) (err_ch : Option Error) (c : Consumer A)
        → IsFed (pipe x row_ch err_ch c)
        → AtSome (Next (pipe x row_ch err_ch c)) (produced x (pipe x row_ch err_ch c))
    unfolding produced
    produced-Next (reading [] e) row_ch err_ch (ranging taken) h = (h, omega arith)
    produced-Next (reading (a ∷ rest) e) row_ch err_ch (ranging taken) h = (h, omega arith)
    produced-Next (sending a rest e) row_ch err_ch (ranging taken) h =
        sent-Next (pipe (sending a rest e) row_ch err_ch (ranging taken))
          (pipe (reading rest e) (row_ch ++ a ∷ []) err_ch (ranging taken))
          (ltb (length row_ch) capacity)
          (
            (ap (λ l. taken ++ l) (append_assoc row_ch (a ∷ []) rest) ∙ h.0, h.1),
            omega (arith, length-append row_ch (a ∷ [])),
          )
    produced-Next (reporting e) row_ch err_ch (ranging taken) h = (h, omega arith)
    produced-Next closing row_ch err_ch (ranging taken) h = (h, omega arith)
    produced-Next closed row_ch err_ch c h = tt
    produced-Next (reading rest e) row_ch err_ch (finished taken f) h = absurd h
    produced-Next (sending a rest e) row_ch err_ch (finished taken f) h = absurd h
    produced-Next (reporting e) row_ch err_ch (finished taken f) h = absurd h
    produced-Next closing row_ch err_ch (finished taken f) h = absurd h
    produced-Next x row_ch err_ch left h = absurd h

    received-Next :
        (x : Producer A) (row_ch : List A) (err_ch : Option Error) (taken : List A)
        → IsFed (pipe x row_ch err_ch (ranging taken))
        → AtSome
            (Next (pipe x row_ch err_ch (ranging taken)))
            (received row_ch taken (pipe x row_ch err_ch (ranging taken)))
    unfolding received ended
    received-Next closed [] err_ch taken h = ((sym (append-nil taken) ∙ h.0, h.1), omega arith)
    received-Next (reading rest e) [] err_ch taken h = tt
    received-Next (sending a rest e) [] err_ch taken h = tt
    received-Next (reporting e) [] err_ch taken h = tt
    received-Next closing [] err_ch taken h = tt
    received-Next x (a ∷ row_ch) err_ch taken h =
        ((append_assoc taken (a ∷ []) (row_ch ++ unsent x) ∙ h.0, h.1), omega arith)

    consumed-Next :
        (c : Consumer A) (x : Producer A) (row_ch : List A) (err_ch : Option Error)
        → IsFed (pipe x row_ch err_ch c)
        → AtSome (Next (pipe x row_ch err_ch c)) (consumed c (pipe x row_ch err_ch c))
    unfolding consumed
    consumed-Next (ranging taken) x row_ch err_ch h = received-Next x row_ch err_ch taken h
    consumed-Next (finished taken e) x row_ch err_ch h = tt
    consumed-Next left x row_ch err_ch h = absurd h

    move-Next : (m : Move) (p : Pipe A) → IsTurn m → IsFed p → AtSome (Next p) (move m p)
    unfolding move
    move-Next produce p t h = produced-Next p.producer p.row_ch p.err_ch p.consumer h
    move-Next consume p t h = consumed-Next p.consumer p.producer p.row_ch p.err_ch h
    move-Next cancel p t h = absurd t
    move-Next leave p t h = absurd t

    run-IsFed :
        (moves : List Move) (p : Pipe A)
        → All IsTurn moves
        → IsFed p
        → AtSome (λ q. IsFed q × (length moves + moves_left q ≤ moves_left p)) (run moves p)
    unfolding run
    run-IsFed [] p t h = (h, omega arith)
    run-IsFed (m ∷ moves) p t h =
        AtSome-run (λ q. IsFed q × (suc (length moves) + moves_left q ≤ moves_left p)) m moves p
          (AtSome-map (Next p)
            (λ q.
              AtSome (λ r. IsFed r × (suc (length moves) + moves_left r ≤ moves_left p))
                (run moves q))
            (λ q n.
              AtSome-map (λ r. IsFed r × (length moves + moves_left r ≤ moves_left q))
                (λ r. IsFed r × (suc (length moves) + moves_left r ≤ moves_left p))
                (λ r k. (k.0, omega (arith, k.1, n.1))) (run moves q) (run-IsFed moves q t.1 n.0))
            (move m p) (move-Next m p t.0 h))

    finished-Fed :
        (c : Consumer A) (x : Producer A) (row_ch : List A) (err_ch : Option Error)
        → IsFed (pipe x row_ch err_ch c)
        → CanMove (pipe x row_ch err_ch c) ⊎ (c ≡ finished rows stop)
    unfolding move produced consumed received ended
    finished-Fed (ranging taken) x (a ∷ row_ch) err_ch h = inl (inr (some≢none _))
    finished-Fed (ranging taken) (reading [] f) [] err_ch h = inl (inl (some≢none _))
    finished-Fed (ranging taken) (reading (a ∷ rest) f) [] err_ch h = inl (inl (some≢none _))
    finished-Fed (ranging taken) (sending a rest f) [] err_ch h = inl (inl (some≢none _))
    finished-Fed (ranging taken) (reporting f) [] err_ch h = inl (inl (some≢none _))
    finished-Fed (ranging taken) closing [] err_ch h = inl (inl (some≢none _))
    finished-Fed (ranging taken) closed [] err_ch h = inl (inr (some≢none _))
    finished-Fed (finished taken e) closed row_ch err_ch h =
        inr (ap (λ t. finished t e) h.0 ∙ ap (λ f. finished rows f) h.1)
    finished-Fed (finished taken e) (reading rest f) row_ch err_ch h = absurd h
    finished-Fed (finished taken e) (sending a rest f) row_ch err_ch h = absurd h
    finished-Fed (finished taken e) (reporting f) row_ch err_ch h = absurd h
    finished-Fed (finished taken e) closing row_ch err_ch h = absurd h
    finished-Fed left x row_ch err_ch h = absurd h

-- However the goroutine of StreamRows and a caller who drains its channels take turns, they make
-- at most 3 moves a row and 4 more, and while the caller waits one of them can go on; in the end
-- the caller has every row of the cursor, in order, and the error that it ended with.
pub run-delivers :
    {A : Type 0} (rows : List A) (stop : Option Error) (moves : List Move) (q : Pipe A)
    → All IsTurn moves
    → run moves (start rows stop) ≡ some q
    → (length moves ≤ 3 * length rows + 4) × (CanMove q ⊎ (q.consumer ≡ finished rows stop))
run-delivers rows stop moves q t r =
    (omega (arith, fed.1), finished-Fed rows stop q.consumer q.producer q.row_ch q.err_ch fed.0)
  where
    fed : IsFed rows stop q × (length moves + moves_left q ≤ moves_left (start rows stop))
    fed =
        subst
          (λ o.
            AtSome
              (λ p.
                IsFed rows stop p × (length moves + moves_left p ≤ moves_left (start rows stop)))
              o)
          r (run-IsFed rows stop moves (start rows stop) t (refl, refl))
