-- ===== src/Digestion/Scheduler/Schedule.antt =====
-- ScheduleSource and UnscheduleSource of scheduler.go keep the scheduler and the cron in step.
use manju_backend.Prelude.{
  ℕ, ℤ, ◌≡◌, refl, ap, sym, subst, ◌∙◌, String, true, false, ◌&&◌, List, [], ◌∷◌, ◌++◌, Option,
  none, some, ◌==◌, arith, inl, inr, Bool-cases, All, All-append,
}
use manju_backend.Exec.{ok}
use manju_backend.Table.{any_row}
use manju_backend.Table.Laws.{any_row-append}
use manju_backend.Digestion.{Uuid}
use manju_backend.Digestion.Scheduler.{
  Cron, Scheduler, set_entry, effective_interval, every, schedule_source, unschedule_source, enter,
  leave, remove_old,
}
use manju_backend.Digestion.Scheduler.InStep.{
  Job, IsCron, IsInStep, IsCleared, IsCleared-none, IsCleared-some, any_row-same_id,
}

module _ {C : Type 0} (c : Cron C) (decimal : ℕ → String) (uuid_string : Uuid → String)
    (running : C → List Job) (law : IsCron c decimal running) where
  module _ (source : Uuid) (spec : String) (s : Scheduler C) (cron : C)
      (cleared : IsCleared running source s cron) (h : IsInStep running s) (id : ℕ)
      (ok_id : (c.add_func spec source cron).0 ≡ ok id) where
    abbrev entries : Uuid → Option ℕ
    entries = set_entry source (some id) s.entries

    abbrev jobs : List Job
    jobs = running cron ++ record { id = id; spec = spec; source = source } ∷ []

    here : entries source ≡ some id
    here = rw (unfold_eq) refl
      where
        unfold_eq : (source == source) ≡ true
        unfold_eq = ground arith

    new_id : (other : Uuid) (i : ℕ) → (other == source) ≡ true → entries other ≡ some i → id ≡ i
    new_id other i t f =
        let equal : ◌≡◌ {A = Option ℕ} (some id) (some i) =
          sym here ∙ ap entries (source_is other t) ∙ f in
        cc equal
      where
        source_is : (other : Uuid) → (other == source) ≡ true → source ≡ other
        source_is other t = ground arith

    entered_runs :
        (other : Uuid) (i : ℕ)
        → entries other ≡ some i
        → any_row (λ j. j.id == i && j.source == other) jobs ≡ true
    entered_runs other i f = elim (Bool-cases (other == source)) [
      | inl t ↦
          let equal : id ≡ i = new_id other i t f in
          ground (
            arith,
            any_row-append (λ (j : Job). j.id == i && j.source == other) (running cron)
                (record { id = id; spec = spec; source = source } ∷ []),
          )
      | inr t ↦
          let old : s.entries other ≡ some i = rw t at f in
          ground (
            arith,
            cleared.runs other i t old,
            any_row-append (λ (j : Job). j.id == i && j.source == other) (running cron)
                (record { id = id; spec = spec; source = source } ∷ []),
          )
    ]

    -- The new id is not that of another source.
    not_new : (other : Uuid) → (other == source) ≡ false → s.entries other ≡ some id → false ≡ true
    not_new other d f =
        sym (law.fresh spec source cron id ok_id)
        ∙ any_row-same_id id other (running cron) (cleared.runs other id d f)

    entered_apart : (a b : Uuid) (i : ℕ) → entries a ≡ some i → entries b ≡ some i → (a == b) ≡ true
    entered_apart a b i fa fb = elim (Bool-cases (a == source)) [
      | inl ta ↦ elim (Bool-cases (b == source)) [
        | inl tb ↦ ground arith
        | inr tb ↦ cc (not_new b tb ((rw tb at fb) ∙ ap some (sym (new_id a i ta fa))))
      ]
      | inr ta ↦ elim (Bool-cases (b == source)) [
        | inl tb ↦ cc (not_new a ta ((rw ta at fa) ∙ ap some (sym (new_id b i tb fb))))
        | inr tb ↦ h.apart a b i (rw ta at fa) (rw tb at fb)
      ]
    ]

    entered :
        IsInStep running (record { cron = (c.add_func spec source cron).1; entries = entries })
    entered = record {
      current =
          subst (All (λ (j : Job). entries j.source ≡ some j.id))
            (sym (law.added spec source cron id ok_id))
            (All-append (λ (j : Job). entries j.source ≡ some j.id) (running cron) _
              (cleared.current (some id)) (here, tt));
      runs = λ other i f.
          ap (any_row (λ j. j.id == i && j.source == other)) (law.added spec source cron id ok_id)
          ∙ entered_runs other i f;
      apart = entered_apart;
    }

  left :
      (source : Uuid) (s : Scheduler C) (cron : C)
      → IsCleared running source s cron
      → IsInStep running s
      → IsInStep running (record { cron = cron; entries = set_entry source none s.entries })
  left source s cron cleared h = record {
    current = cleared.current none;
    runs = left_runs;
    apart = left_apart;
  }
    where
      left_runs :
          (other : Uuid) (i : ℕ)
          → set_entry source none s.entries other ≡ some i
          → any_row (λ j. j.id == i && j.source == other) (running cron) ≡ true
      left_runs other i f = elim (Bool-cases (other == source)) [
        | inl t ↦ cc (rw t at f)
        | inr t ↦ cleared.runs other i t (rw t at f)
      ]

      left_apart :
          (a b : Uuid) (i : ℕ)
          → set_entry source none s.entries a ≡ some i
          → set_entry source none s.entries b ≡ some i
          → (a == b) ≡ true
      left_apart a b i fa fb = elim (Bool-cases (a == source)) [
        | inl ta ↦ cc (rw ta at fa)
        | inr ta ↦ elim (Bool-cases (b == source)) [
          | inl tb ↦ cc (rw tb at fb)
          | inr tb ↦ h.apart a b i (rw ta at fa) (rw tb at fb)
        ]
      ]

  -- If the cron does what its documentation says, scheduling a source succeeds and keeps the
  -- scheduler and the cron in step: afterwards too every function that runs is the entry of its
  -- source, every entry runs, and no two sources share one.
  pub schedule_source-IsInStep :
      (source : Uuid) (seconds : ℤ) (s : Scheduler C)
      → IsInStep running s
      → ((schedule_source c decimal uuid_string source seconds s).0 ≡ ok tt)
        × IsInStep running (schedule_source c decimal uuid_string source seconds s).1
  unfolding schedule_source
  schedule_source-IsInStep source seconds s h = go (s.entries source) refl
    where
      spec : String
      spec = every decimal (effective_interval seconds)

      add :
          (cron : C)
          → IsCleared running source s cron
          → ((enter c decimal uuid_string source s (c.add_func spec source cron)).0 ≡ ok tt)
            × IsInStep running
                (enter c decimal uuid_string source s (c.add_func spec source cron)).1
      add cron cleared =
          let accepted = law.accepts (effective_interval seconds) source cron in
          rw accepted.1 (refl, entered source spec s cron cleared h accepted.0 accepted.1)

      go :
          (o : Option ℕ)
          → s.entries source ≡ o
          → ((enter c decimal uuid_string source s
                (c.add_func spec source (remove_old c decimal uuid_string o s.cron))).0
              ≡ ok tt)
            × IsInStep running
                (enter c decimal uuid_string source s
                  (c.add_func spec source (remove_old c decimal uuid_string o s.cron))).1
      go none e = add s.cron (IsCleared-none c decimal running law source s h e)
      go (some old) e =
          add (c.remove old s.cron) (IsCleared-some c decimal running law source s old h e)

  -- If the cron does what its documentation says, unscheduling a source keeps the two in step, and
  -- the source is not entered any more.
  pub unschedule_source-IsInStep :
      (source : Uuid) (s : Scheduler C)
      → IsInStep running s
      → IsInStep running (unschedule_source c decimal uuid_string source s)
        × ((unschedule_source c decimal uuid_string source s).entries source ≡ none)
  unfolding unschedule_source
  unschedule_source-IsInStep source s h = go (s.entries source) refl
    where
      same : (source == source) ≡ true
      same = ground arith

      go :
          (o : Option ℕ)
          → s.entries source ≡ o
          → IsInStep running (leave c decimal uuid_string source s o)
            × ((leave c decimal uuid_string source s o).entries source ≡ none)
      go none e = (h, e)
      go (some old) e =
          (left source s _ (IsCleared-some c decimal running law source s old h e) h, rw same refl)
