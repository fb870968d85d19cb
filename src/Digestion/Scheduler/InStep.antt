-- ===== src/Digestion/Scheduler/InStep.antt =====
-- The scheduler and the cron agree on which sources are synced.
use manju_backend.Prelude.{
  ℕ, ◌≡◌, ap, sym, subst, ◌∙◌, String, true, false, not, ◌&&◌, List, [], ◌∷◌, ◌++◌, Option, none,
  some, ◌==◌, arith, inl, inr, Bool-cases, All,
}
use manju_backend.Exec.{ok}
use manju_backend.Table.{where_rows, any_row}
use manju_backend.Digestion.{Uuid}
use manju_backend.Digestion.Scheduler.{Cron, Scheduler, set_entry, every}

-- A function that the cron runs: the source that it syncs, and when.
pub record Job : Type 0 where
  pub id : ℕ
  pub spec : String
  pub source : Uuid

-- What the documentation of cron promises of the methods that the scheduler calls, `running` being
-- the functions that are entered: a period in seconds parses, an added function has a new id, and a
-- removal takes out the function with that id.
pub record IsCron {C : Type 0} (c : Cron C) (decimal : ℕ → String) (running : C → List Job)
    : Type 0 where
  pub accepts :
      (seconds : ℕ) (source : Uuid) (s : C)
      → (id : ℕ) × ((c.add_func (every decimal seconds) source s).0 ≡ ok id)
  pub added :
      (spec : String) (source : Uuid) (s : C) (id : ℕ)
      → (c.add_func spec source s).0 ≡ ok id
      → running (c.add_func spec source s).1
        ≡ running s ++ record { id = id; spec = spec; source = source } ∷ []
  pub fresh :
      (spec : String) (source : Uuid) (s : C) (id : ℕ)
      → (c.add_func spec source s).0 ≡ ok id
      → any_row (λ j. j.id == id) (running s) ≡ false
  pub removed :
      (id : ℕ) (s : C) → running (c.remove id s) ≡ where_rows (λ j. not (j.id == id)) (running s)

-- Every function that runs is the entry of its source, every entry runs, and no two sources share
-- an entry.
pub record IsInStep {C : Type 0} (running : C → List Job) (s : Scheduler C) : Type 0 where
  pub current : All (λ (j : Job). s.entries j.source ≡ some j.id) (running s.cron)
  pub runs :
      (source : Uuid) (id : ℕ)
      → s.entries source ≡ some id
      → any_row (λ j. j.id == id && j.source == source) (running s.cron) ≡ true
  pub apart :
      (a b : Uuid) (id : ℕ) → s.entries a ≡ some id → s.entries b ≡ some id → (a == b) ≡ true

pub any_row-same_id :
    (id : ℕ) (source : Uuid) (jobs : List Job)
    → any_row (λ (j : Job). j.id == id && j.source == source) jobs ≡ true
    → any_row (λ (j : Job). j.id == id) jobs ≡ true
any_row-same_id id source [] h = h
any_row-same_id id source (j ∷ jobs) h = ground (arith, any_row-same_id id source jobs)

-- Dropping the jobs with an id keeps the one of another id.
pub any_row-kept :
    (old id : ℕ) (source : Uuid) (jobs : List Job)
    → (id == old) ≡ false
    → any_row (λ (j : Job). j.id == id && j.source == source) jobs ≡ true
    → any_row
        (λ (j : Job). j.id == id && j.source == source)
        (where_rows (λ (j : Job). not (j.id == old)) jobs)
      ≡ true
any_row-kept old id source [] d h = h
any_row-kept old id source (j ∷ jobs) d h = ground (arith, any_row-kept old id source jobs d)

kept_entry :
    (entries : Uuid → Option ℕ) (source : Uuid) (old : ℕ) (entry : Option ℕ) (j : Job)
    → entries source ≡ some old
    → (j.id == old) ≡ false
    → entries j.source ≡ some j.id
    → set_entry source entry entries j.source ≡ some j.id
kept_entry entries source old entry j e d h = elim (Bool-cases (j.source == source)) [
  | inl t ↦
      let same : j.source ≡ source = ground arith in
      let ids : ◌≡◌ {A = Option ℕ} (some old) (some j.id) = sym e ∙ ap entries (sym same) ∙ h in
      let equal : old ≡ j.id = cc ids in ground arith
  | inr t ↦ rw t h
]

-- Dropping the jobs of a source's entry leaves jobs of other sources.
pub others_current :
    (entries : Uuid → Option ℕ) (source : Uuid) (old : ℕ) (entry : Option ℕ) (jobs : List Job)
    → entries source ≡ some old
    → All (λ (j : Job). entries j.source ≡ some j.id) jobs
    → All
        (λ (j : Job). set_entry source entry entries j.source ≡ some j.id)
        (where_rows (λ (j : Job). not (j.id == old)) jobs)
others_current entries source old entry [] e h = tt
others_current entries source old entry (j ∷ jobs) e h = elim (Bool-cases (j.id == old)) [
  | inl d ↦ rw d (others_current entries source old entry jobs e h.1)
  | inr d ↦ rw d (
    kept_entry entries source old entry j e d h.0,
    others_current entries source old entry jobs e h.1,
  )
]

-- A source without an entry has no job.
pub none_current :
    (entries : Uuid → Option ℕ) (source : Uuid) (entry : Option ℕ) (jobs : List Job)
    → entries source ≡ none
    → All (λ (j : Job). entries j.source ≡ some j.id) jobs
    → All (λ (j : Job). set_entry source entry entries j.source ≡ some j.id) jobs
none_current entries source entry [] e h = tt
none_current entries source entry (j ∷ jobs) e h = (
  elim (Bool-cases (j.source == source)) [
    | inl t ↦
        let same : j.source ≡ source = ground arith in
        let ids : ◌≡◌ {A = Option ℕ} none (some j.id) = sym e ∙ ap entries (sym same) ∙ h.0 in
        cc ids
    | inr t ↦ rw t h.0
  ],
  none_current entries source entry jobs e h.1,
)

module _ {C : Type 0} (running : C → List Job) where
  -- The scheduler once the old entry of a source is out.
  pub record IsCleared (source : Uuid) (s : Scheduler C) (cron : C) : Type 0 where
    pub current :
        (entry : Option ℕ)
        → All (λ (j : Job). set_entry source entry s.entries j.source ≡ some j.id) (running cron)
    pub runs :
        (other : Uuid) (id : ℕ)
        → (other == source) ≡ false
        → s.entries other ≡ some id
        → any_row (λ j. j.id == id && j.source == other) (running cron) ≡ true

module _ {C : Type 0} (c : Cron C) (decimal : ℕ → String) (running : C → List Job)
    (law : IsCron c decimal running) where
  pub IsCleared-none :
      (source : Uuid) (s : Scheduler C)
      → IsInStep running s
      → s.entries source ≡ none
      → IsCleared running source s s.cron
  IsCleared-none source s h e = record {
    current = λ entry. none_current s.entries source entry (running s.cron) e h.current;
    runs = λ other id d f. h.runs other id f;
  }

  pub IsCleared-some :
      (source : Uuid) (s : Scheduler C) (old : ℕ)
      → IsInStep running s
      → s.entries source ≡ some old
      → IsCleared running source s (c.remove old s.cron)
  IsCleared-some source s old h e = record {
    current = λ entry.
        subst (All (λ (j : Job). set_entry source entry s.entries j.source ≡ some j.id))
          (sym (law.removed old s.cron))
          (others_current s.entries source old entry (running s.cron) e h.current);
    runs = λ other id d f.
        ap (any_row (λ j. j.id == id && j.source == other)) (law.removed old s.cron)
        ∙ any_row-kept old id other (running s.cron) (different other id d f) (h.runs other id f);
  }
    where
      different :
          (other : Uuid) (id : ℕ)
          → (other == source) ≡ false
          → s.entries other ≡ some id
          → (id == old) ≡ false
      different other id d f = elim (Bool-cases (id == old)) [
        | inl t ↦
            let same : id ≡ old = ground arith in
            cc (h.apart other source old (f ∙ ap some same) e, d)
        | inr t ↦ t
      ]
