-- ===== src/Digestion/Api/Sources.antt =====
-- What clients are answered about sources, and what became of them.
use manju_backend.Prelude.{
  All, [], ◌∷◌, Bool-cases, same_id, ◌&&◌, ℕ, suc, ◌≡◌, refl, sym, ap, ◌∙◌, String, true, false,
  List, ◌⊎◌, inl, inr, Option, none, some, Option-cases, ◌==◌,
}
use manju_backend.Exec
use manju_backend.Exec.{Error, Result, err, wrap, Exec, pure, ignore}
use manju_backend.Http.{Response, Outcome, final, Codecs}
use manju_backend.Table.{first_row, any_row}
use manju_backend.Table.Laws.{first_row-delete_rows}
use manju_backend.Digestion.{Uuid, Source, Env}
use manju_backend.Digestion.Connector.{Connector, Driver}
use manju_backend.Digestion.SourceStore
use manju_backend.Digestion.SourceStore.{source_is}
use manju_backend.Digestion.SchemaStore
use manju_backend.Digestion.SchemaStore.{without_source}
use manju_backend.Digestion.Engine.{RegisterSourceRequest, register_source}
use manju_backend.Digestion.Engine.Sources
use manju_backend.Digestion.Scheduler.{Cron, Scheduler, unschedule_source}
use manju_backend.Digestion.Scheduler.Schedule.{unschedule_source-IsInStep}
use manju_backend.Digestion.Scheduler.InStep.{Job, IsCron, IsInStep}
use manju_backend.Digestion.Api.{Request, Server, Body, ok, created, no_content, with_port, source}
use manju_backend.Digestion.Api.Handlers.{delete_sources_id, handle, delete_source}

-- The source has an entry, and the cron runs it.
abbrev pub IsScheduled : {C : Type 0} → (C → List Job) → Uuid → Scheduler C → Type 0
IsScheduled running id t =
    (entry : ℕ) × (t.entries id ≡ some entry)
    × (any_row (λ j. j.id == entry && j.source == id) (running t.cron) ≡ true)

module _ {V C : Type 0} (codecs : Codecs) (env : Env V) (connect : Driver → Result (Connector V))
    (c : Cron C) (decimal : ℕ → String) (uuid_string : Uuid → String) (running : C → List Job)
    (law : IsCron c decimal running) where
  -- A source that is not entered has no job.
  no_job :
      (id : Uuid) (entries : Uuid → Option ℕ) (jobs : List Job)
      → entries id ≡ none
      → All (λ (j : Job). entries j.source ≡ some j.id) jobs
      → any_row (λ (j : Job). j.source == id) jobs ≡ false
  no_job id entries [] e h = refl
  no_job id entries (j ∷ jobs) e h = elim (Bool-cases (j.source == id)) [
    | inl t ↦
        let same : j.source ≡ id = same_id j.source id t in
        let known : entries id ≡ some j.id = ap entries (sym same) ∙ h.0 in cc (e, known)
    | inr t ↦ rw t (no_job id entries jobs e h.1)
  ]

  unscheduled :
      (id : Uuid) (t : Scheduler C)
      → IsInStep running t
      → ((unschedule_source c decimal uuid_string id t).entries id ≡ none)
        × (any_row
              (λ (j : Job). j.source == id)
              (running (unschedule_source c decimal uuid_string id t).cron)
            ≡ false)
  unscheduled id t h =
      let (step, gone) = unschedule_source-IsInStep c decimal uuid_string running law id t h in
      (gone, no_job id _ (running _) gone step.current)

  -- If the cron does what its documentation says and is in step with the scheduler, a request to
  -- delete a source takes it out of both in any case: it has no entry, and no function that runs
  -- syncs it. It is answered 204 with the source gone, or 500 with every table as it was: then the
  -- source is there and not synced any more.
  pub delete_source-IsUnscheduled :
      (req : Request) (id : Uuid) (s : Server V C)
      → IsInStep running s.scheduler
      → codecs.parse_uuid (req.param "sourceId") ≡ some id
      → let r = handle codecs env connect c decimal uuid_string req delete_sources_id s in
        (r.1.scheduler.entries id ≡ none)
        × (any_row (λ j. j.source == id) (running r.1.scheduler.cron) ≡ false)
        × (((r.0 ≡ no_content) × (first_row (source_is id) r.1.world.sources ≡ none))
            ⊎ ((r.0.status ≡ 500) × (r.1.world ≡ record s.world { calls = suc s.world.calls })))
  unfolding handle delete_source Sources.delete_source SchemaStore.delete_source without_source
  delete_source-IsUnscheduled req id s step parsed =
      let (gone, idle) = unscheduled id s.scheduler step in
      elim (Option-cases (env.fault s.world.calls)) [
        | inl quiet ↦
            rw (parsed, quiet)
              (gone, idle, inl (refl, first_row-delete_rows (source_is id) s.world.sources))
        | inr (x, e) ↦ rw (parsed, e) (gone, idle, inr (refl, refl))
      ]

  module _ (req : Request) (s : Server V C) (src : Source) where
    -- What an answer that shows a created source means.
    abbrev Created : Outcome (Response (Body V)) (Response (Body V)) × Server V C → Type 0
    Created o =
        final o.0 ≡ created (source src)
        → (bound : RegisterSourceRequest) × ((register_source env (with_port bound) s.world).0
            ≡ Exec.ok src)
          × (o.1.world ≡ (register_source env (with_port bound) s.world).1)
          × (src.sync_enabled ≡ true → IsScheduled running src.id o.1.scheduler)
