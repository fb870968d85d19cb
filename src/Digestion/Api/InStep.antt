-- ===== src/Digestion/Api/InStep.antt =====
-- The scheduler and the cron stay in step through the requests.
use manju_backend.Prelude.{ℤ, ℕ, String, Bool, true, false, List, [], ◌∷◌, Option}
use manju_backend.Exec.{Error, Result, Exec}
use manju_backend.Http.{
  next, Response, Outcome, value, reply, Handler, Codecs, proceed, required, call, demand, ◌>>=◌,
}
use manju_backend.Digestion.{Uuid, Source, Env, World}
use manju_backend.Digestion.Connector.{Connector, Driver}
use manju_backend.Digestion.Scheduler.{Cron, Scheduler, schedule_source, unschedule_source}
use manju_backend.Digestion.Scheduler.InStep.{Job, IsCron, IsInStep}
use manju_backend.Digestion.Scheduler.Schedule.{
  schedule_source-IsInStep, unschedule_source-IsInStep,
}
use manju_backend.Digestion.Api.{Request, Server, Body, server_error, on_world}
use manju_backend.Digestion.Api.Handlers.{
  Route, get_health, get_sources, post_sources, get_sources_id, delete_sources_id, post_discover,
  get_source_tables, get_source_table, get_table_columns, post_source_sync, post_table_sync,
  get_source_jobs, get_job, get_table_data, get_table_changes, get_table_snapshots, handle, handler,
  list_sources, get_source, create_source, delete_source, discover, list_tables, get_table,
  list_columns, sync_source, sync_table, query_data, list_changes, list_snapshots, list_sync_jobs,
  get_sync_job, schedule_if, unschedule, launch,
}

-- A step that keeps a property of the scheduler.
pub record Keeps {V C A : Type 0} (P : Scheduler C → Type 0)
    (m : Handler (Response (Body V)) (Server V C) A) : Type 0 where
  pub keeps : (s : Server V C) → P s.scheduler → P (m s).1.scheduler

module _ {V C A B : Type 0} (P : Scheduler C → Type 0) where
  Keeps-bind :
      (m : Handler (Response (Body V)) (Server V C) A)
      (f : A → Handler (Response (Body V)) (Server V C) B)
      → Keeps P m
      → ((a : A) → Keeps P (f a))
      → Keeps P (m >>= f)
  Keeps-bind m f km kf = record { keeps = λ s p. go (m s).0 (m s).1 (km.keeps s p) }
    where
      go :
          (o : Outcome (Response (Body V)) A) (t : Server V C)
          → P t.scheduler
          → P (next o f t).1.scheduler
      go (value a) t p = (kf a).keeps t p
      go (reply r) t p = p

module _ {V C A : Type 0} (P : Scheduler C → Type 0) where
  Keeps-proceed : (a : A) → Keeps {V = V} P (proceed a)
  Keeps-proceed a = record { keeps = λ s p. p }

  Keeps-required : (r : Response (Body V)) (o : Option A) → Keeps P (required r o)
  Keeps-required r o = record { keeps = λ s p. p }

  Keeps-engine :
      (fail : Error → Response (Body V)) (m : Exec (World V) A) → Keeps P (call fail (on_world m))
  Keeps-engine fail m = record { keeps = λ s p. p }

module _ {V C : Type 0} (P : Scheduler C → Type 0) where
  Keeps-demand : (r : Response (Body V)) (b : Bool) → Keeps P (demand r b)
  Keeps-demand r b = record { keeps = λ s p. p }

ruleset keeping = (Keeps-bind, Keeps-required, Keeps-demand, Keeps-engine, Keeps-proceed)

module _ {V C : Type 0} (codecs : Codecs) (env : Env V) (connect : Driver → Result (Connector V))
    (c : Cron C) (decimal : ℕ → String) (uuid_string : Uuid → String) (req : Request)
    (P : Scheduler C → Type 0) where
  list_sources-Keeps : Keeps P (list_sources codecs env connect c decimal uuid_string req)
  unfolding list_sources
  list_sources-Keeps = search keeping

  get_source-Keeps : Keeps P (get_source codecs env connect c decimal uuid_string req)
  unfolding get_source
  get_source-Keeps = search keeping

  discover-Keeps : Keeps P (discover codecs env connect c decimal uuid_string req)
  unfolding discover
  discover-Keeps = search keeping

  list_tables-Keeps : Keeps P (list_tables codecs env connect c decimal uuid_string req)
  unfolding list_tables
  list_tables-Keeps = search keeping

  get_table-Keeps : Keeps P (get_table codecs env connect c decimal uuid_string req)
  unfolding get_table
  get_table-Keeps = search keeping

  list_columns-Keeps : Keeps P (list_columns codecs env connect c decimal uuid_string req)
  unfolding list_columns
  list_columns-Keeps = search keeping

  sync_table-Keeps : Keeps P (sync_table codecs env connect c decimal uuid_string req)
  unfolding sync_table
  sync_table-Keeps = search keeping

  query_data-Keeps : Keeps P (query_data codecs env connect c decimal uuid_string req)
  unfolding query_data
  query_data-Keeps = search keeping

  list_changes-Keeps : Keeps P (list_changes codecs env connect c decimal uuid_string req)
  unfolding list_changes
  list_changes-Keeps = search keeping

  list_snapshots-Keeps : Keeps P (list_snapshots codecs env connect c decimal uuid_string req)
  unfolding list_snapshots
  list_snapshots-Keeps = search keeping

  list_sync_jobs-Keeps : Keeps P (list_sync_jobs codecs env connect c decimal uuid_string req)
  unfolding list_sync_jobs
  list_sync_jobs-Keeps = search keeping

  get_sync_job-Keeps : Keeps P (get_sync_job codecs env connect c decimal uuid_string req)
  unfolding get_sync_job
  get_sync_job-Keeps = search keeping

  -- A sync that is started, before the answer or after it, leaves the scheduler alone.
  Keeps-launch :
      (fail : Error → Response (Body V)) (b : Bool) (id : Uuid)
      → Keeps P (call fail (launch codecs env connect c decimal uuid_string req b id))
  Keeps-launch fail true id = record { keeps = λ s p. p }
  Keeps-launch fail false id = record { keeps = λ s p. p }

  sync_source-Keeps : Keeps P (sync_source codecs env connect c decimal uuid_string req)
  unfolding sync_source
  sync_source-Keeps = search (keeping, Keeps-launch)

  Keeps-schedule_if :
      ((id : Uuid) (seconds : ℤ) (t : Scheduler C)
        → P t
        → P (schedule_source c decimal uuid_string id seconds t).1)
      → (b : Bool) (src : Source)
      → Keeps P (
          call
            (server_error {V = V} codecs)
            (schedule_if codecs env connect c decimal uuid_string req b src))
  Keeps-schedule_if h true src = record {
    keeps = λ s p. h src.id src.sync_interval_seconds s.scheduler p;
  }
  Keeps-schedule_if h false src = record { keeps = λ s p. p }

  create_source-Keeps :
      ((id : Uuid) (seconds : ℤ) (t : Scheduler C)
        → P t
        → P (schedule_source c decimal uuid_string id seconds t).1)
      → Keeps P (create_source codecs env connect c decimal uuid_string req)
  unfolding create_source
  create_source-Keeps h = search (keeping, Keeps-schedule_if)

  Keeps-unschedule :
      ((id : Uuid) (t : Scheduler C) → P t → P (unschedule_source c decimal uuid_string id t))
      → (id : Uuid)
      → Keeps P (
          call
            (server_error {V = V} codecs)
            (unschedule codecs env connect c decimal uuid_string req id))
  Keeps-unschedule h id = record { keeps = λ s p. h id s.scheduler p }

  delete_source-Keeps :
      ((id : Uuid) (t : Scheduler C) → P t → P (unschedule_source c decimal uuid_string id t))
      → Keeps P (delete_source codecs env connect c decimal uuid_string req)
  unfolding delete_source
  delete_source-Keeps h = search (keeping, Keeps-unschedule)

module _ {V C : Type 0} (codecs : Codecs) (env : Env V) (connect : Driver → Result (Connector V))
    (c : Cron C) (decimal : ℕ → String) (uuid_string : Uuid → String) where
  -- Requests one after another, each with the route that Echo has picked.
  unfoldable pub handle_all : List (Route × Request) → Server V C → Server V C
  handle_all [] s = s
  handle_all ((route, req) ∷ rest) s =
      handle_all rest (handle codecs env connect c decimal uuid_string req route s).1

module _ {V C : Type 0} (codecs : Codecs) (env : Env V) (connect : Driver → Result (Connector V))
    (c : Cron C) (decimal : ℕ → String) (uuid_string : Uuid → String) (running : C → List Job)
    (law : IsCron c decimal running) where
  handler-Keeps :
      (route : Route) (req : Request)
      → Keeps (IsInStep running) (handler codecs env connect c decimal uuid_string req route)
  handler-Keeps get_health req = record { keeps = λ s p. p }
  handler-Keeps get_sources req = list_sources-Keeps codecs env connect c decimal uuid_string req _
  handler-Keeps post_sources req =
      create_source-Keeps codecs env connect c decimal uuid_string req _ (λ id seconds t p.
        (schedule_source-IsInStep c decimal uuid_string running law id seconds t p).1)
  handler-Keeps get_sources_id req = get_source-Keeps codecs env connect c decimal uuid_string req _
  handler-Keeps delete_sources_id req =
      delete_source-Keeps codecs env connect c decimal uuid_string req _
        (λ id t p. (unschedule_source-IsInStep c decimal uuid_string running law id t p).0)
  handler-Keeps post_discover req = discover-Keeps codecs env connect c decimal uuid_string req _
  handler-Keeps get_source_tables req =
      list_tables-Keeps codecs env connect c decimal uuid_string req _
  handler-Keeps get_source_table req =
      get_table-Keeps codecs env connect c decimal uuid_string req _
  handler-Keeps get_table_columns req =
      list_columns-Keeps codecs env connect c decimal uuid_string req _
  handler-Keeps post_source_sync req =
      sync_source-Keeps codecs env connect c decimal uuid_string req _
  handler-Keeps post_table_sync req =
      sync_table-Keeps codecs env connect c decimal uuid_string req _
  handler-Keeps get_source_jobs req =
      list_sync_jobs-Keeps codecs env connect c decimal uuid_string req _
  handler-Keeps get_job req = get_sync_job-Keeps codecs env connect c decimal uuid_string req _
  handler-Keeps get_table_data req = query_data-Keeps codecs env connect c decimal uuid_string req _
  handler-Keeps get_table_changes req =
      list_changes-Keeps codecs env connect c decimal uuid_string req _
  handler-Keeps get_table_snapshots req =
      list_snapshots-Keeps codecs env connect c decimal uuid_string req _

  -- Any sequence of requests, whatever they hold and whatever fails in the database, keeps the
  -- scheduler and the cron in step, if the cron does what its documentation says: every function that
  -- runs is the entry of its source, every entry runs, and no two sources share one.
  pub handle_all-IsInStep :
      (requests : List (Route × Request)) (s : Server V C)
      → IsInStep running s.scheduler
      → IsInStep running (handle_all codecs env connect c decimal uuid_string requests s).scheduler
  unfolding handle_all handle
  handle_all-IsInStep [] s h = h
  handle_all-IsInStep ((route, req) ∷ rest) s h =
      handle_all-IsInStep rest (handle codecs env connect c decimal uuid_string req route s).1
        ((handler-Keeps route req).keeps s h)
