-- ===== src/Digestion/Api/Tests.antt =====
-- Requests to the sync engine, on a cron that is a list of jobs.
use manju_backend.Prelude.{
  ◌⊎◌, ℕ, suc, ◌≡◌, refl, String, true, false, List, [], ◌∷◌, none, some, pos, str_eq, ◌==◌,
  if◌then◌else◌,
}
use manju_backend.Exec.{failure, Result, err}
use manju_backend.Http.{Codecs}
use manju_backend.Table.{first_row, any_row}
use manju_backend.Digestion.{Source, Env}
use manju_backend.Digestion.SourceStore
use manju_backend.Digestion.SourceStore.{source_is}
use manju_backend.Digestion.Connector.{Connector, Driver}
use manju_backend.Digestion.Engine.{RegisterSourceRequest, requested_source}
use manju_backend.Digestion.Scheduler.{new_scheduler, schedule_source}
use manju_backend.Digestion.Scheduler.InStep.{Job, IsInStep}
use manju_backend.Digestion.Scheduler.Tests.{
  job_list, shown, all_jobs, job_list-IsCron, empty_scheduler-IsInStep,
}
use manju_backend.Digestion.Tests.{quiet, before}
use manju_backend.Digestion.Api.{with_port, Request, Server, no_content, accepted, source}
use manju_backend.Digestion.Api.Handlers.{
  post_sources, delete_sources_id, post_source_sync, handle, run_background, sync_source,
}
use manju_backend.Digestion.Api.InStep.{handle_all, handle_all-IsInStep}
use manju_backend.Digestion.Api.Sources.{delete_source-IsUnscheduled}
use manju_backend.Digestion.Sync
use manju_backend.Digestion.SourceStore.{list_tables}
use manju_backend.Digestion.Scheduler.{schedule_source}
use manju_backend.Digestion.Scheduler.Schedule.{schedule_source-IsInStep}

abbrev codecs : Codecs
codecs = record {
  parse_uuid = λ s. if str_eq s "one" then some 1 else some 0;
  scan_int = λ s. none;
  parse_int = λ s. none;
  parse_duration = λ s. none;
  duration_string = λ d. "";
  decimal = λ n. "0";
  quoted = λ s. s;
  message = λ e. "error";
}

abbrev registration : RegisterSourceRequest
registration = record {
  name = "warehouse";
  description = "";
  db_type = "postgres";
  host = "localhost";
  port = pos 0;
  database_name = "warehouse";
  username = "u";
  password = "p";
  ssl_mode = "";
  sync_enabled = true;
  sync_interval_seconds = pos 0;
  sync_strategy = "";
}

abbrev post : Request
post = record {
  query_param = λ name. "";
  param = λ name. "zero";
  bound = some registration;
  prompt = false;
}

abbrev connect : Driver → Result (Connector String)
connect driver = err (failure "unreachable")

abbrev shown_id : ℕ → String
shown_id n = "id"

abbrev idle : Server String (List Job)
idle = record { world = before; scheduler = new_scheduler []; background = [] }

abbrev cancelled : Env String
cancelled = record quiet { fault = λ n. some (failure "context canceled") }

handle_all-IsInStep_example :
    IsInStep all_jobs
      (handle_all codecs quiet connect job_list shown shown_id
        ((post_sources, post) ∷ (delete_sources_id, post) ∷ [])
        idle).scheduler
handle_all-IsInStep_example =
    handle_all-IsInStep codecs quiet connect job_list shown shown_id all_jobs job_list-IsCron
      ((post_sources, post) ∷ (delete_sources_id, post) ∷ []) idle empty_scheduler-IsInStep

abbrev registered : Source
registered = record (requested_source (with_port registration)) { id = 0 }

-- The source 0 is scheduled when the request to delete it comes.
abbrev scheduled : Server String (List Job)
scheduled = record idle {
  scheduler = (schedule_source job_list shown shown_id 0 (pos 300) (new_scheduler [])).1;
}

delete_source-IsUnscheduled_example :
    let r = handle codecs quiet connect job_list shown shown_id post delete_sources_id scheduled in
    (r.1.scheduler.entries 0 ≡ none)
    × (any_row (λ j. j.source == 0) (all_jobs r.1.scheduler.cron) ≡ false)
    × (((r.0 ≡ no_content) × (first_row (source_is 0) r.1.world.sources ≡ none))
        ⊎ ((r.0.status ≡ 500) × (r.1.world ≡ record before { calls = suc before.calls })))
delete_source-IsUnscheduled_example =
    delete_source-IsUnscheduled codecs quiet connect job_list shown shown_id all_jobs
      job_list-IsCron post 0 scheduled
      (schedule_source-IsInStep job_list shown shown_id all_jobs job_list-IsCron 0 (pos 300)
        (new_scheduler []) empty_scheduler-IsInStep).1
      refl

-- The sync of a request whose context is cancelled when it is answered finds no table.
run_background-cancelled :
    let r = handle codecs quiet connect job_list shown shown_id post post_source_sync idle in
    (r.0 ≡ accepted)
    × ((run_background connect cancelled r.1).world ≡ record before { calls = suc before.calls })
unfolding handle sync_source run_background Sync.sync_source list_tables
run_background-cancelled = (refl, refl)
