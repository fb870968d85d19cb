-- ===== src/Digestion/Api/Handlers.antt =====
-- core-services-sql-engine/internal/api/handlers/digestion.go: the handlers, and the routes of
-- router.go with the handler of each.
use manju_backend.Prelude.{ℕ, String, Bool, true, false, not, pos, ◌++◌, List, [], ◌∷◌}
use manju_backend.Exec.{Result, Exec, pure, ignore}
use manju_backend.Http.{
  Response, Handler, Codecs, proceed, required, call, demand, serve, ◌>>=◌, ◌>>◌,
}
use manju_backend.Digestion.{Uuid, Source, Env, World}
use manju_backend.Digestion.Connector.{Connector, Driver}
use manju_backend.Digestion.Engine.{register_source}
use manju_backend.Digestion.Engine.Sources
use manju_backend.Digestion.Catalog
use manju_backend.Digestion.Discovery
use manju_backend.Digestion.Sync
use manju_backend.Digestion.Scheduler.{Cron, schedule_source, unschedule_source}
use manju_backend.Digestion.Api.{
  Request, Server, Body, ok, created, err_resp, no_content, server_error, missing, accepted,
  on_world, on_scheduler, is_incomplete, with_port, bind_int, source, sources, tables,
  discovered_tables, table, columns, job, jobs, rows, changes, snapshots,
}

-- The routes, named by their paths.
pub data Route : Type 0 where
  get_health get_sources post_sources get_sources_id delete_sources_id : Route
  post_discover get_source_tables get_source_table get_table_columns : Route
  post_source_sync post_table_sync get_source_jobs get_job : Route
  get_table_data get_table_changes get_table_snapshots : Route

-- Everything that the service is made of: what the handlers parse with, the engine's environment
-- and driver, and the library cron with the verbs %d and %s.
module _ {V C : Type 0} (codecs : Codecs) (env : Env V) (connect : Driver → Result (Connector V))
    (c : Cron C) (decimal : ℕ → String) (uuid_string : Uuid → String) (req : Request) where
  abbrev Reply : Type 0
  Reply = Response (Body V)

  abbrev Serves : Type 0 → Type 0
  Serves A = Handler Reply (Server V C) A

  abbrev parse_id : String → String → Serves Uuid
  parse_id param msg = required (err_resp 400 msg) (codecs.parse_uuid (req.param param))

  abbrev source_id : Serves Uuid
  source_id = parse_id "sourceId" "invalid source ID"

  abbrev table_id : Serves Uuid
  table_id = parse_id "tableId" "invalid table ID"

  -- A call of the engine whose error is answered with its message.
  abbrev engine : {A : Type 0} → Exec (World V) A → Serves A
  engine m = call (server_error codecs) (on_world m)

  -- A lookup whose error is answered 404.
  abbrev lookup : {A : Type 0} → String → Exec (World V) A → Serves A
  lookup msg m = call (missing msg) (on_world m)

  unfoldable pub list_sources : Serves Reply
  list_sources = do found ← engine (Sources.list_sources env); proceed (ok (sources found))

  unfoldable pub get_source : Serves Reply
  get_source = do
    id ← source_id
    src ← lookup "source not found" (Sources.get_source env id)
    proceed (ok (source src))

  -- `if src.SyncEnabled { _ = h.scheduler.ScheduleSource(…) }`
  abbrev pub schedule_if : Bool → Source → Exec (Server V C) (Unit {0})
  schedule_if false src = pure tt
  schedule_if true src =
      ignore (on_scheduler (schedule_source c decimal uuid_string src.id src.sync_interval_seconds))

  unfoldable pub create_source : Serves Reply
  create_source = do
    bound ← required (err_resp 400 "invalid request body") req.bound
    demand (err_resp 400 "name, db_type, host, and database_name are required")
        (not (is_incomplete bound))
    src ← engine (register_source env (with_port bound))
    call (server_error codecs) (schedule_if src.sync_enabled src)
    proceed (created (source src))

  abbrev pub unschedule : Uuid → Exec (Server V C) (Unit {0})
  unschedule id = on_scheduler (λ t. (Result.ok tt, unschedule_source c decimal uuid_string id t))

  unfoldable pub delete_source : Serves Reply
  delete_source = do
    id ← source_id
    call (server_error codecs) (unschedule id)
    engine (Sources.delete_source env id)
    proceed no_content

  unfoldable pub discover : Serves Reply
  discover = do
    id ← source_id
    engine (Discovery.discover env connect id)
    found ← engine (Catalog.get_tables env id)
    proceed (ok (discovered_tables found))

  unfoldable pub list_tables : Serves Reply
  list_tables = do
    id ← source_id
    found ← engine (Catalog.get_tables env id)
    proceed (ok (tables found))

  unfoldable pub get_table : Serves Reply
  get_table = do
    id ← table_id
    found ← lookup "table not found" (Catalog.get_table env id)
    proceed (ok (table found))

  unfoldable pub list_columns : Serves Reply
  list_columns = do
    id ← table_id
    cols ← engine (Catalog.get_columns env id)
    proceed (ok (columns cols))

  -- `go func() { … }()`: the sync runs before the answer is out, or it is left to run behind it.
  abbrev pub launch : Bool → Uuid → Exec (Server V C) (Unit {0})
  launch true id s =
      (Result.ok tt, record s { world = (Sync.sync_source env connect id s.world).1 })
  launch false id s = (Result.ok tt, record s { background = s.background ++ id ∷ [] })

  unfoldable pub sync_source : Serves Reply
  sync_source = do
    id ← source_id
    call (server_error codecs) (launch req.prompt id)
    proceed accepted

  unfoldable pub sync_table : Serves Reply
  sync_table = do
    from ← source_id
    id ← table_id
    done ← engine (Sync.sync_table env connect from id)
    proceed (ok (job done))

  unfoldable pub query_data : Serves Reply
  query_data = do
    id ← table_id
    let limit = bind_int codecs req "limit" (pos 100)
    let offset = bind_int codecs req "offset" (pos 0)
    found ← engine (Catalog.get_data env id limit offset)
    proceed (ok (rows found))

  unfoldable pub list_changes : Serves Reply
  list_changes = do
    id ← table_id
    found ← engine (Catalog.get_changes env id (bind_int codecs req "limit" (pos 100)))
    proceed (ok (changes found))

  unfoldable pub list_snapshots : Serves Reply
  list_snapshots = do
    id ← table_id
    snaps ← engine (Catalog.get_snapshots env id (bind_int codecs req "limit" (pos 20)))
    proceed (ok (snapshots snaps))

  unfoldable pub list_sync_jobs : Serves Reply
  list_sync_jobs = do
    id ← source_id
    found ← engine (Catalog.get_sync_jobs env id (bind_int codecs req "limit" (pos 20)))
    proceed (ok (jobs found))

  unfoldable pub get_sync_job : Serves Reply
  get_sync_job = do
    id ← parse_id "jobId" "invalid job ID"
    found ← lookup "job not found" (Catalog.get_sync_job env id)
    proceed (ok (job found))

  abbrev pub handler : Route → Serves Reply
  handler get_health = proceed (ok Body.health)
  handler get_sources = list_sources
  handler post_sources = create_source
  handler get_sources_id = get_source
  handler delete_sources_id = delete_source
  handler post_discover = discover
  handler get_source_tables = list_tables
  handler get_source_table = get_table
  handler get_table_columns = list_columns
  handler post_source_sync = sync_source
  handler post_table_sync = sync_table
  handler get_source_jobs = list_sync_jobs
  handler get_job = get_sync_job
  handler get_table_data = query_data
  handler get_table_changes = list_changes
  handler get_table_snapshots = list_snapshots

  -- One request, from the handler that Echo picks to the answer.
  unfoldable pub handle : Route → Server V C → Reply × Server V C
  handle route = serve (handler route)

-- The goroutine that SyncSource started: the sync that was left first, under the environment that
-- its context gives it then.
module _ {V C : Type 0} (connect : Driver → Result (Connector V)) where
  run_first : Env V → List Uuid → Server V C → Server V C
  run_first env [] s = s
  run_first env (id ∷ rest) s = record s {
    world = (Sync.sync_source env connect id s.world).1;
    background = rest;
  }

  unfoldable pub run_background : Env V → Server V C → Server V C
  unfolding run_first
  run_background env s = run_first env s.background s
