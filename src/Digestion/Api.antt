-- ===== src/Digestion/Api.antt =====
-- core-services-sql-engine/internal/api: the handlers of handlers/digestion.go over the engine and
-- the scheduler, one for each route of router.go.
pub mod Handlers
pub mod InStep
pub mod Sources
mod Tests
use manju_backend.Prelude.{
  ℕ, ℤ, pos, negsuc, String, ◌||◌, Bool, List, [], Option, none, some, ◌==◌, str_eq, if◌then◌else◌,
}
use manju_backend.Exec.{Error, Result, Exec}
use manju_backend.Http.{Response, Codecs}
use manju_backend.Digestion.{
  Uuid, Row, Source, DiscoveredTable, DiscoveredColumn, SyncJob, Change, Snapshot, World,
}
use manju_backend.Digestion.Engine.{RegisterSourceRequest}
use manju_backend.Digestion.Scheduler.{Scheduler}

-- What a handler reads of its request; `bound` is the body, or none where `Bind` fails. `prompt`
-- tells whether a goroutine that the handler starts gets to run before the answer is out.
pub record Request : Type 0 where
  pub query_param : String → String
  pub param : String → String
  pub bound : Option RegisterSourceRequest
  pub prompt : Bool

-- What the handlers work on. `background` are the sources whose sync a handler has left to a
-- goroutine, the first first.
pub record Server (V C : Type 0) : Type 0 where
  pub world : World V
  pub scheduler : Scheduler C
  pub background : List Uuid

-- The JSON that follows "data", or what else is sent.
pub data Body (V : Type 0) : Type 0 where
  health nothing : Body V
  error_message message : String → Body V
  source : Source → Body V
  sources : List Source → Body V
  tables discovered_tables : List DiscoveredTable → Body V
  table : DiscoveredTable → Body V
  columns : List DiscoveredColumn → Body V
  job : SyncJob → Body V
  jobs : List SyncJob → Body V
  rows : List (Row V) → Body V
  changes : List (Change V) → Body V
  snapshots : List Snapshot → Body V

module _ {V : Type 0} where
  abbrev pub respond : ℕ → Body V → Response (Body V)
  respond status body = record { status = status; headers = []; body = body }

  abbrev pub ok : Body V → Response (Body V)
  ok body = respond 200 body

  abbrev pub created : Body V → Response (Body V)
  created body = respond 201 body

  abbrev pub err_resp : ℕ → String → Response (Body V)
  err_resp status msg = respond status (error_message msg)

  abbrev pub no_content : Response (Body V)
  no_content = respond 204 nothing

  -- `errResp(c, http.StatusInternalServerError, err.Error())`
  abbrev pub server_error : Codecs → Error → Response (Body V)
  server_error codecs e = err_resp 500 (codecs.message e)

  -- Any error of a lookup is answered in this way.
  abbrev pub missing : String → Error → Response (Body V)
  missing msg e = err_resp 404 msg

  abbrev pub accepted : Response (Body V)
  accepted = respond 202 (message "sync started")

module _ {V C A : Type 0} where
  abbrev pub on_world : Exec (World V) A → Exec (Server V C) A
  on_world m s = let (r, w) = m s.world in (r, record s { world = w })

  abbrev pub on_scheduler : Exec (Scheduler C) A → Exec (Server V C) A
  on_scheduler m s = let (r, t) = m s.scheduler in (r, record s { scheduler = t })

-- The fields that must be there.
unfoldable pub is_incomplete : RegisterSourceRequest → Bool
is_incomplete req =
    str_eq req.name "" || str_eq req.db_type "" || str_eq req.host "" || str_eq req.database_name ""

abbrev pub port_or_default : ℤ → ℤ
port_or_default (pos n) = if n == 0 then pos 5432 else pos n
port_or_default (negsuc n) = negsuc n

unfoldable pub with_port : RegisterSourceRequest → RegisterSourceRequest
with_port req = record req { port = port_or_default req.port }

abbrev pub int_or : ℤ → Option ℤ → ℤ
int_or def none = def
int_or def (some n) = n

unfoldable pub bind_int : Codecs → Request → String → ℤ → ℤ
bind_int codecs req param def =
    if str_eq (req.query_param param) ""
    then def
    else int_or def (codecs.parse_int (req.query_param param))
