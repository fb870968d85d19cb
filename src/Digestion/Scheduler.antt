-- ===== src/Digestion/Scheduler.antt =====
-- core-services-sql-engine/internal/digestion/scheduler.go, over the library cron as an interface.
pub mod InStep
pub mod Schedule
pub mod Tests
use Prim.Native.String.{◌++◌}
use manju_backend.Prelude.{
  ℕ, ℤ, String, Bool, List, [], ◌∷◌, Option, none, some, ◌==◌, if◌then◌else◌, is_below, to_ℕ,
}
use manju_backend.Exec.{Error, wrap, Result, ok, err, Exec}
use manju_backend.Digestion.{Uuid, Source, Env, World}
use manju_backend.Digestion.SourceStore.{list_sync_enabled_sources}

-- The methods of cron.Cron that the scheduler calls, over the state `C` of the library. A function
-- that is added syncs one source, and stands here as the id of that source.
pub record Cron (C : Type 0) : Type 0 where
  pub add_func : String → Uuid → Exec C ℕ
  pub remove : ℕ → C → C
  pub start : C → C
  pub stop : C → C

-- `entries` is the map from a source to its entry in the cron.
pub record Scheduler (C : Type 0) : Type 0 where
  pub cron : C
  pub entries : Uuid → Option ℕ

-- `s.entries[source_id] = id`, or the deletion of the entry.
abbrev pub set_entry : Uuid → Option ℕ → (Uuid → Option ℕ) → Uuid → Option ℕ
set_entry source_id entry entries k = if k == source_id then entry else entries k

unfoldable pub new_scheduler : {C : Type 0} → C → Scheduler C
new_scheduler cron = record { cron = cron; entries = λ source_id. none }

-- At least a minute.
abbrev pub effective_interval : ℤ → ℕ
effective_interval seconds = if is_below 60 seconds then 60 else to_ℕ seconds

abbrev pub every : (ℕ → String) → ℕ → String
every decimal seconds = "@every " ++ (decimal seconds ++ "s")

-- `decimal` is the verb %d of fmt, and `uuid_string` the verb %s on a UUID.
module _ {C : Type 0} (c : Cron C) (decimal : ℕ → String) (uuid_string : Uuid → String) where
  abbrev pub remove_old : Option ℕ → C → C
  remove_old none cron = cron
  remove_old (some old) cron = c.remove old cron

  abbrev pub enter : Uuid → Scheduler C → Result ℕ × C → Result (Unit {0}) × Scheduler C
  enter source_id s (ok id, cron) =
      (ok tt, record { cron = cron; entries = set_entry source_id (some id) s.entries })
  enter source_id s (err e, cron) = (
    err (wrap ("add cron func for source " ++ uuid_string source_id) e),
    record s { cron = cron },
  )

  unfoldable pub schedule_source : Uuid → ℤ → Exec (Scheduler C) (Unit {0})
  schedule_source source_id seconds s = enter source_id s (
      c.add_func (every decimal (effective_interval seconds)) source_id
        (remove_old (s.entries source_id) s.cron))

  abbrev pub leave : Uuid → Scheduler C → Option ℕ → Scheduler C
  leave source_id s none = s
  leave source_id s (some id) = record {
    cron = c.remove id s.cron;
    entries = set_entry source_id none s.entries;
  }

  unfoldable pub unschedule_source : Uuid → Scheduler C → Scheduler C
  unschedule_source source_id s = leave source_id s (s.entries source_id)

  -- A source that cannot be scheduled is logged and passed over.
  unfoldable pub schedule_all : List Source → Scheduler C → Scheduler C
  schedule_all [] s = s
  schedule_all (src ∷ rest) s =
      schedule_all rest (schedule_source src.id src.sync_interval_seconds s).1

  unfoldable pub stop : Scheduler C → Scheduler C
  stop s = record s { cron = c.stop s.cron }

  abbrev pub start_listed : Scheduler C → Result (List Source) → Result (Unit {0}) × Scheduler C
  start_listed s (err e) = (err (wrap "load sync-enabled sources" e), s)
  start_listed s (ok sources) =
      let s' = schedule_all sources s in (ok tt, record s' { cron = c.start s'.cron })

  unfoldable pub start :
      {V : Type 0} → Env V → World V → Scheduler C → Result (Unit {0}) × Scheduler C
  start env w s = start_listed s (list_sync_enabled_sources env w).0
