-- ===== src/Digestion/Sync/Sources.antt =====
-- SyncSource of sync.go: the tables of a source, one after another.
use manju_backend.Prelude.{suc, ◌≡◌, ◌==◌, ◌⊎◌, not, Bool, List, [], ◌∷◌, Option, none, some}
use manju_backend.Exec.{Error, Result, ok, err}
use mathlib.Core.Option.{map as map_option}
use manju_backend.Table.{where_rows, first_row}
use manju_backend.Digestion.{Uuid, DiscoveredTable, SyncJob, Env, World}
use manju_backend.Digestion.SourceStore.{source_is}
use manju_backend.Digestion.Connector.{Connector, Driver}
use manju_backend.Digestion.Sync.{sync_table}

-- The first error of some results.
pub first_failure : List (Result SyncJob) → Option Error
first_failure [] = none
first_failure (ok job ∷ rs) = first_failure rs
first_failure (err e ∷ rs) = some e

module _ {V : Type 0} (env : Env V) (connect : Driver → Result (Connector V))
    (source_id : Uuid) where
  -- Every one of some tables is synced, whatever became of those before it.
  pub run_each : List DiscoveredTable → World V → List (Result SyncJob) × World V
  run_each [] w = ([], w)
  run_each (t ∷ ts) w =
      let (r, v) = sync_table env connect source_id t.id w in
      let (rs, u) = run_each ts v in (r ∷ rs, u)

  abbrev keep_first : Option Error → List (Result SyncJob) → Option Error
  keep_first none rs = first_failure rs
  keep_first (some e) rs = some e

  abbrev enabled : DiscoveredTable → Bool
  enabled t = t.sync_enabled

  -- The source has the time of its sync, if the statement that writes it does not fail, and no other
  -- row of any table has changed.
  pub record IsNoted (v w : World V) : Type 0 where
    pub same : w ≡ record v { sources = w.sources; calls = w.calls }
    pub others :
        where_rows (λ s. not (s.id == source_id)) w.sources
        ≡ where_rows (λ s. not (s.id == source_id)) v.sources
    pub noted :
        ((e : Error) × (env.fault v.calls ≡ some e) × (w.sources ≡ v.sources))
        ⊎ ((env.fault v.calls ≡ none)
            × (map_option (λ s. s.last_sync_at) (first_row (source_is source_id) w.sources)
                ≡ map_option
                    (λ s. some (env.clock (suc v.calls)))
                    (first_row (source_is source_id) v.sources)))

  -- How a sync ends that found the world as it is when its tables are done.
  abbrev pub EndsWith : Option Error → World V → Result (Unit {0}) × World V → Type 0
  EndsWith (some e) v r = r ≡ (err e, v)
  EndsWith none v r = (r.0 ≡ ok tt) × IsNoted v r.1
