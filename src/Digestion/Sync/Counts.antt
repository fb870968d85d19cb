-- ===== src/Digestion/Sync/Counts.antt =====
-- The counters of runFullSync of sync.go.
use manju_backend.Prelude.{ℕ, ◌≡◌, ◌+◌, ◌%◌, ◌^◌}
use manju_backend.Digestion.{SyncJob}

-- `n` rows were scanned, each of them inserted, updated or unchanged.
pub record IsCounted (version n : ℕ) (stats : SyncJob) : Type 0 where
  pub scanned : stats.rows_scanned ≡ n % 2 ^ 64
  pub outcomes :
      (stats.rows_inserted + stats.rows_updated + stats.rows_unchanged) % 2 ^ 64 ≡ n % 2 ^ 64
  pub snapshot : stats.snapshot_version ≡ version
