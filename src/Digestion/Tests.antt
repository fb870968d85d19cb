-- ===== src/Digestion/Tests.antt =====
-- Runs of the sync engine on a small table whose values are strings.
use Prim.Native.String.{◌++◌}
use manju_backend.Prelude.{
  ℕ, ◌≡◌, refl, String, true, false, [], ◌∷◌, none, some, pos, arith, str_eq, Bool-cases, inl, inr,
}
use manju_backend.Exec.{ok, Result}
use manju_backend.Digestion.{Change, Row, Source, DiscoveredTable, SyncJob, IngestedRow, Env, World}
use manju_backend.Digestion.Connector.{Stream, Connector, Driver}
use manju_backend.Digestion.RowStore.{
  upsert_row, mark_deleted_rows, get_deleted_row_data, revised, touched,
}
use manju_backend.Digestion.RowStore.Keys.{at, IsUnique}
use manju_backend.Digestion.RowStore.Laws.{UpsertEnds, upsert_row-Ends}
use manju_backend.Digestion.JobStore.{insert_change}
use manju_backend.Digestion.Changes.{compute_hash, build_row_key, changed_columns}
use manju_backend.Digestion.Sync.Log.{IsLogged, live_data, replayed}
use manju_backend.Digestion.Sync.Replay.{sync_stream-IsLogged}
use manju_backend.Digestion.Sync.Jobs.{JobEnds, sync_table-JobEnds}
use manju_backend.Digestion.Sync.{
  sync_table, sync_stream, sync_rows, sync_row, record_outcome, finish_sync, record_deletes,
  empty_stats,
}
use manju_backend.Digestion.Sync.Mirror.{Mark, mark_at, streamed, expired, Leaves}
use manju_backend.Digestion.Sync.Deletions.{sync_stream-marks}
use manju_backend.Digestion.Sync.Live.{
  live_hash, last_hash, Differs, HasHash, IsAbsent, sync_stream-live, sync_stream-stays_deleted,
  sync_stream-same_version,
}

abbrev shown : Row String → String
shown [] = ""
shown ((column, value) ∷ rest) = column ++ ("=" ++ (value ++ (";" ++ shown rest)))

abbrev pub quiet : Env String
quiet = record {
  fault = λ n. none;
  clock = λ n. n;
  fresh = λ n. n;
  message = λ e. "error";
  quote = λ s. s;
  nil = "";
  format = λ v. v;
  marshal_value = λ v. v;
  marshal = λ row. some (shown row);
  encode_entries = shown;
  sha256_hex = λ s. s;
  reloaded = λ v. v;
}

abbrev pub people : DiscoveredTable
people = record {
  id = 3;
  source_id = 1;
  schema_name = "public";
  table_name = "people";
  estimated_row_count = 2;
  sync_enabled = true;
  primary_key_columns = "id" ∷ [];
  timestamp_column = "";
  last_sync_at = none;
  last_row_count = 0;
  last_snapshot_version = 0;
  discovered_at = 0;
  updated_at = 0;
}

abbrev pub person : String → String → Row String
person id name = ("id", id) ∷ ("name", name) ∷ []

abbrev ingested : String → String → IngestedRow String
ingested id name = record {
  id = 9;
  table_id = 3;
  row_key = id;
  contents = person id name;
  row_hash = shown (person id name);
  first_seen_version = 10;
  last_seen_version = 10;
  current_version = 1;
  ingested_at = 10;
  updated_at = 10;
  is_deleted = false;
  deleted_at = none;
}

-- Of the two rows one changed its name, and the other is gone.
abbrev pub before : World String
before = record {
  sources = [];
  tables = people ∷ [];
  columns = [];
  foreign_keys = [];
  jobs = [];
  rows = ingested "1" "Ann" ∷ ingested "2" "Bob" ∷ [];
  changes = [];
  snapshots = [];
  calls = 0;
}

abbrev stream : Stream String
stream = record { rows = person "1" "Anna" ∷ []; error = none }

abbrev result_of : ℕ → Stream String → World String → World String
result_of version rows w = (sync_stream quiet people 5 version rows w).1

abbrev counted : ℕ → ℕ → ℕ → ℕ → ℕ → SyncJob
counted version scanned updated deleted unchanged = record (empty_stats version) {
  rows_scanned = scanned;
  rows_updated = updated;
  rows_deleted = deleted;
  rows_unchanged = unchanged;
}

ran :
    sync_stream quiet people 5 20 stream before
    ≡ (ok (counted 20 1 1 1 0), result_of 20 stream before)
unfolding sync_stream sync_rows sync_row record_outcome finish_sync record_deletes upsert_row
    mark_deleted_rows get_deleted_row_data insert_change build_row_key compute_hash empty_stats
    changed_columns revised
ran = refl

sync_stream-marks_example :
    Leaves quiet people 5 20
      (λ k m. expired 20 (streamed quiet ("id" ∷ []) 20 k stream.rows m))
      before
      (result_of 20 stream before)
sync_stream-marks_example =
    sync_stream-marks quiet people 5 20 stream (counted 20 1 1 1 0) before
      (result_of 20 stream before) ran

sync_stream-live_example :
    live_hash (mark_at 3 "1" (result_of 20 stream before))
    ≡ last_hash quiet ("id" ∷ []) "1" stream.rows none
unfolding mark_at at Differs
sync_stream-live_example =
    sync_stream-live quiet people 5 20 stream (counted 20 1 1 1 0) before
      (result_of 20 stream before) "1" (λ m e. ground arith) (λ h. cc) ran

-- The same rows, the first deleted and now back.
abbrev deleted_before : World String
deleted_before = record before {
  rows = record (ingested "1" "Ann") { is_deleted = true; deleted_at = some 15 } ∷ [];
}

abbrev back : Stream String
back = record { rows = person "1" "Ann" ∷ []; error = none }

ran_back :
    sync_stream quiet people 5 20 back deleted_before
    ≡ (ok (counted 20 1 0 0 1), result_of 20 back deleted_before)
unfolding sync_stream sync_rows sync_row record_outcome finish_sync record_deletes upsert_row
    mark_deleted_rows get_deleted_row_data insert_change build_row_key compute_hash empty_stats
    changed_columns touched
ran_back = refl

abbrev dead_mark : Mark
dead_mark = record { hash = shown (person "1" "Ann"); seen = 10; dead = true }

sync_stream-stays_deleted_example :
    live_hash (mark_at 3 "1" (result_of 20 back deleted_before)) ≡ none
unfolding mark_at at HasHash compute_hash
sync_stream-stays_deleted_example =
    sync_stream-stays_deleted quiet people 5 20 back (counted 20 1 0 0 1) deleted_before
      (result_of 20 back deleted_before) "1" dead_mark refl refl (λ e. refl, tt) ran_back

abbrev nothing : Stream String
nothing = record { rows = []; error = none }

ran_nothing :
    sync_stream quiet people 5 10 nothing before
    ≡ (ok (counted 10 0 0 0 0), result_of 10 nothing before)
unfolding sync_stream sync_rows sync_row record_outcome finish_sync record_deletes upsert_row
    mark_deleted_rows get_deleted_row_data insert_change build_row_key compute_hash empty_stats
    changed_columns
ran_nothing = refl

sync_stream-same_version_example :
    mark_at 3 "1" (result_of 10 nothing before)
    ≡ some (record { hash = shown (person "1" "Ann"); seen = 10; dead = false })
unfolding mark_at at IsAbsent
sync_stream-same_version_example =
    sync_stream-same_version quiet people 5 10 nothing (counted 10 0 0 0 0) before
      (result_of 10 nothing before) "1"
      (record { hash = shown (person "1" "Ann"); seen = 10; dead = false }) refl (omega arith) tt
      ran_nothing

upsert_row-Ends_example :
    UpsertEnds quiet 3 "1" "h"
      (person "1" "Anna")
      20
      before
      (upsert_row quiet 3 "1" "h" (person "1" "Anna") 20 before)
upsert_row-Ends_example = upsert_row-Ends quiet 3 "1" "h" (person "1" "Anna") 20 before

abbrev warehouse : Source
warehouse = record {
  id = 1;
  name = "warehouse";
  description = "";
  db_type = "postgres";
  host = "localhost";
  port = pos 5432;
  database_name = "warehouse";
  username = "reader";
  password = "";
  ssl_mode = "disable";
  sync_enabled = true;
  sync_interval_seconds = pos 3600;
  sync_strategy = "full";
  status = "connected";
  last_error = "";
  last_connected = none;
  last_sync_at = none;
  created_at = 0;
  updated_at = 0;
}

abbrev pub registered : World String
registered = record before { sources = warehouse ∷ [] }

abbrev connect : Driver → Result (Connector String)
connect driver = ok (record {
  discover_tables = ok [];
  discover_columns = λ schema table. ok [];
  discover_foreign_keys = ok [];
  stream_rows = λ schema table since. stream;
  count_rows = λ schema table. ok 1;
})

sync_table-JobEnds_example : JobEnds quiet 2 registered (sync_table quiet connect 1 3 registered)
sync_table-JobEnds_example = sync_table-JobEnds quiet connect (λ n. refl) 1 3 registered refl

-- The two rows with the changes that wrote them.
abbrev inserted : String → String → Change String
inserted id name = record {
  id = 0;
  table_id = 3;
  sync_job_id = none;
  operation = "INSERT";
  row_key = id;
  old_data = none;
  new_data = some (person id name);
  changed_columns = [];
  snapshot_version = 10;
  detected_at = 10;
}

abbrev with_log : World String
with_log = record before { rows = ingested "1" "Ann" ∷ []; changes = inserted "1" "Ann" ∷ [] }

with_log-IsLogged : IsLogged 3 with_log
unfolding live_data at replayed IsUnique
with_log-IsLogged = record { log = by_key; unique = (λ _. refl, tt) }
  where
    by_key : (k : String) → live_data (at 3 k with_log.rows) ≡ replayed 3 k with_log.changes none
    by_key k = elim (Bool-cases (str_eq "1" k)) [ inl e ↦ rw e refl | inr e ↦ rw e refl ]

sync_stream-IsLogged_example : IsLogged 3 (result_of 20 stream with_log)
sync_stream-IsLogged_example =
    sync_stream-IsLogged quiet (λ n. refl) people 5 20 stream with_log with_log-IsLogged
