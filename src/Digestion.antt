-- ===== src/Digestion.antt =====
-- core-services-sql-engine/internal/digestion: the records of store/store.go, connector/connector.go
-- and engine.go, what the engine takes from elsewhere, and the platform database it works on.
pub mod RowStore
pub mod JobStore
pub mod SourceStore
pub mod SchemaStore
pub mod Sync
pub mod Changes
pub mod Connector
pub mod Scheduler
pub mod Engine
pub mod Catalog
pub mod Discovery
pub mod Api
pub mod Postgres
pub mod Server
mod Tests
use manju_backend.Prelude.{ℕ, ℤ, String, Bool, List, Option}
use manju_backend.Exec.{Error, Result}

-- A UUID as its 128-bit value; `uuid.Nil` is 0.
abbrev pub Uuid : Type 0
Uuid = ℕ

-- `map[string]any` as its entries in some order of iteration, each column once.
abbrev pub Row : Type 0 → Type 0
Row V = List (String × V)

pub record Source : Type 0 where
  pub id : Uuid
  pub name : String
  pub description : String
  pub db_type : String
  pub host : String
  pub port : ℤ
  pub database_name : String
  pub username : String
  pub password : String
  pub ssl_mode : String
  pub sync_enabled : Bool
  pub sync_interval_seconds : ℤ
  pub sync_strategy : String
  pub status : String
  pub last_error : String
  pub last_connected : Option ℕ
  pub last_sync_at : Option ℕ
  pub created_at : ℕ
  pub updated_at : ℕ

pub record DiscoveredTable : Type 0 where
  pub id : Uuid
  pub source_id : Uuid
  pub schema_name : String
  pub table_name : String
  pub estimated_row_count : ℕ
  pub sync_enabled : Bool
  pub primary_key_columns : List String
  pub timestamp_column : String
  pub last_sync_at : Option ℕ
  pub last_row_count : ℕ
  pub last_snapshot_version : ℕ
  pub discovered_at : ℕ
  pub updated_at : ℕ

pub record DiscoveredColumn : Type 0 where
  pub id : Uuid
  pub table_id : Uuid
  pub column_name : String
  pub ordinal_position : ℕ
  pub data_type : String
  pub mapped_type : String
  pub max_length : ℕ
  pub numeric_precision : ℕ
  pub numeric_scale : ℕ
  pub is_nullable : Bool
  pub is_primary_key : Bool
  pub is_unique : Bool
  pub has_default : Bool
  pub default_value : String
  pub semantic_type : String

pub record DiscoveredForeignKey : Type 0 where
  pub id : Uuid
  pub source_id : Uuid
  pub from_table_id : Uuid
  pub from_column : String
  pub to_table_id : Option Uuid
  pub to_table_schema : String
  pub to_table_name : String
  pub to_column : String
  pub constraint_name : String

-- The counters are int64 bit patterns.
pub record SyncJob : Type 0 where
  pub id : Uuid
  pub source_id : Uuid
  pub table_id : Option Uuid
  pub job_type : String
  pub strategy : String
  pub status : String
  pub started_at : Option ℕ
  pub completed_at : Option ℕ
  pub error_message : String
  pub rows_scanned : ℕ
  pub rows_inserted : ℕ
  pub rows_updated : ℕ
  pub rows_deleted : ℕ
  pub rows_unchanged : ℕ
  pub snapshot_version : ℕ
  pub created_at : ℕ

pub record IngestedRow (V : Type 0) : Type 0 where
  pub id : Uuid
  pub table_id : Uuid
  pub row_key : String
  pub contents : Row V
  pub row_hash : String
  pub first_seen_version : ℕ
  pub last_seen_version : ℕ
  pub current_version : ℕ
  pub ingested_at : ℕ
  pub updated_at : ℕ
  pub is_deleted : Bool
  pub deleted_at : Option ℕ

pub record Change (V : Type 0) : Type 0 where
  pub id : Uuid
  pub table_id : Uuid
  pub sync_job_id : Option Uuid
  pub operation : String
  pub row_key : String
  pub old_data : Option (Row V)
  pub new_data : Option (Row V)
  pub changed_columns : List String
  pub snapshot_version : ℕ
  pub detected_at : ℕ

pub record Snapshot : Type 0 where
  pub id : Uuid
  pub table_id : Uuid
  pub sync_job_id : Option Uuid
  pub version : ℕ
  pub row_count : ℕ
  pub inserts : ℕ
  pub updates : ℕ
  pub deletes : ℕ
  pub created_at : ℕ

-- What the engine takes from encoding/json, fmt and crypto/sha256 on the values of rows, and from
-- the database driver, the clock and the UUID library at the n-th outside call. `marshal` and
-- `encode_entries` read the entries of a map in the order of its columns.
pub record Env (V : Type 0) : Type 0 where
  pub fault : ℕ → Option Error
  pub clock : ℕ → ℕ
  pub fresh : ℕ → Uuid
  pub message : Error → String
  pub quote : String → String
  pub nil : V
  pub format : V → String
  pub marshal_value : V → String
  pub marshal : Row V → Option String
  pub encode_entries : Row V → String
  pub sha256_hex : String → String
  pub reloaded : V → V

-- The tables of the platform database, and the number of outside calls so far.
pub record World (V : Type 0) : Type 0 where
  pub sources : List Source
  pub tables : List DiscoveredTable
  pub columns : List DiscoveredColumn
  pub foreign_keys : List DiscoveredForeignKey
  pub jobs : List SyncJob
  pub rows : List (IngestedRow V)
  pub changes : List (Change V)
  pub snapshots : List Snapshot
  pub calls : ℕ
