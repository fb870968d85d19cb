-- ===== src/Digestion/Connector.antt =====
-- core-services-sql-engine/internal/digestion/connector/connector.go: what a driver of a source
-- database offers, and the choice of the driver.
use Prim.Native.String.{◌++◌}
use manju_backend.Prelude.{ℕ, ℤ, String, Bool, List, Option, str_eq, if◌then◌else◌}
use manju_backend.Exec.{Error, failure, Result, ok, err}
use manju_backend.Digestion.{Row}

pub record SourceConfig : Type 0 where
  pub kind : String
  pub host : String
  pub port : ℤ
  pub database : String
  pub username : String
  pub password : String
  pub ssl_mode : String

pub record TableMeta : Type 0 where
  pub schema : String
  pub name : String
  pub estimated_rows : ℕ
  pub primary_keys : List String
  pub timestamp_column : String

pub record ColumnMeta : Type 0 where
  pub name : String
  pub ordinal_position : ℕ
  pub data_type : String
  pub mapped_type : String
  pub max_length : ℕ
  pub numeric_precision : ℕ
  pub numeric_scale : ℕ
  pub is_nullable : Bool
  pub is_primary_key : Bool
  pub is_unique : Bool
  pub has_default : Bool
  pub default_value : String
  pub semantic_type : String

pub record ForeignKeyMeta : Type 0 where
  pub constraint_name : String
  pub from_schema : String
  pub from_table : String
  pub from_column : String
  pub to_schema : String
  pub to_table : String
  pub to_column : String

-- What a stream hands over: the rows of its channel until it is closed, and what then comes out of
-- the error channel.
pub record Stream (V : Type 0) : Type 0 where
  pub rows : List (Row V)
  pub error : Option Error

pub record Connector (V : Type 0) : Type 0 where
  pub discover_tables : Result (List TableMeta)
  pub discover_columns : String → String → Result (List ColumnMeta)
  pub discover_foreign_keys : Result (List ForeignKeyMeta)
  pub stream_rows : String → String → Option ℕ → Stream V
  pub count_rows : String → String → Result ℕ

-- A connector that is not connected yet.
pub data Driver : Type 0 where
  postgres : SourceConfig → Driver

-- `quote` is the verb %q of fmt.
unfoldable pub new : (String → String) → SourceConfig → Result Driver
new quote cfg =
    if str_eq cfg.kind "postgres"
    then ok (postgres cfg)
    else err (failure ("unsupported connector type " ++ quote cfg.kind))
