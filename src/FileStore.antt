-- ===== src/FileStore.antt =====
-- core-services-object-store/pkg/filestore: the data of types.go, backend.go and events.go, what
-- the package takes from elsewhere, and the state that its methods work on.
pub mod Rows
pub mod PgStore
pub mod Store
pub mod Minio
pub mod Api
pub mod Server
pub mod Invariant
pub mod Service
pub mod Tenancy
mod Tests
use manju_backend.Prelude.{ℕ, ℤ, String, Bool, List, [], ◌∷◌, ◌++◌, Option, none, some}
use manju_backend.Exec.{Error, Result, ok, err, Exec}

-- A UUID as its 128-bit value.
abbrev pub Uuid : Type 0
Uuid = ℕ

abbrev pub Bytes : Type 0
Bytes = List ℕ

abbrev pub category_digestion_source : String
category_digestion_source = "digestion_source"

abbrev pub category_attachment : String
category_attachment = "attachment"

abbrev pub category_export : String
category_export = "export"

abbrev pub category_pipeline_artifact : String
category_pipeline_artifact = "pipeline_artifact"

abbrev pub status_active : String
status_active = "active"

abbrev pub status_processing : String
status_processing = "processing"

abbrev pub status_processed : String
status_processed = "processed"

abbrev pub status_deleted : String
status_deleted = "deleted"

pub record FileRecord : Type 0 where
  pub id : Uuid
  pub tenant_id : Uuid
  pub original_filename : String
  pub content_type : String
  pub size_bytes : ℤ
  pub checksum_sha256 : String
  pub bucket : String
  pub object_key : String
  pub category : String
  pub status : String
  pub object_id : Option Uuid
  pub source_id : Option Uuid
  pub uploaded_by : Option Uuid
  pub created_at : ℕ
  pub updated_at : ℕ
  pub deleted_at : Option ℕ
  pub is_deleted : Bool

-- `reader` is the content that the caller's io.Reader still has to give.
pub record UploadRequest : Type 0 where
  pub tenant_id : Uuid
  pub original_filename : String
  pub content_type : String
  pub size : ℤ
  pub category : String
  pub reader : Bytes
  pub object_id : Option Uuid
  pub source_id : Option Uuid
  pub uploaded_by : Option Uuid

pub record ListRequest : Type 0 where
  pub tenant_id : Uuid
  pub category : Option String
  pub status : Option String
  pub source_id : Option Uuid
  pub object_id : Option Uuid
  pub limit : ℤ
  pub offset : ℤ

pub record ObjectInfo : Type 0 where
  pub key : String
  pub size : ℤ
  pub content_type : String
  pub etag : String
  pub last_modified : ℕ
  pub is_prefix : Bool

pub record BrowseResult : Type 0 where
  pub bucket : String
  pub prefix : String
  pub entries : List ObjectInfo

-- The interface of backend.go over the state `B` of a provider. `upload` returns the bytes that it
-- read from the stream, which is what a TeeReader round the stream passes to the hash.
pub record StorageBackend (B : Type 0) : Type 0 where
  pub ensure_bucket : String → Exec B (Unit {0})
  pub bucket_exists : String → Exec B Bool
  pub upload : String → String → Bytes → ℤ → String → Exec B Bytes
  pub download : String → String → Exec B Bytes
  pub delete : String → String → Exec B (Unit {0})
  pub stat : String → String → Exec B ObjectInfo
  pub list : String → String → Bool → Exec B (List ObjectInfo)
  pub presigned_get_url : String → String → ℤ → Exec B String
  pub presigned_put_url : String → String → ℤ → Exec B String

pub data EventType : Type 0 where
  file_uploaded file_processing file_processed file_deleted : EventType

-- A value of the metadata map.
pub data Meta : Type 0 where
  text : String → Meta
  number : ℤ → Meta

pub record Event : Type 0 where
  pub kind : EventType
  pub file_id : Uuid
  pub tenant_id : Uuid
  pub timestamp : ℕ
  pub metadata : List (String × Meta)

-- What the emitters have written, oldest first: log lines or the values sent on a channel.
abbrev pub Sink : Type 0
Sink = List Event

pub record EventEmitter : Type 0 where
  pub emit : Event → Exec Sink (Unit {0})

abbrev pub no_op_emitter : EventEmitter
no_op_emitter = record { emit = λ event sink. (ok tt, sink) }

-- The log line has the type, the ids and the time, and not the metadata.
abbrev pub log_emitter : EventEmitter
log_emitter = record { emit = λ event sink. (ok tt, sink ++ record event { metadata = [] } ∷ []) }

abbrev pub chan_emitter : EventEmitter
chan_emitter = record { emit = λ event sink. (ok tt, sink ++ event ∷ []) }

-- A nullable column as the driver passes it.
pub record PgUuid : Type 0 where
  pub bytes : Uuid
  pub valid : Bool

pub record PgTime : Type 0 where
  pub time : ℕ
  pub valid : Bool

-- A row of stored_files.
pub record FileRow : Type 0 where
  pub id : Uuid
  pub tenant_id : Uuid
  pub original_filename : String
  pub content_type : String
  pub size_bytes : ℤ
  pub checksum_sha256 : String
  pub bucket : String
  pub object_key : String
  pub category : String
  pub status : String
  pub object_id : PgUuid
  pub source_id : PgUuid
  pub uploaded_by : PgUuid
  pub created_at : ℕ
  pub updated_at : ℕ
  pub deleted_at : PgTime
  pub is_deleted : Bool

-- What the package takes from the database driver, the clock, the UUID library and crypto/sha256:
-- the outcome, the time and the fresh UUID at the n-th outside call, and which of the rows that
-- match a LIMIT 1 the server returns.
pub record Env : Type 0 where
  pub fault : ℕ → Option Error
  pub clock : ℕ → ℕ
  pub fresh : ℕ → Uuid
  pub sha256_hex : Bytes → String
  pub uuid_string : Uuid → String
  pub pick : List FileRow → ℕ

-- The table, the provider's state, the emitter's output, and the number of outside calls so far.
pub record World (B : Type 0) : Type 0 where
  pub files : List FileRow
  pub blobs : B
  pub sink : Sink
  pub calls : ℕ
