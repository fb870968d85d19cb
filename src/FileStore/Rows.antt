-- ===== src/FileStore/Rows.antt =====
-- core-services-object-store/pkg/filestore/pgstore.go: rows of stored_files, and the conditions of
-- the statements, with the constraints of core-services-database/scripts/init-object-store.sql.
use manju_backend.Prelude.{
  ℕ, ℤ, pos, is_nonpositive, is_above, to_ℕ, String, Bool, true, false, not, ◌&&◌, ◌||◌, List,
  Option, none, some, ◌==◌, str_eq, if◌then◌else◌, take, drop,
}
use manju_backend.Table.{where_rows, order_desc}
use manju_backend.FileStore.{
  Uuid, FileRecord, ListRequest, PgUuid, FileRow, category_digestion_source, category_attachment,
  category_export, category_pipeline_artifact, status_active, status_processing, status_processed,
  status_deleted,
}

abbrev pub uuid_to_pgtype : Option Uuid → PgUuid
uuid_to_pgtype none = record { bytes = 0; valid = false }
uuid_to_pgtype (some id) = record { bytes = id; valid = true }

abbrev pub pgtype_to_uuid : PgUuid → Option Uuid
pgtype_to_uuid p = if p.valid then some p.bytes else none

-- A scan that finds its row.
unfoldable pub scan_file_record : FileRow → FileRecord
scan_file_record row = record {
  id = row.id;
  tenant_id = row.tenant_id;
  original_filename = row.original_filename;
  content_type = row.content_type;
  size_bytes = row.size_bytes;
  checksum_sha256 = row.checksum_sha256;
  bucket = row.bucket;
  object_key = row.object_key;
  category = row.category;
  status = row.status;
  object_id = pgtype_to_uuid row.object_id;
  source_id = pgtype_to_uuid row.source_id;
  uploaded_by = pgtype_to_uuid row.uploaded_by;
  created_at = row.created_at;
  updated_at = row.updated_at;
  deleted_at = if row.deleted_at.valid then some row.deleted_at.time else none;
  is_deleted = row.is_deleted;
}

-- stored_files_category_check
unfoldable pub valid_category : String → Bool
valid_category c =
    str_eq c category_digestion_source
    || str_eq c category_attachment
    || str_eq c category_export
    || str_eq c category_pipeline_artifact

-- stored_files_status_check
unfoldable pub valid_status : String → Bool
valid_status s =
    str_eq s status_active
    || str_eq s status_processing
    || str_eq s status_processed
    || str_eq s status_deleted

-- The primary key and stored_files_bucket_key_unique.
unfoldable pub conflicts : FileRecord → FileRow → Bool
conflicts rec row =
    row.id == rec.id || (str_eq row.bucket rec.bucket && str_eq row.object_key rec.object_key)

unfoldable pub inserted_row : ℕ → FileRecord → FileRow
inserted_row now rec = record {
  id = rec.id;
  tenant_id = rec.tenant_id;
  original_filename = rec.original_filename;
  content_type = rec.content_type;
  size_bytes = rec.size_bytes;
  checksum_sha256 = rec.checksum_sha256;
  bucket = rec.bucket;
  object_key = rec.object_key;
  category = rec.category;
  status = rec.status;
  object_id = uuid_to_pgtype rec.object_id;
  source_id = uuid_to_pgtype rec.source_id;
  uploaded_by = uuid_to_pgtype rec.uploaded_by;
  created_at = now;
  updated_at = now;
  deleted_at = record { time = 0; valid = false };
  is_deleted = false;
}

abbrev pub owned_by : Uuid → Uuid → FileRow → Bool
owned_by file_id tenant_id row = row.id == file_id && row.tenant_id == tenant_id

abbrev pub deletable : Uuid → Uuid → FileRow → Bool
deletable file_id tenant_id row = owned_by file_id tenant_id row && not row.is_deleted

abbrev pub matches_text : Option String → String → Bool
matches_text none actual = true
matches_text (some wanted) actual = str_eq actual wanted

-- `column = $n` is not true of a NULL column.
abbrev pub matches_uuid : Option Uuid → PgUuid → Bool
matches_uuid none actual = true
matches_uuid (some wanted) actual = actual.valid && actual.bytes == wanted

unfoldable pub listed : ListRequest → FileRow → Bool
listed req row =
    row.tenant_id == req.tenant_id
    && not row.is_deleted
    && matches_text req.category row.category
    && matches_text req.status row.status
    && matches_uuid req.source_id row.source_id
    && matches_uuid req.object_id row.object_id

unfoldable pub effective_limit : ℤ → ℤ
effective_limit limit = if is_nonpositive limit || is_above 1000 limit then pos 50 else limit

abbrev pub same_checksum : Uuid → String → FileRow → Bool
same_checksum tenant_id checksum row =
    row.tenant_id == tenant_id && str_eq row.checksum_sha256 checksum && not row.is_deleted

-- LIMIT and OFFSET after ORDER BY created_at DESC.
unfoldable pub page : ListRequest → List FileRow → List FileRow
unfolding listed effective_limit
page req files =
    take (to_ℕ (effective_limit req.limit))
      (drop (to_ℕ req.offset) (order_desc (λ row. row.created_at) (where_rows (listed req) files)))

-- UPDATE … SET status = $1, with the trigger set_updated_at_stored_files.
abbrev pub with_status : String → ℕ → FileRow → FileRow
with_status status time row = record row { status = status; updated_at = time }

abbrev pub soft_deleted : ℕ → ℕ → FileRow → FileRow
soft_deleted now time row = record row {
  is_deleted = true;
  deleted_at = record { time = now; valid = true };
  status = status_deleted;
  updated_at = time;
}
