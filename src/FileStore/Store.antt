-- ===== src/FileStore/Store.antt =====
-- core-services-object-store/pkg/filestore/store.go: the service over a provider and the table.
pub mod Upload
pub mod Content
pub mod Delete
use Prim.Native.String.{◌++◌}
use manju_backend.Prelude.{
  ℕ, suc, ℤ, is_negative, String, Bool, List, [], ◌∷◌, Option, none, some, str_eq, if◌then◌else◌,
}
use manju_backend.Exec.{Exec, ok, pure, context, on_error, ignore, ◌>>=◌, ◌>>◌}
use manju_backend.FileStore.{
  Uuid, Bytes, FileRecord, UploadRequest, ListRequest, BrowseResult, StorageBackend, EventType,
  file_uploaded, file_processing, file_processed, file_deleted, Meta, Event, EventEmitter,
  no_op_emitter, Env, World, status_active, status_processing, status_processed,
}
use manju_backend.FileStore.PgStore.{
  now, insert_file_record, get_file_record, list_file_records, update_file_status,
  soft_delete_file_record, find_duplicate_record,
}

-- The pool is the table of `World`.
pub record Store (B : Type 0) : Type 0 where
  pub backend : StorageBackend B
  pub emitter : EventEmitter
  pub tenant_bucket : Uuid → String

-- A functional option.
abbrev pub StoreOption : Type 0 → Type 0
StoreOption B = Store B → Store B

module _ {B : Type 0} where
  unfoldable pub with_event_emitter : EventEmitter → StoreOption B
  with_event_emitter e s = record s { emitter = e }

  unfoldable pub with_tenant_bucket : (Uuid → String) → StoreOption B
  with_tenant_bucket fn s = record s { tenant_bucket = fn }

  abbrev apply_options : List (StoreOption B) → Store B → Store B
  apply_options [] s = s
  apply_options (o ∷ opts) s = apply_options opts (o s)

  unfoldable pub new : Env → StorageBackend B → List (StoreOption B) → Store B
  new env backend opts = apply_options opts (record {
    backend = backend;
    emitter = no_op_emitter;
    tenant_bucket = λ id. "t-" ++ env.uuid_string id;
  })

  abbrev pub on_blobs : {A : Type 0} → Exec B A → Exec (World B) A
  on_blobs m w = let (r, blobs) = m w.blobs in (r, record w { blobs = blobs })

unfoldable pub object_key : Env → String → Uuid → String → String
object_key env category file_id filename =
    category ++ ("/" ++ (env.uuid_string file_id ++ ("/" ++ filename)))

-- The event of a status; the others are not announced.
pub status_event : String → Option EventType
status_event status =
    if str_eq status status_processing
    then some file_processing
    else if str_eq status status_processed
    then some file_processed
    else none

abbrev pub upload_metadata : UploadRequest → ℤ → String → List (String × Meta)
upload_metadata req size checksum =
    ("category", Meta.text req.category)
    ∷ ("original_filename", Meta.text req.original_filename)
    ∷ ("size_bytes", Meta.number size)
    ∷ ("checksum_sha256", Meta.text checksum)
    ∷ []

abbrev pub uploaded_record : UploadRequest → Uuid → String → String → ℤ → String → FileRecord
uploaded_record req file_id bucket key size checksum = record {
  id = file_id;
  tenant_id = req.tenant_id;
  original_filename = req.original_filename;
  content_type = req.content_type;
  size_bytes = size;
  checksum_sha256 = checksum;
  bucket = bucket;
  object_key = key;
  category = req.category;
  status = status_active;
  object_id = req.object_id;
  source_id = req.source_id;
  uploaded_by = req.uploaded_by;
  created_at = 0;
  updated_at = 0;
  deleted_at = none;
  is_deleted = Bool.false;
}

module _ {B : Type 0} (env : Env) (s : Store B) where
  abbrev pub fresh_id : Exec (World B) Uuid
  fresh_id w = (ok (env.fresh w.calls), record w { calls = suc w.calls })

  abbrev pub emit : Event → Exec (World B) (Unit {0})
  emit event w = let (r, sink) = s.emitter.emit event w.sink in (r, record w { sink = sink })

  stat_size : String → String → Exec (World B) ℤ
  stat_size bucket key = do
    info ←
        context "filestore: stat after upload"
          (on_error (on_blobs (s.backend.stat bucket key)) (on_blobs (s.backend.delete bucket key)))
    pure info.size

  -- The size to record: as declared, or as the provider reports it.
  pub recorded_size : String → String → ℤ → Exec (World B) ℤ
  unfolding stat_size
  recorded_size bucket key size = if is_negative size then stat_size bucket key else pure size

  unfoldable pub upload : UploadRequest → Exec (World B) FileRecord
  unfolding recorded_size
  upload req = do
    let bucket = s.tenant_bucket req.tenant_id
    context "filestore: ensure bucket" (on_blobs (s.backend.ensure_bucket bucket))
    file_id ← fresh_id
    let key = object_key env req.category file_id req.original_filename
    read ←
        context "filestore: upload to backend"
          (on_blobs (s.backend.upload bucket key req.reader req.size req.content_type))
    let checksum = env.sha256_hex read
    size ← recorded_size bucket key req.size
    rec ← context "filestore: record upload" (
        on_error (insert_file_record env (uploaded_record req file_id bucket key size checksum))
          (on_blobs (s.backend.delete bucket key)))
    time ← now env
    ignore (
        emit (record {
          kind = file_uploaded;
          file_id = file_id;
          tenant_id = req.tenant_id;
          timestamp = time;
          metadata = upload_metadata req size checksum;
        }))
    pure rec

  unfoldable pub download : Uuid → Uuid → Exec (World B) (Bytes × FileRecord)
  download file_id tenant_id = do
    rec ← context "filestore: get record for download" (get_file_record env file_id tenant_id)
    content ←
        context "filestore: backend download"
          (on_blobs (s.backend.download rec.bucket rec.object_key))
    pure (content, rec)

  unfoldable pub delete : Uuid → Uuid → Exec (World B) (Unit {0})
  delete file_id tenant_id = do
    rec ← context "filestore: get record for delete" (get_file_record env file_id tenant_id)
    context "filestore: soft delete record" (soft_delete_file_record env file_id tenant_id)
    ignore (on_blobs (s.backend.delete rec.bucket rec.object_key))
    time ← now env
    ignore (
        emit (record {
          kind = file_deleted;
          file_id = file_id;
          tenant_id = tenant_id;
          timestamp = time;
          metadata = [];
        }))
    pure tt

  unfoldable pub get : Uuid → Uuid → Exec (World B) FileRecord
  get = get_file_record env

  unfoldable pub list : ListRequest → Exec (World B) (List FileRecord)
  list = list_file_records env

  unfoldable pub browse : Uuid → String → Bool → Exec (World B) BrowseResult
  browse tenant_id prefix recursive = do
    let bucket = s.tenant_bucket tenant_id
    entries ←
        context ("filestore: browse " ++ (bucket ++ ("/" ++ prefix)))
          (on_blobs (s.backend.list bucket prefix recursive))
    pure (record { bucket = bucket; prefix = prefix; entries = entries })

  unfoldable pub find_duplicate : Uuid → String → Exec (World B) (Option FileRecord)
  find_duplicate = find_duplicate_record env

  -- The event carries the zero tenant.
  announce : Uuid → Option EventType → Exec (World B) (Unit {0})
  announce file_id none = pure tt
  announce file_id (some kind) = do
    time ← now env
    ignore (
        emit (record {
          kind = kind;
          file_id = file_id;
          tenant_id = 0;
          timestamp = time;
          metadata = [];
        }))

  unfoldable pub update_status : Uuid → String → Exec (World B) (Unit {0})
  unfolding status_event announce
  update_status file_id status = do
    context "filestore: update status" (update_file_status env file_id status)
    announce file_id (status_event status)

  unfoldable pub presigned_url : Uuid → Uuid → ℤ → Exec (World B) String
  presigned_url file_id tenant_id expiry = do
    rec ← context "filestore: get record for presign" (get_file_record env file_id tenant_id)
    context "filestore: presign"
        (on_blobs (s.backend.presigned_get_url rec.bucket rec.object_key expiry))
