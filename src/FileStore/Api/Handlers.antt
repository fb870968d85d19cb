-- ===== src/FileStore/Api/Handlers.antt =====
-- core-services-object-store/internal/api/handlers/files.go: the handlers, and the routes of
-- router.go with the handler of each.
use manju_backend.Prelude.{
  String, not, ◌==◌, List, [], ◌∷◌, map, Option, none, some, str_eq, byte_length, ◌⧺◌,
}
use manju_backend.Http.{Handler, Codecs, proceed, required, call, demand, serve, ◌>>=◌, ◌>>◌}
use manju_backend.FileStore.{Uuid, Bytes, FileRecord, BrowseResult, Env, World}
use manju_backend.FileStore.Store
use manju_backend.FileStore.Store.{Store}
use manju_backend.FileStore.Api.{
  Request, Body, Reply, respond, ok, created, err_resp, no_content, http_error_resp,
  listed_category, listed_status, to_file_response, to_object_entry, server_error, missing_or_error,
  not_found_or_error, expiry_of, list_request, upload_request, health, file, files, duplicate, url,
  browsed, content,
}

pub data Method : Type 0 where
  get post patch delete : Method

-- The routes, named by their paths.
pub data Route : Type 0 where
  get_health post_files get_files get_files_duplicate get_files_id delete_files_id : Route
  get_files_id_download get_files_id_presign patch_files_id_status get_browse : Route

-- What `New` registers, in its order.
abbrev pub registered_routes : List (Method × String × Route)
registered_routes =
    (get, "/health", get_health)
    ∷ (post, "/v1/files", post_files)
    ∷ (get, "/v1/files", get_files)
    ∷ (get, "/v1/files/duplicate", get_files_duplicate)
    ∷ (get, "/v1/files/:id", get_files_id)
    ∷ (delete, "/v1/files/:id", delete_files_id)
    ∷ (get, "/v1/files/:id/download", get_files_id_download)
    ∷ (get, "/v1/files/:id/presign", get_files_id_presign)
    ∷ (patch, "/v1/files/:id/status", patch_files_id_status)
    ∷ (get, "/v1/browse", get_browse)
    ∷ []

abbrev pub bad_file_id : Reply
bad_file_id = err_resp 400 "invalid file ID"

abbrev pub bad_checksum : Reply
bad_checksum = err_resp 400 "checksum must be a 64-character hex-encoded SHA-256"

abbrev pub bad_category : Reply
bad_category =
    err_resp 400 "category must be one of: digestion_source, attachment, export, pipeline_artifact"

abbrev pub bad_status : Reply
bad_status = err_resp 400 "status must be one of: active, processing, processed, deleted"

abbrev pub bad_body : Reply
bad_body = err_resp 400 "invalid request body"

abbrev pub no_file : Reply
no_file = err_resp 400 "file field is required"

abbrev pub not_opened : Reply
not_opened = err_resp 500 "could not open uploaded file"

module _ {B : Type 0} (codecs : Codecs) (env : Env) (s : Store B) (req : Request) where
  abbrev FileHandler : Type 0 → Type 0
  FileHandler A = Handler Reply (World B) A

  abbrev file_body : FileRecord → Body
  file_body rec = file (to_file_response env.uuid_string rec)

  -- The header first has to be there, then to parse.
  unfoldable pub tenant_id : FileHandler Uuid
  tenant_id = do
    let raw = req.header "X-Tenant-ID"
    demand (http_error_resp "missing X-Tenant-ID header") (not (str_eq raw ""))
    required (http_error_resp "invalid X-Tenant-ID header") (codecs.parse_uuid raw)

  abbrev parse_id : FileHandler Uuid
  parse_id = required bad_file_id (codecs.parse_uuid (req.param "id"))

  unfoldable pub upload_file : FileHandler Reply
  upload_file = do
    ten_id ← tenant_id
    demand bad_category (listed_category (req.form_value "category"))
    fh ← required no_file (req.form_file "file")
    f ← required not_opened fh.opened
    rec ← call (server_error codecs) (Store.upload env s (upload_request codecs ten_id req fh f))
    proceed (created (file_body rec))

  unfoldable pub list_files : FileHandler Reply
  list_files = do
    ten_id ← tenant_id
    records ← call (server_error codecs) (Store.list env s (list_request codecs ten_id req))
    proceed (ok (files (map (to_file_response env.uuid_string) records)))

  abbrev duplicate_body : Option FileRecord → Body
  duplicate_body none = duplicate none
  duplicate_body (some rec) = duplicate (some (to_file_response env.uuid_string rec))

  unfoldable pub find_duplicate : FileHandler Reply
  find_duplicate = do
    ten_id ← tenant_id
    let checksum = req.query_param "checksum"
    demand bad_checksum (byte_length checksum == 64)
    rec ← call (server_error codecs) (Store.find_duplicate env s ten_id checksum)
    proceed (ok (duplicate_body rec))

  unfoldable pub get_file : FileHandler Reply
  get_file = do
    ten_id ← tenant_id
    id ← parse_id
    rec ← call (missing_or_error codecs) (Store.get env s id ten_id)
    proceed (ok (file_body rec))

  unfoldable pub delete_file : FileHandler Reply
  delete_file = do
    ten_id ← tenant_id
    id ← parse_id
    call (not_found_or_error codecs) (Store.delete env s id ten_id)
    proceed no_content

  abbrev streamed : Bytes × FileRecord → Reply
  streamed (rc, rec) = record {
    status = 200;
    headers =
        ("Content-Disposition", "attachment; filename=" ⧺ codecs.quoted rec.original_filename)
        ∷ ("Content-Length", codecs.decimal rec.size_bytes)
        ∷ ("X-Checksum-SHA256", rec.checksum_sha256)
        ∷ [];
    body = content rec.content_type rc;
  }

  unfoldable pub download_file : FileHandler Reply
  download_file = do
    ten_id ← tenant_id
    id ← parse_id
    found ← call (missing_or_error codecs) (Store.download env s id ten_id)
    proceed (streamed found)

  unfoldable pub presign_file : FileHandler Reply
  presign_file = do
    ten_id ← tenant_id
    id ← parse_id
    let expiry = expiry_of codecs (req.query_param "expiry")
    link ← call (missing_or_error codecs) (Store.presigned_url env s id ten_id expiry)
    proceed (ok (url link (codecs.duration_string expiry)))

  unfoldable pub update_file_status : FileHandler Reply
  update_file_status = do
    id ← parse_id
    status ← required bad_body req.bound_status
    demand bad_status (listed_status status)
    call (not_found_or_error codecs) (Store.update_status env s id status)
    proceed no_content

  abbrev browse_body : BrowseResult → Body
  browse_body result = browsed result.bucket result.prefix (map to_object_entry result.entries)

  unfoldable pub browse : FileHandler Reply
  browse = do
    ten_id ← tenant_id
    result ← call (server_error codecs) (
        Store.browse env s ten_id (req.query_param "prefix")
          (str_eq (req.query_param "recursive") "true"))
    proceed (ok (browse_body result))

  abbrev pub handler : Route → FileHandler Reply
  handler get_health = proceed (respond 200 health)
  handler post_files = upload_file
  handler get_files = list_files
  handler get_files_duplicate = find_duplicate
  handler get_files_id = get_file
  handler delete_files_id = delete_file
  handler get_files_id_download = download_file
  handler get_files_id_presign = presign_file
  handler patch_files_id_status = update_file_status
  handler get_browse = browse

  -- One request, from the handler that Echo picks to the answer.
  unfoldable pub handle : Route → World B → Reply × World B
  handle route = serve (handler route)
