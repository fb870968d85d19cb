-- ===== src/FileStore/Api.antt =====
-- core-services-object-store/internal/api: the handlers of handlers/files.go over the file store,
-- one for each route of router.go.
pub mod Handlers
pub mod Requests
pub mod Isolation
pub mod Answers
mod Tests
use mathlib.Core.Option.{map as map_option}
use manju_backend.Prelude.{
  ℕ, ℤ, pos, String, ◌⧺◌, Bool, true, ◌||◌, List, [], ◌∷◌, map, Option, none, some, ◌==◌, str_eq,
  if◌then◌else◌, byte_length,
}
use manju_backend.Exec.{Error, is_not_found, is_deleted}
use manju_backend.Http.{Response, Handler, Codecs, proceed, required, call, demand, ◌>>=◌, ◌>>◌}
use manju_backend.FileStore.{
  Uuid, Bytes, FileRecord, UploadRequest, ListRequest, ObjectInfo, BrowseResult, Env, World,
  category_digestion_source, category_attachment, category_export, category_pipeline_artifact,
  status_active, status_processing, status_processed, status_deleted,
}
use manju_backend.FileStore.Store
use manju_backend.FileStore.Store.{Store}

-- A multipart file: `opened` is what `fh.Open()` gives to read, or none.
pub record FormFile : Type 0 where
  pub filename : String
  pub content_type : String
  pub size : ℤ
  pub opened : Option Bytes

-- What a handler reads of its request. An absent header, parameter or field is the empty text;
-- `bound_status` is the `status` of the JSON body, or none where `Bind` fails.
pub record Request : Type 0 where
  pub header : String → String
  pub query_param : String → String
  pub form_value : String → String
  pub form_file : String → Option FormFile
  pub param : String → String
  pub bound_status : Option String

pub record FileResponse : Type 0 where
  pub id : String
  pub tenant_id : String
  pub original_filename : String
  pub content_type : String
  pub size_bytes : ℤ
  pub checksum_sha256 : String
  pub bucket : String
  pub object_key : String
  pub category : String
  pub status : String
  pub object_id : Option String
  pub source_id : Option String
  pub uploaded_by : Option String
  pub created_at : ℕ
  pub updated_at : ℕ
  pub deleted_at : Option ℕ
  pub is_deleted : Bool

pub record ObjectEntry : Type 0 where
  pub key : String
  pub size : ℤ
  pub content_type : String
  pub etag : String
  pub last_modified : ℕ
  pub is_prefix : Bool

-- The JSON that follows "data", or what else is sent.
pub data Body : Type 0 where
  health nothing : Body
  error_message http_error : String → Body
  file : FileResponse → Body
  files : List FileResponse → Body
  duplicate : Option FileResponse → Body
  url : String → String → Body
  browsed : String → String → List ObjectEntry → Body
  content : String → Bytes → Body

abbrev pub Reply : Type 0
Reply = Response Body

abbrev pub respond : ℕ → Body → Reply
respond status body = record { status = status; headers = []; body = body }

abbrev pub ok : Body → Reply
ok body = respond 200 body

abbrev pub created : Body → Reply
created body = respond 201 body

abbrev pub err_resp : ℕ → String → Reply
err_resp status msg = respond status (error_message msg)

abbrev pub no_content : Reply
no_content = respond 204 nothing

-- `echo.NewHTTPError`, which Echo's error handler sends.
abbrev pub http_error_resp : String → Reply
http_error_resp msg = respond 400 (http_error msg)

unfoldable pub listed_category : String → Bool
listed_category c =
    str_eq c category_digestion_source
    || str_eq c category_attachment
    || str_eq c category_export
    || str_eq c category_pipeline_artifact

unfoldable pub listed_status : String → Bool
listed_status s =
    str_eq s status_active
    || str_eq s status_processing
    || str_eq s status_processed
    || str_eq s status_deleted

unfoldable pub to_object_entry : ObjectInfo → ObjectEntry
to_object_entry e = record {
  key = e.key;
  size = e.size;
  content_type = e.content_type;
  etag = e.etag;
  last_modified = e.last_modified;
  is_prefix = e.is_prefix;
}

-- 15 * time.Minute in nanoseconds
abbrev default_expiry : ℤ
default_expiry = pos 900_000_000_000

abbrev default_limit : ℤ
default_limit = pos 50

abbrev set_or : {A : Type 0} → A → Option A → A
set_or old none = old
set_or old (some new) = new

-- A filter that is set only by a nonempty parameter.
abbrev filter_of : String → Option String
filter_of v = if str_eq v "" then none else some v

-- The file response of a record, ids printed.
unfoldable pub to_file_response : (Uuid → String) → FileRecord → FileResponse
to_file_response uuid_string rec = record {
  id = uuid_string rec.id;
  tenant_id = uuid_string rec.tenant_id;
  original_filename = rec.original_filename;
  content_type = rec.content_type;
  size_bytes = rec.size_bytes;
  checksum_sha256 = rec.checksum_sha256;
  bucket = rec.bucket;
  object_key = rec.object_key;
  category = rec.category;
  status = rec.status;
  object_id = map_option uuid_string rec.object_id;
  source_id = map_option uuid_string rec.source_id;
  uploaded_by = map_option uuid_string rec.uploaded_by;
  created_at = rec.created_at;
  updated_at = rec.updated_at;
  deleted_at = rec.deleted_at;
  is_deleted = rec.is_deleted;
}

module _ (codecs : Codecs) where
  unfoldable pub optional_uuid : String → Option Uuid
  optional_uuid s = if str_eq s "" then none else codecs.parse_uuid s

  -- `c.JSON(http.StatusInternalServerError, …err.Error())`
  abbrev pub server_error : Error → Reply
  server_error e = err_resp 500 (codecs.message e)

  -- Get, Download and Presign: not found and deleted files are missing.
  unfoldable pub missing_or_error : Error → Reply
  missing_or_error e =
      if is_not_found e || is_deleted e then err_resp 404 "file not found" else server_error e

  -- Delete and UpdateStatus ask for not found only.
  unfoldable pub not_found_or_error : Error → Reply
  not_found_or_error e = if is_not_found e then err_resp 404 "file not found" else server_error e

  -- The expiry of a query: the default stands where there is none that parses.
  unfoldable pub expiry_of : String → ℤ
  expiry_of v =
      if str_eq v "" then default_expiry else set_or default_expiry (codecs.parse_duration v)

  unfoldable pub limit_of : String → ℤ
  limit_of v = if str_eq v "" then default_limit else set_or default_limit (codecs.scan_int v)

  unfoldable pub list_request : Uuid → Request → ListRequest
  unfolding optional_uuid limit_of
  list_request ten_id req = record {
    tenant_id = ten_id;
    category = filter_of (req.query_param "category");
    status = filter_of (req.query_param "status");
    source_id = optional_uuid (req.query_param "source_id");
    object_id = optional_uuid (req.query_param "object_id");
    limit = limit_of (req.query_param "limit");
    offset = set_or (pos 0) (codecs.scan_int (req.query_param "offset"));
  }

  unfoldable pub upload_request : Uuid → Request → FormFile → Bytes → UploadRequest
  unfolding optional_uuid
  upload_request ten_id req fh reader = record {
    tenant_id = ten_id;
    original_filename = fh.filename;
    content_type =
        if str_eq fh.content_type "" then "application/octet-stream" else fh.content_type;
    size = fh.size;
    category = req.form_value "category";
    reader = reader;
    object_id = optional_uuid (req.form_value "object_id");
    source_id = optional_uuid (req.form_value "source_id");
    uploaded_by = optional_uuid (req.header "X-Uploaded-By");
  }
