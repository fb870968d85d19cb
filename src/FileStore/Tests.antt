-- ===== src/FileStore/Tests.antt =====
-- Runs of the file store on a small provider held in memory.
use manju_backend.Prelude.{
  ◌≡◌, refl, inl, eq_iff, String, true, false, List, [], ◌∷◌, none, some, pos, negsuc, length,
  str_eq, if◌then◌else◌, map,
}
use manju_backend.Exec.{failure, deleted, wrap, Result, ok, err}
use manju_backend.FileStore.{
  Bytes, FileRecord, UploadRequest, ListRequest, ObjectInfo, StorageBackend, Env, FileRow, World,
  log_emitter,
}
use manju_backend.FileStore.Rows.{scan_file_record, inserted_row, valid_category, valid_status}
use manju_backend.FileStore.PgStore.{
  insert_file_record, get_file_record, soft_delete_file_record, update_file_status,
  list_file_records, find_duplicate_record,
}
use manju_backend.Table.Selected.{IsPageOf}
use manju_backend.FileStore.PgStore.Reads.{
  IsListed, list_file_records-IsPageOf, IsFound, find_duplicate_record-IsFound,
}
use manju_backend.FileStore.Store.{
  Store, new, with_event_emitter, object_key, upload, download, delete, get, list, find_duplicate,
  update_status,
}
use manju_backend.FileStore.Store.Upload.{upload_error-keeps}
use manju_backend.FileStore.Store.Content.{Stores, download-upload}
use manju_backend.FileStore.Store.Delete.{get-delete, get-update_status}
use manju_backend.FileStore.Invariant.{IsSound}
use manju_backend.FileStore.Service.{deletes, uploads, gets, step, run, run-IsSound}
use manju_backend.FileStore.Tenancy.{issued_by, others, own, step-others, reads_own, list-own}

abbrev pub Blobs : Type 0
Blobs = List (String × Bytes)

abbrev found_blob : String → Blobs → Result Bytes
found_blob key [] = err (failure "no such key")
found_blob key ((k, content) ∷ rest) = if str_eq k key then ok content else found_blob key rest

abbrev without_blob : String → Blobs → Blobs
without_blob key [] = []
without_blob key ((k, content) ∷ rest) =
    let others = without_blob key rest in if str_eq k key then others else (k, content) ∷ others

abbrev info_of : String → Result Bytes → Result ObjectInfo
info_of key (err e) = err e
info_of key (ok content) = ok (record {
  key = key;
  size = pos (length content);
  content_type = "";
  etag = "";
  last_modified = 0;
  is_prefix = false;
})

abbrev memory : StorageBackend Blobs
memory = record {
  ensure_bucket = λ bucket b. (ok tt, b);
  bucket_exists = λ bucket b. (ok true, b);
  upload = λ bucket key content size content_type b. (ok content, (key, content) ∷ b);
  download = λ bucket key b. (found_blob key b, b);
  delete = λ bucket key b. (ok tt, without_blob key b);
  stat = λ bucket key b. (info_of key (found_blob key b), b);
  list = λ bucket prefix recursive b. (ok [], b);
  presigned_get_url = λ bucket key expiry b. (ok key, b);
  presigned_put_url = λ bucket key expiry b. (ok key, b);
}

abbrev pub quiet : Env
quiet = record {
  fault = λ n. none;
  clock = λ n. n;
  fresh = λ n. n;
  sha256_hex = λ content. "digest";
  uuid_string = λ id. "id";
  pick = λ rows. 0;
}

-- The database refuses every statement.
abbrev failing : Env
failing = record quiet { fault = λ n. some (failure "connection refused") }

abbrev every : ListRequest
every = record {
  tenant_id = 1;
  category = none;
  status = none;
  source_id = none;
  object_id = none;
  limit = pos 0;
  offset = pos 0;
}

abbrev pub store : Store Blobs
store = new quiet memory (with_event_emitter log_emitter ∷ [])

abbrev pub empty_world : World Blobs
empty_world = record { files = []; blobs = []; sink = []; calls = 7 }

abbrev request : UploadRequest
request = record {
  tenant_id = 1;
  original_filename = "a.csv";
  content_type = "text/csv";
  size = negsuc 0;
  category = "attachment";
  reader = 104 ∷ 105 ∷ [];
  object_id = none;
  source_id = some 5;
  uploaded_by = none;
}

-- The length that was not declared is the provider's.
abbrev pub stored : FileRecord
stored = record {
  id = 7;
  tenant_id = 1;
  original_filename = "a.csv";
  content_type = "text/csv";
  size_bytes = pos 2;
  checksum_sha256 = "digest";
  bucket = "t-id";
  object_key = "attachment/id/a.csv";
  category = "attachment";
  status = "active";
  object_id = none;
  source_id = some 5;
  uploaded_by = none;
  created_at = 9;
  updated_at = 9;
  deleted_at = none;
  is_deleted = false;
}

abbrev stored_row : FileRow
stored_row = record {
  id = 7;
  tenant_id = 1;
  original_filename = "a.csv";
  content_type = "text/csv";
  size_bytes = pos 2;
  checksum_sha256 = "digest";
  bucket = "t-id";
  object_key = "attachment/id/a.csv";
  category = "attachment";
  status = "active";
  object_id = record { bytes = 0; valid = false };
  source_id = record { bytes = 5; valid = true };
  uploaded_by = record { bytes = 0; valid = false };
  created_at = 9;
  updated_at = 9;
  deleted_at = record { time = 0; valid = false };
  is_deleted = false;
}

abbrev pub one_file : World Blobs
one_file = record {
  files = stored_row ∷ [];
  blobs = ("attachment/id/a.csv", 104 ∷ 105 ∷ []) ∷ [];
  sink = [];
  calls = 11;
}

-- The same table with a row of another tenant.
abbrev two_tenants : World Blobs
two_tenants = record one_file {
  files =
      record stored_row { id = 8; tenant_id = 2; object_key = "attachment/id8/a.csv" }
      ∷ stored_row
      ∷ [];
}

uploaded_rows :
    ◌≡◌ {A = Result FileRecord × List FileRow × Blobs}
      (
        (upload quiet store request empty_world).0,
        (upload quiet store request empty_world).1.files,
        (upload quiet store request empty_world).1.blobs,
      )
      (ok stored, one_file.files, one_file.blobs)
unfolding upload new with_event_emitter object_key insert_file_record valid_category valid_status
    inserted_row
uploaded_rows = refl

upload_error-keeps_example :
    ((upload failing store request one_file).1.files ≡ one_file.files)
    × ((upload failing store request one_file).1.sink ≡ one_file.sink)
upload_error-keeps_example =
    upload_error-keeps failing store one_file request
      (wrap "filestore: record upload" (failure "connection refused"))
      (unfold upload new with_event_emitter object_key insert_file_record valid_category
          valid_status in
        refl)

memory-Stores : Stores memory
memory-Stores = record {
  reads = λ bucket key reader size content_type s read whole e. cc e;
  keeps = λ bucket key reader size content_type s read e. rw ((eq_iff key key).1 refl) e;
  steady = λ bucket key s. refl;
}

download-upload_example :
    ((download quiet store 7 1 (upload quiet store request empty_world).1).0
      ≡ ok (104 ∷ 105 ∷ [], stored))
    × (stored.checksum_sha256 ≡ "digest")
download-upload_example =
    download-upload quiet store empty_world request (unfold new with_event_emitter in memory-Stores)
      (inl refl) stored
      (unfold upload new with_event_emitter object_key insert_file_record valid_category
          valid_status in
        refl)
      (unfold upload new with_event_emitter object_key insert_file_record valid_category
          valid_status in
        refl)

get-delete_example :
    ((get quiet store 7 1 (delete quiet store 7 1 one_file).1).0 ≡ err deleted)
    × (length (delete quiet store 7 1 one_file).1.files ≡ 1)
get-delete_example =
    get-delete quiet store one_file 7 1
      (unfold delete get_file_record soft_delete_file_record in refl)
      (unfold delete get_file_record soft_delete_file_record in refl)

get-update_status_example :
    (rec : FileRecord) × ((get quiet store 7 1 (update_status quiet store 7 "deleted" one_file).1).0
      ≡ ok rec)
    × (rec.status ≡ "deleted")
get-update_status_example =
    get-update_status quiet store one_file 7 "deleted" 1 stored_row refl refl
      (unfold update_status update_file_status valid_status in refl)
      (unfold update_status update_file_status valid_status in refl)

run-IsSound_example :
    IsSound (run quiet store (deletes 7 1 ∷ uploads request ∷ gets 7 2 ∷ []) one_file).files
unfolding valid_category valid_status
run-IsSound_example =
    run-IsSound quiet store (deletes 7 1 ∷ uploads request ∷ gets 7 2 ∷ []) one_file (record {
      distinct = (refl, tt);
      rows = (record { category = refl; status = refl; dated = refl }, tt);
    })

step-others_example :
    others 2 (step quiet store (deletes 7 2) one_file).files ≡ others 2 one_file.files
step-others_example = step-others quiet store one_file (deletes 7 2) 2 (unfold issued_by in refl)

reads_own_example :
    ((get quiet store 7 1 one_file).0 ≡ (get quiet store 7 1 two_tenants).0)
    × ((find_duplicate quiet store 1 "digest" one_file).0
        ≡ (find_duplicate quiet store 1 "digest" two_tenants).0)
reads_own_example =
    reads_own quiet store one_file two_tenants 1 (unfold own in refl) refl refl 7 "digest"

list-own_example : ◌≡◌ {A = List FileRecord} (stored ∷ []) (stored ∷ [])
list-own_example =
    list-own quiet store one_file two_tenants every (stored ∷ []) (stored ∷ []) (unfold own in refl)
      (unfold list list_file_records scan_file_record in refl)
      (unfold list list_file_records scan_file_record in refl)

list_file_records-IsPageOf_example :
    (rows : List FileRow) × (◌≡◌ {A = List FileRecord} (stored ∷ []) (map scan_file_record rows))
    × IsPageOf (IsListed every) (λ row. row.created_at) one_file.files 0 50 rows
list_file_records-IsPageOf_example =
    list_file_records-IsPageOf quiet one_file every (stored ∷ [])
      (unfold list_file_records scan_file_record in refl)

find_duplicate_record-found : (find_duplicate_record quiet 1 "digest" one_file).0 ≡ ok (some stored)
unfolding find_duplicate_record scan_file_record
find_duplicate_record-found = refl

find_duplicate_record-IsFound_example :
    IsFound 1 "digest" one_file.files (find_duplicate_record quiet 1 "digest" one_file).0
find_duplicate_record-IsFound_example = find_duplicate_record-IsFound quiet one_file 1 "digest" refl
