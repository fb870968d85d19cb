-- ===== src/FileStore/Api/Tests.antt =====
-- Requests to the file store over the provider in memory.
use mathlib.Core.Logic.{◌≢◌}
use manju_backend.Prelude.{
  ℕ, zero, suc, ap, ◌≡◌, refl, String, [], ◌∷◌, none, some, negsuc, str_eq, if◌then◌else◌,
}
use manju_backend.Http.{Codecs}
use manju_backend.FileStore.{Env, FileRecord}
use manju_backend.FileStore.Rows.{scan_file_record, valid_category, valid_status}
use manju_backend.FileStore.PgStore.{insert_file_record, get_file_record, soft_delete_file_record}
use manju_backend.FileStore.Store.{upload, delete, new, with_event_emitter, object_key}
use manju_backend.FileStore.Tenancy.{others}
use manju_backend.FileStore.Tests.{quiet, store, one_file, empty_world, stored}
use manju_backend.FileStore.Api.{
  Request, ok, created, err_resp, file, to_file_response, listed_category, upload_request,
}
use manju_backend.FileStore.Api.Handlers.{
  post_files, get_files, get_files_id, delete_files_id, patch_files_id_status, get_health, handle,
  tenant_id, upload_file, delete_file,
}
use manju_backend.FileStore.Api.Isolation.{handle-others, handle-no_tenant}
use manju_backend.FileStore.Api.Answers.{
  get_file-lookup_answer, get_file-upload_file, delete_file-delete_file,
}

-- Every nonempty text is the id 1, but "seven", which is 7.
abbrev codecs : Codecs
codecs = record {
  parse_uuid = λ s. if str_eq s "seven" then some 7 else some 1;
  scan_int = λ s. none;
  parse_int = λ s. none;
  parse_duration = λ s. none;
  duration_string = λ d. "15m0s";
  decimal = λ n. "0";
  quoted = λ s. s;
  message = λ e. "error";
}

abbrev bare : Request
bare = record {
  header = λ name. "";
  query_param = λ name. "";
  form_value = λ name. "";
  form_file = λ name. none;
  param = λ name. "";
  bound_status = none;
}

abbrev for_seven : Request
for_seven = record bare {
  header = λ name. if str_eq name "X-Tenant-ID" then "one" else "";
  param = λ name. "seven";
}

abbrev posted : Request
posted = record for_seven {
  form_value = λ name. if str_eq name "category" then "attachment" else "";
  form_file = λ name. some (record {
    filename = "a.csv";
    content_type = "text/csv";
    size = negsuc 0;
    opened = some (104 ∷ 105 ∷ []);
  });
}

delete_not_patch : delete_files_id ≢ patch_files_id_status
delete_not_patch = cc

files_not_health : get_files ≢ get_health
files_not_health = cc

files_not_patch : get_files ≢ patch_files_id_status
files_not_patch = cc

handle-others_example :
    others 1 (handle codecs quiet store for_seven delete_files_id one_file).1.files
    ≡ others 1 one_file.files
handle-others_example =
    handle-others codecs quiet store for_seven one_file delete_files_id 1 delete_not_patch refl

handle-no_tenant_example :
    ((handle codecs quiet store bare get_files one_file).0.status ≡ 400)
    × ((handle codecs quiet store bare get_files one_file).1 ≡ one_file)
handle-no_tenant_example =
    handle-no_tenant codecs quiet store bare one_file get_files files_not_health files_not_patch
      refl

get_file-lookup_answer_example : handle codecs quiet store for_seven get_files_id one_file ≡ (
  ok (file (to_file_response quiet.uuid_string stored)),
  record one_file { calls = suc one_file.calls },
)
unfolding scan_file_record
get_file-lookup_answer_example =
    get_file-lookup_answer codecs quiet store for_seven one_file 1 7 refl refl refl

delete_file-delete_file_example :
    let v = (handle codecs quiet store for_seven delete_files_id one_file).1 in
    ((handle codecs quiet store for_seven get_files_id v).0 ≡ err_resp 404 "file not found")
    × ((handle codecs quiet store for_seven delete_files_id v).0.status ≡ 500)
delete_file-delete_file_example =
    delete_file-delete_file codecs quiet store one_file for_seven for_seven 1 7 refl refl refl refl
      (unfold handle delete_file tenant_id delete get_file_record soft_delete_file_record in refl)
      (unfold handle delete_file tenant_id delete get_file_record soft_delete_file_record in refl)

-- A printing of ids as tallies, which parses back.
abbrev tally : ℕ → String
tally zero = ""
tally (suc n) = String.◌∷◌ "i" (tally n)

abbrev strokes : String → ℕ
strokes String.[] = 0
strokes (String.◌∷◌ c s) = suc (strokes s)

strokes-tally : (n : ℕ) → strokes (tally n) ≡ n
strokes-tally zero = refl
strokes-tally (suc n) = ap suc (strokes-tally n)

abbrev tallied : Env
tallied = record quiet { uuid_string = tally }

abbrev tallies : Codecs
tallies = record codecs { parse_uuid = λ s. some (strokes s) }

abbrev got_seven : Request
got_seven = record for_seven {
  header = λ name. if str_eq name "X-Tenant-ID" then "i" else "";
  param = λ name. "iiiiiii";
}

abbrev posted_i : Request
posted_i = record posted { header = got_seven.header }

abbrev stored_i : FileRecord
stored_i = record stored { object_key = "attachment/iiiiiii/a.csv"; source_id = none }

uploaded_i :
    (handle tallies tallied store posted_i post_files empty_world).0
    ≡ created (file (to_file_response tally stored_i))
unfolding handle upload_file tenant_id upload new with_event_emitter object_key insert_file_record
    valid_category valid_status listed_category upload_request
uploaded_i = refl

get_file-upload_file_example :
    (handle tallies tallied store got_seven get_files_id
      (handle tallies tallied store posted_i post_files empty_world).1).0
    ≡ ok (file (to_file_response tally stored_i))
get_file-upload_file_example =
    get_file-upload_file tallies tallied store empty_world (λ u. ap some (strokes-tally u)) posted_i
      got_seven 1 (to_file_response tally stored_i) refl refl uploaded_i
      (unfold handle upload_file tenant_id upload new with_event_emitter object_key
          insert_file_record valid_category valid_status listed_category upload_request in
        refl)
      (unfold to_file_response in refl)
