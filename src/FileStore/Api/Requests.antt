-- ===== src/FileStore/Api/Requests.antt =====
-- What a request to the file store does to it: nothing, or one call of the service, for the tenant
-- that its header names.
use manju_backend.Prelude.{
  ◌==◌, byte_length, ◌≡◌, refl, Bool, true, false, not, ◌⊎◌, inl, inr, Option, none, some, str_eq,
  if◌then◌else◌,
}
use manju_backend.Exec.{Error, Exec}
use manju_backend.Http.{
  proceed, Outcome, Handler, Codecs, reply, final, required, demand, call, ◌>>=◌, ◌>>◌,
  required-cases, demand-cases, call-cases,
}
use manju_backend.FileStore.{Uuid, Env, World}
use manju_backend.FileStore.Store
use manju_backend.FileStore.Store.{Store}
use manju_backend.FileStore.Service.{
  Command, uploads, downloads, deletes, gets, lists, browses, finds_duplicate, updates_status,
  presigns, step,
}
use manju_backend.FileStore.Tenancy.{issued_by}
use manju_backend.FileStore.Api.{
  Request, Reply, listed_category, listed_status, server_error, missing_or_error,
  not_found_or_error, upload_request, list_request, expiry_of,
}
use manju_backend.FileStore.Api.Handlers.{
  Route, get_health, post_files, get_files, get_files_duplicate, get_files_id, delete_files_id,
  get_files_id_download, get_files_id_presign, patch_files_id_status, get_browse, tenant_id,
  bad_file_id, bad_body, no_file, not_opened, bad_checksum, bad_status, bad_category, upload_file,
  list_files, find_duplicate, get_file, delete_file, download_file, presign_file,
  update_file_status, browse, handle, handler,
}

-- The tenant that a request is for.
abbrev pub tenant_of : Codecs → Request → Option Uuid
tenant_of codecs req =
    if str_eq (req.header "X-Tenant-ID") ""
    then none
    else codecs.parse_uuid (req.header "X-Tenant-ID")

module _ {B : Type 0} (codecs : Codecs) (env : Env) (s : Store B) (req : Request) where
  module _ {A : Type 0} (P : Outcome Reply A × World B → Type 0)
      (f : Uuid → Handler Reply (World B) A) (w : World B) where
    header-cases :
        (missing invalid : Reply)
        → missing.status ≡ 400
        → invalid.status ≡ 400
        → (empty : Bool) (o : Option Uuid)
        → ((ten_id : Uuid) → (if empty then none else o) ≡ some ten_id → P (f ten_id w))
        → ((r : Reply) → (if empty then none else o) ≡ none → r.status ≡ 400 → P (reply r, w))
        → P (((demand missing (not empty) >> required invalid o) >>= f) w)
    header-cases missing invalid m i true o good bad = bad missing refl m
    header-cases missing invalid m i false none good bad = bad invalid refl i
    header-cases missing invalid m i false (some t) good bad = good t refl

    -- The rest of a handler starts with the tenant; without one the answer is a 400.
    pub tenant_id-cases :
        ((ten_id : Uuid) → tenant_of codecs req ≡ some ten_id → P (f ten_id w))
        → ((r : Reply) → tenant_of codecs req ≡ none → r.status ≡ 400 → P (reply r, w))
        → P ((tenant_id codecs env s req >>= f) w)
    unfolding tenant_id
    tenant_id-cases good bad =
        header-cases _ _ refl refl (str_eq (req.header "X-Tenant-ID") "") _ good bad

  module _ (route : Route) (w : World B) where
    -- Only the update of a status is for no tenant.
    abbrev pub Tenanted : Command → Type 0
    Tenanted c =
        ((ten_id : Uuid) × (issued_by c ≡ some ten_id) × (tenant_of codecs req ≡ some ten_id))
        ⊎ (route ≡ patch_files_id_status)

    -- A request that was refused, and one after the health, has left the store alone.
    pub record IsRefused (r : Reply × World B) : Type 0 where
      pub status : (r.0.status ≡ 400) ⊎ ((r.0.status ≡ 500) ⊎ (route ≡ get_health))
      pub world : r.1 ≡ w

    -- One that was served is one call of the service, for the tenant of the request if it has
    -- one.
    pub record IsServed (r : Reply × World B) : Type 0 where
      pub command : Command
      pub world : r.1 ≡ step env s command w
      pub tenant :
          ((ten_id : Uuid) × (issued_by command ≡ some ten_id)
            × (tenant_of codecs req ≡ some ten_id))
          ⊎ (route ≡ patch_files_id_status)

    abbrev Ends : Outcome Reply Reply × World B → Type 0
    Ends r = IsRefused (final r.0, r.1) ⊎ IsServed (final r.0, r.1)

    refused : (r : Reply) → (r.status ≡ 400) → Ends (reply r, w)
    refused r e = inl (record { status = inl e; world = refl })

    -- The last step of a handler, after which it only puts its answer together.
    call-Ends :
        {A : Type 0} (c : Command) (fail : Error → Reply) (m : Exec (World B) A) (f : A → Reply)
        → (m w).1 ≡ step env s c w
        → Tenanted c
        → Ends ((call fail m >>= λ a. proceed (f a)) w)
    call-Ends c fail m f h tenant =
        call-cases Ends (λ a. proceed (f a)) w fail m
          (λ a _. inr (record { command = c; world = h; tenant = tenant }))
          (λ x _. inr (record { command = c; world = h; tenant = tenant }))

    -- Routes below an id.
    with_id-Ends :
        (f : Uuid → Uuid → Handler Reply (World B) Reply)
        → ((ten_id id : Uuid) → tenant_of codecs req ≡ some ten_id → Ends (f ten_id id w))
        → Ends (
            (tenant_id codecs env s req >>= λ ten_id.
            required bad_file_id (codecs.parse_uuid (req.param "id")) >>= f ten_id)
              w)
    with_id-Ends f h =
        tenant_id-cases Ends _ w
          (λ ten_id e.
            required-cases Ends (f ten_id) w _ _ (λ id _. h ten_id id e) (λ _. refused _ refl))
          (λ r _ e. refused r e)

    get_file-Ends : Ends (get_file codecs env s req w)
    unfolding get_file step issued_by
    get_file-Ends = with_id-Ends _ (λ ten_id id e.
        call-Ends (gets id ten_id) (missing_or_error codecs) (Store.get env s id ten_id) _ refl
          (inl (ten_id, refl, e)))

    delete_file-Ends : Ends (delete_file codecs env s req w)
    unfolding delete_file step issued_by
    delete_file-Ends = with_id-Ends _ (λ ten_id id e.
        call-Ends (deletes id ten_id) (not_found_or_error codecs) (Store.delete env s id ten_id) _
          refl (inl (ten_id, refl, e)))

    download_file-Ends : Ends (download_file codecs env s req w)
    unfolding download_file step issued_by
    download_file-Ends = with_id-Ends _ (λ ten_id id e.
        call-Ends (downloads id ten_id) (missing_or_error codecs) (Store.download env s id ten_id) _
          refl (inl (ten_id, refl, e)))

    presign_file-Ends : Ends (presign_file codecs env s req w)
    unfolding presign_file step issued_by
    presign_file-Ends = with_id-Ends _ (λ ten_id id e.
        call-Ends (presigns id ten_id (expiry_of codecs (req.query_param "expiry")))
          (missing_or_error codecs)
          (Store.presigned_url env s id ten_id (expiry_of codecs (req.query_param "expiry"))) _ refl
          (inl (ten_id, refl, e)))

    list_files-Ends : Ends (list_files codecs env s req w)
    unfolding list_files step issued_by list_request
    list_files-Ends =
        tenant_id-cases Ends _ w
          (λ ten_id e.
            call-Ends (lists (list_request codecs ten_id req)) (server_error codecs)
              (Store.list env s (list_request codecs ten_id req)) _ refl (inl (ten_id, refl, e)))
          (λ r _ e. refused r e)

    browse-Ends : Ends (browse codecs env s req w)
    unfolding browse step issued_by
    browse-Ends =
        tenant_id-cases Ends _ w
          (λ ten_id e.
            call-Ends
              (browses ten_id (req.query_param "prefix")
                (str_eq (req.query_param "recursive") "true"))
              (server_error codecs)
              (Store.browse env s ten_id (req.query_param "prefix")
                (str_eq (req.query_param "recursive") "true"))
              _ refl (inl (ten_id, refl, e)))
          (λ r _ e. refused r e)

    find_duplicate-Ends : Ends (find_duplicate codecs env s req w)
    unfolding find_duplicate step issued_by
    find_duplicate-Ends =
        tenant_id-cases Ends _ w
          (λ ten_id e.
            demand-cases Ends _ w bad_checksum (byte_length (req.query_param "checksum") == 64)
              (λ _.
                call-Ends (finds_duplicate ten_id (req.query_param "checksum"))
                  (server_error codecs)
                  (Store.find_duplicate env s ten_id (req.query_param "checksum")) _ refl
                  (inl (ten_id, refl, e)))
              (λ _. refused _ refl))
          (λ r _ e. refused r e)

    update_file_status-Ends :
        route ≡ patch_files_id_status → Ends (update_file_status codecs env s req w)
    unfolding update_file_status step issued_by
    update_file_status-Ends e =
        required-cases Ends _ w bad_file_id (codecs.parse_uuid (req.param "id"))
          (λ id _.
            required-cases Ends _ w bad_body req.bound_status
              (λ status _.
                demand-cases Ends _ w bad_status (listed_status status)
                  (λ _.
                    call-Ends (updates_status id status) (not_found_or_error codecs)
                      (Store.update_status env s id status) _ refl (inr e))
                  (λ _. refused _ refl))
              (λ _. refused _ refl))
          (λ _. refused _ refl)

    upload_file-Ends : Ends (upload_file codecs env s req w)
    unfolding upload_file step issued_by upload_request
    upload_file-Ends =
        tenant_id-cases Ends _ w
          (λ ten_id e.
            demand-cases Ends _ w bad_category (listed_category (req.form_value "category"))
              (λ _.
                required-cases Ends _ w no_file (req.form_file "file")
                  (λ fh _.
                    required-cases Ends _ w not_opened fh.opened
                      (λ f _.
                        call-Ends (uploads (upload_request codecs ten_id req fh f))
                          (server_error codecs)
                          (Store.upload env s (upload_request codecs ten_id req fh f)) _ refl
                          (inl (ten_id, refl, e)))
                      (λ _. inl (record { status = inr (inl refl); world = refl })))
                  (λ _. refused _ refl))
              (λ _. refused _ refl))
          (λ r _ e. refused r e)

    handler-Ends : (r : Route) → route ≡ r → Ends (handler codecs env s req r w)
    handler-Ends get_health e = inl (record { status = inr (inr e); world = refl })
    handler-Ends post_files e = upload_file-Ends
    handler-Ends get_files e = list_files-Ends
    handler-Ends get_files_duplicate e = find_duplicate-Ends
    handler-Ends get_files_id e = get_file-Ends
    handler-Ends delete_files_id e = delete_file-Ends
    handler-Ends get_files_id_download e = download_file-Ends
    handler-Ends get_files_id_presign e = presign_file-Ends
    handler-Ends patch_files_id_status e = update_file_status-Ends e
    handler-Ends get_browse e = browse-Ends

    -- What became of a request, whatever the route.
    pub handle-Ends :
        IsRefused (handle codecs env s req route w) ⊎ IsServed (handle codecs env s req route w)
    unfolding handle
    handle-Ends = handler-Ends route refl
