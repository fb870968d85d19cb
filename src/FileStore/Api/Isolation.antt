-- ===== src/FileStore/Api/Isolation.antt =====
-- What a request to the file store can reach: one tenant's requests leave the others' rows alone.
use manju_backend.Prelude.{◌≡◌, refl, ◌∙◌, ap, ◌≢◌, inl, inr, none, some}
use manju_backend.Http.{Outcome, Handler, Codecs, final, ◌>>=◌}
use manju_backend.FileStore.{Uuid, Env, World}
use manju_backend.FileStore.Store.{Store}
use manju_backend.FileStore.Tenancy.{others, step-others}
use manju_backend.FileStore.Api.{Request, Reply}
use manju_backend.FileStore.Api.Handlers.{
  Route, get_health, post_files, get_files, get_files_duplicate, get_files_id, delete_files_id,
  get_files_id_download, get_files_id_presign, patch_files_id_status, get_browse, handle, tenant_id,
  upload_file, list_files, find_duplicate, get_file, delete_file, download_file, presign_file,
  browse,
}
use manju_backend.FileStore.Api.Requests.{tenant_of, tenant_id-cases, handle-Ends}

module _ {B : Type 0} (codecs : Codecs) (env : Env) (s : Store B) (req : Request)
    (w : World B) where
  -- A request whose header names a tenant leaves the rows of all other tenants as they were,
  -- whatever its route, its path and its body, unless it updates a status.
  pub handle-others :
      (route : Route) (ten_id : Uuid)
      → route ≢ patch_files_id_status
      → tenant_of codecs req ≡ some ten_id
      → others ten_id (handle codecs env s req route w).1.files ≡ others ten_id w.files
  handle-others route ten_id no_patch e = elim (handle-Ends codecs env s req route w) [
    | inl refused ↦ ap (λ v. others ten_id v.files) refused.world
    | inr served ↦ elim served.tenant [
      | inl (t, issued, named) ↦
          ap (λ v. others ten_id v.files) served.world
          ∙ step-others env s w served.command ten_id (cc (issued, named))
      | inr patches ↦ absurd (no_patch patches)
    ]
  ]

  abbrev Rejected : Outcome Reply Reply × World B → Type 0
  Rejected r = ((final r.0).status ≡ 400) × (r.1 ≡ w)

  rejected :
      (f : Uuid → Handler Reply (World B) Reply)
      → tenant_of codecs req ≡ none
      → Rejected ((tenant_id codecs env s req >>= f) w)
  rejected f e =
      tenant_id-cases codecs env s req Rejected f w (λ ten_id named. cc) (λ r _ bad. (bad, refl))

  -- A request without a tenant that parses gets a 400 and changes nothing, unless it asks for the
  -- health or updates a status, which need no tenant.
  pub handle-no_tenant :
      (route : Route)
      → route ≢ get_health
      → route ≢ patch_files_id_status
      → tenant_of codecs req ≡ none
      → ((handle codecs env s req route w).0.status ≡ 400)
        × ((handle codecs env s req route w).1 ≡ w)
  unfolding handle upload_file list_files find_duplicate get_file delete_file download_file
      presign_file browse
  handle-no_tenant get_health a b e = absurd (a refl)
  handle-no_tenant post_files a b e = rejected _ e
  handle-no_tenant get_files a b e = rejected _ e
  handle-no_tenant get_files_duplicate a b e = rejected _ e
  handle-no_tenant get_files_id a b e = rejected _ e
  handle-no_tenant delete_files_id a b e = rejected _ e
  handle-no_tenant get_files_id_download a b e = rejected _ e
  handle-no_tenant get_files_id_presign a b e = rejected _ e
  handle-no_tenant patch_files_id_status a b e = absurd (b refl)
  handle-no_tenant get_browse a b e = rejected _ e
