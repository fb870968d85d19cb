-- ===== src/FileStore/Service.antt =====
-- The calls that the API makes on the store, one after another: no call breaks the table, and a
-- tenant's calls leave the rows of the other tenants alone.
use manju_backend.Prelude.{ℤ, ◌≡◌, refl, Bool, List, [], ◌∷◌, inl, inr, String, ◌==◌, subst, sym}
use manju_backend.Exec.{context-cases}
use manju_backend.FileStore.{Uuid, UploadRequest, ListRequest, Env, World}
use manju_backend.FileStore.Rows.{deletable, valid_status}
use manju_backend.FileStore.PgStore.{get_file_record}
use manju_backend.FileStore.PgStore.Laws.{get_file_record-Ends}
use manju_backend.FileStore.PgStore.Reads.{list_file_records-page, find_duplicate_record-picked}
use manju_backend.FileStore.Invariant.{
  IsSound, IsSound-inserted, IsSound-with_status, IsSound-soft_deleted,
}
use manju_backend.FileStore.Store.{
  Store, upload, download, delete, get, list, browse, find_duplicate, update_status, presigned_url,
  on_blobs,
}
use manju_backend.FileStore.Store.Upload.{upload-Ends}
use manju_backend.FileStore.Store.Delete.{delete-Ends, update_status-Ends}

pub data Command : Type 0 where
  uploads : UploadRequest → Command
  downloads deletes gets : Uuid → Uuid → Command
  lists : ListRequest → Command
  browses : Uuid → String → Bool → Command
  finds_duplicate : Uuid → String → Command
  updates_status : Uuid → String → Command
  presigns : Uuid → Uuid → ℤ → Command

module _ {B : Type 0} (env : Env) (s : Store B) where
  unfoldable pub step : Command → World B → World B
  step (uploads req) w = (upload env s req w).1
  step (downloads file_id tenant_id) w = (download env s file_id tenant_id w).1
  step (deletes file_id tenant_id) w = (delete env s file_id tenant_id w).1
  step (gets file_id tenant_id) w = (get env s file_id tenant_id w).1
  step (lists req) w = (list env s req w).1
  step (browses tenant_id prefix recursive) w = (browse env s tenant_id prefix recursive w).1
  step (finds_duplicate tenant_id checksum) w = (find_duplicate env s tenant_id checksum w).1
  step (updates_status file_id status) w = (update_status env s file_id status w).1
  step (presigns file_id tenant_id expiry) w = (presigned_url env s file_id tenant_id expiry w).1

  unfoldable pub run : List Command → World B → World B
  run [] w = w
  run (c ∷ cs) w = run cs (step c w)

  pub got-files :
      (file_id tenant_id : Uuid) (w : World B)
      → (get_file_record env file_id tenant_id w).1.files ≡ w.files
  got-files file_id tenant_id w = elim (get_file_record-Ends env w file_id tenant_id) [
    | inl failed ↦ failed.files
    | inr wrote ↦ wrote.wrote.4
  ]

  pub download-files :
      (file_id tenant_id : Uuid) (w : World B)
      → (download env s file_id tenant_id w).1.files ≡ w.files
  unfolding download
  download-files file_id tenant_id w =
      context-cases (λ r. r.1.files ≡ w.files) (get_file_record env file_id tenant_id) _ w _
        (λ rec _.
          context-cases (λ r. r.1.files ≡ w.files)
            (on_blobs (s.backend.download rec.bucket rec.object_key)) _ _ _
            (λ _ _. got-files file_id tenant_id w) (λ _ _. got-files file_id tenant_id w))
        (λ _ _. got-files file_id tenant_id w)

  pub presigned_url-files :
      (file_id tenant_id : Uuid) (expiry : ℤ) (w : World B)
      → (presigned_url env s file_id tenant_id expiry w).1.files ≡ w.files
  unfolding presigned_url
  presigned_url-files file_id tenant_id expiry w =
      context-cases (λ r. r.1.files ≡ w.files) (get_file_record env file_id tenant_id) _ w _
        (λ rec _. got-files file_id tenant_id w) (λ _ _. got-files file_id tenant_id w)

  pub browse-files :
      (tenant_id : Uuid) (prefix : String) (recursive : Bool) (w : World B)
      → (browse env s tenant_id prefix recursive w).1.files ≡ w.files
  unfolding browse
  browse-files tenant_id prefix recursive w =
      context-cases (λ r. r.1.files ≡ w.files)
        (on_blobs (s.backend.list (s.tenant_bucket tenant_id) prefix recursive)) _ w _ (λ _ _. refl)
        (λ _ _. refl)

  -- Every call, whether it succeeds or fails, keeps the table sound.
  pub step-IsSound : (c : Command) (w : World B) → IsSound w.files → IsSound (step c w).files
  unfolding step get list find_duplicate
  step-IsSound (uploads req) w h = elim (upload-Ends env s w req) [
    | inl failed ↦ subst IsSound (sym failed.files) h
    | inr wrote ↦ subst IsSound (sym wrote.files) (
        IsSound-inserted wrote.created _ w.files wrote.fresh wrote.category
          (unfold valid_status in refl) h)
  ]
  step-IsSound (deletes file_id tenant_id) w h = elim (delete-Ends env s w file_id tenant_id) [
    | inl failed ↦ subst IsSound (sym failed.files) h
    | inr wrote ↦
        subst IsSound (sym wrote.files)
          (IsSound-soft_deleted (deletable file_id tenant_id) wrote.at wrote.updated w.files h)
  ]
  step-IsSound (updates_status file_id status) w h =
      elim (update_status-Ends env s w file_id status) [
        | inl failed ↦ subst IsSound (sym failed.files) h
        | inr wrote ↦ subst IsSound (sym wrote.files) (
            IsSound-with_status (λ row. row.id == file_id) status wrote.updated w.files
              wrote.status_ok h)
      ]
  step-IsSound (downloads file_id tenant_id) w h =
      subst IsSound (sym (download-files file_id tenant_id w)) h
  step-IsSound (gets file_id tenant_id) w h = subst IsSound (sym (got-files file_id tenant_id w)) h
  step-IsSound (lists req) w h = subst IsSound (sym ((list_file_records-page env w req).0)) h
  step-IsSound (browses tenant_id prefix recursive) w h =
      subst IsSound (sym (browse-files tenant_id prefix recursive w)) h
  step-IsSound (finds_duplicate tenant_id checksum) w h =
      subst IsSound (sym ((find_duplicate_record-picked env w tenant_id checksum).0)) h
  step-IsSound (presigns file_id tenant_id expiry) w h =
      subst IsSound (sym (presigned_url-files file_id tenant_id expiry w)) h

  -- Every history of calls, whatever fails in it, keeps the table sound: ids and places in the
  -- storage are distinct, categories and statuses are declared ones, and exactly the deleted rows
  -- have a time of deletion.
  pub run-IsSound : (cs : List Command) (w : World B) → IsSound w.files → IsSound (run cs w).files
  unfolding run
  run-IsSound [] w h = h
  run-IsSound (c ∷ cs) w h = run-IsSound cs (step c w) (step-IsSound c w h)
