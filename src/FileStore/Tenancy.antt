-- ===== src/FileStore/Tenancy.antt =====
-- Isolation of tenants: what a call with a tenant's id can read and write.
use mathlib.Core.List.{append-nil}
use mathlib.Core.Option.{map as map_option}
use manju_backend.Prelude.{
  ℕ, ◌≡◌, ◌∙◌, Bool, true, not, List, [], ◌∷◌, ◌++◌, inl, inr, Option, none, some, ◌==◌, arith, ap,
  String, sym, map,
}
use manju_backend.Exec.{ok}
use manju_backend.Table.{picked, where_rows, update_rows, first_row}
use manju_backend.Table.Laws.{
  where_rows-append, where_rows-update_rows, where_rows-where_rows, first_row-where_rows,
}
use manju_backend.FileStore.{Uuid, FileRecord, ListRequest, Env, FileRow, World}
use manju_backend.FileStore.Rows.{
  inserted_row, deletable, soft_deleted, owned_by, listed, page, same_checksum, scan_file_record,
}
use manju_backend.FileStore.PgStore.Laws.{get_file_record-found, found_record}
use manju_backend.FileStore.PgStore.Reads.{list_file_records-page, find_duplicate_record-picked}
use manju_backend.FileStore.Store.{Store, get, list, find_duplicate}
use manju_backend.FileStore.Store.Upload.{upload-Ends}
use manju_backend.FileStore.Store.Delete.{delete-Ends}
use manju_backend.FileStore.Service.{
  Command, uploads, downloads, deletes, gets, lists, browses, finds_duplicate, updates_status,
  presigns, step, download-files, got-files, browse-files, presigned_url-files,
}

-- The tenant whose X-Tenant-ID a call carries; a status update carries none.
unfoldable pub issued_by : Command → Option Uuid
issued_by (uploads req) = some req.tenant_id
issued_by (downloads file_id tenant_id) = some tenant_id
issued_by (deletes file_id tenant_id) = some tenant_id
issued_by (gets file_id tenant_id) = some tenant_id
issued_by (lists req) = some req.tenant_id
issued_by (browses tenant_id prefix recursive) = some tenant_id
issued_by (finds_duplicate tenant_id checksum) = some tenant_id
issued_by (updates_status file_id status) = none
issued_by (presigns file_id tenant_id expiry) = some tenant_id

-- The rows of every tenant but one.
pub others : Uuid → List FileRow → List FileRow
others tenant_id = where_rows (λ row. not (row.tenant_id == tenant_id))

others-inserted :
    (tenant_id : Uuid) (files : List FileRow) (row : FileRow)
    → row.tenant_id ≡ tenant_id
    → others tenant_id (files ++ row ∷ []) ≡ others tenant_id files
unfolding others
others-inserted tenant_id files row e =
    rw (where_rows-append (λ (r : FileRow). not (r.tenant_id == tenant_id)) files (row ∷ [])) (
      ground
        (arith, append-nil (where_rows (λ (r : FileRow). not (r.tenant_id == tenant_id)) files)))

others-deleted :
    (file_id tenant_id : Uuid) (at t : ℕ) (files : List FileRow)
    → others tenant_id (update_rows (deletable file_id tenant_id) (soft_deleted at t) files)
      ≡ others tenant_id files
unfolding others
others-deleted file_id tenant_id at t files =
    where_rows-update_rows (λ (r : FileRow). not (r.tenant_id == tenant_id))
      (deletable file_id tenant_id) (soft_deleted at t) (λ x h. (ground arith, ground arith)) files

module _ {B : Type 0} (env : Env) (s : Store B) (w : World B) where
  -- A call that carries a tenant's id leaves the rows of all other tenants as they were, whether it
  -- succeeds or fails.
  pub step-others :
      (c : Command) (tenant_id : Uuid)
      → issued_by c ≡ some tenant_id
      → others tenant_id (step env s c w).files ≡ others tenant_id w.files
  unfolding step issued_by get list find_duplicate
  step-others (uploads req) tenant_id e = elim (upload-Ends env s w req) [
    | inl failed ↦ ap (others tenant_id) failed.files
    | inr wrote ↦
        ap (others tenant_id) wrote.files
        ∙ others-inserted tenant_id w.files _ (unfold inserted_row in cc)
  ]
  step-others (deletes file_id owner) tenant_id e =
      let same : owner ≡ tenant_id = cc in
      elim (delete-Ends env s w file_id owner) [
        | inl failed ↦ ap (others tenant_id) failed.files
        | inr wrote ↦
            ap (others tenant_id) wrote.files
            ∙ rw (← same) (others-deleted file_id owner wrote.at wrote.updated w.files)
      ]
  step-others (downloads file_id owner) tenant_id e =
      ap (others tenant_id) (download-files env s file_id owner w)
  step-others (gets file_id owner) tenant_id e =
      ap (others tenant_id) (got-files env s file_id owner w)
  step-others (lists req) tenant_id e = ap (others tenant_id) (list_file_records-page env w req).0
  step-others (browses owner prefix recursive) tenant_id e =
      ap (others tenant_id) (browse-files env s owner prefix recursive w)
  step-others (finds_duplicate owner checksum) tenant_id e =
      ap (others tenant_id) (find_duplicate_record-picked env w owner checksum).0
  step-others (updates_status file_id status) tenant_id e = cc
  step-others (presigns file_id owner expiry) tenant_id e =
      ap (others tenant_id) (presigned_url-files env s file_id owner expiry w)

-- The rows of one tenant.
unfoldable pub own : Uuid → List FileRow → List FileRow
own tenant_id = where_rows (λ row. row.tenant_id == tenant_id)

first-own :
    (p : FileRow → Bool) (tenant_id : Uuid)
    → ((row : FileRow) → p row ≡ true → (row.tenant_id == tenant_id) ≡ true)
    → (a b : List FileRow) → own tenant_id a ≡ own tenant_id b
    → first_row p a ≡ first_row p b
unfolding own
first-own p tenant_id h a b e =
    sym (first_row-where_rows p (λ row. row.tenant_id == tenant_id) h a)
    ∙ ap (first_row p) e
    ∙ first_row-where_rows p (λ row. row.tenant_id == tenant_id) h b

listed-tenant :
    (req : ListRequest) (row : FileRow)
    → listed req row ≡ true
    → (row.tenant_id == req.tenant_id) ≡ true
unfolding listed
listed-tenant req row h = ground arith

where-own :
    (p : FileRow → Bool) (tenant_id : Uuid)
    → ((row : FileRow) → p row ≡ true → (row.tenant_id == tenant_id) ≡ true)
    → (a b : List FileRow) → own tenant_id a ≡ own tenant_id b
    → where_rows p a ≡ where_rows p b
unfolding own
where-own p tenant_id h a b e =
    sym (where_rows-where_rows p (λ row. row.tenant_id == tenant_id) h a)
    ∙ ap (where_rows p) e
    ∙ where_rows-where_rows p (λ row. row.tenant_id == tenant_id) h b

page-own :
    (req : ListRequest) (a b : List FileRow)
    → own req.tenant_id a ≡ own req.tenant_id b
    → page req a ≡ page req b
unfolding page
page-own req a b e =
    let selected = where-own (listed req) req.tenant_id (listed-tenant req) a b e in rw selected

module _ {B : Type 0} (env : Env) (s : Store B) (v w : World B) (tenant_id : Uuid) where
  -- What a tenant reads depends on its own rows alone: where two worlds agree on those and the
  -- database answers in both, a lookup and a search for a duplicate return the same.
  pub reads_own :
      own tenant_id v.files ≡ own tenant_id w.files
      → env.fault v.calls ≡ none
      → env.fault w.calls ≡ none
      → (file_id : Uuid) (checksum : String)
      → ((get env s file_id tenant_id v).0 ≡ (get env s file_id tenant_id w).0)
        × ((find_duplicate env s tenant_id checksum v).0
            ≡ (find_duplicate env s tenant_id checksum w).0)
  unfolding get find_duplicate
  reads_own same qv qw file_id checksum = (
    ap (λ r. r.0) (get_file_record-found env v file_id tenant_id qv)
        ∙ ap found_record (
            first-own (owned_by file_id tenant_id) tenant_id (λ row h. ground arith) v.files w.files
              same)
        ∙ sym (ap (λ r. r.0) (get_file_record-found env w file_id tenant_id qw)),
    (find_duplicate_record-picked env v tenant_id checksum).2 qv
        ∙ ap (λ rows. ok (map_option scan_file_record (picked env.pick rows)))
            (where-own (same_checksum tenant_id checksum) tenant_id (λ row h. ground arith) v.files
              w.files same)
        ∙ sym ((find_duplicate_record-picked env w tenant_id checksum).2 qw),
  )

module _ {B : Type 0} (env : Env) (s : Store B) (v w : World B) where
  -- What a tenant lists depends on its own rows alone too: where two worlds agree on its rows, and both listings succeed, they
  -- return the same records.
  pub list-own :
      (req : ListRequest) (a b : List FileRecord)
      → own req.tenant_id v.files ≡ own req.tenant_id w.files
      → (list env s req v).0 ≡ ok a
      → (list env s req w).0 ≡ ok b
      → a ≡ b
  unfolding list
  list-own req a b same ha hb =
      (list_file_records-page env v req).2 a ha
      ∙ ap (map scan_file_record) (page-own req v.files w.files same)
      ∙ sym ((list_file_records-page env w req).2 b hb)
