-- ===== src/FileStore/Api/Answers.antt =====
-- What a client is answered by the file store: lookups, uploads and deletes over HTTP.
use manju_backend.Prelude.{
  ◌≡◌, refl, sym, ◌∙◌, ap, inl, inr, Option, none, some, if◌then◌else◌, Bool-cases, arith, ℕ, suc,
  ◌≢◌,
}
use manju_backend.Exec
use manju_backend.Exec.{Error, Result, Exec, err, is_not_found, is_deleted, deleted, not_found}
use manju_backend.Table.{first_row}
use manju_backend.Http.{
  Outcome, Handler, Codecs, final, settled, serve-call, value, reply, required, ◌>>=◌,
  required-cases, demand-cases, call-cases,
}
use manju_backend.FileStore.{Uuid, FileRecord, UploadRequest, FileRow, Env, World}
use manju_backend.FileStore.Rows.{owned_by, scan_file_record}
use manju_backend.FileStore.PgStore.Laws.{get_file_record-found, found_record}
use manju_backend.FileStore.Store
use manju_backend.FileStore.Store.{Store}
use manju_backend.FileStore.Store.Upload.{get-upload, upload-tenant}
use manju_backend.FileStore.Store.Delete.{get-delete, delete-get_err}
use manju_backend.FileStore.Api.{
  Request, Reply, FileResponse, ok, created, err_resp, file, to_file_response, missing_or_error,
  not_found_or_error, server_error, upload_request, no_content, listed_category,
}
use manju_backend.FileStore.Api.Handlers.{
  post_files, get_files_id, delete_files_id, handle, tenant_id, upload_file, get_file, delete_file,
  bad_file_id, bad_category, no_file, not_opened,
}
use manju_backend.FileStore.Api.Requests.{tenant_of, tenant_id-cases}

module _ {B : Type 0} (codecs : Codecs) (env : Env) (s : Store B) (req : Request) (w : World B)
    (ten_id id : Uuid) (named : tenant_of codecs req ≡ some ten_id)
    (parsed : codecs.parse_uuid (req.param "id") ≡ some id) where
  -- A request for a file whose header and path parse goes on with both.
  with_id-eq :
      (f : Uuid → Uuid → Handler Reply (World B) Reply)
      → (tenant_id codecs env s req >>= λ t.
            required bad_file_id (codecs.parse_uuid (req.param "id")) >>= f t)
          w
        ≡ f ten_id id w
  with_id-eq f =
      tenant_id-cases codecs env s req (λ o. o ≡ f ten_id id w) _ w
        (λ t e.
          required-cases (λ o. o ≡ f ten_id id w) (f t) w bad_file_id
            (codecs.parse_uuid (req.param "id")) (λ i e'. cc (e, named, e', parsed))
            (λ e'. cc (e', parsed)))
        (λ r e _. cc (e, named))

  -- The answer to a lookup by what the table has under the id for the tenant.
  abbrev pub lookup_answer : Option FileRow → Reply
  lookup_answer none = err_resp 404 "file not found"
  lookup_answer (some row) =
      if row.is_deleted
      then err_resp 404 "file not found"
      else ok (file (to_file_response env.uuid_string (scan_file_record row)))

  get_file-answer : handle codecs env s req get_files_id w ≡ (
    settled
        (missing_or_error codecs)
        (λ rec. ok (file (to_file_response env.uuid_string rec)))
        (Store.get env s id ten_id w).0,
    (Store.get env s id ten_id w).1,
  )
  unfolding handle get_file
  get_file-answer =
      ap (λ o. (final o.0, o.1)) (with_id-eq _)
      ∙ serve-call (missing_or_error codecs)
          (λ rec. ok (file (to_file_response env.uuid_string rec))) (Store.get env s id ten_id) w

  delete_file-answer : handle codecs env s req delete_files_id w ≡ (
    settled (not_found_or_error codecs) (λ _. no_content) (Store.delete env s id ten_id w).0,
    (Store.delete env s id ten_id w).1,
  )
  unfolding handle delete_file
  delete_file-answer =
      ap (λ o. (final o.0, o.1)) (with_id-eq _)
      ∙ serve-call (not_found_or_error codecs) (λ _. no_content) (Store.delete env s id ten_id) w

  looked_up :
      (o : Option FileRow)
      → settled
          (missing_or_error codecs)
          (λ rec. ok (file (to_file_response env.uuid_string rec)))
          (found_record o)
        ≡ lookup_answer o
  unfolding missing_or_error
  looked_up none = refl
  looked_up (some row) = elim (Bool-cases row.is_deleted) [ inl e ↦ rw e refl | inr e ↦ rw e refl ]

  -- If the database answers, a lookup is answered by the row that the table has under the id for the
  -- tenant of the request: with that record, or with a 404 where there is none or it is deleted; the
  -- table and the storage stay as they were.
  pub get_file-lookup_answer :
      env.fault w.calls ≡ none
      → handle codecs env s req get_files_id w
        ≡ (lookup_answer (first_row (owned_by id ten_id) w.files), record w { calls = suc w.calls })
  unfolding Store.get
  get_file-lookup_answer quiet =
      get_file-answer
      ∙ ap
          (λ p. (
            settled (missing_or_error codecs)
                (λ rec. ok (file (to_file_response env.uuid_string rec))) p.0,
            p.1,
          ))
          (get_file_record-found env w id ten_id quiet)
      ∙ ap (λ r. (r, record w { calls = suc w.calls }))
          (looked_up (first_row (owned_by id ten_id) w.files))

module _ {B : Type 0} (codecs : Codecs) (env : Env) (s : Store B) (w : World B) (r : FileResponse)
    (ten_id : Uuid) where
  -- A client that was given a file response by an upload: its record is there to be looked up.
  abbrev IsUploaded : Outcome Reply Reply × World B → Type 0
  IsUploaded o =
      final o.0 ≡ created (file r)
      → env.fault o.1.calls ≡ none
      → (rec : FileRecord) × (r ≡ to_file_response env.uuid_string rec)
        × ((Store.get env s rec.id ten_id o.1).0 ≡ Exec.ok rec)

  -- Another status is no success.
  not_uploaded : (x : Reply) (n : ℕ) → x.status ≡ n → n ≢ 201 → x ≡ created (file r) → ⊥
  not_uploaded x n e h same = h (sym e ∙ ap (λ y. y.status) same)

  refused-IsUploaded :
      (x : Reply) (n : ℕ) (v : World B) → x.status ≡ n → n ≢ 201 → IsUploaded (reply x, v)
  refused-IsUploaded x n v e h same quiet = absurd (not_uploaded x n e h same)

  upload-IsUploaded :
      (t : Uuid) (req : UploadRequest) (rec : FileRecord)
      → t ≡ ten_id
      → req.tenant_id ≡ t
      → (Store.upload env s req w).0 ≡ Exec.ok rec
      → IsUploaded (
        value (created (file (to_file_response env.uuid_string rec))),
        (Store.upload env s req w).1,
      )
  upload-IsUploaded t req rec e owner h same quiet = (
    rec,
    cc (same),
    ap (λ x. (Store.get env s rec.id x (Store.upload env s req w).1).0)
          (sym (upload-tenant env s w req rec h ∙ owner ∙ e))
        ∙ get-upload env s w req rec h quiet,
  )

  upload_file-IsUploaded :
      (req : Request)
      → tenant_of codecs req ≡ some ten_id
      → IsUploaded (upload_file codecs env s req w)
  unfolding upload_file upload_request
  upload_file-IsUploaded req named =
      tenant_id-cases codecs env s req IsUploaded _ w
        (λ t e.
          demand-cases IsUploaded _ w bad_category (listed_category (req.form_value "category"))
            (λ _.
              required-cases IsUploaded _ w no_file (req.form_file "file")
                (λ fh _.
                  required-cases IsUploaded _ w not_opened fh.opened
                    (λ f _.
                      call-cases IsUploaded _ w (server_error codecs)
                        (Store.upload env s (upload_request codecs t req fh f))
                        (λ rec h.
                          upload-IsUploaded t (upload_request codecs t req fh f) rec (cc (e, named))
                            refl h)
                        (λ x _.
                          refused-IsUploaded (server_error codecs x) 500 _ refl (omega arith)))
                    (λ _. refused-IsUploaded not_opened 500 _ refl (omega arith)))
                (λ _. refused-IsUploaded no_file 400 _ refl (omega arith)))
            (λ _. refused-IsUploaded bad_category 400 _ refl (omega arith)))
        (λ x _ bad. refused-IsUploaded x 400 _ bad (omega arith))

module _ {B : Type 0} (codecs : Codecs) (env : Env) (s : Store B) (w : World B) where
  -- The file response of an upload that was answered 201 is what a lookup under its id for the same
  -- tenant is answered next, if ids parse to what was printed and the database does not fail.
  pub get_file-upload_file :
      ((u : Uuid) → codecs.parse_uuid (env.uuid_string u) ≡ some u)
      → (post get : Request) (ten_id : Uuid) (r : FileResponse)
      → tenant_of codecs post ≡ some ten_id
      → tenant_of codecs get ≡ some ten_id
      → (handle codecs env s post post_files w).0 ≡ created (file r)
      → env.fault (handle codecs env s post post_files w).1.calls ≡ none
      → get.param "id" ≡ r.id
      → (handle codecs env s get get_files_id (handle codecs env s post post_files w).1).0
        ≡ ok (file r)
  unfolding handle to_file_response
  get_file-upload_file law post get ten_id r posted named same quiet path =
      let (rec, e, found) = upload_file-IsUploaded codecs env s w r ten_id post posted same quiet in
      let id_of : codecs.parse_uuid (get.param "id") ≡ some rec.id =
        ap codecs.parse_uuid (path ∙ ap (λ x. x.id) e) ∙ law rec.id in
      ap (λ p. p.0)
        (get_file-answer codecs env s get (upload_file codecs env s post w).1 ten_id rec.id named
          id_of)
      ∙ ap (settled (missing_or_error codecs) (λ x. ok (file (to_file_response env.uuid_string x))))
          found
      ∙ ap (λ x. ok (file x)) (sym e)

  other_status : (x : Reply) (n : ℕ) → x.status ≡ n → n ≢ 204 → x ≡ no_content → ⊥
  other_status x n e h same = h (sym e ∙ ap (λ y. y.status) same)

  deleted_result :
      (r : Result (Unit {0}))
      → settled (not_found_or_error codecs) (λ (u : Unit {0}). no_content) r ≡ no_content
      → r ≡ Exec.ok tt
  unfolding not_found_or_error
  deleted_result (Exec.ok done) h = refl
  deleted_result (err e) h = elim (Bool-cases (is_not_found e)) [
    | inl b ↦
        absurd (other_status (err_resp 404 "file not found") 404 refl (omega arith) (rw b at h))
    | inr b ↦ absurd (other_status (server_error codecs e) 500 refl (omega arith) (rw b at h))
  ]

  -- After a delete that was answered 204, the same request again is answered 500, and a lookup 404,
  -- if the database does not fail: only the lookup knows a deleted file from a failure.
  pub delete_file-delete_file :
      (del get : Request) (ten_id id : Uuid)
      → tenant_of codecs del ≡ some ten_id
      → tenant_of codecs get ≡ some ten_id
      → codecs.parse_uuid (del.param "id") ≡ some id
      → codecs.parse_uuid (get.param "id") ≡ some id
      → (handle codecs env s del delete_files_id w).0 ≡ no_content
      → env.fault (handle codecs env s del delete_files_id w).1.calls ≡ none
      → let v = (handle codecs env s del delete_files_id w).1 in
        ((handle codecs env s get get_files_id v).0 ≡ err_resp 404 "file not found")
        × ((handle codecs env s del delete_files_id v).0.status ≡ 500)
  unfolding missing_or_error not_found_or_error
  delete_file-delete_file del get ten_id id deleter reader del_id get_id gone quiet =
      let step = delete_file-answer codecs env s del w ten_id id deleter del_id in
      let did : (Store.delete env s id ten_id w).0 ≡ Exec.ok tt =
        deleted_result _ (sym (ap (λ p. p.0) step) ∙ gone) in
      let world : (handle codecs env s del delete_files_id w).1
          ≡ (Store.delete env s id ten_id w).1 =
        ap (λ p. p.1) step in
      let read : (Store.get env s id ten_id (handle codecs env s del delete_files_id w).1).0
          ≡ err deleted =
        ap (λ v. (Store.get env s id ten_id v).0) world
        ∙ (get-delete env s w id ten_id did (ap (λ v. env.fault v.calls) (sym world) ∙ quiet)).0 in
      (
        ap (λ p. p.0) (get_file-answer codecs env s get _ ten_id id reader get_id)
            ∙ ap
                (settled (missing_or_error codecs)
                  (λ x. ok (file (to_file_response env.uuid_string x))))
                read
            ∙ refl,
        ap (λ p. p.0.status) (delete_file-answer codecs env s del _ ten_id id deleter del_id)
            ∙ ap
                (λ r. (settled (not_found_or_error codecs) (λ (u : Unit {0}). no_content) r).status)
                (delete-get_err env s _ id ten_id deleted read),
      )
