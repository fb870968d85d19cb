-- ===== src/FileStore/Store/Content.antt =====
-- The bytes of a file, from `Upload` to `Download` of store.go.
use manju_backend.Prelude.{
  ℕ, suc, ℤ, pos, is_negative, ◌≡◌, refl, ap, ◌∙◌, true, ◌⊎◌, inl, inr, none, String, length,
}
use manju_backend.Exec.{Result, ok, context-cases, guarded-cases}
use manju_backend.FileStore.{Uuid, Bytes, FileRecord, UploadRequest, StorageBackend, Env, World}
use manju_backend.FileStore.PgStore.{insert_file_record, get_file_record}
use manju_backend.FileStore.PgStore.Laws.{stamped, insert_file_record-Ends, get_file_record-Ends}
use manju_backend.FileStore.Store.{Store, upload, download, get, on_blobs}
use manju_backend.FileStore.Store.Upload.{bucket, key, stored, size-cases, get-upload}

-- The stream is read to its end: its size is unknown, or it is what was declared.
abbrev pub IsWhole : ℤ → Bytes → Type 0
IsWhole size reader = (is_negative size ≡ true) ⊎ (size ≡ pos (length reader))

-- What a provider promises: an upload of a whole stream reads it, and a download at its place gives
-- it back; a Stat does not change what a download gives.
pub record Stores {B : Type 0} (b : StorageBackend B) : Type 0 where
  pub reads :
      (bucket key : String) (reader : Bytes) (size : ℤ) (content_type : String) (s : B)
      (read : Bytes)
      → IsWhole size reader
      → (b.upload bucket key reader size content_type s).0 ≡ ok read
      → read ≡ reader
  pub keeps :
      (bucket key : String) (reader : Bytes) (size : ℤ) (content_type : String) (s : B)
      (read : Bytes)
      → (b.upload bucket key reader size content_type s).0 ≡ ok read
      → (b.download bucket key (b.upload bucket key reader size content_type s).1).0 ≡ ok read
  pub steady :
      (bucket key : String) (s : B)
      → (b.download bucket key (b.stat bucket key s).1).0 ≡ (b.download bucket key s).0

module _ {B : Type 0} (env : Env) (s : Store B) (w : World B) (req : UploadRequest)
    (law : Stores s.backend) (whole : IsWhole req.size req.reader) where
  abbrev Held : B → Type 0
  Held b = (s.backend.download (bucket env s w req) (key env s w req) b).0 ≡ ok req.reader

  abbrev Served : Result FileRecord → B → Type 0
  Served r blobs =
      (rec : FileRecord)
      → r ≡ ok rec
      → ((s.backend.download rec.bucket rec.object_key blobs).0 ≡ ok req.reader)
        × (rec.checksum_sha256 ≡ env.sha256_hex req.reader)

  abbrev IsServed : Result FileRecord × World B → Type 0
  IsServed r = Served r.0 r.1.blobs

  abbrev pending : ℤ → Bytes → B → ℕ → Result FileRecord × World B
  pending size read b n =
      insert_file_record env (stored env s w req (env.fresh w.calls) size read)
        (record w { blobs = b; calls = n })

  inserted-IsServed :
      (size : ℤ) (read : Bytes) (b : B) (n : ℕ) (rec : FileRecord)
      → read ≡ req.reader
      → Held b
      → (pending size read b n).0 ≡ ok rec
      → (after : B) → after ≡ (pending size read b n).1.blobs
      → Served (ok rec) after
  inserted-IsServed size read b n rec same held e after blobs =
      elim (insert_file_record-Ends env (record w { blobs = b; calls = n })
        (stored env s w req (env.fresh w.calls) size read)) [
          | inl failed ↦ cc (e, failed.result)
          | inr wrote ↦ λ rec' k.
              let stamp : rec'
                  ≡ stamped wrote.wrote.0 (stored env s w req (env.fresh w.calls) size read) =
                cc (k, e, wrote.result, wrote.wrote.1) in
              (rw (stamp, blobs ∙ wrote.blobs) held, rw stamp (ap env.sha256_hex same))
        ]

  upload-IsServed : IsServed (upload env s req w)
  unfolding upload
  upload-IsServed =
      context-cases IsServed (on_blobs (s.backend.ensure_bucket (bucket env s w req))) _ w _
        (λ _ _.
          context-cases IsServed
            (on_blobs (
              s.backend.upload (bucket env s w req) (key env s w req) req.reader req.size
                req.content_type))
            _ _ _
            (λ read up.
              size-cases env s w req IsServed Held _ _ _ (λ b held. law.steady _ _ b ∙ held)
                (law.keeps _ _ _ _ _ _ read up ∙ ap ok (law.reads _ _ _ _ _ _ read whole up))
                (λ size b held.
                  guarded-cases IsServed
                    (insert_file_record env (stored env s w req (env.fresh w.calls) size read))
                    (on_blobs (s.backend.delete (bucket env s w req) (key env s w req))) _
                    (record w { blobs = b; calls = suc w.calls }) _
                    (λ rec e.
                      inserted-IsServed size read b (suc w.calls) rec
                        (law.reads _ _ _ _ _ _ read whole up) held e
                        (pending size read b (suc w.calls)).1.blobs refl)
                    (λ e h rec k. cc))
                (λ e b rec k. cc))
            (λ e _ rec k. cc))
        (λ e _ rec k. cc)

  got-blobs :
      (file_id tenant_id : Uuid) (w' : World B)
      → (get_file_record env file_id tenant_id w').1.blobs ≡ w'.blobs
  got-blobs file_id tenant_id w' = elim (get_file_record-Ends env w' file_id tenant_id) [
    | inl failed ↦ failed.blobs
    | inr wrote ↦ wrote.blobs
  ]

  served :
      (rec : FileRecord) (w' : World B)
      → (get_file_record env rec.id rec.tenant_id w').0 ≡ ok rec
      → (s.backend.download rec.bucket rec.object_key w'.blobs).0 ≡ ok req.reader
      → (download env s rec.id rec.tenant_id w').0 ≡ ok (req.reader, rec)
  unfolding download
  served rec w' got held =
      context-cases (λ r. r.0 ≡ ok (req.reader, rec)) (get_file_record env rec.id rec.tenant_id) _
        w' _
        (λ rec1 e1.
          let same : rec1 ≡ rec = cc (got, e1) in
          let here : (s.backend.download rec1.bucket rec1.object_key
                (get_file_record env rec.id rec.tenant_id w').1.blobs).0
              ≡ ok req.reader =
            rw (same, got-blobs rec.id rec.tenant_id w') held in
          context-cases (λ r. r.0 ≡ ok (req.reader, rec))
            (on_blobs (s.backend.download rec1.bucket rec1.object_key)) _ _ _
            (λ content e2.
              let whole_content : content ≡ req.reader = cc (here, e2) in
              rw (whole_content, same) refl)
            (λ e h. cc (here, h)))
        (λ e h. cc (got, h))

  -- If the size of an upload is unknown or that of its content, and the provider stores what it
  -- reads, then what was uploaded is what a download of the record gives next, unless the database
  -- fails, and the checksum of the record is that of its content.
  pub download-upload :
      (rec : FileRecord)
      → (upload env s req w).0 ≡ ok rec
      → env.fault (upload env s req w).1.calls ≡ none
      → ((download env s rec.id rec.tenant_id (upload env s req w).1).0 ≡ ok (req.reader, rec))
        × (rec.checksum_sha256 ≡ env.sha256_hex req.reader)
  unfolding get
  download-upload rec h quiet =
      let (held, sum) = upload-IsServed rec h in
      (served rec (upload env s req w).1 (get-upload env s w req rec h quiet) held, sum)
