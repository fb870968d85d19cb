-- ===== src/FileStore/Store/Upload.antt =====
-- What `Upload` of store.go does, on every path.
use manju_backend.Prelude.{
  ℕ, ℤ, is_negative, ◌≡◌, refl, ap, ◌∙◌, Bool, true, false, [], ◌∷◌, ◌++◌, ◌⊎◌, inl, inr, none,
  String, if◌then◌else◌,
}
use manju_backend.Exec.{
  Error, Result, ok, err, Exec, pure, ◌>>=◌, context-cases, guarded-cases, continue,
}
use manju_backend.Table.{any_row}
use manju_backend.FileStore.{
  Uuid, Bytes, FileRecord, UploadRequest, Env, World, Event, file_uploaded,
}
use manju_backend.FileStore.Rows.{inserted_row, conflicts, valid_category}
use manju_backend.FileStore.PgStore.{insert_file_record}
use manju_backend.FileStore.PgStore.Laws.{
  stamped, insert_file_record-Ends, get_file_record-found, found-inserted,
}
use manju_backend.FileStore.Store.{
  Store, upload, get, recorded_size, stat_size, uploaded_record, upload_metadata, object_key,
  on_blobs,
}

module _ {B : Type 0} (env : Env) (s : Store B) (w : World B) (req : UploadRequest) where
  abbrev upload_event : Uuid → ℕ → ℤ → String → Event
  upload_event id time size checksum = record {
    kind = file_uploaded;
    file_id = id;
    tenant_id = req.tenant_id;
    timestamp = time;
    metadata = upload_metadata req size checksum;
  }

  abbrev pub stored : Uuid → ℤ → Bytes → FileRecord
  stored id size read =
      uploaded_record req id (s.tenant_bucket req.tenant_id)
        (object_key env req.category id req.original_filename) size (env.sha256_hex read)

  -- A failed upload has written no row and announced nothing.
  pub record UploadFails (r : Result FileRecord × World B) : Type 0 where
    pub cause : Error
    pub result : r.0 ≡ err cause
    pub files : r.1.files ≡ w.files
    pub sink : r.1.sink ≡ w.sink

  -- A successful one has appended the row of its record, which clashes with none that was there,
  -- and has handed one event to the emitter.
  pub record UploadWrites (r : Result FileRecord × World B) : Type 0 where
    pub id : Uuid
    pub size : ℤ
    pub read : Bytes
    pub created : ℕ
    pub time : ℕ
    pub result : r.0 ≡ ok (stamped created (stored id size read))
    pub files : r.1.files ≡ w.files ++ inserted_row created (stored id size read) ∷ []
    pub fresh : any_row (conflicts (stored id size read)) w.files ≡ false
    pub category : valid_category req.category ≡ true
    pub sink :
        r.1.sink ≡ (s.emitter.emit (upload_event id time size (env.sha256_hex read)) w.sink).1

  abbrev UploadEnds : Result FileRecord × World B → Type 0
  UploadEnds r = UploadFails r ⊎ UploadWrites r

  abbrev pub bucket : String
  bucket = s.tenant_bucket req.tenant_id

  abbrev pub key : String
  key = object_key env req.category (env.fresh w.calls) req.original_filename

  upload_fails : (e : Error) (b : B) (n : ℕ) → UploadEnds (err e, record w { blobs = b; calls = n })
  upload_fails e b n = inl (record { cause = e; result = refl; files = refl; sink = refl })

  -- The size is found with the table and the output left alone, and with what the provider keeps
  -- of its state in a Stat.
  pub size-cases :
      (P : Result FileRecord × World B → Type 0) (I : B → Type 0)
      (f : ℤ → Exec (World B) FileRecord) (b : B) (n : ℕ)
      → ((b' : B) → I b' → I (s.backend.stat bucket key b').1)
      → I b
      → ((size : ℤ) (b' : B) → I b' → P (f size (record w { blobs = b'; calls = n })))
      → ((e : Error) (b' : B) → P (err e, record w { blobs = b'; calls = n }))
      → P ((recorded_size env s bucket key req.size >>= f) (record w { blobs = b; calls = n }))
  unfolding recorded_size
  size-cases P I f b n kept i good bad = go (is_negative req.size)
    where
      go :
          (negative : Bool)
          → P (
              ((if negative then stat_size env s bucket key else pure req.size) >>= f)
                (record w { blobs = b; calls = n }))
      go true =
          guarded-cases (λ r. P (continue r.0 f r.1)) (on_blobs (s.backend.stat bucket key))
            (on_blobs (s.backend.delete bucket key)) _ _ _ (λ info _. good info.size _ (kept b i))
            (λ e _. bad _ _)
      go false = good req.size b i

  abbrev pending : Uuid → ℤ → Bytes → World B → Result FileRecord × World B
  pending id size read v = insert_file_record env (stored id size read) v

  inserted :
      (size : ℤ) (read : Bytes) (b : B) (n : ℕ) (rec : FileRecord)
      → (pending (env.fresh w.calls) size read (record w { blobs = b; calls = n })).0 ≡ ok rec
      → (v : World B)
      → v.files
        ≡ (pending (env.fresh w.calls) size read (record w { blobs = b; calls = n })).1.files
      → (time : ℕ)
      → v.sink
        ≡ (s.emitter.emit
            (upload_event (env.fresh w.calls) time size (env.sha256_hex read))
            (pending (env.fresh w.calls) size read (record w { blobs = b; calls = n })).1.sink).1
      → UploadEnds (ok rec, v)
  inserted size read b n rec e v files time sink =
      elim (insert_file_record-Ends env (record w { blobs = b; calls = n })
        (stored (env.fresh w.calls) size read)) [
          | inl failed ↦ cc (e, failed.result)
          | inr wrote ↦ inr (record {
            id = env.fresh w.calls;
            size = size;
            read = read;
            created = wrote.wrote.0;
            time = time;
            result = cc (e, wrote.result, wrote.wrote.1);
            files = files ∙ wrote.wrote.2;
            fresh = wrote.wrote.3;
            category = wrote.wrote.4;
            sink = rw wrote.sink at sink;
          })
        ]

  not_inserted :
      (size : ℤ) (read : Bytes) (b : B) (n : ℕ) (e cause : Error)
      → (pending (env.fresh w.calls) size read (record w { blobs = b; calls = n })).0 ≡ err e
      → (v : World B)
      → v.files
        ≡ (pending (env.fresh w.calls) size read (record w { blobs = b; calls = n })).1.files
      → v.sink ≡ (pending (env.fresh w.calls) size read (record w { blobs = b; calls = n })).1.sink
      → UploadEnds (err cause, v)
  not_inserted size read b n e cause h v files sink =
      elim (insert_file_record-Ends env (record w { blobs = b; calls = n })
        (stored (env.fresh w.calls) size read)) [
          | inl failed ↦ inl (record {
            cause = cause;
            result = refl;
            files = files ∙ failed.files;
            sink = sink ∙ failed.sink;
          })
          | inr wrote ↦ cc (h, wrote.result)
        ]

  -- An upload fails with the table and the output as they were, or appends its row.
  pub upload-Ends : UploadEnds (upload env s req w)
  unfolding upload
  upload-Ends =
      context-cases UploadEnds (on_blobs (s.backend.ensure_bucket bucket)) _ w _
        (λ _ _.
          context-cases UploadEnds
            (on_blobs (s.backend.upload bucket key req.reader req.size req.content_type)) _ _ _
            (λ read _.
              size-cases UploadEnds (λ b'. Unit) _ _ _ (λ b' i. i) tt
                (λ size b' _.
                  guarded-cases UploadEnds
                    (insert_file_record env (stored (env.fresh w.calls) size read))
                    (on_blobs (s.backend.delete bucket key)) _ _ _
                    (λ rec e. inserted size read b' _ rec e _ refl _ refl)
                    (λ e h. not_inserted size read b' _ e _ h _ refl refl))
                (λ e b'. upload_fails e b' _))
            (λ e _. upload_fails _ _ _))
        (λ e _. upload_fails _ _ _)

module _ {B : Type 0} (env : Env) (s : Store B) (w : World B) (req : UploadRequest) where
  -- If an upload returns an error, no row has been written and no event emitted.
  pub upload_error-keeps :
      (e : Error)
      → (upload env s req w).0 ≡ err e
      → ((upload env s req w).1.files ≡ w.files) × ((upload env s req w).1.sink ≡ w.sink)
  upload_error-keeps e h = elim (upload-Ends env s w req) [
    | inl failed ↦ (failed.files, failed.sink)
    | inr wrote ↦ cc (h, wrote.result)
  ]

  -- A record that an upload returned is what a lookup of its id by its tenant returns next, unless
  -- the database fails.
  pub get-upload :
      (rec : FileRecord)
      → (upload env s req w).0 ≡ ok rec
      → env.fault (upload env s req w).1.calls ≡ none
      → (get env s rec.id rec.tenant_id (upload env s req w).1).0 ≡ ok rec
  unfolding get
  get-upload rec h quiet = elim (upload-Ends env s w req) [
    | inl failed ↦ cc (h, failed.result)
    | inr wrote ↦
        let e : rec ≡ stamped wrote.created (stored env s w req wrote.id wrote.size wrote.read) =
          cc (h, wrote.result) in
        rw (e, get_file_record-found env (upload env s req w).1 _ _ quiet, wrote.files)
          (found-inserted wrote.created (stored env s w req wrote.id wrote.size wrote.read) w.files
            wrote.fresh)
  ]

  -- The record is one of the tenant that uploaded.
  pub upload-tenant :
      (rec : FileRecord) → (upload env s req w).0 ≡ ok rec → rec.tenant_id ≡ req.tenant_id
  upload-tenant rec h = elim (upload-Ends env s w req) [
    | inl failed ↦ cc (h, failed.result)
    | inr wrote ↦
        let e : rec ≡ stamped wrote.created (stored env s w req wrote.id wrote.size wrote.read) =
          cc (h, wrote.result) in
        ap (λ x. x.tenant_id) e
  ]
