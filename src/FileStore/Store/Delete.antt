-- ===== src/FileStore/Store/Delete.antt =====
-- What `Delete` and `UpdateStatus` of store.go do, on every path.
use manju_backend.Prelude.{
  ℕ, ◌≡◌, refl, ap, ◌∙◌, true, false, [], ◌⊎◌, inl, inr, none, some, String, ◌==◌, arith, Option,
  length,
}
use manju_backend.Exec.{Error, Result, ok, err, wrap, deleted, context-cases}
use manju_backend.Table.{any_row, update_rows, first_row}
use manju_backend.Table.Laws.{first_row-holds, first_row-update_rows, length-update_rows}
use manju_backend.FileStore.{Uuid, Env, FileRecord, FileRow, World, Event, EventType, file_deleted}
use manju_backend.FileStore.Rows.{
  deletable, owned_by, soft_deleted, with_status, valid_status, scan_file_record,
}
use manju_backend.FileStore.PgStore.{get_file_record, soft_delete_file_record, update_file_status}
use manju_backend.FileStore.PgStore.Laws.{
  get_file_record-Ends, soft_delete_file_record-Ends, update_file_status-Ends,
  get_file_record-found, Ends-ok, Ends-err,
}
use manju_backend.FileStore.Store.{Store, delete, get, update_status, announce, status_event}

module _ {B : Type 0} (env : Env) (s : Store B) (w : World B) (file_id tenant_id : Uuid) where
  abbrev delete_event : ℕ → Event
  delete_event time = record {
    kind = file_deleted;
    file_id = file_id;
    tenant_id = tenant_id;
    timestamp = time;
    metadata = [];
  }

  -- A delete that returns an error has changed no row and announced nothing.
  pub record DeleteFails (r : Result (Unit {0}) × World B) : Type 0 where
    pub cause : Error
    pub result : r.0 ≡ err cause
    pub files : r.1.files ≡ w.files
    pub sink : r.1.sink ≡ w.sink

  -- One that succeeds has marked the live row of that id and tenant, and handed on one event.
  pub record DeleteWrites (r : Result (Unit {0}) × World B) : Type 0 where
    pub at : ℕ
    pub updated : ℕ
    pub time : ℕ
    pub row : FileRow
    pub result : r.0 ≡ ok tt
    pub found : first_row (owned_by file_id tenant_id) w.files ≡ some row
    pub live : row.is_deleted ≡ false
    pub files :
        r.1.files ≡ update_rows (deletable file_id tenant_id) (soft_deleted at updated) w.files
    pub sink : r.1.sink ≡ (s.emitter.emit (delete_event time) w.sink).1

  abbrev pub DeleteEnds : Result (Unit {0}) × World B → Type 0
  DeleteEnds r = DeleteFails r ⊎ DeleteWrites r

  looked_up : World B
  looked_up = (get_file_record env file_id tenant_id w).1

  marked : Result (Unit {0}) × World B
  marked = soft_delete_file_record env file_id tenant_id looked_up

  deleted_row :
      (rec : FileRecord)
      → (get_file_record env file_id tenant_id w).0 ≡ ok rec
      → marked.0 ≡ ok tt
      → (b : B) (n time : ℕ)
      → DeleteEnds (
        ok tt,
        record {
          files = marked.1.files;
          blobs = b;
          sink = (s.emitter.emit (delete_event time) marked.1.sink).1;
          calls = n;
        },
      )
  unfolding marked looked_up
  deleted_row rec e h b n time =
      let got = Ends-ok _ w _ rec e (get_file_record-Ends env w file_id tenant_id) in
      let did =
        Ends-ok _ looked_up marked tt h
          (soft_delete_file_record-Ends env looked_up file_id tenant_id) in
      inr (record {
        at = did.0.0;
        updated = did.0.1;
        time = time;
        row = got.0.0;
        result = refl;
        found = got.0.1;
        live = got.0.3;
        files = did.0.2 ∙ ap (update_rows (deletable file_id tenant_id) _) got.0.4;
        sink = ap (λ x. (s.emitter.emit (delete_event time) x).1) (did.1 ∙ got.1);
      })

  pub delete-Ends : DeleteEnds (delete env s file_id tenant_id w)
  unfolding delete marked looked_up
  delete-Ends =
      context-cases DeleteEnds (get_file_record env file_id tenant_id) _ w _
        (λ rec e.
          context-cases DeleteEnds (soft_delete_file_record env file_id tenant_id) _ _ _
            (λ _ h. deleted_row rec e h _ _ _)
            (λ x h.
              let got = Ends-ok _ w _ rec e (get_file_record-Ends env w file_id tenant_id) in
              let did =
                Ends-err _ looked_up marked x h
                  (soft_delete_file_record-Ends env looked_up file_id tenant_id) in
              inl (record {
                cause = _;
                result = refl;
                files = did.0 ∙ got.0.4;
                sink = did.1 ∙ got.1;
              })))
        (λ x e.
          let got = Ends-err _ w _ x e (get_file_record-Ends env w file_id tenant_id) in
          inl (record { cause = _; result = refl; files = got.0; sink = got.1 }))

module _ {B : Type 0} (env : Env) (s : Store B) (w : World B) (file_id tenant_id : Uuid) where
  -- After a delete that succeeded the lookup of the file reports that it is deleted, unless the
  -- database fails, and the row is still in the table.
  pub get-delete :
      (delete env s file_id tenant_id w).0 ≡ ok tt
      → env.fault (delete env s file_id tenant_id w).1.calls ≡ none
      → ((get env s file_id tenant_id (delete env s file_id tenant_id w).1).0 ≡ err deleted)
        × (length (delete env s file_id tenant_id w).1.files ≡ length w.files)
  unfolding get
  get-delete h quiet = elim (delete-Ends env s w file_id tenant_id) [
    | inl failed ↦ cc (h, failed.result)
    | inr wrote ↦
        let found =
          first_row-update_rows (owned_by file_id tenant_id) (deletable file_id tenant_id)
            (soft_deleted wrote.at wrote.updated) (λ x. refl) w.files wrote.row wrote.found in
        let owned = first_row-holds (owned_by file_id tenant_id) w.files wrote.row wrote.found in
        (
          rw
              (
                get_file_record-found env (delete env s file_id tenant_id w).1 _ _ quiet,
                wrote.files,
                found,
              )
              (rw (owned, wrote.live) refl),
          rw wrote.files (
              length-update_rows (deletable file_id tenant_id) (soft_deleted wrote.at wrote.updated)
                w.files),
        )
  ]

  -- A delete ends with the error of its lookup, wrapped.
  pub delete-get_err :
      (e : Error)
      → (get env s file_id tenant_id w).0 ≡ err e
      → (delete env s file_id tenant_id w).0 ≡ err (wrap "filestore: get record for delete" e)
  unfolding get delete
  delete-get_err e h =
      context-cases (λ r. r.0 ≡ err (wrap "filestore: get record for delete" e))
        (get_file_record env file_id tenant_id) _ w _ (λ rec found. cc (h, found))
        (λ x failed. cc (h, failed))

module _ {B : Type 0} (env : Env) (s : Store B) (w : World B) (file_id : Uuid)
    (status : String) where
  -- A status update that returns an error has changed nothing.
  pub record StatusFails (r : Result (Unit {0}) × World B) : Type 0 where
    pub cause : Error
    pub result : r.0 ≡ err cause
    pub files : r.1.files ≡ w.files
    pub sink : r.1.sink ≡ w.sink

  -- One that succeeds has set the status of the rows of that id.
  pub record StatusWrites (r : Result (Unit {0}) × World B) : Type 0 where
    pub updated : ℕ
    pub result : r.0 ≡ ok tt
    pub files :
        r.1.files ≡ update_rows (λ row. row.id == file_id) (with_status status updated) w.files
    pub found : any_row (λ row. row.id == file_id) w.files ≡ true
    pub status_ok : valid_status status ≡ true

  abbrev pub StatusEnds : Result (Unit {0}) × World B → Type 0
  StatusEnds r = StatusFails r ⊎ StatusWrites r

  announced :
      (o : Option EventType) (v : World B)
      → ((announce env s file_id o v).0 ≡ ok tt) × ((announce env s file_id o v).1.files ≡ v.files)
  unfolding announce
  announced none v = (refl, refl)
  announced (some kind) v = (refl, refl)

  pub update_status-Ends : StatusEnds (update_status env s file_id status w)
  unfolding update_status
  update_status-Ends =
      context-cases StatusEnds (update_file_status env file_id status) _ w _
        (λ _ h.
          let did = Ends-ok _ w _ tt h (update_file_status-Ends env w file_id status) in
          let rest = announced (status_event status) (update_file_status env file_id status w).1 in
          inr (record {
            updated = did.0.0;
            result = rest.0;
            files = rest.1 ∙ did.0.1;
            found = did.0.2;
            status_ok = did.0.3;
          }))
        (λ x h.
          let did = Ends-err _ w _ x h (update_file_status-Ends env w file_id status) in
          inl (record { cause = _; result = refl; files = did.0; sink = did.1 }))

  -- A status that was set is what the tenant of a live row reads back, whatever the status: a file
  -- set to "deleted" in this way is still served.
  pub get-update_status :
      (tenant_id : Uuid) (row : FileRow)
      → first_row (owned_by file_id tenant_id) w.files ≡ some row
      → row.is_deleted ≡ false
      → (update_status env s file_id status w).0 ≡ ok tt
      → env.fault (update_status env s file_id status w).1.calls ≡ none
      → (rec : FileRecord) × ((get env s file_id tenant_id
            (update_status env s file_id status w).1).0
          ≡ ok rec)
        × (rec.status ≡ status)
  unfolding get
  get-update_status tenant_id row found live h quiet = elim update_status-Ends [
    | inl failed ↦ cc (h, failed.result)
    | inr wrote ↦
        let new =
          first_row-update_rows (owned_by file_id tenant_id) (λ row. row.id == file_id)
            (with_status status wrote.updated) (λ x. refl) w.files row found in
        let owned = first_row-holds (owned_by file_id tenant_id) w.files row found in
        let same : (row.id == file_id) ≡ true = ground arith in
        (
          scan_file_record (with_status status wrote.updated row),
          rw
              (
                get_file_record-found env (update_status env s file_id status w).1 _ _ quiet,
                wrote.files,
                new,
              )
              (rw (same, live) refl),
          unfold scan_file_record in refl,
        )
  ]
