-- ===== src/FileStore/PgStore.antt =====
-- core-services-object-store/pkg/filestore/pgstore.go: the methods, each one statement.
pub mod Laws
pub mod Reads
use manju_backend.Prelude.{
  ℕ, suc, is_negative, String, not, ◌||◌, List, [], ◌∷◌, ◌++◌, map, Option, none, some, ◌==◌,
  if◌then◌else◌,
}
use manju_backend.Exec.{
  Error, not_found, deleted, failure, wrap, is_not_found, Result, ok, err, Exec, pure, raise, gets,
  context, ◌>>=◌, ◌>>◌,
}
use manju_backend.Table.{where_rows, picked, first_row, update_rows, any_row}
use manju_backend.FileStore.{Uuid, FileRecord, ListRequest, Env, FileRow, World}
use manju_backend.FileStore.Rows.{
  scan_file_record, valid_category, valid_status, conflicts, inserted_row, owned_by, deletable,
  page, with_status, soft_deleted, same_checksum,
}

module _ {B : Type 0} (env : Env) where
  -- One statement: a fault of the connection or the server leaves the table as it was.
  abbrev pub statement : Exec (World B) (Unit {0})
  statement w =
      (elim (env.fault w.calls) [ none ↦ ok tt | some e ↦ err e ], record w { calls = suc w.calls })

  abbrev pub now : Exec (World B) ℕ
  now w = (ok (env.clock w.calls), record w { calls = suc w.calls })

module _ {B : Type 0} where
  abbrev set_files : List FileRow → Exec (World B) (Unit {0})
  set_files files w = (ok tt, record w { files = files })

  -- The scan of RETURNING sets the two times of the record.
  insert_checked : FileRecord → ℕ → List FileRow → Exec (World B) FileRecord
  insert_checked rec time files =
      if not (valid_category rec.category) || not (valid_status rec.status)
      then raise (failure "check constraint")
      else if any_row (conflicts rec) files
      then raise (failure "unique constraint")
      else do
        set_files (files ++ inserted_row time rec ∷ [])
        pure (record rec { created_at = time; updated_at = time })

  live_record : FileRecord → Exec (World B) FileRecord
  live_record rec = if rec.is_deleted then raise deleted else pure rec

  scan_found : Option FileRow → Exec (World B) FileRecord
  scan_found none = raise not_found
  scan_found (some row) = pure (scan_file_record row)

  -- `errors.Is(err, ErrNotFound)` gives nil, nil.
  none_if_missing : Result FileRecord → Exec (World B) (Option FileRecord)
  none_if_missing (ok rec) = pure (some rec)
  none_if_missing (err e) = if is_not_found e then pure none else raise e

  -- A row that the WHERE clause meets must pass the check on the new status.
  set_status : Uuid → String → ℕ → List FileRow → Exec (World B) (Unit {0})
  set_status file_id status time files =
      if any_row (λ row. row.id == file_id) files
      then (if valid_status status
          then set_files (update_rows (λ row. row.id == file_id) (with_status status time) files)
          else raise (failure "check constraint"))
      else raise not_found

  set_deleted : Uuid → Uuid → ℕ → ℕ → List FileRow → Exec (World B) (Unit {0})
  set_deleted file_id tenant_id at time files =
      if any_row (deletable file_id tenant_id) files
      then set_files (update_rows (deletable file_id tenant_id) (soft_deleted at time) files)
      else raise not_found

module _ {B : Type 0} (env : Env) where
  unfoldable pub insert_file_record : FileRecord → Exec (World B) FileRecord
  unfolding insert_checked
  insert_file_record rec = do
    statement env
    time ← now env
    files ← gets (λ w. w.files)
    insert_checked rec time files

  unfoldable pub get_file_record : Uuid → Uuid → Exec (World B) FileRecord
  unfolding live_record scan_found scan_file_record
  get_file_record file_id tenant_id = do
    context "filestore: scan row" (statement env)
    row ← gets (λ w. first_row (owned_by file_id tenant_id) w.files)
    rec ← scan_found row
    live_record rec

  unfoldable pub list_file_records : ListRequest → Exec (World B) (List FileRecord)
  unfolding page
  list_file_records req = do
    context "filestore: list query" (statement env)
    if is_negative req.offset
        then raise (wrap "filestore: list query" (failure "OFFSET must not be negative"))
        else gets (λ w. map scan_file_record (page req w.files))

  unfoldable pub update_file_status : Uuid → String → Exec (World B) (Unit {0})
  unfolding set_status
  update_file_status file_id status = do
    statement env
    time ← now env
    files ← gets (λ w. w.files)
    set_status file_id status time files

  unfoldable pub soft_delete_file_record : Uuid → Uuid → Exec (World B) (Unit {0})
  unfolding set_deleted
  soft_delete_file_record file_id tenant_id = do
    at ← now env
    statement env
    time ← now env
    files ← gets (λ w. w.files)
    set_deleted file_id tenant_id at time files

  scan_duplicate : Uuid → String → Exec (World B) FileRecord
  unfolding scan_found
  scan_duplicate tenant_id checksum = do
    context "filestore: scan row" (statement env)
    row ← gets (λ w. picked env.pick (where_rows (same_checksum tenant_id checksum) w.files))
    scan_found row

  unfoldable pub find_duplicate_record : Uuid → String → Exec (World B) (Option FileRecord)
  unfolding scan_duplicate none_if_missing
  find_duplicate_record tenant_id checksum w =
      let (r, w') = scan_duplicate tenant_id checksum w in none_if_missing r w'
