-- ===== src/FileStore/PgStore/Laws.antt =====
-- What each method of pgstore.go returns and writes, for use with the methods shut.
use manju_backend.Prelude.{
  ℕ, suc, ◌≡◌, refl, ap, subst, Bool, true, false, not, List, [], ◌∷◌, ◌++◌, ◌⊎◌, ◌==◌, Option,
  none, some, arith, String, if◌then◌else◌, Option-cases, inl, inr, Bool-cases, ◌||◌,
}
use manju_backend.Exec.{
  Error, not_found, deleted, wrap, Result, ok, err, Exec, pure, raise, context, ◌>>=◌,
}
use manju_backend.Table.{first_row, update_rows, any_row}
use manju_backend.Table.Laws.{first_row-append, any_row-false_imp}
use manju_backend.FileStore.{Uuid, FileRecord, Env, FileRow, Sink, World}
use manju_backend.FileStore.Rows.{
  scan_file_record, valid_category, valid_status, conflicts, inserted_row, owned_by, deletable,
  pgtype_to_uuid, uuid_to_pgtype, with_status, soft_deleted,
}
use manju_backend.FileStore.PgStore.{
  insert_file_record, get_file_record, update_file_status, soft_delete_file_record, statement,
  live_record, scan_found,
}

abbrev pub stamped : ℕ → FileRecord → FileRecord
stamped time rec = record rec { created_at = time; updated_at = time }

module _ {B A : Type 0} where
  -- An error, with table, output and provider as given.
  pub record Fails (before : List FileRow) (out : Sink) (b : B) (r : Result A × World B)
      : Type 0 where
    pub cause : Error
    pub result : r.0 ≡ err cause
    pub files : r.1.files ≡ before
    pub sink : r.1.sink ≡ out
    pub blobs : r.1.blobs ≡ b

  -- A value and a table of which `P` holds, with output and provider as given.
  pub record Writes (P : A → List FileRow → Type 0) (out : Sink) (b : B) (r : Result A × World B)
      : Type 0 where
    pub value : A
    pub result : r.0 ≡ ok value
    pub wrote : P value r.1.files
    pub sink : r.1.sink ≡ out
    pub blobs : r.1.blobs ≡ b

  abbrev pub Ends : (A → List FileRow → Type 0) → World B → Result A × World B → Type 0
  Ends P w r = Fails w.files w.sink w.blobs r ⊎ Writes P w.sink w.blobs r

module _ {B A : Type 0} (P : A → List FileRow → Type 0) (w : World B) (r : Result A × World B) where
  -- What is known once the result has been looked at.
  pub Ends-ok :
      (a : A)
      → r.0 ≡ ok a
      → Ends P w r
      → P a r.1.files × (r.1.sink ≡ w.sink) × (r.1.blobs ≡ w.blobs)
  Ends-ok a e (inl failed) = cc (e, failed.result)
  Ends-ok a e (inr wrote) =
      let same : wrote.value ≡ a = cc (e, wrote.result) in
      (subst (λ x. P x r.1.files) same wrote.wrote, wrote.sink, wrote.blobs)

  pub Ends-err :
      (x : Error)
      → r.0 ≡ err x
      → Ends P w r
      → (r.1.files ≡ w.files) × (r.1.sink ≡ w.sink) × (r.1.blobs ≡ w.blobs)
  Ends-err x e (inl failed) = (failed.files, failed.sink, failed.blobs)
  Ends-err x e (inr wrote) = cc (e, wrote.result)

abbrev pub Inserted : List FileRow → FileRecord → FileRecord → List FileRow → Type 0
Inserted before rec rec' after =
    (t : ℕ) × (rec' ≡ stamped t rec)
    × (after ≡ before ++ inserted_row t rec ∷ [])
    × (any_row (conflicts rec) before ≡ false)
    × (valid_category rec.category ≡ true)

abbrev pub StatusSet : List FileRow → Uuid → String → Unit {0} → List FileRow → Type 0
StatusSet before file_id status _ after =
    (t : ℕ) × (after ≡ update_rows (λ row. row.id == file_id) (with_status status t) before)
    × (any_row (λ row. row.id == file_id) before ≡ true)
    × (valid_status status ≡ true)

abbrev pub SoftDeleted : List FileRow → Uuid → Uuid → Unit {0} → List FileRow → Type 0
SoftDeleted before file_id tenant_id _ after =
    (at : ℕ) × (t : ℕ) × (after
      ≡ update_rows (deletable file_id tenant_id) (soft_deleted at t) before)
    × (any_row (deletable file_id tenant_id) before ≡ true)

abbrev pub Got : List FileRow → Uuid → Uuid → FileRecord → List FileRow → Type 0
Got before file_id tenant_id rec after =
    (row : FileRow) × (first_row (owned_by file_id tenant_id) before ≡ some row)
    × (rec ≡ scan_file_record row)
    × (row.is_deleted ≡ false)
    × (after ≡ before)

-- What a lookup without a fault returns.
abbrev pub found_record : Option FileRow → Result FileRecord
found_record none = err not_found
found_record (some row) = if row.is_deleted then err deleted else ok (scan_file_record row)

module _ {B A : Type 0} (env : Env) (P : A → List FileRow → Type 0) (w : World B) where
  abbrev counted : World B
  counted = record w { calls = suc w.calls }

  -- A statement that runs first adds the case of its fault.
  pub Ends-statement :
      (f : Unit {0} → Exec (World B) A)
      → Ends P w (f tt counted)
      → Ends P w ((statement env >>= f) w)
  Ends-statement f h = elim (Option-cases (env.fault w.calls)) [
    | inl e ↦ rw e h
    | inr (x, e) ↦
        rw e (inl (record { cause = x; result = refl; files = refl; sink = refl; blobs = refl }))
  ]

  pub Ends-context-statement :
      (msg : String) (f : Unit {0} → Exec (World B) A)
      → Ends P w (f tt counted)
      → Ends P w ((context msg (statement env) >>= f) w)
  Ends-context-statement msg f h = elim (Option-cases (env.fault w.calls)) [
    | inl e ↦ rw e h
    | inr (x, e) ↦ rw e (
        inl (record { cause = wrap msg x; result = refl; files = refl; sink = refl; blobs = refl }))
  ]

module _ {B A : Type 0} (P : A → List FileRow → Type 0) (w : World B) (n : ℕ) where
  pub fails : (e : Error) → Ends P w (err e, record w { calls = n })
  fails e = inl (record { cause = e; result = refl; files = refl; sink = refl; blobs = refl })

  pub writes :
      (a : A) (files : List FileRow)
      → P a files
      → Ends P w (ok a, record w { files = files; calls = n })
  writes a files h = inr (record { value = a; result = refl; wrote = h; sink = refl; blobs = refl })

valid_of_check : (c s : Bool) → (not c || not s) ≡ false → c ≡ true
valid_of_check c s h = ground arith

module _ {B : Type 0} (env : Env) (w : World B) where
  pub insert_file_record-Ends :
      (rec : FileRecord) → Ends (Inserted w.files rec) w (insert_file_record env rec w)
  unfolding insert_file_record
  insert_file_record-Ends rec =
      Ends-statement env _ w _
        (elim (Bool-cases (not (valid_category rec.category) || not (valid_status rec.status))) [
          | inl e ↦ rw e (fails (Inserted w.files rec) w _ _)
          | inr e ↦ elim (Bool-cases (any_row (conflicts rec) w.files)) [
            | inl k ↦ rw (e, k) (fails (Inserted w.files rec) w _ _)
            | inr k ↦
                rw (e, k)
                  (writes (Inserted w.files rec) w _ _ _ (_, refl, refl, k, valid_of_check _ _ e))
          ]
        ])

  get_row :
      (file_id tenant_id : Uuid) (row : FileRow) (b : Bool)
      → first_row (owned_by file_id tenant_id) w.files ≡ some row
      → row.is_deleted ≡ b
      → Ends (Got w.files file_id tenant_id) w (
          (if b then raise deleted else pure (scan_file_record row))
            (record w { calls = suc w.calls }))
  get_row file_id tenant_id row true e d = fails (Got w.files file_id tenant_id) w _ deleted
  get_row file_id tenant_id row false e d =
      writes (Got w.files file_id tenant_id) w _ _ _ (row, e, refl, d, refl)

  get_found :
      (file_id tenant_id : Uuid) (o : Option FileRow)
      → first_row (owned_by file_id tenant_id) w.files ≡ o
      → Ends
          (Got w.files file_id tenant_id)
          w
          ((scan_found o >>= live_record) (record w { calls = suc w.calls }))
  unfolding scan_found live_record scan_file_record
  get_found file_id tenant_id none e = fails (Got w.files file_id tenant_id) w _ not_found
  get_found file_id tenant_id (some row) e = get_row file_id tenant_id row row.is_deleted e refl

  pub get_file_record-Ends :
      (file_id tenant_id : Uuid)
      → Ends (Got w.files file_id tenant_id) w (get_file_record env file_id tenant_id w)
  unfolding get_file_record
  get_file_record-Ends file_id tenant_id =
      Ends-context-statement env _ w _ _ (get_found file_id tenant_id _ refl)

  pub update_file_status-Ends :
      (file_id : Uuid) (status : String)
      → Ends (StatusSet w.files file_id status) w (update_file_status env file_id status w)
  unfolding update_file_status
  update_file_status-Ends file_id status =
      Ends-statement env _ w _ (elim (Bool-cases (any_row (λ row. row.id == file_id) w.files)) [
        | inr k ↦ rw k (fails (StatusSet w.files file_id status) w _ _)
        | inl k ↦ elim (Bool-cases (valid_status status)) [
          | inr e ↦ rw (k, e) (fails (StatusSet w.files file_id status) w _ _)
          | inl e ↦ rw (k, e) (writes (StatusSet w.files file_id status) w _ _ _ (_, refl, k, e))
        ]
      ])

  pub soft_delete_file_record-Ends :
      (file_id tenant_id : Uuid)
      → Ends
          (SoftDeleted w.files file_id tenant_id)
          w
          (soft_delete_file_record env file_id tenant_id w)
  unfolding soft_delete_file_record
  soft_delete_file_record-Ends file_id tenant_id =
      Ends-statement env (SoftDeleted w.files file_id tenant_id) (record w { calls = suc w.calls })
        _
        (elim (Bool-cases (any_row (deletable file_id tenant_id) w.files)) [
          | inr k ↦ rw k (fails (SoftDeleted w.files file_id tenant_id) w _ _)
          | inl k ↦ rw k (writes (SoftDeleted w.files file_id tenant_id) w _ _ _ (_, _, refl, k))
        ])

  pub get_file_record-found :
      (file_id tenant_id : Uuid)
      → env.fault w.calls ≡ none
      → get_file_record env file_id tenant_id w ≡ (
        found_record (first_row (owned_by file_id tenant_id) w.files),
        record w { calls = suc w.calls },
      )
  unfolding get_file_record
  get_file_record-found file_id tenant_id h =
      rw (h, get_file_record) (found (first_row (owned_by file_id tenant_id) w.files))
    where
      row_found :
          (row : FileRow) (b : Bool) (v : World B)
          → (if b then raise deleted else pure (scan_file_record row)) v
            ≡ ((if b then err deleted else ok (scan_file_record row)), v)
      row_found row true v = refl
      row_found row false v = refl

      found :
          (o : Option FileRow)
          → (scan_found o >>= live_record) (record w { calls = suc w.calls })
            ≡ (found_record o, record w { calls = suc w.calls })
      found none = refl
      found (some row) = row_found row row.is_deleted _

module _ (t : ℕ) (rec : FileRecord) where
  pgtype-round_trip : (o : Option Uuid) → pgtype_to_uuid (uuid_to_pgtype o) ≡ o
  pgtype-round_trip none = refl
  pgtype-round_trip (some id) = refl

  -- What is scanned back is the record, stamped and not deleted.
  pub scan-inserted :
      scan_file_record (inserted_row t rec)
      ≡ record (stamped t rec) { deleted_at = none; is_deleted = false }
  unfolding scan_file_record inserted_row
  scan-inserted = ground (
    arith,
    pgtype-round_trip rec.object_id,
    pgtype-round_trip rec.source_id,
    pgtype-round_trip rec.uploaded_by,
  )

  conflicts_of_owned :
      (row : FileRow) → owned_by rec.id rec.tenant_id row ≡ true → conflicts rec row ≡ true
  unfolding conflicts
  conflicts_of_owned row h = ground arith

  -- A row whose record clashed with no row is the one that its id and tenant find.
  pub found-inserted :
      (before : List FileRow)
      → any_row (conflicts rec) before ≡ false
      → found_record (first_row (owned_by rec.id rec.tenant_id) (before ++ inserted_row t rec ∷ []))
        ≡ ok (record (stamped t rec) { deleted_at = none; is_deleted = false })
  found-inserted before h =
      rw
        (first_row-append (owned_by rec.id rec.tenant_id) before (inserted_row t rec)
          (any_row-false_imp (conflicts rec) _ conflicts_of_owned before h) owned)
        (unfold inserted_row in ap ok scan-inserted)
    where
      owned : owned_by rec.id rec.tenant_id (inserted_row t rec) ≡ true
      owned = unfold inserted_row in ground arith
