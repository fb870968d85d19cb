-- ===== src/FileStore/PgStore/Reads.antt =====
-- What the two searches of pgstore.go return: `listFileRecords` and `findDuplicateRecord`.
use manju_backend.Prelude.{
  ◌⊎◌, inl, inr, All-imp, not-true, not-false, same_id, id_same, all_three, three_all, ◌&&◌, ◌∙◌,
  eq_iff, ap, suc, ℤ, pos, negsuc, is_negative, to_ℕ, ◌≡◌, refl, Bool, true, false, List, map,
  Option, none, some, String, arith, if◌then◌else◌, take, drop, All,
}
use manju_backend.Exec.{
  Error, failure, wrap, is_not_found, pure, Result, ok, err, raise, gets, context-cases,
}
use mathlib.Core.Option.{map as map_option}
use manju_backend.Table.{where_rows, picked, order_desc}
use manju_backend.Table.Selected.{IsPageOf, wanted, order_desc-IsSelection, picked-cases}
use mathlib.Core.List.{Mem}
use manju_backend.FileStore.{Uuid, FileRecord, ListRequest, Env, PgUuid, FileRow, World}
use manju_backend.FileStore.Rows.{
  scan_file_record, matches_text, matches_uuid, pgtype_to_uuid, listed, effective_limit, page,
  same_checksum,
}
use manju_backend.FileStore.PgStore.{
  statement, list_file_records, find_duplicate_record, scan_found, none_if_missing,
}

-- The rows that a request asks for.
pub record IsListed (req : ListRequest) (row : FileRow) : Type 0 where
  pub tenant : row.tenant_id ≡ req.tenant_id
  pub live : row.is_deleted ≡ false
  pub category : (c : String) → req.category ≡ some c → row.category ≡ c
  pub status : (c : String) → req.status ≡ some c → row.status ≡ c
  pub source : (id : Uuid) → req.source_id ≡ some id → pgtype_to_uuid row.source_id ≡ some id
  pub object : (id : Uuid) → req.object_id ≡ some id → pgtype_to_uuid row.object_id ≡ some id

effective_limit-wanted : (limit : ℤ) → to_ℕ (effective_limit limit) ≡ wanted 50 limit
unfolding effective_limit
effective_limit-wanted (pos n) = ground arith
effective_limit-wanted (negsuc n) = refl

text_meets :
    (o : Option String) (actual : String)
    → matches_text o actual ≡ true
    → (c : String) → o ≡ some c
    → actual ≡ c
text_meets none actual h c e = cc
text_meets (some d) actual h c e = (eq_iff actual d).0 h ∙ cc (e)

meets_text :
    (o : Option String) (actual : String)
    → ((c : String) → o ≡ some c → actual ≡ c)
    → matches_text o actual ≡ true
meets_text none actual h = refl
meets_text (some d) actual h = (eq_iff actual d).1 (h d refl)

uuid_meets :
    (o : Option Uuid) (actual : PgUuid)
    → matches_uuid o actual ≡ true
    → (id : Uuid) → o ≡ some id
    → pgtype_to_uuid actual ≡ some id
uuid_meets none actual h id e = cc
uuid_meets (some d) actual h id e = let same : d ≡ id = cc (e) in ground arith

meets_uuid :
    (o : Option Uuid) (actual : PgUuid)
    → ((id : Uuid) → o ≡ some id → pgtype_to_uuid actual ≡ some id)
    → matches_uuid o actual ≡ true
meets_uuid none actual h = refl
meets_uuid (some d) actual h = let e = h d refl in ground arith

all_six :
    (a b c d e f : Bool)
    → (a && b && c && d && e && f) ≡ true
    → (a ≡ true) × (b ≡ true) × (c ≡ true) × (d ≡ true) × (e ≡ true) × (f ≡ true)
all_six a b c d e f h = ground arith

six_all :
    (a b c d e f : Bool)
    → a ≡ true
    → b ≡ true
    → c ≡ true
    → d ≡ true
    → e ≡ true
    → f ≡ true
    → (a && b && c && d && e && f) ≡ true
six_all a b c d e f ha hb hc hd he hf = ground arith

-- A row with the content of an upload.
pub record IsDuplicate (tenant_id : Uuid) (checksum : String) (row : FileRow) : Type 0 where
  pub tenant : row.tenant_id ≡ tenant_id
  pub checksum_same : row.checksum_sha256 ≡ checksum
  pub live : row.is_deleted ≡ false

-- What a search for a duplicate in a table may return.
abbrev pub IsFound : Uuid → String → List FileRow → Result (Option FileRecord) → Type 0
IsFound tenant_id checksum files r =
    ((row : FileRow) × (r ≡ ok (some (scan_file_record row)))
      × Mem row files
      × IsDuplicate tenant_id checksum row)
    ⊎ ((r ≡ ok none) × All (λ row. ¬ IsDuplicate tenant_id checksum row) files)

same_checksum-IsDuplicate :
    (tenant_id : Uuid) (checksum : String) (row : FileRow)
    → same_checksum tenant_id checksum row ≡ true
    → IsDuplicate tenant_id checksum row
same_checksum-IsDuplicate tenant_id checksum row h =
    let (tenant, sum, live) = all_three _ _ _ h in
    record {
      tenant = same_id row.tenant_id tenant_id tenant;
      checksum_same = (eq_iff row.checksum_sha256 checksum).0 sum;
      live = not-true row.is_deleted live;
    }

IsDuplicate-same_checksum :
    (tenant_id : Uuid) (checksum : String) (row : FileRow)
    → IsDuplicate tenant_id checksum row
    → same_checksum tenant_id checksum row ≡ true
IsDuplicate-same_checksum tenant_id checksum row h =
    three_all _ _ _ (id_same row.tenant_id tenant_id h.tenant)
      ((eq_iff row.checksum_sha256 checksum).1 h.checksum_same) (not-false row.is_deleted h.live)

listed-IsListed : (req : ListRequest) (row : FileRow) → listed req row ≡ true → IsListed req row
unfolding listed
listed-IsListed req row h =
    let (tenant, live, category, status, source, object) = all_six _ _ _ _ _ _ h in
    record {
      tenant = same_id row.tenant_id req.tenant_id tenant;
      live = not-true row.is_deleted live;
      category = text_meets req.category row.category category;
      status = text_meets req.status row.status status;
      source = uuid_meets req.source_id row.source_id source;
      object = uuid_meets req.object_id row.object_id object;
    }

IsListed-listed : (req : ListRequest) (row : FileRow) → IsListed req row → listed req row ≡ true
unfolding listed
IsListed-listed req row h =
    six_all _ _ _ _ _ _ (id_same row.tenant_id req.tenant_id h.tenant)
      (not-false row.is_deleted h.live) (meets_text req.category row.category h.category)
      (meets_text req.status row.status h.status) (meets_uuid req.source_id row.source_id h.source)
      (meets_uuid req.object_id row.object_id h.object)

page-IsPageOf :
    (req : ListRequest) (files : List FileRow)
    → IsPageOf
        (IsListed req)
        (λ row. row.created_at)
        files
        (to_ℕ req.offset)
        (wanted 50 req.limit)
        (page req files)
unfolding page
page-IsPageOf req files = record {
  selected = order_desc (λ row. row.created_at) (where_rows (listed req) files);
  selection =
      order_desc-IsSelection (listed req) (IsListed req) (λ row. row.created_at) files
        (listed-IsListed req) (IsListed-listed req);
  cut =
      ap
        (λ n. take n (
          drop (to_ℕ req.offset)
            (order_desc (λ row. row.created_at) (where_rows (listed req) files))))
        (effective_limit-wanted req.limit);
}

module _ {B : Type 0} (env : Env) (w : World B) where
  abbrev Listing : ListRequest → Result (List FileRecord) × World B → Type 0
  Listing req r =
      (r.1.files ≡ w.files)
      × (r.1.sink ≡ w.sink)
      × ((recs : List FileRecord) → r.0 ≡ ok recs → recs ≡ map scan_file_record (page req w.files))

  -- A listing changes nothing and returns the records of its page.
  pub list_file_records-page : (req : ListRequest) → Listing req (list_file_records env req w)
  unfolding list_file_records
  list_file_records-page req =
      context-cases (Listing req) (statement env) _ w _ (λ _ _. go (is_negative req.offset))
        (λ _ _. (refl, refl, λ recs e. cc))
    where
      go :
          (b : Bool)
          → Listing req (
              (if b
                  then raise (wrap "filestore: list query" (failure "OFFSET must not be negative"))
                  else gets (λ w. map scan_file_record (page req w.files)))
                (record w { calls = suc w.calls }))
      go true = (refl, refl, λ recs e. cc)
      go false = (refl, refl, λ recs e. cc)

  impossible : (x : Error) → env.fault w.calls ≡ none → (statement env w).0 ≡ err x → ⊥
  impossible x q h = cc (rw q at h)

  abbrev Duplicate : Uuid → String → Result (Option FileRecord) × World B → Type 0
  Duplicate tenant_id checksum r =
      (r.1.files ≡ w.files)
      × (r.1.sink ≡ w.sink)
      × (env.fault w.calls ≡ none
          → r.0
            ≡ ok (
                map_option scan_file_record
                  (picked env.pick (where_rows (same_checksum tenant_id checksum) w.files))))

  -- The search for a duplicate changes nothing; without a fault it returns the record of the row
  -- that the server picks.
  pub find_duplicate_record-picked :
      (tenant_id : Uuid) (checksum : String)
      → Duplicate tenant_id checksum (find_duplicate_record env tenant_id checksum w)
  unfolding find_duplicate_record
  find_duplicate_record-picked tenant_id checksum =
      context-cases (λ r. Duplicate tenant_id checksum (none_if_missing r.0 r.1)) (statement env) _
        w _
        (λ _ _. go (picked env.pick (where_rows (same_checksum tenant_id checksum) w.files)) refl)
        (λ x h. failing (is_not_found x) x h)
    where
      v : World B
      v = record w { calls = suc w.calls }

      go :
          (o : Option FileRow)
          → picked env.pick (where_rows (same_checksum tenant_id checksum) w.files) ≡ o
          → Duplicate tenant_id checksum (none_if_missing (scan_found o v).0 (scan_found o v).1)
      go none e = (refl, refl, λ _. rw e)
      go (some row) e = (refl, refl, λ _. rw e)

      failing :
          (b : Bool) (x : Error)
          → (statement env w).0 ≡ err x
          → Duplicate tenant_id checksum
              ((if b then pure none else raise (wrap "filestore: scan row" x)) v)
      failing true x h = (refl, refl, λ q. absurd (impossible x q h))
      failing false x h = (refl, refl, λ q. absurd (impossible x q h))

module _ {B : Type 0} (env : Env) (w : World B) where
  -- A listing that succeeds returns the records of a page of the table: the rows that are the
  -- tenant's, live and within each filter of the request, all of them and no others, the newest
  -- first, from the offset on, as many as were asked for if that is between 1 and 1000, else 50.
  pub list_file_records-IsPageOf :
      (req : ListRequest) (recs : List FileRecord)
      → (list_file_records env req w).0 ≡ ok recs
      → (rows : List FileRow) × (recs ≡ map scan_file_record rows)
        × IsPageOf
            (IsListed req)
            (λ row. row.created_at)
            w.files
            (to_ℕ req.offset)
            (wanted 50 req.limit)
            rows
  list_file_records-IsPageOf req recs h =
      (page req w.files, (list_file_records-page env w req).2 recs h, page-IsPageOf req w.files)

  -- If the database answers, the search for a duplicate returns the record of a row of the table
  -- that is the tenant's, live and has that checksum, and nothing only if the table has none.
  pub find_duplicate_record-IsFound :
      (tenant_id : Uuid) (checksum : String)
      → env.fault w.calls ≡ none
      → IsFound tenant_id checksum w.files (find_duplicate_record env tenant_id checksum w).0
  find_duplicate_record-IsFound tenant_id checksum quiet =
      rw ((find_duplicate_record-picked env w tenant_id checksum).2 quiet)
        (elim (picked-cases env.pick (same_checksum tenant_id checksum) w.files) [
          | inl (row, e, holds, there) ↦
              rw e (inl (row, refl, there, same_checksum-IsDuplicate tenant_id checksum row holds))
          | inr (e, none_holds) ↦ rw e (
              inr (
                refl,
                All-imp _ _ w.files
                    (λ row (no : same_checksum tenant_id checksum row ≡ false) h.
                      let yes = IsDuplicate-same_checksum tenant_id checksum row h in cc (no, yes))
                    none_holds,
              ))
        ])
