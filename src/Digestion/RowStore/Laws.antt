-- ===== src/Digestion/RowStore/Laws.antt =====
-- What `UpsertRow` and `MarkDeletedRows` of store.go do to the row at each key.
use mathlib.Core.Option.{map as map_option}
use manju_backend.Prelude.{
  ℕ, suc, ◌≡◌, refl, ap, sym, ◌∙◌, String, Bool, true, false, not, ◌&&◌, [], ◌∷◌, ◌++◌, Option,
  none, some, ◌==◌, arith, str_eq, eq_iff, if◌then◌else◌, inl, inr, ◌⊎◌,
}
use manju_backend.Exec.{Error, Result, ok, err, bind-cases, ◌>>◌}
use manju_backend.Table.{update_rows}
use manju_backend.Table.Laws.{first_row-append_miss, first_row-append_new, first_row-update}
use manju_backend.Digestion.{Uuid, Row, IngestedRow, Env, World}
use manju_backend.Digestion.RowStore.{
  UpsertRowResult, row_at, new_row, revised, touched, statement, insert_row, update_row,
  upsert_found, upsert_row, changed_result, unchanged_result, not_null,
}
use manju_backend.Digestion.RowStore.Keys.{
  at, at-holds, other_key, still_dead, contents_after, IsUnique, IsUnique-update_rows,
  IsUnique-append, outcome,
}

module _ {V : Type 0} where
  -- The row at a key after an upsert with this hash and version.
  pub record IsUpserted (row_hash : String) (contents : Row V) (version : ℕ)
      (before : Option (IngestedRow V)) (after : Option (IngestedRow V)) : Type 0 where
    pub row : IngestedRow V
    pub found : after ≡ some row
    pub hash : row.row_hash ≡ row_hash
    pub seen : row.last_seen_version ≡ version
    pub dead : row.is_deleted ≡ still_dead row_hash before
    pub kept : row.contents ≡ contents_after row_hash contents before

  -- Only the rows and the count of calls differ.
  abbrev pub OnlyRows : World V → World V → Type 0
  OnlyRows w v = v ≡ record w { rows = v.rows; calls = v.calls }

module _ {V : Type 0} (env : Env V) (table_id : Uuid) (row_key row_hash : String) (contents : Row V)
    (version : ℕ) (w : World V) where
  pub record Upserted (r : Result (UpsertRowResult V) × World V) : Type 0 where
    pub result : r.0 ≡ ok (outcome env row_hash (at table_id row_key w.rows))
    pub here :
        IsUpserted row_hash contents version
          (at table_id row_key w.rows)
          (at table_id row_key r.1.rows)
    pub elsewhere :
        (t : Uuid) (k : String)
        → (t == table_id && str_eq k row_key) ≡ false
        → at t k r.1.rows ≡ at t k w.rows
    pub unique : IsUnique table_id w.rows → IsUnique table_id r.1.rows
    pub rest : OnlyRows w r.1

  pub record NotUpserted (r : Result (UpsertRowResult V) × World V) : Type 0 where
    pub cause : Error
    pub result : r.0 ≡ err cause
    pub rows : r.1.rows ≡ w.rows
    pub rest : OnlyRows w r.1

  abbrev pub UpsertEnds : Result (UpsertRowResult V) × World V → Type 0
  UpsertEnds r = NotUpserted r ⊎ Upserted r

  not_upserted : (e : Error) (n : ℕ) → UpsertEnds (err e, record w { calls = n })
  not_upserted e n = inl (record { cause = e; result = refl; rows = refl; rest = refl })

  elsewhere_new :
      (id : Uuid) (time : ℕ) (t : Uuid) (k : String)
      → (t == table_id && str_eq k row_key) ≡ false
      → at t k (w.rows ++ new_row id time table_id row_key row_hash contents version ∷ [])
        ≡ at t k w.rows
  unfolding at new_row
  elsewhere_new id time t k h =
      first_row-append_miss (row_at t k) w.rows _
        (ground (arith, eq_iff row_key k, eq_iff k row_key))

  here_new :
      (id : Uuid) (time : ℕ)
      → at table_id row_key w.rows ≡ none
      → at table_id row_key
          (w.rows ++ new_row id time table_id row_key row_hash contents version ∷ [])
        ≡ some (new_row id time table_id row_key row_hash contents version)
  unfolding at new_row
  here_new id time h =
      first_row-append_new (row_at table_id row_key) w.rows _ h
        (ground (arith, eq_iff row_key row_key))

  IsUnique-new :
      (id : Uuid) (time : ℕ)
      → at table_id row_key w.rows ≡ none
      → IsUnique table_id w.rows
      → IsUnique table_id
          (w.rows ++ new_row id time table_id row_key row_hash contents version ∷ [])
  unfolding new_row
  IsUnique-new id time absent u = IsUnique-append table_id _ w.rows absent u

  upsert_new :
      at table_id row_key w.rows ≡ none
      → (n : ℕ)
      → UpsertEnds
          (insert_row env table_id row_key row_hash contents version (record w { calls = n }))
  unfolding insert_row not_null
  upsert_new absent n =
      bind-cases UpsertEnds (statement env) _ _
        (λ _ _.
          bind-cases UpsertEnds (not_null env contents) _ _
            (λ _ _. inr (record {
              result = rw absent (unfold outcome in refl);
              here = rw absent (record {
                row = _;
                found = here_new _ _ absent;
                hash = unfold new_row in refl;
                seen = unfold new_row in refl;
                dead = unfold new_row still_dead in refl;
                kept = unfold new_row contents_after in refl;
              });
              elsewhere = elsewhere_new _ _;
              unique = IsUnique-new _ _ absent;
              rest = refl;
            }))
            (λ e _. not_upserted e _))
        (λ e _. not_upserted e _)

  module _ (existing : IngestedRow V) (found : at table_id row_key w.rows ≡ some existing)
      (change : ℕ → IngestedRow V → IngestedRow V)
      (keeps : (time : ℕ) (row : IngestedRow V) (t : Uuid) (k : String)
        → row_at t k (change time row) ≡ row_at t k row) where
    changed_at :
        (time : ℕ) (t : Uuid) (k : String)
        → at t k (update_rows (row_at table_id row_key) (change time) w.rows)
          ≡ map_option
              (λ row. if row_at table_id row_key row then change time row else row)
              (at t k w.rows)
    unfolding at
    changed_at time t k =
        first_row-update (row_at t k) (row_at table_id row_key) (change time)
          (λ row. keeps time row t k) w.rows

    here_changed :
        (time : ℕ)
        → at table_id row_key (update_rows (row_at table_id row_key) (change time) w.rows)
          ≡ some (change time existing)
    here_changed time =
        let owned : row_at table_id row_key existing ≡ true = at-holds _ _ w.rows existing found in
        changed_at time table_id row_key ∙ rw (found, owned) refl

    elsewhere_changed :
        (time : ℕ) (t : Uuid) (k : String)
        → (t == table_id && str_eq k row_key) ≡ false
        → at t k (update_rows (row_at table_id row_key) (change time) w.rows) ≡ at t k w.rows
    elsewhere_changed time t k h = changed_at time t k ∙ same (at t k w.rows) refl
      where
        same :
            (o : Option (IngestedRow V))
            → at t k w.rows ≡ o
            → map_option (λ row. if row_at table_id row_key row then change time row else row) o ≡ o
        same none e = refl
        same (some row) e =
            rw (other_key t table_id k row_key row (at-holds _ _ w.rows row e) h) refl

    upsert_changed :
        (result : UpsertRowResult V)
        → result ≡ outcome env row_hash (some existing)
        → ((time : ℕ) → (change time existing).row_hash ≡ row_hash)
        → ((time : ℕ) → (change time existing).last_seen_version ≡ version)
        → ((time : ℕ) → (change time existing).is_deleted ≡ still_dead row_hash (some existing))
        → ((time : ℕ)
            → (change time existing).contents ≡ contents_after row_hash contents (some existing))
        → ((time : ℕ) (row : IngestedRow V)
            → ((change time row).table_id ≡ row.table_id)
              × ((change time row).row_key ≡ row.row_key))
        → (n : ℕ)
        → UpsertEnds (update_row env table_id row_key change result (record w { calls = n }))
    unfolding update_row
    upsert_changed result res hash seen dead kept same_place n =
        bind-cases UpsertEnds (statement env) _ _
          (λ _ _. inr (record {
            result = ap ok (res ∙ ap (outcome env row_hash) (sym found));
            here = record {
              row = _;
              found = here_changed _;
              hash = hash _;
              seen = seen _;
              dead = dead _ ∙ ap (still_dead row_hash) (sym found);
              kept = kept _ ∙ ap (contents_after row_hash contents) (sym found);
            };
            elsewhere = elsewhere_changed _;
            unique = IsUnique-update_rows table_id _ (change _) (same_place _) w.rows;
            rest = refl;
          }))
          (λ e _. not_upserted e _)

  -- An upsert that succeeds writes the row at its key and no other, and reports what was there; one
  -- that fails writes nothing.
  pub upsert_row-Ends : UpsertEnds (upsert_row env table_id row_key row_hash contents version w)
  unfolding upsert_row not_null at
  upsert_row-Ends =
      bind-cases UpsertEnds (statement env) _ _
        (λ _ _. found_cases (at table_id row_key w.rows) refl) (λ e _. not_upserted e _)
    where
      v : World V
      v = record w { calls = suc w.calls }

      hash_cases :
          (existing : IngestedRow V) (b : Bool)
          → at table_id row_key w.rows ≡ some existing
          → not (str_eq existing.row_hash row_hash) ≡ b
          → UpsertEnds (
              (if b
                  then not_null env contents
                    >> update_row env table_id row_key
                        (λ time. revised time row_hash contents version)
                        (changed_result env existing)
                  else update_row env table_id row_key
                      (λ time. touched time version)
                      unchanged_result)
                v)
      hash_cases existing true e h =
          bind-cases UpsertEnds (not_null env contents) _ v
            (λ _ _.
              upsert_changed existing e (λ time. revised time row_hash contents version)
                (λ _ _ _ _. unfold revised in refl) (changed_result env existing)
                (unfold outcome in rw h) (λ _. unfold revised in refl) (λ _. unfold revised in refl)
                (λ _. unfold revised still_dead in rw h)
                (λ _. unfold revised contents_after in rw h) (λ _ _. unfold revised in (refl, refl))
                _)
            (λ e _. not_upserted e _)
      hash_cases existing false e h =
          upsert_changed existing e (λ time. touched time version)
            (λ _ _ _ _. unfold touched in refl) unchanged_result (unfold outcome in rw h)
            (λ _. unfold touched in (eq_iff existing.row_hash row_hash).0 (ground arith))
            (λ _. unfold touched in refl) (λ _. unfold touched still_dead in rw h)
            (λ _. unfold touched contents_after in rw h) (λ _ _. unfold touched in (refl, refl)) _

      found_cases :
          (o : Option (IngestedRow V))
          → at table_id row_key w.rows ≡ o
          → UpsertEnds (upsert_found env table_id row_key row_hash contents version o v)
      found_cases none e = upsert_new e _
      found_cases (some existing) e = hash_cases existing _ e refl
