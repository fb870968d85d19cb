-- ===== src/Digestion/RowStore.antt =====
-- core-services-sql-engine/internal/digestion/store/store.go: the statements over ingested_rows.
pub mod Keys
pub mod Laws
use mathlib.Core.Option.{map as map_option}
use manju_backend.Prelude.{
  ℕ, suc, ◌+◌, ◌<◌, String, Bool, true, false, not, ◌&&◌, List, [], ◌∷◌, ◌++◌, map, Option, none,
  some, ◌==◌, ltb, str_eq, if◌then◌else◌, ℤ, is_negative, ◌||◌, take, drop, to_ℕ, length,
}
use manju_backend.Exec.{
  Error, failure, no_rows, Result, ok, err, Exec, pure, raise, gets, lift_option, ◌>>=◌, ◌>>◌,
}
use manju_backend.Table.{where_rows, first_row, update_rows, order_desc}
use manju_backend.Digestion.{Uuid, Row, IngestedRow, Env, World}

pub record UpsertRowResult (V : Type 0) : Type 0 where
  pub is_new : Bool
  pub is_changed : Bool
  pub old_hash : String
  pub old_data : Option (Row V)

module _ {V : Type 0} where
  abbrev pub row_at : Uuid → String → IngestedRow V → Bool
  row_at table_id row_key row = row.table_id == table_id && str_eq row.row_key row_key

  abbrev pub stale : Uuid → ℕ → IngestedRow V → Bool
  stale table_id version row =
      row.table_id == table_id && (not row.is_deleted && ltb row.last_seen_version version)

  abbrev pub live_in : Uuid → IngestedRow V → Bool
  live_in table_id row = row.table_id == table_id && not row.is_deleted

  -- The row that the INSERT adds.
  unfoldable pub new_row : Uuid → ℕ → Uuid → String → String → Row V → ℕ → IngestedRow V
  new_row id time table_id row_key row_hash contents version = record {
    id = id;
    table_id = table_id;
    row_key = row_key;
    contents = contents;
    row_hash = row_hash;
    first_seen_version = version;
    last_seen_version = version;
    current_version = 1;
    ingested_at = time;
    updated_at = time;
    is_deleted = false;
    deleted_at = none;
  }

  -- The UPDATE of a row whose hash differs.
  unfoldable pub revised : ℕ → String → Row V → ℕ → IngestedRow V → IngestedRow V
  revised time row_hash contents version row = record row {
    contents = contents;
    row_hash = row_hash;
    last_seen_version = version;
    current_version = row.current_version + 1;
    updated_at = time;
    is_deleted = false;
    deleted_at = none;
  }

  -- The UPDATE of a row whose hash is the same: only the watermark moves.
  unfoldable pub touched : ℕ → ℕ → IngestedRow V → IngestedRow V
  touched time version row = record row { last_seen_version = version; updated_at = time }

  -- The UPDATE of a row that the sync did not see.
  unfoldable pub marked : ℕ → IngestedRow V → IngestedRow V
  marked time row = record row { is_deleted = true; deleted_at = some time; updated_at = time }

module _ {V : Type 0} (env : Env V) where
  -- One statement: a fault of the connection or the server leaves the tables as they were.
  abbrev pub statement : Exec (World V) (Unit {0})
  statement w =
      (elim (env.fault w.calls) [ none ↦ ok tt | some e ↦ err e ], record w { calls = suc w.calls })

  abbrev pub now : Exec (World V) ℕ
  now w = (ok (env.clock w.calls), record w { calls = suc w.calls })

  abbrev pub fresh_id : Exec (World V) Uuid
  fresh_id w = (ok (env.fresh w.calls), record w { calls = suc w.calls })

-- LIMIT and OFFSET, which the server refuses if they are negative.
unfoldable pub page : {V A : Type 0} → ℤ → ℤ → (World V → List A) → Exec (World V) (List A)
page limit offset rows =
    if is_negative limit || is_negative offset
    then raise (failure "LIMIT and OFFSET must not be negative")
    else gets (λ w. take (to_ℕ limit) (drop (to_ℕ offset) (rows w)))

module _ {V : Type 0} where
  abbrev pub set_rows : List (IngestedRow V) → Exec (World V) (Unit {0})
  set_rows rows w = (ok tt, record w { rows = rows })

  -- The row as JSON gives it back.
  abbrev pub reload : Env V → Row V → Row V
  reload env = map (λ entry. (entry.0, env.reloaded entry.1))

  abbrev inserted_result : UpsertRowResult V
  inserted_result = record { is_new = true; is_changed = false; old_hash = ""; old_data = none }

  abbrev changed_result : Env V → IngestedRow V → UpsertRowResult V
  changed_result env row = record {
    is_new = false;
    is_changed = true;
    old_hash = row.row_hash;
    old_data = some (reload env row.contents);
  }

  abbrev unchanged_result : UpsertRowResult V
  unchanged_result = record { is_new = false; is_changed = false; old_hash = ""; old_data = none }

module _ {V : Type 0} (env : Env V) where
  -- A row that does not marshal is sent as NULL, which the column refuses.
  not_null : Row V → Exec (World V) (Unit {0})
  not_null contents w = (
    elim (env.marshal contents) [
      | none ↦ err (failure "null value in column data")
      | some text ↦ ok tt
    ],
    w,
  )

  insert_row : Uuid → String → String → Row V → ℕ → Exec (World V) (UpsertRowResult V)
  insert_row table_id row_key row_hash contents version = do
    id ← fresh_id env
    statement env
    not_null contents
    time ← now env
    rows ← gets (λ w. w.rows)
    set_rows (rows ++ new_row id time table_id row_key row_hash contents version ∷ [])
    pure inserted_result

  update_row :
      Uuid
      → String
      → (ℕ → IngestedRow V → IngestedRow V)
      → UpsertRowResult V
      → Exec (World V) (UpsertRowResult V)
  update_row table_id row_key change result = do
    statement env
    time ← now env
    rows ← gets (λ w. w.rows)
    set_rows (update_rows (row_at table_id row_key) (change time) rows)
    pure result

  upsert_found :
      Uuid
      → String
      → String
      → Row V
      → ℕ
      → Option (IngestedRow V)
      → Exec (World V) (UpsertRowResult V)
  unfolding not_null insert_row update_row
  upsert_found table_id row_key row_hash contents version none =
      insert_row table_id row_key row_hash contents version
  upsert_found table_id row_key row_hash contents version (some existing) =
      if not (str_eq existing.row_hash row_hash)
      then (do
        not_null contents
        update_row table_id row_key (λ time. revised time row_hash contents version)
            (changed_result env existing))
      else update_row table_id row_key (λ time. touched time version) unchanged_result

  unfoldable pub upsert_row :
      Uuid → String → String → Row V → ℕ → Exec (World V) (UpsertRowResult V)
  unfolding upsert_found
  upsert_row table_id row_key row_hash contents version = do
    statement env
    found ← gets (λ w. first_row (row_at table_id row_key) w.rows)
    upsert_found table_id row_key row_hash contents version found

  -- The keys of the rows that were marked just now.
  unfoldable pub mark_deleted_rows : Uuid → ℕ → Exec (World V) (List String)
  mark_deleted_rows table_id version = do
    statement env
    time ← now env
    rows ← gets (λ w. w.rows)
    set_rows (update_rows (stale table_id version) (marked time) rows)
    pure (map (λ row. row.row_key) (where_rows (stale table_id version) rows))

  unfoldable pub get_deleted_row_data : Uuid → String → Exec (World V) (Row V)
  get_deleted_row_data table_id row_key = do
    statement env
    found ← gets (λ w. first_row (row_at table_id row_key) w.rows)
    lift_option no_rows (map_option (λ row. reload env row.contents) found)

  -- ORDER BY ingested_at DESC LIMIT … OFFSET …
  unfoldable pub query_rows : Uuid → ℤ → ℤ → Exec (World V) (List (Row V))
  query_rows table_id limit offset = do
    statement env
    rows ←
        page limit offset
          (λ w. order_desc (λ row. row.ingested_at) (where_rows (live_in table_id) w.rows))
    pure (map (λ row. reload env row.contents) rows)

  unfoldable pub row_count : Uuid → Exec (World V) ℕ
  row_count table_id = do statement env; gets (λ w. length (where_rows (live_in table_id) w.rows))
