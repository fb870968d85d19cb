-- ===== src/Digestion/Catalog.antt =====
-- core-services-sql-engine/internal/digestion/catalog.go: reads with their default limits.
mod Tests
use manju_backend.Prelude.{
  ℕ, ℤ, pos, negsuc, ◌≡◌, ◌≤◌, refl, ap, sym, ◌∙◌, String, Bool, true, false, List, [], ◌∷◌, map,
  Option, ◌||◌, is_nonpositive, is_above, to_ℕ, is_negative, if◌then◌else◌, length, take, drop, All,
  All-take, All-drop, length-take-le, arith, inl, inr, Bool-cases,
}
use manju_backend.Exec.{Error, Result, ok, err, Exec, bind-cases}
use manju_backend.Table.{where_rows, order_desc}
use manju_backend.Table.Selected.{IsPageOf, wanted, order_desc-IsSelection}
use manju_backend.Table.Laws.{
  IsDescending, IsDescending-take, IsDescending-drop, order_desc-IsDescending, All-order_desc,
  All-where_rows,
}
use manju_backend.Digestion.{
  DiscoveredTable, DiscoveredColumn, Uuid, Row, Change, Snapshot, SyncJob, IngestedRow, Env, World,
}
use manju_backend.Digestion.RowStore.{statement, page, query_rows, live_in, reload}
use manju_backend.Digestion.SourceStore
use manju_backend.Digestion.SchemaStore
use manju_backend.Digestion.JobStore
use manju_backend.Digestion.JobStore.{list_changes, list_snapshots, list_sync_jobs}

-- A limit that is not positive, or above the maximum, becomes the default.
abbrev pub clamped : ℕ → ℕ → ℤ → ℤ
clamped default maximum limit =
    if is_nonpositive limit || is_above maximum limit then pos default else limit

module _ {V : Type 0} (env : Env V) where
  unfoldable pub get_data : Uuid → ℤ → ℤ → Exec (World V) (List (Row V))
  get_data table_id limit offset = query_rows env table_id (clamped 100 1000 limit) offset

  unfoldable pub get_changes : Uuid → ℤ → Exec (World V) (List (Change V))
  get_changes table_id limit = list_changes env table_id (clamped 100 1000 limit)

  unfoldable pub get_snapshots : Uuid → ℤ → Exec (World V) (List Snapshot)
  get_snapshots table_id limit = list_snapshots env table_id (clamped 20 100 limit)

  unfoldable pub get_sync_jobs : Uuid → ℤ → Exec (World V) (List SyncJob)
  get_sync_jobs source_id limit = list_sync_jobs env source_id (clamped 20 100 limit)

  -- The reads that only pass on a call.
  unfoldable pub get_tables : Uuid → Exec (World V) (List DiscoveredTable)
  get_tables = SourceStore.list_tables env

  unfoldable pub get_table : Uuid → Exec (World V) DiscoveredTable
  get_table = SourceStore.get_table env

  unfoldable pub get_columns : Uuid → Exec (World V) (List DiscoveredColumn)
  get_columns = SchemaStore.list_columns env

  unfoldable pub get_sync_job : Uuid → Exec (World V) SyncJob
  get_sync_job = JobStore.get_sync_job env

clamped-wanted : (limit : ℤ) → to_ℕ (clamped 100 1000 limit) ≡ wanted 100 limit
clamped-wanted (pos n) = ground arith
clamped-wanted (negsuc n) = refl

module _ {V : Type 0} where
  -- A row that the data of a table shows.
  abbrev pub IsShown : Uuid → IngestedRow V → Type 0
  IsShown table_id row = (row.table_id ≡ table_id) × (row.is_deleted ≡ false)

  live_in-IsShown :
      (table_id : Uuid) (row : IngestedRow V) → live_in table_id row ≡ true → IsShown table_id row
  live_in-IsShown table_id row h = (ground arith, ground arith)

  IsShown-live_in :
      (table_id : Uuid) (row : IngestedRow V) → IsShown table_id row → live_in table_id row ≡ true
  IsShown-live_in table_id row (h, k) = ground arith

module _ {V : Type 0} (env : Env V) where
  page_of : Uuid → ℤ → ℤ → World V → List (IngestedRow V)
  page_of table_id limit offset w = take (to_ℕ (clamped 100 1000 limit)) (
      drop (to_ℕ offset)
        (order_desc (λ row. row.ingested_at) (where_rows (live_in table_id) w.rows)))

  page_of-IsPageOf :
      (table_id : Uuid) (limit offset : ℤ) (w : World V)
      → IsPageOf
          (IsShown table_id)
          (λ row. row.ingested_at)
          w.rows
          (to_ℕ offset)
          (wanted 100 limit)
          (page_of table_id limit offset w)
  unfolding page_of
  page_of-IsPageOf table_id limit offset w = record {
    selected = order_desc (λ row. row.ingested_at) (where_rows (live_in table_id) w.rows);
    selection =
        order_desc-IsSelection (live_in table_id) (IsShown table_id) (λ row. row.ingested_at) w.rows
          (live_in-IsShown table_id) (IsShown-live_in table_id);
    cut =
        ap
          (λ n. take n (
            drop (to_ℕ offset)
              (order_desc (λ row. row.ingested_at) (where_rows (live_in table_id) w.rows))))
          (clamped-wanted limit);
  }

  -- Reading the data of a table, when it succeeds, changes no row and returns the contents of a page:
  -- the rows of that table that are not deleted, all of them and no others, the last ingested first,
  -- from the offset on, as many as were asked for if that is between 1 and 1000, else 100.
  pub get_data-IsPageOf :
      (table_id : Uuid) (limit offset : ℤ) (w : World V) (contents : List (Row V))
      → (get_data env table_id limit offset w).0 ≡ ok contents
      → ((get_data env table_id limit offset w).1.rows ≡ w.rows)
        × ((rows : List (IngestedRow V)) × (contents ≡ map (λ row. reload env row.contents) rows)
            × IsPageOf
                (IsShown table_id)
                (λ row. row.ingested_at)
                w.rows
                (to_ℕ offset)
                (wanted 100 limit)
                rows)
  unfolding get_data query_rows page
  get_data-IsPageOf table_id limit offset w contents e =
      bind-cases DataOf (statement env) _ w
        (λ _ _. elim (Bool-cases (is_negative (clamped 100 1000 limit) || is_negative offset)) [
          | inl t ↦ rw t (λ c f. cc)
          | inr t ↦ rw t (λ c f. (
            refl,
            (
              page_of table_id limit offset w,
              unfold page_of in cc,
              page_of-IsPageOf table_id limit offset w,
            ),
          ))
        ])
        (λ _ _ c f. cc) contents e
    where
      DataOf : Result (List (Row V)) × World V → Type 0
      DataOf r =
          (c : List (Row V))
          → r.0 ≡ ok c
          → (r.1.rows ≡ w.rows)
            × ((rows : List (IngestedRow V)) × (c ≡ map (λ row. reload env row.contents) rows)
                × IsPageOf (IsShown table_id) (λ row. row.ingested_at) w.rows (to_ℕ offset)
                    (wanted 100 limit) rows)
