-- ===== src/Digestion/SchemaStore/Rediscovery.antt =====
-- What `UpsertTable` of store.go keeps of a table that was discovered before.
use manju_backend.Prelude.{suc, ◌≡◌, refl, ap, ◌∙◌, String, Bool, true, Option, none, some}
use manju_backend.Exec.{Error, ok, err}
use manju_backend.Table.{first_row, update_rows}
use manju_backend.Table.Laws.{first_row-update_rows, first_row-holds}
use manju_backend.Digestion.{Uuid, DiscoveredTable, Env, World}
use manju_backend.Digestion.SchemaStore.{same_table, rediscovered, upsert_table, table_by_name}

module _ {V : Type 0} (env : Env V) where
  -- A table as it is kept when it is discovered again: its id, its setting and the history of its
  -- syncs stay, its primary key is the new one.
  pub record IsRediscovered (old t new : DiscoveredTable) : Type 0 where
    pub id : new.id ≡ old.id
    pub sync_enabled : new.sync_enabled ≡ old.sync_enabled
    pub last_sync_at : new.last_sync_at ≡ old.last_sync_at
    pub last_snapshot_version : new.last_snapshot_version ≡ old.last_snapshot_version
    pub primary_key : new.primary_key_columns ≡ t.primary_key_columns

  table_by_name-found :
      (source_id : Uuid) (schema name : String) (v : World V) (new : DiscoveredTable)
      → env.fault v.calls ≡ none
      → first_row (same_table source_id schema name) v.tables ≡ some new
      → (table_by_name env source_id schema name v).0 ≡ ok new
  unfolding table_by_name
  table_by_name-found source_id schema name v new up found = rw (up, found) refl

  upsert_table_again :
      (t old : DiscoveredTable) (w : World V)
      → env.fault (suc w.calls) ≡ none
      → first_row (same_table t.source_id t.schema_name t.table_name) w.tables ≡ some old
      → ((upsert_table env t w).0 ≡ ok old.id)
        × ((upsert_table env t w).1.tables
            ≡ update_rows
                (same_table t.source_id t.schema_name t.table_name)
                (rediscovered (env.clock (suc (suc w.calls))) t)
                w.tables)
  unfolding upsert_table
  upsert_table_again t old w f found = rw (f, found) (refl, refl)

  upsert_table_fails :
      (t : DiscoveredTable) (w : World V) (x : Error)
      → env.fault (suc w.calls) ≡ some x
      → (upsert_table env t w).0 ≡ err x
  unfolding upsert_table
  upsert_table_fails t w x f = rw f refl

  -- If a table of this name was discovered before, an upsert of it that succeeds returns the id that
  -- it had, and, unless the database fails, a lookup by name finds the table with that id, its
  -- setting and the history of its syncs, and the new primary key.
  pub table_by_name-upsert_table :
      (t old : DiscoveredTable) (id : Uuid) (w : World V)
      → first_row (same_table t.source_id t.schema_name t.table_name) w.tables ≡ some old
      → (upsert_table env t w).0 ≡ ok id
      → env.fault (upsert_table env t w).1.calls ≡ none
      → (id ≡ old.id)
        × ((new : DiscoveredTable) × ((table_by_name env t.source_id t.schema_name t.table_name
                (upsert_table env t w).1).0
              ≡ ok new)
            × IsRediscovered old t new)
  unfolding rediscovered
  table_by_name-upsert_table t old id w found e up = go (env.fault (suc w.calls)) refl
    where
      this : DiscoveredTable → Bool
      this = same_table t.source_id t.schema_name t.table_name

      new : DiscoveredTable
      new = rediscovered (env.clock (suc (suc w.calls))) t old

      same_name :
          (row : DiscoveredTable)
          → this (rediscovered (env.clock (suc (suc w.calls))) t row) ≡ this row
      same_name row = refl

      here : this old ≡ true
      here = first_row-holds this w.tables old found

      kept :
          first_row this
            (update_rows this (rediscovered (env.clock (suc (suc w.calls))) t) w.tables)
          ≡ some new
      kept = first_row-update_rows this this _ same_name w.tables old found ∙ rw here refl

      go :
          (o : Option Error)
          → env.fault (suc w.calls) ≡ o
          → (id ≡ old.id)
            × ((new : DiscoveredTable) × ((table_by_name env t.source_id t.schema_name t.table_name
                    (upsert_table env t w).1).0
                  ≡ ok new)
                × IsRediscovered old t new)
      go (some x) f = cc (e, upsert_table_fails t w x f)
      go none f =
          let again = upsert_table_again t old w f found in
          (
            cc (e, again.0),
            (
              new,
              table_by_name-found t.source_id t.schema_name t.table_name (upsert_table env t w).1
                  new up (ap (first_row this) again.1 ∙ kept),
              record {
                id = refl;
                sync_enabled = refl;
                last_sync_at = refl;
                last_snapshot_version = refl;
                primary_key = refl;
              },
            ),
          )
