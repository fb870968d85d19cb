-- ===== src/Digestion/Discovery/Careful.antt =====
-- What Discover of discovery.go leaves alone, however it ends.
use mathlib.Core.List.{map-append, append-nil}
use manju_backend.Prelude.{
  subst, suc, suc, ℕ, ◌≡◌, refl, sym, ◌∙◌, String, Bool, true, false, not, List, [], ◌∷◌, ◌++◌, map,
  Option, none, some, ◌==◌, arith, if◌then◌else◌,
}
use manju_backend.Exec.{Result, ok, err, Exec, pure, ignore, ◌>>=◌, ◌>>◌, bind-cases}
use manju_backend.Table.{update_rows, first_row, any_row}
use manju_backend.Table.Laws.{
  where_rows-update_rows, where_rows-append_miss, where_rows-delete_rows, map-update_rows,
}
use manju_backend.Digestion.{
  Uuid, DiscoveredTable, DiscoveredColumn, DiscoveredForeignKey, Env, World,
}
use manju_backend.Digestion.RowStore.{statement}
use manju_backend.Digestion.Connector.{
  new, TableMeta, ColumnMeta, ForeignKeyMeta, Connector, Driver,
}
use manju_backend.Digestion.SourceStore.{
  get_source, update_source_status, update_source_connected, source_error, source_discovered,
  status_set, connected_source,
}
use manju_backend.Digestion.SchemaStore.{
  upsert_table, insert_column, delete_fks_for_source, insert_fk, same_table, rediscovered,
  discovered_table, same_column, redescribed, put_table,
}
use manju_backend.Digestion.Sync.{opened, source_config}
use manju_backend.Digestion.Sync.Frame.{get_source_state}
use manju_backend.Digestion.Discovery.{
  TableIds, dotted, put_id, table_to_store, column_to_store, fk_to_store, report, insert_columns,
  discovered_columns, discover_table, discover_tables, discover_fk, discover_fks, replace_fks,
  discover_listed, discover_connected, discover, no_tables,
}
use manju_backend.Digestion.Discovery.Keeps.{
  settled, named, Extends, Keeps, Keeps-refl, Keeps-trans, IsCareful, IsCareful-bind,
  IsCareful-context, keep_calls, keep_own, keep_tables, keep_columns, keep_keys,
}

module _ {V : Type 0} (env : Env V) (source_id : Uuid) where
  update_source_status-IsCareful :
      (status msg : String) → IsCareful source_id (update_source_status env source_id status msg)
  unfolding update_source_status status_set
  update_source_status-IsCareful status msg w =
      bind-cases (λ r. Keeps source_id w r.1) (statement env) _ w
        (λ _ _. keep_own source_id w _ _ (λ x. refl)) (λ _ _. keep_calls source_id w _)

  pub update_source_connected-IsCareful :
      IsCareful source_id (update_source_connected env source_id)
  unfolding update_source_connected connected_source
  update_source_connected-IsCareful w =
      bind-cases (λ r. Keeps source_id w r.1) (statement env) _ w
        (λ _ _. keep_own source_id w _ _ (λ x. refl)) (λ _ _. keep_calls source_id w _)

  delete_fks_for_source-IsCareful : IsCareful source_id (delete_fks_for_source env source_id)
  unfolding delete_fks_for_source
  delete_fks_for_source-IsCareful w =
      bind-cases (λ r. Keeps source_id w r.1) (statement env) _ w
        (λ _ _. keep_keys source_id w _ _ (
          where_rows-delete_rows (λ (fk : DiscoveredForeignKey). not (fk.source_id == source_id))
            (λ fk. fk.source_id == source_id) (λ x h. ground arith) w.foreign_keys))
        (λ _ _. keep_calls source_id w _)

  insert_fk-IsCareful :
      (fk : DiscoveredForeignKey)
      → fk.source_id ≡ source_id
      → IsCareful source_id (insert_fk env fk)
  unfolding insert_fk
  insert_fk-IsCareful fk e w =
      bind-cases (λ r. Keeps source_id w r.1) (statement env) _ (record w { calls = suc w.calls })
        (λ _ _. keep_keys source_id w _ _ (
          where_rows-append_miss (λ (k : DiscoveredForeignKey). not (k.source_id == source_id))
            w.foreign_keys _ (ground arith)))
        (λ _ _. keep_calls source_id w _)

  columns-Extends :
      (c : DiscoveredColumn) (id : Uuid) (columns : List DiscoveredColumn) (b : Bool)
      → Extends (map named columns) (
          map named (
            if b
            then update_rows (same_column c) (redescribed c) columns
            else columns ++ record c { id = id } ∷ []))
  unfolding redescribed
  columns-Extends c id columns true = (
    [],
    map-update_rows named (same_column c) (redescribed c) (λ x. refl) columns ∙ sym (append-nil _),
  )
  columns-Extends c id columns false = (_, map-append named columns _)

  insert_column-IsCareful : (c : DiscoveredColumn) → IsCareful source_id (insert_column env c)
  unfolding insert_column
  insert_column-IsCareful c w =
      bind-cases (λ r. Keeps source_id w r.1) (statement env) _ (record w { calls = suc w.calls })
        (λ _ _.
          keep_columns source_id w _ _
            (columns-Extends c _ w.columns (any_row (same_column c) w.columns)))
        (λ _ _. keep_calls source_id w _)

  put_table-Keeps :
      (t : DiscoveredTable)
      → t.source_id ≡ source_id
      → (w : World V) (id time : ℕ) (found : Option DiscoveredTable)
      → Keeps source_id w
          (put_table id time t found (record w { calls = suc (suc (suc w.calls)) })).1
  unfolding discovered_table rediscovered
  put_table-Keeps t e w id time none =
      keep_tables source_id w _ _ (_, map-append settled w.tables _)
        (where_rows-append_miss (λ (x : DiscoveredTable). not (x.source_id == source_id)) w.tables _
          (ground arith))
  put_table-Keeps t e w id time (some row) =
      keep_tables source_id w _ _
        (
          [],
          map-update_rows settled _ (rediscovered time t) (λ x. refl) w.tables ∙ sym (append-nil _),
        )
        (where_rows-update_rows (λ (x : DiscoveredTable). not (x.source_id == source_id))
          (same_table t.source_id t.schema_name t.table_name) (rediscovered time t)
          (λ x h. (ground arith, ground arith)) w.tables)

  upsert_table-IsCareful :
      (t : DiscoveredTable) → t.source_id ≡ source_id → IsCareful source_id (upsert_table env t)
  unfolding upsert_table
  upsert_table-IsCareful t e w =
      bind-cases (λ r. Keeps source_id w r.1) (statement env) _ (record w { calls = suc w.calls })
        (λ _ _.
          put_table-Keeps t e w _ _
            (first_row (same_table t.source_id t.schema_name t.table_name) w.tables))
        (λ _ _. keep_calls source_id w _)

  report-IsCareful :
      {A B : Type 0} (msg : String) (r : Result A) (f : A → Exec (World V) B)
      → ((a : A) → IsCareful source_id (f a))
      → IsCareful source_id (report env source_id msg r >>= f)
  unfolding report
  report-IsCareful msg (ok a) f h w = h a w
  report-IsCareful msg (err e) f h w = update_source_status-IsCareful source_error (env.message e) w

  discovered_columns-IsCareful :
      (table_id : Uuid) (r : Result (List ColumnMeta))
      → IsCareful source_id (discovered_columns env table_id r)
  unfolding discovered_columns
  discovered_columns-IsCareful table_id (err e) w = Keeps-refl source_id w
  discovered_columns-IsCareful table_id (ok cols) w = go cols w
    where
      go : (cols : List ColumnMeta) → IsCareful source_id (insert_columns env table_id cols)
      go [] w = Keeps-refl source_id w
      go (c ∷ cols) w =
          Keeps-trans source_id w _ _ (insert_column-IsCareful (column_to_store table_id c) w)
            (go cols _)

  discover_table-IsCareful :
      (conn : Connector V) (t : TableMeta)
      → IsCareful source_id (discover_table env conn source_id t)
  unfolding discover_table table_to_store
  discover_table-IsCareful conn t =
      IsCareful-context source_id (upsert_table env (table_to_store source_id t))
        (λ id. discovered_columns env id (conn.discover_columns t.schema t.name) >> pure id) _
        (upsert_table-IsCareful (table_to_store source_id t) refl)
        (λ id.
          IsCareful-bind source_id
            (discovered_columns env id (conn.discover_columns t.schema t.name)) (λ _. pure id)
            (discovered_columns-IsCareful id (conn.discover_columns t.schema t.name))
            (λ _ w. Keeps-refl source_id w))

  pub discover_tables-IsCareful :
      (conn : Connector V) (tables : List TableMeta) (ids : TableIds)
      → IsCareful source_id (discover_tables env conn source_id tables ids)
  unfolding discover_tables
  discover_tables-IsCareful conn [] ids w = Keeps-refl source_id w
  discover_tables-IsCareful conn (t ∷ tables) ids w =
      IsCareful-bind source_id (discover_table env conn source_id t)
        (λ id. discover_tables env conn source_id tables (put_id (dotted t.schema t.name) id ids))
        (discover_table-IsCareful conn t)
        (λ id. discover_tables-IsCareful conn tables (put_id (dotted t.schema t.name) id ids)) w

  discover_fk-IsCareful :
      (ids : TableIds) (from : Option Uuid) (fk : ForeignKeyMeta)
      → IsCareful source_id (discover_fk env source_id ids from fk)
  unfolding discover_fk fk_to_store
  discover_fk-IsCareful ids none fk w = Keeps-refl source_id w
  discover_fk-IsCareful ids (some from_id) fk w =
      insert_fk-IsCareful (fk_to_store source_id from_id (ids (dotted fk.to_schema fk.to_table)) fk)
        refl w

  discover_fks-IsCareful :
      (ids : TableIds) (fks : List ForeignKeyMeta)
      → IsCareful source_id (discover_fks env source_id ids fks)
  unfolding discover_fks
  discover_fks-IsCareful ids [] w = Keeps-refl source_id w
  discover_fks-IsCareful ids (fk ∷ fks) w =
      IsCareful-bind source_id
        (discover_fk env source_id ids (ids (dotted fk.from_schema fk.from_table)) fk)
        (λ _. discover_fks env source_id ids fks)
        (discover_fk-IsCareful ids (ids (dotted fk.from_schema fk.from_table)) fk)
        (λ _. discover_fks-IsCareful ids fks) w

  pub replace_fks-IsCareful :
      (ids : TableIds) (r : Result (List ForeignKeyMeta))
      → IsCareful source_id (replace_fks env source_id ids r)
  unfolding replace_fks
  replace_fks-IsCareful ids (err e) w = Keeps-refl source_id w
  replace_fks-IsCareful ids (ok fks) w =
      IsCareful-bind source_id (ignore (delete_fks_for_source env source_id))
        (λ _. discover_fks env source_id ids fks) delete_fks_for_source-IsCareful
        (λ _. discover_fks-IsCareful ids fks) w

  discover_listed-IsCareful :
      (conn : Connector V) (tables : List TableMeta)
      → IsCareful source_id (discover_listed env conn source_id tables)
  unfolding discover_listed
  discover_listed-IsCareful conn tables =
      IsCareful-bind source_id (discover_tables env conn source_id tables no_tables)
        (λ ids.
          replace_fks env source_id ids conn.discover_foreign_keys
          >> ignore (update_source_status env source_id source_discovered ""))
        (discover_tables-IsCareful conn tables no_tables)
        (λ ids.
          IsCareful-bind source_id (replace_fks env source_id ids conn.discover_foreign_keys)
            (λ _. ignore (update_source_status env source_id source_discovered ""))
            (replace_fks-IsCareful ids conn.discover_foreign_keys)
            (λ _. update_source_status-IsCareful source_discovered ""))

  discover_connected-IsCareful :
      (conn : Connector V) → IsCareful source_id (discover_connected env conn source_id)
  unfolding discover_connected
  discover_connected-IsCareful conn =
      IsCareful-bind source_id (ignore (update_source_connected env source_id))
        (λ _.
          report env source_id "discover tables" conn.discover_tables
          >>= discover_listed env conn source_id)
        update_source_connected-IsCareful
        (λ _.
          report-IsCareful "discover tables" conn.discover_tables
            (discover_listed env conn source_id) (λ tables. discover_listed-IsCareful conn tables))

module _ {V : Type 0} (env : Env V) (connect : Driver → Result (Connector V)) where
  pub discover-Keeps :
      (source_id : Uuid) (w : World V) → Keeps source_id w (discover env connect source_id w).1
  unfolding discover
  discover-Keeps source_id =
      IsCareful-context source_id (get_source env source_id)
        (λ src.
          report env source_id "connect to source"
            (opened connect (new env.quote (source_config src)))
          >>= λ conn. discover_connected env conn source_id)
        "get source"
        (λ w.
          subst (Keeps source_id w) (sym (get_source_state env source_id w))
            (keep_calls source_id w (suc w.calls)))
        (λ src.
          report-IsCareful env source_id "connect to source"
            (opened connect (new env.quote (source_config src)))
            (λ conn. discover_connected env conn source_id)
            (λ conn. discover_connected-IsCareful env source_id conn))
