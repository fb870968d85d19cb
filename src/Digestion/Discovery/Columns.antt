-- ===== src/Digestion/Discovery/Columns.antt =====
-- Discover of discovery.go and the columns of tables that belong to other sources.
use manju_backend.Prelude.{
  ℕ, subst, sym, ◌≡◌, refl, String, false, ◌&&◌, List, [], ◌∷◌, Option, none, some, ◌==◌,
}
use manju_backend.Exec.{Result, ok, err, Exec, pure, ignore, ◌>>=◌, ◌>>◌, context-cases}
use manju_backend.Table.{any_row}
use manju_backend.Digestion.{Uuid, DiscoveredColumn, Env, World}
use manju_backend.Digestion.Connector.{new, TableMeta, ForeignKeyMeta, Connector, Driver}
use manju_backend.Digestion.SourceStore.{
  get_source, update_source_status, update_source_connected, source_error, source_discovered,
}
use manju_backend.Digestion.SchemaStore.{upsert_table, delete_fks_for_source}
use manju_backend.Digestion.Sync.{opened, source_config}
use manju_backend.Digestion.Sync.Frame.{get_source_state}
use manju_backend.Digestion.Discovery.{
  TableIds, dotted, put_id, table_to_store, fk_to_store, report, discovered_columns, discover_table,
  discover_tables, discover_fk, discover_fks, replace_fks, discover_listed, discover_connected,
  discover, no_tables,
}
use manju_backend.Digestion.Discovery.Keeps.{Keeps}
use manju_backend.Digestion.Discovery.Others.{
  columns_of, Apart, KeepsApart, KeepsApart-bind, update_source_status-KeepsApart,
  update_source_connected-KeepsApart, delete_fks_for_source-KeepsApart, insert_fk-KeepsApart,
  discovered_columns-KeepsApart, upsert_table-StoresOther,
}
use manju_backend.Digestion.Discovery.Careful.{discover-Keeps}

module _ {V : Type 0} (env : Env V) (source_id table : Uuid) (cols : List DiscoveredColumn)
    (fresh : (n : ℕ) → (env.fresh n == table) ≡ false) where
  discover_table-KeepsApart :
      (conn : Connector V) (t : TableMeta)
      → KeepsApart env source_id table cols (discover_table env conn source_id t)
  unfolding discover_table table_to_store
  discover_table-KeepsApart conn t w h =
      let stored =
        upsert_table-StoresOther env source_id table cols fresh (table_to_store source_id t) refl w
          h in
      context-cases (λ r. Apart env source_id table cols r.1)
        (upsert_table env (table_to_store source_id t)) _ w _
        (λ id e.
          KeepsApart-bind env source_id table cols
            (discovered_columns env id (conn.discover_columns t.schema t.name)) (λ _. pure id)
            (discovered_columns-KeepsApart env source_id table cols id
              (conn.discover_columns t.schema t.name) (stored.1 id e))
            (λ _ v k. k) _ stored.0)
        (λ _ _. stored.0)

  discover_tables-KeepsApart :
      (conn : Connector V) (tables : List TableMeta) (ids : TableIds)
      → KeepsApart env source_id table cols (discover_tables env conn source_id tables ids)
  unfolding discover_tables
  discover_tables-KeepsApart conn [] ids w h = h
  discover_tables-KeepsApart conn (t ∷ tables) ids w h =
      KeepsApart-bind env source_id table cols (discover_table env conn source_id t)
        (λ id. discover_tables env conn source_id tables (put_id (dotted t.schema t.name) id ids))
        (discover_table-KeepsApart conn t)
        (λ id. discover_tables-KeepsApart conn tables (put_id (dotted t.schema t.name) id ids)) w h

  report-KeepsApart :
      {A B : Type 0} (msg : String) (r : Result A) (f : A → Exec (World V) B)
      → ((a : A) → KeepsApart env source_id table cols (f a))
      → KeepsApart env source_id table cols (report env source_id msg r >>= f)
  unfolding report
  report-KeepsApart msg (ok a) f k w h = k a w h
  report-KeepsApart msg (err e) f k w h =
      update_source_status-KeepsApart env source_id table cols source_error (env.message e) w h

  discover_fk-KeepsApart :
      (ids : TableIds) (from : Option Uuid) (fk : ForeignKeyMeta)
      → KeepsApart env source_id table cols (discover_fk env source_id ids from fk)
  unfolding discover_fk
  discover_fk-KeepsApart ids none fk w h = h
  discover_fk-KeepsApart ids (some from_id) fk w h =
      insert_fk-KeepsApart env source_id table cols
        (fk_to_store source_id from_id (ids (dotted fk.to_schema fk.to_table)) fk) w h

  discover_fks-KeepsApart :
      (ids : TableIds) (fks : List ForeignKeyMeta)
      → KeepsApart env source_id table cols (discover_fks env source_id ids fks)
  unfolding discover_fks
  discover_fks-KeepsApart ids [] w h = h
  discover_fks-KeepsApart ids (fk ∷ fks) w h =
      KeepsApart-bind env source_id table cols
        (discover_fk env source_id ids (ids (dotted fk.from_schema fk.from_table)) fk)
        (λ _. discover_fks env source_id ids fks)
        (discover_fk-KeepsApart ids (ids (dotted fk.from_schema fk.from_table)) fk)
        (λ _. discover_fks-KeepsApart ids fks) w h

  replace_fks-KeepsApart :
      (ids : TableIds) (r : Result (List ForeignKeyMeta))
      → KeepsApart env source_id table cols (replace_fks env source_id ids r)
  unfolding replace_fks
  replace_fks-KeepsApart ids (err e) w h = h
  replace_fks-KeepsApart ids (ok fks) w h =
      KeepsApart-bind env source_id table cols (ignore (delete_fks_for_source env source_id))
        (λ _. discover_fks env source_id ids fks)
        (delete_fks_for_source-KeepsApart env source_id table cols)
        (λ _. discover_fks-KeepsApart ids fks) w h

  discover_listed-KeepsApart :
      (conn : Connector V) (tables : List TableMeta)
      → KeepsApart env source_id table cols (discover_listed env conn source_id tables)
  unfolding discover_listed
  discover_listed-KeepsApart conn tables =
      KeepsApart-bind env source_id table cols (discover_tables env conn source_id tables no_tables)
        (λ ids.
          replace_fks env source_id ids conn.discover_foreign_keys
          >> ignore (update_source_status env source_id source_discovered ""))
        (discover_tables-KeepsApart conn tables no_tables)
        (λ ids.
          KeepsApart-bind env source_id table cols
            (replace_fks env source_id ids conn.discover_foreign_keys)
            (λ _. ignore (update_source_status env source_id source_discovered ""))
            (replace_fks-KeepsApart ids conn.discover_foreign_keys)
            (λ _. update_source_status-KeepsApart env source_id table cols source_discovered ""))

  discover_connected-KeepsApart :
      (conn : Connector V)
      → KeepsApart env source_id table cols (discover_connected env conn source_id)
  unfolding discover_connected
  discover_connected-KeepsApart conn =
      KeepsApart-bind env source_id table cols (ignore (update_source_connected env source_id))
        (λ _.
          report env source_id "discover tables" conn.discover_tables
          >>= discover_listed env conn source_id)
        (update_source_connected-KeepsApart env source_id table cols)
        (λ _.
          report-KeepsApart "discover tables" conn.discover_tables
            (discover_listed env conn source_id) (λ tables. discover_listed-KeepsApart conn tables))

  pub discover-KeepsApart :
      (connect : Driver → Result (Connector V))
      → KeepsApart env source_id table cols (discover env connect source_id)
  unfolding discover
  discover-KeepsApart connect w h =
      context-cases (λ r. Apart env source_id table cols r.1) (get_source env source_id) _ w _
        (λ src e.
          report-KeepsApart "connect to source" (opened connect (new env.quote (source_config src)))
            (λ conn. discover_connected env conn source_id) discover_connected-KeepsApart _ (got e))
        (λ _ e. got e)
    where
      got :
          {r : Result _}
          → (get_source env source_id w).0 ≡ r
          → Apart env source_id table cols (get_source env source_id w).1
      got e = subst (Apart env source_id table cols) (sym (get_source_state env source_id w)) h

module _ {V : Type 0} (env : Env V) (connect : Driver → Result (Connector V)) where
  -- A discovery of a source, however it ends, keeps the ingested data and its history, every table
  -- and every column that was there with its id and its settings, the source rows, tables and keys
  -- of other sources, and the columns of each table that is not the source's, if no id that the
  -- program draws is that table's.
  pub discover-SparesOthers :
      (source_id table : Uuid) (w : World V)
      → ((n : ℕ) → (env.fresh n == table) ≡ false)
      → any_row (λ t. t.id == table && t.source_id == source_id) w.tables ≡ false
      → Keeps source_id w (discover env connect source_id w).1
        × (columns_of table (discover env connect source_id w).1 ≡ columns_of table w)
  discover-SparesOthers source_id table w fresh foreign = (
    discover-Keeps env connect source_id w,
    (discover-KeepsApart env source_id table (columns_of table w) fresh connect w
        (foreign, refl)).1,
  )
