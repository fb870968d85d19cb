-- ===== src/Digestion/Discovery/Listed.antt =====
-- What Discover of discovery.go puts into the catalog when it succeeds.
use manju_backend.Prelude.{◌≡◌, refl, sym, ap, ◌∙◌, subst, false, List, [], ◌∷◌, All}
use manju_backend.Exec.{Result, ok, pure, ignore, ◌>>=◌, ◌>>◌, bind-cases, context-cases}
use manju_backend.Digestion.{Uuid, Source, Env, World}
use manju_backend.Digestion.Connector.{Connector, Driver, TableMeta, new}
use manju_backend.Digestion.SourceStore.{
  get_source, update_source_status, update_source_connected, source_discovered,
}
use manju_backend.Digestion.SchemaStore.{upsert_table}
use manju_backend.Digestion.Sync.{opened, source_config}
use manju_backend.Digestion.Discovery.{
  TableIds, dotted, put_id, no_tables, table_to_store, report, discovered_columns, discover_table,
  discover_tables, replace_fks, discover_listed, discover_connected, discover,
}
use manju_backend.Digestion.Discovery.Upserts.{
  update_source_status-KeepsTables, discovered_columns-KeepsTables, replace_fks-KeepsTables,
  IsListed, same_name, AreDistinct, upsert_table-IsListed, upsert_other-IsListed,
}

module _ {V : Type 0} (env : Env V) (source_id : Uuid) where
  discover_table-tables :
      (conn : Connector V) (u : TableMeta) (w : World V)
      → (discover_table env conn source_id u w).1.tables
        ≡ (upsert_table env (table_to_store source_id u) w).1.tables
  unfolding discover_table
  discover_table-tables conn u w =
      context-cases (λ r. r.1.tables ≡ (upsert_table env (table_to_store source_id u) w).1.tables)
        (upsert_table env (table_to_store source_id u))
        (λ id. discovered_columns env id (conn.discover_columns u.schema u.name) >> pure id) w _
        (λ id _.
          bind-cases (λ r. r.1.tables ≡ (upsert_table env (table_to_store source_id u) w).1.tables)
            (discovered_columns env id (conn.discover_columns u.schema u.name)) (λ _. pure id) _
            (λ _ _. discovered_columns-KeepsTables env id (conn.discover_columns u.schema u.name) _)
            (λ _ _.
              discovered_columns-KeepsTables env id (conn.discover_columns u.schema u.name) _))
        (λ _ _. refl)

  discover_table-IsListed :
      (conn : Connector V) (t : TableMeta) (w : World V) (id : Uuid)
      → (discover_table env conn source_id t w).0 ≡ ok id
      → IsListed source_id t (discover_table env conn source_id t w).1.tables
  unfolding discover_table
  discover_table-IsListed conn t w id =
      context-cases (λ r. r.0 ≡ ok id → IsListed source_id t r.1.tables)
        (upsert_table env (table_to_store source_id t))
        (λ i. discovered_columns env i (conn.discover_columns t.schema t.name) >> pure i) w _
        (λ i e.
          bind-cases (λ r. r.0 ≡ ok id → IsListed source_id t r.1.tables)
            (discovered_columns env i (conn.discover_columns t.schema t.name)) (λ _. pure i) _
            (λ _ _ _. with_columns i e) (λ _ _ _. with_columns i e))
        (λ x e h. cc)
    where
      with_columns :
          (i : Uuid)
          → (upsert_table env (table_to_store source_id t) w).0 ≡ ok i
          → IsListed source_id t
              (discovered_columns env i
                (conn.discover_columns t.schema t.name)
                (upsert_table env (table_to_store source_id t) w).1).1.tables
      with_columns i e =
          subst (IsListed source_id t)
            (sym (discovered_columns-KeepsTables env i (conn.discover_columns t.schema t.name) _))
            (upsert_table-IsListed env source_id t w i e)

  other_tables-IsListed :
      (conn : Connector V) (t : TableMeta) (tables : List TableMeta) (ids : TableIds) (w : World V)
      → All (λ u. same_name source_id t u ≡ false) tables
      → IsListed source_id t w.tables
      → IsListed source_id t (discover_tables env conn source_id tables ids w).1.tables
  unfolding discover_tables
  other_tables-IsListed conn t [] ids w h l = l
  other_tables-IsListed conn t (u ∷ tables) ids w h l =
      let l' =
        subst (IsListed source_id t) (sym (discover_table-tables conn u w))
          (upsert_other-IsListed env source_id t u h.0 w l) in
      bind-cases (λ r. IsListed source_id t r.1.tables) (discover_table env conn source_id u)
        (λ id. discover_tables env conn source_id tables (put_id (dotted u.schema u.name) id ids)) w
        (λ id _.
          other_tables-IsListed conn t tables (put_id (dotted u.schema u.name) id ids)
            (discover_table env conn source_id u w).1 h.1 l')
        (λ _ _. l')

  discover_tables-IsListed :
      (conn : Connector V) (tables : List TableMeta) (ids ids' : TableIds) (w : World V)
      → AreDistinct source_id tables
      → (discover_tables env conn source_id tables ids w).0 ≡ ok ids'
      → All
          (λ t. IsListed source_id t (discover_tables env conn source_id tables ids w).1.tables)
          tables
  unfolding discover_tables
  discover_tables-IsListed conn [] ids ids' w d = λ h. tt
  discover_tables-IsListed conn (t ∷ tables) ids ids' w d =
      bind-cases (λ r. r.0 ≡ ok ids' → All (λ u. IsListed source_id u r.1.tables) (t ∷ tables))
        (discover_table env conn source_id t)
        (λ id. discover_tables env conn source_id tables (put_id (dotted t.schema t.name) id ids)) w
        (λ id e h. (
          other_tables-IsListed conn t tables (put_id (dotted t.schema t.name) id ids)
              (discover_table env conn source_id t w).1 d.0 (discover_table-IsListed conn t w id e),
          discover_tables-IsListed conn tables (put_id (dotted t.schema t.name) id ids) ids'
              (discover_table env conn source_id t w).1 d.1 h,
        ))
        (λ _ _ h. cc)

  AllListed : List TableMeta → Result (Unit {0}) × World V → Type 0
  AllListed tables r = r.0 ≡ ok tt → All (λ t. IsListed source_id t r.1.tables) tables

  discover_listed-AllListed :
      (conn : Connector V) (tables : List TableMeta) (w : World V)
      → AreDistinct source_id tables
      → AllListed tables (discover_listed env conn source_id tables w)
  unfolding discover_listed AllListed
  discover_listed-AllListed conn tables w d =
      bind-cases (AllListed tables) (discover_tables env conn source_id tables no_tables)
        (λ ids.
          replace_fks env source_id ids conn.discover_foreign_keys
          >> ignore (update_source_status env source_id source_discovered ""))
        w
        (λ ids e.
          let here = discover_tables-IsListed conn tables no_tables ids w d e in
          bind-cases (AllListed tables) (replace_fks env source_id ids conn.discover_foreign_keys)
            (λ _. ignore (update_source_status env source_id source_discovered "")) _
            (λ _ _ _.
              subst (λ ts. All (λ t. IsListed source_id t ts) tables)
                (sym (
                  update_source_status-KeepsTables env source_id source_discovered "" _
                  ∙ replace_fks-KeepsTables env source_id ids conn.discover_foreign_keys _))
                here)
            (λ x _ h. cc))
        (λ x _ h. cc)

  discover_connected-AllListed :
      (conn : Connector V) (tables : List TableMeta) (w : World V)
      → AreDistinct source_id tables
      → conn.discover_tables ≡ ok tables
      → AllListed tables (discover_connected env conn source_id w)
  unfolding discover_connected AllListed report
  discover_connected-AllListed conn tables w d e = rw e (
      bind-cases (AllListed tables) (ignore (update_source_connected env source_id))
        (λ _. pure tables >>= discover_listed env conn source_id) w
        (λ _ _. discover_listed-AllListed conn tables _ d) (λ x _ h. cc))

module _ {V : Type 0} (env : Env V) (connect : Driver → Result (Connector V)) where
  -- After a discovery that succeeded, whatever single columns or keys failed in it, every table that
  -- the source lists is in the catalog under its name, with the primary key, the estimate and the
  -- timestamp column that were listed, if no table is listed twice.
  pub discover-IsListed :
      (source_id : Uuid) (src : Source) (conn : Connector V) (tables : List TableMeta) (w : World V)
      → (get_source env source_id w).0 ≡ ok src
      → opened connect (new env.quote (source_config src)) ≡ ok conn
      → conn.discover_tables ≡ ok tables
      → AreDistinct source_id tables
      → (discover env connect source_id w).0 ≡ ok tt
      → All (λ t. IsListed source_id t (discover env connect source_id w).1.tables) tables
  unfolding discover AllListed report
  discover-IsListed source_id src conn tables w found connected listed d =
      context-cases (AllListed env source_id tables) (get_source env source_id)
        (λ s.
          report env source_id "connect to source"
            (opened connect (new env.quote (source_config s)))
          >>= λ c. discover_connected env c source_id)
        w "get source"
        (λ s e.
          let it : s ≡ src = cc (e, found) in
          let same : opened connect (new env.quote (source_config s)) ≡ ok conn =
            ap (λ (x : Source). opened connect (new env.quote (source_config x))) it ∙ connected in
          rw same (discover_connected-AllListed env source_id conn tables _ d listed))
        (λ x _ h. cc)
