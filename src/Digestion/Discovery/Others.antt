-- ===== src/Digestion/Discovery/Others.antt =====
-- The statements of Discover of discovery.go and the columns of a table of another source.
use manju_backend.Prelude.{
  ℕ, suc, ◌≡◌, refl, ◌∙◌, String, Bool, true, false, ◌&&◌, List, [], ◌∷◌, ◌++◌, Option, none, some,
  ◌==◌, arith, if◌then◌else◌,
}
use manju_backend.Exec.{Result, ok, err, Exec, ◌>>=◌, bind-cases}
use manju_backend.Table.{where_rows, update_rows, first_row, any_row}
use manju_backend.Table.Laws.{
  where_rows-update_rows, where_rows-append_miss, any_row-update_rows, first_row-holds,
}
use manju_backend.Digestion.{
  Uuid, DiscoveredTable, DiscoveredColumn, DiscoveredForeignKey, Env, World,
}
use manju_backend.Digestion.RowStore.{statement}
use manju_backend.Digestion.Connector.{ColumnMeta}
use manju_backend.Digestion.SourceStore.{update_source_status, update_source_connected}
use manju_backend.Digestion.SchemaStore.{
  upsert_table, insert_column, delete_fks_for_source, insert_fk, same_table, rediscovered,
  discovered_table, same_column, redescribed, put_table,
}
use manju_backend.Digestion.Discovery.{column_to_store, insert_columns, discovered_columns}

module _ {ℓ} {A : Type ℓ} where
  any_row-append_miss :
      (p : A → Bool) (xs : List A) (y : A)
      → any_row p xs ≡ false
      → p y ≡ false
      → any_row p (xs ++ y ∷ []) ≡ false
  any_row-append_miss p [] y h k = ground arith
  any_row-append_miss p (x ∷ xs) y h k = ground (arith, any_row-append_miss p xs y)

  -- The row that is found is not one that the table lacks.
  first_row-misses :
      (p q : A → Bool) (xs : List A) (x : A)
      → first_row p xs ≡ some x
      → any_row q xs ≡ false
      → q x ≡ false
  first_row-misses p q [] x e h = ground arith
  first_row-misses p q (y ∷ xs) x e h = ground (arith, first_row-misses p q xs x)

abbrev pub is_of : Uuid → Uuid → DiscoveredTable → Bool
is_of source_id table t = t.id == table && t.source_id == source_id

abbrev pub columns_of : {V : Type 0} → Uuid → World V → List DiscoveredColumn
columns_of table w = where_rows (λ c. c.table_id == table) w.columns

module _ {V : Type 0} (env : Env V) (source_id table : Uuid) (cols : List DiscoveredColumn) where
  -- `table` is no table of the source, and has these columns.
  abbrev pub Apart : World V → Type 0
  Apart w = (any_row (is_of source_id table) w.tables ≡ false) × (columns_of table w ≡ cols)

  abbrev pub KeepsApart : {A : Type 0} → Exec (World V) A → Type 0
  KeepsApart m = (w : World V) → Apart w → Apart (m w).1

  pub KeepsApart-bind :
      {A B : Type 0} (m : Exec (World V) A) (f : A → Exec (World V) B)
      → KeepsApart m
      → ((a : A) → KeepsApart (f a))
      → KeepsApart (m >>= f)
  KeepsApart-bind m f km kf w h =
      bind-cases (λ r. Apart r.1) m f w (λ a _. kf a _ (km w h)) (λ _ _. km w h)

  -- A step that writes neither tables nor columns.
  pub update_source_status-KeepsApart :
      (status msg : String) → KeepsApart (update_source_status env source_id status msg)
  unfolding update_source_status
  update_source_status-KeepsApart status msg w h =
      bind-cases (λ r. Apart r.1) (statement env) _ w (λ _ _. h) (λ _ _. h)

  pub update_source_connected-KeepsApart : KeepsApart (update_source_connected env source_id)
  unfolding update_source_connected
  update_source_connected-KeepsApart w h =
      bind-cases (λ r. Apart r.1) (statement env) _ w (λ _ _. h) (λ _ _. h)

  pub delete_fks_for_source-KeepsApart : KeepsApart (delete_fks_for_source env source_id)
  unfolding delete_fks_for_source
  delete_fks_for_source-KeepsApart w h =
      bind-cases (λ r. Apart r.1) (statement env) _ w (λ _ _. h) (λ _ _. h)

  pub insert_fk-KeepsApart : (fk : DiscoveredForeignKey) → KeepsApart (insert_fk env fk)
  unfolding insert_fk
  insert_fk-KeepsApart fk w h =
      bind-cases (λ r. Apart r.1) (statement env) _ (record w { calls = suc w.calls }) (λ _ _. h)
        (λ _ _. h)

  columns-Apart :
      (c : DiscoveredColumn) (id : Uuid) (columns : List DiscoveredColumn) (b : Bool)
      → (c.table_id == table) ≡ false
      → where_rows
          (λ c. c.table_id == table)
          (if b
            then update_rows (same_column c) (redescribed c) columns
            else columns ++ record c { id = id } ∷ [])
        ≡ where_rows (λ c. c.table_id == table) columns
  unfolding redescribed
  columns-Apart c id columns true n =
      where_rows-update_rows (λ (x : DiscoveredColumn). x.table_id == table) (same_column c)
        (redescribed c) (λ x h. (ground arith, ground arith)) columns
  columns-Apart c id columns false n =
      where_rows-append_miss (λ (x : DiscoveredColumn). x.table_id == table) columns _ n

  insert_column-KeepsApart :
      (c : DiscoveredColumn) → (c.table_id == table) ≡ false → KeepsApart (insert_column env c)
  unfolding insert_column
  insert_column-KeepsApart c n w h =
      bind-cases (λ r. Apart r.1) (statement env) _ (record w { calls = suc w.calls })
        (λ _ _. (h.0, columns-Apart c _ w.columns (any_row (same_column c) w.columns) n ∙ h.1))
        (λ _ _. h)

  pub discovered_columns-KeepsApart :
      (id : Uuid) (r : Result (List ColumnMeta))
      → (id == table) ≡ false
      → KeepsApart (discovered_columns env id r)
  unfolding discovered_columns column_to_store
  discovered_columns-KeepsApart id (err e) n w h = h
  discovered_columns-KeepsApart id (ok metas) n w h = go metas w h
    where
      go : (metas : List ColumnMeta) → KeepsApart (insert_columns env id metas)
      go [] w h = h
      go (c ∷ metas) w h = go metas _ (insert_column-KeepsApart (column_to_store id c) n w h)

  same_answer :
      (a b : Uuid)
      → ◌≡◌ {A = Result Uuid} (ok a) (ok b)
      → (a == table) ≡ false
      → (b == table) ≡ false
  same_answer a b e h = cc

  found_other :
      (t : DiscoveredTable)
      → t.source_id ≡ source_id
      → (row : DiscoveredTable) → is_of source_id table row ≡ false
      → same_table t.source_id t.schema_name t.table_name row ≡ true
      → (row.id == table) ≡ false
  found_other t e row miss found = ground arith

  -- The table that is stored is another one.
  abbrev pub StoresOther : Result Uuid × World V → Type 0
  StoresOther r = Apart r.1 × ((id : Uuid) → r.0 ≡ ok id → (id == table) ≡ false)

  module _ (fresh : (n : ℕ) → (env.fresh n == table) ≡ false) where
    put_table-StoresOther :
        (t : DiscoveredTable)
        → t.source_id ≡ source_id
        → (w : World V) (n time : ℕ) (found : Option DiscoveredTable)
        → first_row (same_table t.source_id t.schema_name t.table_name) w.tables ≡ found
        → Apart w
        → StoresOther
            (put_table (env.fresh n) time t found (record w { calls = suc (suc (suc w.calls)) }))
    unfolding discovered_table rediscovered
    put_table-StoresOther t e w n time none f h = (
      (any_row-append_miss (is_of source_id table) w.tables _ h.0 (ground (arith, fresh n)), h.1),
      λ id r. same_answer (env.fresh n) id r (fresh n),
    )
    put_table-StoresOther t e w n time (some row) f h = (
      (
        any_row-update_rows (is_of source_id table)
              (same_table t.source_id t.schema_name t.table_name) (rediscovered time t) (λ x. refl)
              w.tables
            ∙ h.0,
        h.1,
      ),
      λ id r. same_answer row.id id r (
          found_other t e row (first_row-misses _ (is_of source_id table) w.tables row f h.0)
            (first_row-holds _ w.tables row f)),
    )

    pub upsert_table-StoresOther :
        (t : DiscoveredTable)
        → t.source_id ≡ source_id
        → (w : World V) → Apart w
        → StoresOther (upsert_table env t w)
    unfolding upsert_table
    upsert_table-StoresOther t e w h =
        bind-cases StoresOther (statement env) _ (record w { calls = suc w.calls })
          (λ _ _.
            put_table-StoresOther t e w _ _
              (first_row (same_table t.source_id t.schema_name t.table_name) w.tables) refl h)
          (λ _ _. (h, λ id r. cc))
