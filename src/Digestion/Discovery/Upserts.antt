-- ===== src/Digestion/Discovery/Upserts.antt =====
-- What UpsertTable keeps and finds of the tables of a listing, for discovery.go.
use manju_backend.Prelude.{
  ℕ, suc, ◌≡◌, refl, ap, ◌∙◌, String, Bool, true, false, List, [], ◌∷◌, inl, inr, Option, none,
  some, ◌&&◌, str_eq, eq_iff, arith, All, if◌then◌else◌, Bool-cases,
}
use manju_backend.Exec.{Result, ok, err, Exec, bind-cases}
use manju_backend.Table.{first_row}
use manju_backend.Table.Laws.{
  first_row-update_rows, first_row-append_miss, first_row-append_new, first_row-holds,
}
use manju_backend.Digestion.{
  Uuid, Env, World, DiscoveredTable, DiscoveredColumn, DiscoveredForeignKey,
}
use manju_backend.Digestion.RowStore.{statement}
use manju_backend.Digestion.Connector.{TableMeta, ColumnMeta, ForeignKeyMeta}
use manju_backend.Digestion.SourceStore.{update_source_status}
use manju_backend.Digestion.SchemaStore.{
  upsert_table, put_table, same_table, discovered_table, rediscovered, insert_column, insert_fk,
  delete_fks_for_source,
}
use manju_backend.Digestion.Discovery.{
  TableIds, dotted, table_to_store, column_to_store, fk_to_store, discovered_columns,
  insert_columns, discover_fk, discover_fks, replace_fks,
}

abbrev pub KeepsTables : {V A : Type 0} → Exec (World V) A → Type 0
KeepsTables {V} m = (w : World V) → (m w).1.tables ≡ w.tables

module _ {V : Type 0} (env : Env V) where
  pub update_source_status-KeepsTables :
      (id : Uuid) (status msg : String) → KeepsTables (update_source_status env id status msg)
  unfolding update_source_status
  update_source_status-KeepsTables id status msg w =
      bind-cases (λ r. r.1.tables ≡ w.tables) (statement env) _ w (λ _ _. refl) (λ _ _. refl)

  insert_column-KeepsTables : (c : DiscoveredColumn) → KeepsTables (insert_column env c)
  unfolding insert_column
  insert_column-KeepsTables c w =
      bind-cases (λ r. r.1.tables ≡ w.tables) (statement env) _ (record w { calls = suc w.calls })
        (λ _ _. refl) (λ _ _. refl)

  insert_fk-KeepsTables : (fk : DiscoveredForeignKey) → KeepsTables (insert_fk env fk)
  unfolding insert_fk
  insert_fk-KeepsTables fk w =
      bind-cases (λ r. r.1.tables ≡ w.tables) (statement env) _ (record w { calls = suc w.calls })
        (λ _ _. refl) (λ _ _. refl)

  delete_fks_for_source-KeepsTables : (id : Uuid) → KeepsTables (delete_fks_for_source env id)
  unfolding delete_fks_for_source
  delete_fks_for_source-KeepsTables id w =
      bind-cases (λ r. r.1.tables ≡ w.tables) (statement env) _ w (λ _ _. refl) (λ _ _. refl)

  pub discovered_columns-KeepsTables :
      (table_id : Uuid) (r : Result (List ColumnMeta))
      → KeepsTables (discovered_columns env table_id r)
  unfolding discovered_columns
  discovered_columns-KeepsTables table_id (err e) w = refl
  discovered_columns-KeepsTables table_id (ok cols) w = go cols w
    where
      go : (cols : List ColumnMeta) → KeepsTables (insert_columns env table_id cols)
      go [] w = refl
      go (c ∷ cols) w = go cols _ ∙ insert_column-KeepsTables (column_to_store table_id c) w

  pub replace_fks-KeepsTables :
      (source_id : Uuid) (ids : TableIds) (r : Result (List ForeignKeyMeta))
      → KeepsTables (replace_fks env source_id ids r)
  unfolding replace_fks
  replace_fks-KeepsTables source_id ids (err e) w = refl
  replace_fks-KeepsTables source_id ids (ok fks) w =
      go fks _ ∙ delete_fks_for_source-KeepsTables source_id w
    where
      one :
          (from : Option Uuid) (fk : ForeignKeyMeta)
          → KeepsTables (discover_fk env source_id ids from fk)
      one none fk v = refl
      one (some id) fk v =
          insert_fk-KeepsTables
            (fk_to_store source_id id (ids (dotted fk.to_schema fk.to_table)) fk) v

      go : (fks : List ForeignKeyMeta) → KeepsTables (discover_fks env source_id ids fks)
      go [] v = refl
      go (fk ∷ fks) v =
          bind-cases (λ r. r.1.tables ≡ v.tables)
            (discover_fk env source_id ids (ids (dotted fk.from_schema fk.from_table)) fk)
            (λ _. discover_fks env source_id ids fks) v
            (λ _ _. go fks _ ∙ one (ids (dotted fk.from_schema fk.from_table)) fk v)
            (λ _ _. one (ids (dotted fk.from_schema fk.from_table)) fk v)

module _ (source_id : Uuid) where
  -- The catalog has the table, as it was listed.
  pub record IsListed (t : TableMeta) (tables : List DiscoveredTable) : Type 0 where
    pub row : DiscoveredTable
    pub found : first_row (same_table source_id t.schema t.name) tables ≡ some row
    pub primary_keys : row.primary_key_columns ≡ t.primary_keys
    pub estimated_rows : row.estimated_row_count ≡ t.estimated_rows
    pub timestamp_column : row.timestamp_column ≡ t.timestamp_column

  -- The same table is not listed twice.
  abbrev pub same_name : TableMeta → TableMeta → Bool
  same_name t u = str_eq t.schema u.schema && str_eq t.name u.name

  abbrev pub AreDistinct : List TableMeta → Type 0
  AreDistinct [] = Unit
  AreDistinct (t ∷ tables) = All (λ u. same_name t u ≡ false) tables × AreDistinct tables

  put_table-IsListed :
      {V : Type 0} (t : TableMeta) (id time : ℕ) (w : World V) (found : Option DiscoveredTable)
      → first_row (same_table source_id t.schema t.name) w.tables ≡ found
      → IsListed t (put_table id time (table_to_store source_id t) found w).1.tables
  unfolding discovered_table rediscovered table_to_store
  put_table-IsListed t id time w none e = record {
    row = _;
    found =
        first_row-append_new (same_table source_id t.schema t.name) w.tables _ e
          (ground (arith, eq_iff t.schema t.schema, eq_iff t.name t.name));
    primary_keys = refl;
    estimated_rows = refl;
    timestamp_column = refl;
  }
  put_table-IsListed t id time w (some row) e = record {
    row = rediscovered time (table_to_store source_id t) row;
    found =
        first_row-update_rows (same_table source_id t.schema t.name)
          (same_table source_id t.schema t.name) (rediscovered time (table_to_store source_id t))
          (λ x. refl) w.tables row e
        ∙ rw (first_row-holds (same_table source_id t.schema t.name) w.tables row e) refl;
    primary_keys = refl;
    estimated_rows = refl;
    timestamp_column = refl;
  }

  -- A row under another name is not the one of `t`.
  other_name :
      (t u : TableMeta)
      → same_name t u ≡ false
      → (row : DiscoveredTable) → same_table source_id u.schema u.name row ≡ true
      → same_table source_id t.schema t.name row ≡ false
  other_name t u h row e = ground (
    arith,
    eq_iff t.schema u.schema,
    eq_iff t.name u.name,
    eq_iff row.schema_name u.schema,
    eq_iff row.table_name u.name,
    eq_iff row.schema_name t.schema,
    eq_iff row.table_name t.name,
  )

  put_other-IsListed :
      {V : Type 0} (t u : TableMeta)
      → same_name t u ≡ false
      → (id time : ℕ) (w : World V) (found : Option DiscoveredTable) → IsListed t w.tables
      → IsListed t (put_table id time (table_to_store source_id u) found w).1.tables
  unfolding discovered_table table_to_store
  put_other-IsListed t u h id time w none l = record {
    row = l.row;
    found =
        first_row-append_miss (same_table source_id t.schema t.name) w.tables _ (
          other_name t u h (discovered_table id time (table_to_store source_id u))
            (ground (arith, eq_iff u.schema u.schema, eq_iff u.name u.name)))
        ∙ l.found;
    primary_keys = l.primary_keys;
    estimated_rows = l.estimated_rows;
    timestamp_column = l.timestamp_column;
  }
  put_other-IsListed t u h id time w (some row) l = record {
    row = l.row;
    found =
        first_row-update_rows (same_table source_id t.schema t.name)
          (same_table source_id u.schema u.name) (rediscovered time (table_to_store source_id u))
          (λ x. unfold rediscovered in refl) w.tables l.row l.found
        ∙ ap (λ b. some (if b then rediscovered time (table_to_store source_id u) l.row else l.row))
            miss;
    primary_keys = l.primary_keys;
    estimated_rows = l.estimated_rows;
    timestamp_column = l.timestamp_column;
  }
    where
      this : same_table source_id t.schema t.name l.row ≡ true
      this = first_row-holds (same_table source_id t.schema t.name) w.tables l.row l.found

      miss : same_table source_id u.schema u.name l.row ≡ false
      miss = elim (Bool-cases (same_table source_id u.schema u.name l.row)) [
        | inl e ↦ cc (this, other_name t u h l.row e)
        | inr e ↦ e
      ]

module _ {V : Type 0} (env : Env V) (source_id : Uuid) where
  pub upsert_table-IsListed :
      (t : TableMeta) (w : World V) (id : Uuid)
      → (upsert_table env (table_to_store source_id t) w).0 ≡ ok id
      → IsListed source_id t (upsert_table env (table_to_store source_id t) w).1.tables
  unfolding upsert_table table_to_store
  upsert_table-IsListed t w id =
      bind-cases (λ r. r.0 ≡ ok id → IsListed source_id t r.1.tables) (statement env) _
        (record w { calls = suc w.calls })
        (λ _ _ _. put_table-IsListed source_id t (env.fresh w.calls) _ _ _ refl) (λ e _ h. cc)

  pub upsert_other-IsListed :
      (t u : TableMeta)
      → same_name source_id t u ≡ false
      → (w : World V) → IsListed source_id t w.tables
      → IsListed source_id t (upsert_table env (table_to_store source_id u) w).1.tables
  unfolding upsert_table table_to_store
  upsert_other-IsListed t u h w l =
      bind-cases (λ r. IsListed source_id t r.1.tables) (statement env) _
        (record w { calls = suc w.calls })
        (λ _ _. put_other-IsListed source_id t u h (env.fresh w.calls) _ _ _ l) (λ e _. l)
