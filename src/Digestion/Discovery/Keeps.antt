-- ===== src/Digestion/Discovery/Keeps.antt =====
-- What a discovery may write of discovery.go: a relation on worlds, and the rules for it.
use mathlib.Core.List.{append_assoc, append-nil}
use manju_backend.Prelude.{
  arith, ℕ, ◌≡◌, refl, sym, ap, ◌∙◌, String, false, not, List, [], ◌++◌, map, ◌==◌,
}
use manju_backend.Exec.{Exec, context, ◌>>=◌, bind-cases, context-cases}
use manju_backend.Digestion.SourceStore.{source_is}
use manju_backend.Table.Laws.{where_rows-update_rows, any_row-update_rows}
use manju_backend.Table.{update_rows, any_row, where_rows}
use manju_backend.Digestion.{
  Uuid, Source, DiscoveredTable, DiscoveredColumn, DiscoveredForeignKey, World,
}

-- A table less what a discovery may change: its id, its name, its setting and the history of its
-- syncs are left.
abbrev pub settled : DiscoveredTable → DiscoveredTable
settled t = record t {
  estimated_row_count = 0;
  primary_key_columns = [];
  timestamp_column = "";
  updated_at = 0;
}

-- A column less what a discovery may change.
abbrev pub named : DiscoveredColumn → DiscoveredColumn
named c = record c {
  ordinal_position = 0;
  data_type = "";
  mapped_type = "";
  is_nullable = false;
  is_primary_key = false;
  semantic_type = "";
}

-- `after` has all of `before`, in its order, and perhaps more behind it.
abbrev pub Extends {ℓ} : {A : Type ℓ} → List A → List A → Type ℓ
Extends {A} before after = (added : List A) × (after ≡ before ++ added)

module _ {ℓ} {A : Type ℓ} where
  pub Extends-refl : (xs : List A) → Extends xs xs
  Extends-refl xs = ([], sym (append-nil xs))

  pub Extends-trans : (xs ys zs : List A) → Extends xs ys → Extends ys zs → Extends xs zs
  Extends-trans xs ys zs (a, p) (b, q) = (a ++ b, q ∙ ap (λ t. t ++ b) p ∙ append_assoc xs a b)

module _ {V : Type 0} (source_id : Uuid) where
  -- What a discovery of a source keeps: the ingested data and its history, every table and every
  -- column with its id and settings, and all that belongs to other sources; the source itself stays.
  pub record Keeps (before after : World V) : Type 0 where
    pub rows : after.rows ≡ before.rows
    pub changes : after.changes ≡ before.changes
    pub snapshots : after.snapshots ≡ before.snapshots
    pub jobs : after.jobs ≡ before.jobs
    pub tables : Extends (map settled before.tables) (map settled after.tables)
    pub columns : Extends (map named before.columns) (map named after.columns)
    pub present :
        any_row (source_is source_id) after.sources ≡ any_row (source_is source_id) before.sources
    pub other_sources :
        where_rows (λ s. not (s.id == source_id)) after.sources
        ≡ where_rows (λ s. not (s.id == source_id)) before.sources
    pub other_tables :
        where_rows (λ t. not (t.source_id == source_id)) after.tables
        ≡ where_rows (λ t. not (t.source_id == source_id)) before.tables
    pub other_keys :
        where_rows (λ fk. not (fk.source_id == source_id)) after.foreign_keys
        ≡ where_rows (λ fk. not (fk.source_id == source_id)) before.foreign_keys

  pub Keeps-refl : (w : World V) → Keeps w w
  Keeps-refl w = record {
    rows = refl;
    changes = refl;
    snapshots = refl;
    jobs = refl;
    tables = Extends-refl _;
    columns = Extends-refl _;
    present = refl;
    other_sources = refl;
    other_tables = refl;
    other_keys = refl;
  }

  pub Keeps-trans : (u v w : World V) → Keeps u v → Keeps v w → Keeps u w
  Keeps-trans u v w a b = record {
    rows = b.rows ∙ a.rows;
    changes = b.changes ∙ a.changes;
    snapshots = b.snapshots ∙ a.snapshots;
    jobs = b.jobs ∙ a.jobs;
    tables = Extends-trans _ _ _ a.tables b.tables;
    columns = Extends-trans _ _ _ a.columns b.columns;
    present = b.present ∙ a.present;
    other_sources = b.other_sources ∙ a.other_sources;
    other_tables = b.other_tables ∙ a.other_tables;
    other_keys = b.other_keys ∙ a.other_keys;
  }

  abbrev pub IsCareful : {A : Type 0} → Exec (World V) A → Type 0
  IsCareful m = (w : World V) → Keeps w (m w).1

  module _ {A B : Type 0} (m : Exec (World V) A) (f : A → Exec (World V) B) where
    pub IsCareful-bind : IsCareful m → ((a : A) → IsCareful (f a)) → IsCareful (m >>= f)
    IsCareful-bind cm cf w =
        bind-cases (λ r. Keeps w r.1) m f w (λ a _. Keeps-trans w _ _ (cm w) (cf a _)) (λ _ _. cm w)

    pub IsCareful-context :
        (msg : String) → IsCareful m → ((a : A) → IsCareful (f a)) → IsCareful (context msg m >>= f)
    IsCareful-context msg cm cf w =
        context-cases (λ r. Keeps w r.1) m f w msg (λ a _. Keeps-trans w _ _ (cm w) (cf a _))
          (λ _ _. cm w)

  -- A step that writes one table.
  pub keep_calls : (w : World V) (n : ℕ) → Keeps w (record w { calls = n })
  keep_calls w n = record {
    rows = refl;
    changes = refl;
    snapshots = refl;
    jobs = refl;
    tables = Extends-refl _;
    columns = Extends-refl _;
    present = refl;
    other_sources = refl;
    other_tables = refl;
    other_keys = refl;
  }

  pub keep_sources :
      (w : World V) (n : ℕ) (sources : List Source)
      → where_rows (λ s. not (s.id == source_id)) sources
        ≡ where_rows (λ s. not (s.id == source_id)) w.sources
      → any_row (source_is source_id) sources ≡ any_row (source_is source_id) w.sources
      → Keeps w (record w { sources = sources; calls = n })
  keep_sources w n sources h p = record {
    rows = refl;
    changes = refl;
    snapshots = refl;
    jobs = refl;
    tables = Extends-refl _;
    columns = Extends-refl _;
    present = p;
    other_sources = h;
    other_tables = refl;
    other_keys = refl;
  }

  -- The row of the source itself.
  pub keep_own :
      (w : World V) (n : ℕ) (f : Source → Source)
      → ((s : Source) → (f s).id ≡ s.id)
      → Keeps w (record w { sources = update_rows (source_is source_id) f w.sources; calls = n })
  keep_own w n f same =
      keep_sources w n (update_rows (source_is source_id) f w.sources)
        (where_rows-update_rows (λ (s : Source). not (s.id == source_id)) (source_is source_id) f
          (λ x h. (ground arith, ground (arith, same x))) w.sources)
        (any_row-update_rows (source_is source_id) (source_is source_id) f
          (λ x. ap (λ i. i == source_id) (same x)) w.sources)

  pub keep_tables :
      (w : World V) (n : ℕ) (tables : List DiscoveredTable)
      → Extends (map settled w.tables) (map settled tables)
      → where_rows (λ t. not (t.source_id == source_id)) tables
        ≡ where_rows (λ t. not (t.source_id == source_id)) w.tables
      → Keeps w (record w { tables = tables; calls = n })
  keep_tables w n tables e h = record {
    rows = refl;
    changes = refl;
    snapshots = refl;
    jobs = refl;
    tables = e;
    columns = Extends-refl _;
    present = refl;
    other_sources = refl;
    other_tables = h;
    other_keys = refl;
  }

  pub keep_columns :
      (w : World V) (n : ℕ) (columns : List DiscoveredColumn)
      → Extends (map named w.columns) (map named columns)
      → Keeps w (record w { columns = columns; calls = n })
  keep_columns w n columns e = record {
    rows = refl;
    changes = refl;
    snapshots = refl;
    jobs = refl;
    tables = Extends-refl _;
    columns = e;
    present = refl;
    other_sources = refl;
    other_tables = refl;
    other_keys = refl;
  }

  pub keep_keys :
      (w : World V) (n : ℕ) (fks : List DiscoveredForeignKey)
      → where_rows (λ fk. not (fk.source_id == source_id)) fks
        ≡ where_rows (λ fk. not (fk.source_id == source_id)) w.foreign_keys
      → Keeps w (record w { foreign_keys = fks; calls = n })
  keep_keys w n fks h = record {
    rows = refl;
    changes = refl;
    snapshots = refl;
    jobs = refl;
    tables = Extends-refl _;
    columns = Extends-refl _;
    present = refl;
    other_sources = refl;
    other_tables = refl;
    other_keys = h;
  }
