-- ===== src/Digestion/Discovery/Status.antt =====
-- How Discover of discovery.go ends: the status of the source tells.
use mathlib.Core.Option.{map as map_option}
use manju_backend.Prelude.{
  ℕ, suc, ◌≡◌, refl, ◌∙◌, String, true, List, [], ◌∷◌, ◌⊎◌, inl, inr, Option, none, some,
  Bool-cases,
}
use manju_backend.Exec.{
  Error, Result, ok, err, wrap, Exec, ignore, ◌>>=◌, bind-cases, context-cases,
}
use manju_backend.Table.{first_row, any_row, update_rows}
use manju_backend.Table.Laws.{any_row-first_row}
use manju_backend.Digestion.{Uuid, Source, Env, World, DiscoveredTable}
use manju_backend.Digestion.Connector.{
  Connector, Driver, TableMeta, ColumnMeta, ForeignKeyMeta, new,
}
use manju_backend.Digestion.SourceStore.{
  get_source, update_source_status, update_source_connected, source_is, status_set, source_error,
  source_discovered,
}
use manju_backend.Digestion.SchemaStore.{upsert_table, put_table, same_table}
use manju_backend.Digestion.Sync.{opened, source_config}
use manju_backend.Digestion.Discovery.{
  discover_listed, TableIds, dotted, put_id, no_tables, table_to_store, report, discovered_columns,
  insert_columns, discover_table, discover_tables, discover_fk, discover_fks, replace_fks,
  discover_connected, discover,
}
use manju_backend.Digestion.Discovery.Keeps.{Keeps}
use manju_backend.Digestion.Discovery.Careful.{
  update_source_connected-IsCareful, discover_tables-IsCareful, replace_fks-IsCareful,
}

-- The status of a source and the message of its last error.
abbrev pub state_of : Source → String × String
state_of s = (s.status, s.last_error)

module _ {V : Type 0} (env : Env V) (source_id : Uuid) where
  -- A discovery that succeeded has left the source discovered; one that failed, in error with the
  -- message of what it wraps.
  abbrev pub Settles : Result (Unit {0}) × World V → Type 0
  Settles r =
      ((r.0 ≡ ok tt)
        × (map_option state_of (first_row (source_is source_id) r.1.sources)
            ≡ some (source_discovered, "")))
      ⊎ ((msg : String) × (e : Error) × (r.0 ≡ err (wrap msg e))
          × (map_option state_of (first_row (source_is source_id) r.1.sources)
              ≡ some (source_error, env.message e)))

  -- Without a fault, an update of the status is what the source then shows.
  status_shown :
      ((n : ℕ) → env.fault n ≡ none)
      → (status msg : String) (v : World V) → any_row (source_is source_id) v.sources ≡ true
      → map_option state_of (
          first_row
            (source_is source_id)
            (update_source_status env source_id status msg v).1.sources)
        ≡ some (status, msg)
  unfolding update_source_status status_set
  status_shown quiet status msg v here = rw (quiet v.calls) (shown v.sources here)
    where
      shown :
          (sources : List Source)
          → any_row (source_is source_id) sources ≡ true
          → map_option state_of (
              first_row (source_is source_id) (
                update_rows
                  (source_is source_id)
                  (status_set status msg (env.clock (suc v.calls)))
                  sources))
            ≡ some (status, msg)
      shown [] h = cc
      shown (s ∷ rest) h = elim (Bool-cases (source_is source_id s)) [
        | inl e ↦ rw e (rw e refl)
        | inr e ↦ rw e (rw e (shown rest (rw e at h)))
      ]

  abbrev IsOk : {A : Type 0} → Result A × World V → Type 0
  IsOk {A} r = (a : A) × (r.0 ≡ ok a)

  module _ (quiet : (n : ℕ) → env.fault n ≡ none) where
    upsert_table-IsOk : (t : DiscoveredTable) (w : World V) → IsOk (upsert_table env t w)
    unfolding upsert_table
    upsert_table-IsOk t w =
        rw (quiet (suc w.calls))
          (put (first_row (same_table t.source_id t.schema_name t.table_name) w.tables))
      where
        put :
            (found : Option DiscoveredTable)
            → IsOk (
                put_table
                  (env.fresh w.calls)
                  (env.clock (suc (suc w.calls)))
                  t
                  found
                  (record w { calls = suc (suc (suc w.calls)) }))
        put none = (_, refl)
        put (some row) = (_, refl)

    insert_columns-ok :
        (table_id : Uuid) (cols : List ColumnMeta) (w : World V)
        → (insert_columns env table_id cols w).0 ≡ ok tt
    unfolding insert_columns
    insert_columns-ok table_id [] w = refl
    insert_columns-ok table_id (c ∷ cols) w = insert_columns-ok table_id cols _

    discovered_columns-ok :
        (table_id : Uuid) (r : Result (List ColumnMeta)) (w : World V)
        → (discovered_columns env table_id r w).0 ≡ ok tt
    unfolding discovered_columns
    discovered_columns-ok table_id (err e) w = refl
    discovered_columns-ok table_id (ok cols) w = insert_columns-ok table_id cols w

    discover_table-IsOk :
        (conn : Connector V) (t : TableMeta) (w : World V)
        → IsOk (discover_table env conn source_id t w)
    unfolding discover_table
    discover_table-IsOk conn t w =
        context-cases IsOk (upsert_table env (table_to_store source_id t)) _ w _
          (λ id _.
            bind-cases IsOk (discovered_columns env id (conn.discover_columns t.schema t.name)) _ _
              (λ _ _. (_, refl))
              (λ e h. cc (h, discovered_columns-ok id (conn.discover_columns t.schema t.name) _)))
          (λ e h. cc (h, (upsert_table-IsOk (table_to_store source_id t) w).1))

    discover_tables-IsOk :
        (conn : Connector V) (tables : List TableMeta) (ids : TableIds) (w : World V)
        → IsOk (discover_tables env conn source_id tables ids w)
    unfolding discover_tables
    discover_tables-IsOk conn [] ids w = (_, refl)
    discover_tables-IsOk conn (t ∷ tables) ids w =
        bind-cases IsOk (discover_table env conn source_id t) _ w
          (λ id _. discover_tables-IsOk conn tables (put_id (dotted t.schema t.name) id ids) _)
          (λ e h. cc (h, (discover_table-IsOk conn t w).1))

    replace_fks-ok :
        (ids : TableIds) (r : Result (List ForeignKeyMeta)) (w : World V)
        → (replace_fks env source_id ids r w).0 ≡ ok tt
    unfolding replace_fks
    replace_fks-ok ids (err e) w = refl
    replace_fks-ok ids (ok fks) w = go fks _
      where
        one :
            (from : Option Uuid) (fk : ForeignKeyMeta) (v : World V)
            → (discover_fk env source_id ids from fk v).0 ≡ ok tt
        one none fk v = refl
        one (some id) fk v = refl

        go :
            (fks : List ForeignKeyMeta) (v : World V)
            → (discover_fks env source_id ids fks v).0 ≡ ok tt
        go [] v = refl
        go (fk ∷ fks) v =
            bind-cases (λ r. r.0 ≡ ok tt)
              (discover_fk env source_id ids (ids (dotted fk.from_schema fk.from_table)) fk) _ v
              (λ _ _. go fks _)
              (λ e h. cc (h, one (ids (dotted fk.from_schema fk.from_table)) fk v))

    report-Settles :
        {A : Type 0} (msg : String) (r : Result A) (f : A → Exec (World V) (Unit {0})) (v : World V)
        → any_row (source_is source_id) v.sources ≡ true
        → ((a : A) → r ≡ ok a → Settles (f a v))
        → Settles ((report env source_id msg r >>= f) v)
    unfolding report
    report-Settles msg (ok a) f v here good = good a refl
    report-Settles msg (err e) f v here good =
        inr (msg, e, refl, status_shown quiet source_error (env.message e) v here)

    -- The source is still there after a careful step.
    kept :
        (u x : World V)
        → Keeps source_id u x
        → any_row (source_is source_id) u.sources ≡ true
        → any_row (source_is source_id) x.sources ≡ true
    kept u x k h = k.present ∙ h

    discover_listed-Settles :
        (conn : Connector V) (tables : List TableMeta) (v : World V)
        → any_row (source_is source_id) v.sources ≡ true
        → Settles (discover_listed env conn source_id tables v)
    unfolding discover_listed
    discover_listed-Settles conn tables v here =
        bind-cases Settles (discover_tables env conn source_id tables no_tables) _ v
          (λ ids _.
            bind-cases Settles (replace_fks env source_id ids conn.discover_foreign_keys) _ _
              (λ _ _. inl (
                refl,
                status_shown quiet source_discovered "" _ (
                    kept _ _ (replace_fks-IsCareful env source_id ids conn.discover_foreign_keys _)
                      (kept _ _ (discover_tables-IsCareful env source_id conn tables no_tables v)
                        here)),
              ))
              (λ e h. cc (
                h,
                replace_fks-ok ids conn.discover_foreign_keys
                    (discover_tables env conn source_id tables no_tables v).1,
              )))
          (λ e h. cc (h, (discover_tables-IsOk conn tables no_tables v).1))

    discover_connected-Settles :
        (conn : Connector V) (v : World V)
        → any_row (source_is source_id) v.sources ≡ true
        → Settles (discover_connected env conn source_id v)
    unfolding discover_connected
    discover_connected-Settles conn v here =
        bind-cases Settles (ignore (update_source_connected env source_id))
          (λ _.
            report env source_id "discover tables" conn.discover_tables
            >>= discover_listed env conn source_id)
          v
          (λ _ _.
            report-Settles "discover tables" conn.discover_tables
              (discover_listed env conn source_id) _
              (kept _ _ (update_source_connected-IsCareful env source_id v) here)
              (λ tables _.
                discover_listed-Settles conn tables _
                  (kept _ _ (update_source_connected-IsCareful env source_id v) here)))
          (λ e h. cc)

module _ {V : Type 0} (env : Env V) (connect : Driver → Result (Connector V)) where
  -- If no statement fails, a discovery of a source that exists ends well with the source in the status
  -- "discovered" and no error, or it returns an error with the source in the status "error", with the
  -- message of the cause.
  pub discover-Settles :
      ((n : ℕ) → env.fault n ≡ none)
      → (source_id : Uuid) (src : Source) (w : World V)
      → first_row (source_is source_id) w.sources ≡ some src
      → Settles env source_id (discover env connect source_id w)
  unfolding discover get_source
  discover-Settles quiet source_id src w found =
      rw (quiet w.calls, found)
        (report-Settles env source_id quiet "connect to source"
          (opened connect (new env.quote (source_config src)))
          (λ conn. discover_connected env conn source_id) (record w { calls = suc w.calls })
          (any_row-first_row (source_is source_id) w.sources src found)
          (λ conn _.
            discover_connected-Settles env source_id quiet conn (record w { calls = suc w.calls })
              (any_row-first_row (source_is source_id) w.sources src found)))
