-- ===== src/Digestion/Engine.antt =====
-- core-services-sql-engine/internal/digestion/engine.go: the registration of sources.
pub mod Sources
mod Tests
use manju_backend.Prelude.{
  ℕ, suc, ◌≡◌, refl, ap, sym, ◌∙◌, ℤ, pos, negsuc, String, Bool, true, false, List, [], ◌∷◌, ◌++◌,
  Option, none, some, ◌==◌, arith, str_eq, eq_iff, if◌then◌else◌, Bool-cases, inl, inr, ◌≢◌,
}
use manju_backend.Exec.{Error, Result, ok, err, Exec, pure, context, ◌>>=◌, context-cases}
use manju_backend.Table.{first_row}
use manju_backend.Table.Laws.{first_row-append_new}
use manju_backend.Digestion.{Uuid, Source, Env, World}
use manju_backend.Digestion.SourceStore.{
  create_source, created_source, get_source, source_is, source_pending,
}

pub record RegisterSourceRequest : Type 0 where
  pub name : String
  pub description : String
  pub db_type : String
  pub host : String
  pub port : ℤ
  pub database_name : String
  pub username : String
  pub password : String
  pub ssl_mode : String
  pub sync_enabled : Bool
  pub sync_interval_seconds : ℤ
  pub sync_strategy : String

abbrev pub or_default : String → String → String
or_default default s = if str_eq s "" then default else s

abbrev pub interval_or_default : ℤ → ℤ
interval_or_default (pos n) = if n == 0 then pos 900 else pos n
interval_or_default (negsuc n) = negsuc n

-- The source with its defaults, before it is stored.
abbrev pub requested_source : RegisterSourceRequest → Source
requested_source req = record {
  id = 0;
  name = req.name;
  description = req.description;
  db_type = req.db_type;
  host = req.host;
  port = req.port;
  database_name = req.database_name;
  username = req.username;
  password = req.password;
  ssl_mode = or_default "disable" req.ssl_mode;
  sync_enabled = req.sync_enabled;
  sync_interval_seconds = interval_or_default req.sync_interval_seconds;
  sync_strategy = or_default "full" req.sync_strategy;
  status = "";
  last_error = "";
  last_connected = none;
  last_sync_at = none;
  created_at = 0;
  updated_at = 0;
}

abbrev pub is_zero : ℤ → Bool
is_zero (pos n) = n == 0
is_zero (negsuc n) = false

or_default-nonempty :
    (default s : String) → str_eq default "" ≡ false → str_eq (or_default default s) "" ≡ false
or_default-nonempty default s h = elim (Bool-cases (str_eq s "")) [
  | inl e ↦ rw e h
  | inr e ↦ rw e e
]

interval_or_default-nonzero : (seconds : ℤ) → is_zero (interval_or_default seconds) ≡ false
interval_or_default-nonzero (negsuc n) = refl
interval_or_default-nonzero (pos n) = elim (Bool-cases (n == 0)) [
  | inl e ↦ rw e refl
  | inr e ↦ rw e e
]

module _ {V : Type 0} (env : Env V) where
  -- The source that is returned has its new id, and not what the database set.
  unfoldable pub register_source : RegisterSourceRequest → Exec (World V) Source
  register_source req = do
    id ← context "register source" (create_source env (requested_source req))
    pure (record (requested_source req) { id = id })

  -- The same source as it is read back: it is pending, and no default is left open.
  pub record IsRegistered (src stored : Source) : Type 0 where
    pub id : stored.id ≡ src.id
    pub status : stored.status ≡ source_pending
    pub host : stored.host ≡ src.host
    pub interval : stored.sync_interval_seconds ≡ src.sync_interval_seconds
    pub paced : is_zero stored.sync_interval_seconds ≡ false
    pub ssl_mode : str_eq stored.ssl_mode "" ≡ false
    pub strategy : str_eq stored.sync_strategy "" ≡ false

  get_source-found :
      (id : Uuid) (v : World V) (source : Source)
      → env.fault v.calls ≡ none
      → first_row (source_is id) v.sources ≡ some source
      → (get_source env id v).0 ≡ ok source
  unfolding get_source
  get_source-found id v source up found = rw (up, found) refl

  registered_sources :
      (req : RegisterSourceRequest) (w : World V)
      → env.fault (suc w.calls) ≡ none
      → (register_source req w).1.sources
        ≡ w.sources
          ++ created_source
              (env.fresh w.calls)
              (env.clock (suc (suc w.calls)))
              (requested_source req)
            ∷ []
  unfolding register_source create_source
  registered_sources req w f = rw f refl

  -- A source that was registered under an unused id is found under that id, unless the database
  -- fails: it has the id, the host and the interval that were returned, is pending, and its
  -- interval, SSL mode and strategy are set.
  pub get_source-register_source :
      (req : RegisterSourceRequest) (w : World V) (src : Source)
      → first_row (source_is (env.fresh w.calls)) w.sources ≡ none
      → (register_source req w).0 ≡ ok src
      → env.fault (register_source req w).1.calls ≡ none
      → (stored : Source) × ((get_source env src.id (register_source req w).1).0 ≡ ok stored)
        × IsRegistered src stored
  unfolding register_source create_source get_source created_source
  get_source-register_source req w src free e up = go (env.fault (suc w.calls)) refl
    where
      registered :
          IsRegistered
            (record (requested_source req) { id = env.fresh w.calls })
            (created_source
              (env.fresh w.calls)
              (env.clock (suc (suc w.calls)))
              (requested_source req))
      registered = record {
        id = refl;
        status = refl;
        host = refl;
        interval = refl;
        paced = interval_or_default-nonzero req.sync_interval_seconds;
        ssl_mode = or_default-nonempty "disable" req.ssl_mode refl;
        strategy = or_default-nonempty "full" req.sync_strategy refl;
      }

      go :
          (o : Option Error)
          → env.fault (suc w.calls) ≡ o
          → (stored : Source) × ((get_source env src.id (register_source req w).1).0 ≡ ok stored)
            × IsRegistered src stored
      go (some x) f = cc (rw f at e)
      go none f =
          let same : record (requested_source req) { id = env.fresh w.calls } ≡ src =
            cc (rw f at e) in
          (
            created_source (env.fresh w.calls) (env.clock (suc (suc w.calls)))
                (requested_source req),
            ap (λ i. (get_source env i (register_source req w).1).0) (sym (ap (λ x. x.id) same))
                ∙ get_source-found (env.fresh w.calls) (register_source req w).1 _ up (
                    ap (first_row (source_is (env.fresh w.calls))) (registered_sources req w f)
                    ∙ first_row-append_new (source_is (env.fresh w.calls)) w.sources _ free
                        (unfold created_source in ground arith)),
            rw (← same) registered,
          )
