-- ===== src/Digestion/Sync/Live.antt =====
-- Which rows of a source table are live in ingested_rows after runFullSync of sync.go, and with
-- which hash.
use manju_backend.Prelude.{
  ℕ, ◌≤◌, ◌<◌, ◌≡◌, refl, ap, sym, ◌∙◌, String, Bool, true, false, not, ◌&&◌, ◌||◌, List, [], ◌∷◌,
  Option, none, some, arith, ltb, str_eq, eq_iff, if◌then◌else◌, All, lt→ltb, ltb→lt, Bool-cases,
  inl, inr,
}
use manju_backend.Exec.{ok}
use manju_backend.Digestion.{Uuid, Row, DiscoveredTable, SyncJob, Env, World}
use manju_backend.Digestion.Changes.{compute_hash, build_row_key}
use manju_backend.Digestion.Connector.{Stream}
use manju_backend.Digestion.Sync.{sync_stream}
use manju_backend.Digestion.Sync.Mirror.{Mark, mark_at, streamed, expired, dead_after}
use manju_backend.Digestion.Sync.Deletions.{sync_stream-marks}

-- The hash of a row that is there and not deleted.
unfoldable pub live_hash : Option Mark → Option String
live_hash none = none
live_hash (some m) = if m.dead then none else some m.hash

module _ {V : Type 0} (env : Env V) (columns : List String) (k : String) where
  -- The hash of the last row of a stream at a key, if there is one.
  unfoldable pub last_hash : List (Row V) → Option String → Option String
  last_hash [] found = found
  last_hash (row ∷ rest) found =
      last_hash rest
        (if str_eq k (build_row_key env row columns) then some (compute_hash env row) else found)

  -- The rows of a stream at a key differ from the tombstone there, if there is one.
  unfoldable pub Differs : List (Row V) → Option Mark → Type 0
  Differs rows none = Unit {0}
  Differs rows (some m) =
      m.dead ≡ true
      → All
          (λ row.
            (str_eq k (build_row_key env row columns) && str_eq m.hash (compute_hash env row))
            ≡ false)
          rows

  -- No row of a stream is at a key.
  unfoldable pub IsAbsent : List (Row V) → Type 0
  IsAbsent = All (λ row. str_eq k (build_row_key env row columns) ≡ false)

  -- The rows of a stream at a key all have this hash.
  unfoldable pub HasHash : String → List (Row V) → Type 0
  HasHash hash =
      All (λ row. str_eq k (build_row_key env row columns) ≡ true → compute_hash env row ≡ hash)

module _ {V : Type 0} (env : Env V) (columns : List String) (version : ℕ) (k : String) where
  -- Once a row of the stream was seen, the mark is alive with the last hash.
  streamed-seen :
      (rows : List (Row V)) (hash : String) (dead : Bool)
      → dead ≡ false
      → live_hash (
          expired version (
            streamed env columns version k rows
              (some (record { hash = hash; seen = version; dead = dead }))))
        ≡ last_hash env columns k rows (some hash)
  unfolding streamed last_hash live_hash
  streamed-seen [] hash dead e = rw (e, not_less) refl
    where
      not_less : ltb version version ≡ false
      not_less = ground arith
  streamed-seen (row ∷ rest) hash dead e =
      elim (Bool-cases (str_eq k (build_row_key env row columns))) [
        | inl h ↦ rw h (
            streamed-seen rest (compute_hash env row) _
              (alive (str_eq hash (compute_hash env row))))
        | inr h ↦ rw h (streamed-seen rest hash dead e)
      ]
    where
      alive : (b : Bool) → (if not b then false else dead) ≡ false
      alive true = e
      alive false = refl

  -- An upsert at a key whose tombstone, if any, has another hash.
  revived :
      (row : Row V) (rest : List (Row V)) (before : Option Mark)
      → str_eq k (build_row_key env row columns) ≡ true
      → Differs env columns k (row ∷ rest) before
      → dead_after (compute_hash env row) before ≡ false
  unfolding Differs
  revived row rest none e d = refl
  revived row rest (some m) e d = go m.dead refl
    where
      go : (b : Bool) → m.dead ≡ b → dead_after (compute_hash env row) (some m) ≡ false
      go true h = rw other refl
        where
          other : str_eq m.hash (compute_hash env row) ≡ false
          other = ground (arith, (d h).0)
      go false h = rw h (same (str_eq m.hash (compute_hash env row)))
        where
          same : (c : Bool) → (if not c then false else false) ≡ false
          same true = refl
          same false = refl

  Differs-rest :
      (row : Row V) (rest : List (Row V)) (before : Option Mark)
      → Differs env columns k (row ∷ rest) before
      → Differs env columns k rest before
  unfolding Differs
  Differs-rest row rest none d = tt
  Differs-rest row rest (some m) d = λ h. (d h).1

  streamed-live :
      (rows : List (Row V)) (before : Option Mark)
      → ((m : Mark) → before ≡ some m → m.seen < version)
      → Differs env columns k rows before
      → live_hash (expired version (streamed env columns version k rows before))
        ≡ last_hash env columns k rows none
  unfolding streamed last_hash live_hash
  streamed-live [] none older d = refl
  streamed-live [] (some m) older d = rw (lt→ltb _ _ (older m refl)) (go m.dead)
    where
      go : (b : Bool) → (if b || true then none else some m.hash) ≡ none
      go true = refl
      go false = refl
  streamed-live (row ∷ rest) before older d =
      elim (Bool-cases (str_eq k (build_row_key env row columns))) [
        | inl h ↦ rw h (streamed-seen rest _ _ (revived row rest before h d))
        | inr h ↦ rw h (streamed-live rest before older (Differs-rest row rest before d))
      ]

  streamed-dead :
      (hash : String) (rows : List (Row V)) (m : Mark)
      → m.hash ≡ hash
      → m.dead ≡ true
      → HasHash env columns k hash rows
      → live_hash (expired version (streamed env columns version k rows (some m))) ≡ none
  unfolding streamed live_hash HasHash
  streamed-dead hash [] m same dead h = rw dead refl
  streamed-dead hash (row ∷ rest) m same dead h =
      elim (Bool-cases (str_eq k (build_row_key env row columns))) [
        | inl e ↦ rw e (streamed-dead hash rest _ (h.0 e) (kept (h.0 e)) h.1)
        | inr e ↦ rw e (streamed-dead hash rest m same dead h.1)
      ]
    where
      kept : compute_hash env row ≡ hash → dead_after (compute_hash env row) (some m) ≡ true
      kept e = rw ((eq_iff m.hash (compute_hash env row)).1 (same ∙ sym e)) dead

  streamed-absent :
      (rows : List (Row V)) (before : Option Mark)
      → IsAbsent env columns k rows
      → streamed env columns version k rows before ≡ before
  unfolding streamed IsAbsent
  streamed-absent [] before h = refl
  streamed-absent (row ∷ rest) before h = rw h.0 (streamed-absent rest before h.1)

module _ {V : Type 0} (env : Env V) (table : DiscoveredTable) (job_id : Uuid) (version : ℕ) where
  abbrev columns_of : List String
  columns_of = table.primary_key_columns

  -- A sync that succeeds mirrors the source at a key: the live hash there is the hash of the last
  -- row of the stream with that key, and there is none if no row has it. The conditions: the row
  -- that was there was last seen before this sync's version, and, if it was deleted, no row of the
  -- stream with that key has its hash.
  pub sync_stream-live :
      (stream : Stream V) (stats : SyncJob) (w v : World V) (k : String)
      → ((m : Mark) → mark_at table.id k w ≡ some m → m.seen < version)
      → Differs env columns_of k stream.rows (mark_at table.id k w)
      → sync_stream env table job_id version stream w ≡ (ok stats, v)
      → live_hash (mark_at table.id k v) ≡ last_hash env columns_of k stream.rows none
  sync_stream-live stream stats w v k older differs e =
      ap live_hash ((sync_stream-marks env table job_id version stream stats w v e).here k)
      ∙ streamed-live env columns_of version k stream.rows _ older differs

  -- A row that is marked deleted and comes back with the contents it had stays deleted: after a
  -- sync that succeeds there is no live hash at its key, if every row of the stream with that key
  -- has the hash of the tombstone.
  pub sync_stream-stays_deleted :
      (stream : Stream V) (stats : SyncJob) (w v : World V) (k : String) (m : Mark)
      → mark_at table.id k w ≡ some m
      → m.dead ≡ true
      → HasHash env columns_of k m.hash stream.rows
      → sync_stream env table job_id version stream w ≡ (ok stats, v)
      → live_hash (mark_at table.id k v) ≡ none
  sync_stream-stays_deleted stream stats w v k m found dead same e =
      ap live_hash (
        (sync_stream-marks env table job_id version stream stats w v e).here k
        ∙ ap (λ before. expired version (streamed env columns_of version k stream.rows before))
            found)
      ∙ streamed-dead env columns_of version k m.hash stream.rows m refl dead same

  -- A row that was last seen at the version of the sync or later, as when two syncs fall in one
  -- second, and that the stream does not have is not marked deleted: its mark is as it was.
  pub sync_stream-same_version :
      (stream : Stream V) (stats : SyncJob) (w v : World V) (k : String) (m : Mark)
      → mark_at table.id k w ≡ some m
      → version ≤ m.seen
      → IsAbsent env columns_of k stream.rows
      → sync_stream env table job_id version stream w ≡ (ok stats, v)
      → mark_at table.id k v ≡ some m
  sync_stream-same_version stream stats w v k m found seen absent e =
      (sync_stream-marks env table job_id version stream stats w v e).here k
      ∙ ap (expired version) (streamed-absent env columns_of version k stream.rows _ absent ∙ found)
      ∙ kept m.dead (ltb m.seen version) not_older
    where
      not_older : ltb m.seen version ≡ false
      not_older = ground (arith, ltb→lt m.seen version)

      kept :
          (dead older : Bool)
          → older ≡ false
          → ◌≡◌ {A = Option Mark}
              (some (record m { dead = dead || older }))
              (some (record m { dead = dead }))
      kept true older h = refl
      kept false older h = rw h refl
