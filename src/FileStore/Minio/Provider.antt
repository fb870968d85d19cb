-- ===== src/FileStore/Minio/Provider.antt =====
-- core-services-object-store/pkg/filestore/minio.go: the provider keeps what backend.go says of a
-- StorageBackend, if the S3 store does what its documentation says.
use manju_backend.Prelude.{
  ◌≡◌, refl, sym, ap, subst, ◌∙◌, String, Bool, true, false, str_eq, if◌then◌else◌, ◌⧺◌,
}
use manju_backend.Exec.{
  Error, not_found, wrap, is_not_found, Result, ok, err, wrap_result, context-cases,
}
use manju_backend.FileStore.{ObjectInfo, StorageBackend}
use manju_backend.FileStore.Store.Content.{Stores}
use manju_backend.FileStore.Minio.{
  MinioConfig, Client, MinioBackend, owned_or_error, create_unless, stat_result, ensure_bucket,
  bucket_exists, upload, download, stat, as_backend, backend_of, new_minio_backend,
}
use manju_backend.FileStore.Minio.Promises.{IsS3, IsProvider}

module _ {B : Type 0} (HasBucket : String → B → Type 0)
    (HasObject Answers : String → String → B → Type 0) where
  module _ (m : MinioBackend B) (h : IsS3 HasBucket HasObject Answers m.client) where
    owned_case :
        (bucket msg : String) (s : B) (x : Error) (b : Bool)
        → (m.client.make_bucket bucket m.region s).0 ≡ err x
        → str_eq (m.client.error_code x) "BucketAlreadyOwnedByYou" ≡ b
        → (if◌then◌else◌ {A = Result (Unit {0})} b (ok tt) (err (wrap msg x))) ≡ ok tt
        → HasBucket bucket (m.client.make_bucket bucket m.region s).1
    owned_case bucket msg s x true e t k = h.owned bucket m.region s x e t
    owned_case bucket msg s x false e t k = absurd cc

    created :
        (bucket : String) (s : B) (r : Result (Unit {0}))
        → (m.client.make_bucket bucket m.region s).0 ≡ r
        → owned_or_error m bucket r ≡ ok tt
        → HasBucket bucket (m.client.make_bucket bucket m.region s).1
    created bucket s (ok u) e k = h.made bucket m.region s e
    created bucket s (err x) e k =
        owned_case bucket ("minio: create bucket " ⧺ m.client.quote bucket) s x
          (str_eq (m.client.error_code x) "BucketAlreadyOwnedByYou") e refl k

    created_unless :
        (bucket : String) (s : B) (b : Bool)
        → (m.client.has_bucket bucket s).0 ≡ ok b
        → (create_unless m bucket b (m.client.has_bucket bucket s).1).0 ≡ ok tt
        → HasBucket bucket (create_unless m bucket b (m.client.has_bucket bucket s).1).1
    created_unless bucket s true e k =
        subst (HasBucket bucket) (sym (h.looked bucket s)) (h.told bucket s e)
    created_unless bucket s false e k =
        created bucket (m.client.has_bucket bucket s).1
          (m.client.make_bucket bucket m.region (m.client.has_bucket bucket s).1).0 refl k

    ensure_bucket-HasBucket :
        (bucket : String) (s : B)
        → (ensure_bucket m bucket s).0 ≡ ok tt
        → HasBucket bucket (ensure_bucket m bucket s).1
    unfolding ensure_bucket
    ensure_bucket-HasBucket bucket s =
        context-cases (λ r. r.0 ≡ ok tt → HasBucket bucket r.1) (m.client.has_bucket bucket)
          (create_unless m bucket) s ("minio: check bucket " ⧺ m.client.quote bucket)
          (λ b e k. created_unless bucket s b e k) (λ x e k. cc)

    was_ok :
        {A : Type 0} (msg : String) (r : Result A) (a : A) → wrap_result msg r ≡ ok a → r ≡ ok a
    was_ok msg (ok x) a e = e
    was_ok msg (err x) a e = cc

    ensure_bucket-bucket_exists :
        (bucket : String) (s : B)
        → (bucket_exists m bucket s).0 ≡ ok true
        → ensure_bucket m bucket s ≡ (ok tt, s)
    unfolding ensure_bucket bucket_exists
    ensure_bucket-bucket_exists bucket s e =
        let told = was_ok _ (m.client.has_bucket bucket s).0 true e in
        rw told (ap (λ s'. (ok tt, s')) (h.looked bucket s))

    never_ok :
        (b : Bool) (x y : Error) (info : ObjectInfo) → (if b then err x else err y) ≡ ok info → ⊥
    never_ok true x y info k = cc
    never_ok false x y info k = cc

    stat-found :
        (bucket key msg : String) (s : B) (info : ObjectInfo) (r : Result ObjectInfo)
        → (m.client.stat_object bucket key s).0 ≡ r
        → stat_result m msg r ≡ ok info
        → HasObject bucket key s
    stat-found bucket key msg s info (ok found) e k = h.found bucket key s found e
    stat-found bucket key msg s info (err x) e k = absurd (
        never_ok (str_eq (m.client.error_code x) "NoSuchKey") (wrap msg not_found) (wrap msg x) info
          k)

    abbrev says_missing : Result ObjectInfo → Bool
    says_missing (ok info) = false
    says_missing (err e) = is_not_found e

    missing_case :
        (bucket key msg : String) (s : B) (y : Error) (b : Bool)
        → (m.client.stat_object bucket key s).0 ≡ err y
        → str_eq (m.client.error_code y) "NoSuchKey" ≡ b
        → says_missing (if b then err (wrap msg not_found) else err (wrap msg y)) ≡ true
        → ¬ HasObject bucket key s
    missing_case bucket key msg s y true e t k = h.missing bucket key s y e t
    missing_case bucket key msg s y false e t k = let no = h.foreign bucket key s y e in absurd cc

    stat-missing :
        (bucket key msg : String) (s : B) (x : Error) (r : Result ObjectInfo)
        → (m.client.stat_object bucket key s).0 ≡ r
        → stat_result m msg r ≡ err x
        → is_not_found x ≡ true
        → ¬ HasObject bucket key s
    stat-missing bucket key msg s x (ok found) e k t = absurd cc
    stat-missing bucket key msg s x (err y) e k t =
        missing_case bucket key msg s y (str_eq (m.client.error_code y) "NoSuchKey") e refl
          (ap says_missing k ∙ t)

    stat-absent :
        (bucket key msg : String) (s : B)
        → Answers bucket key s
        → ¬ HasObject bucket key s
        → (e : Error) × (stat_result m msg (m.client.stat_object bucket key s).0 ≡ err e)
          × (is_not_found e ≡ true)
    stat-absent bucket key msg s a n =
        let (e, said, coded) = h.absent bucket key s a n in
        (wrap msg not_found, rw said (rw coded refl), refl)

    upload-Stores : Stores (as_backend m)
    unfolding as_backend upload download stat
    upload-Stores = record {
      reads = λ bucket key reader size content_type s read whole e.
          h.put_reads bucket key reader size content_type s read whole (was_ok _ _ read e);
      keeps = λ bucket key reader size content_type s read e.
          ap (wrap_result _)
            (h.put_keeps bucket key reader size content_type s read (was_ok _ _ read e));
      steady = λ bucket key s.
          ap (λ t. wrap_result _ (m.client.get_object bucket key t).0) (h.stat_looks bucket key s);
    }

    as_backend-IsProvider : IsProvider HasBucket HasObject Answers (as_backend m)
    unfolding as_backend stat
    as_backend-IsProvider = record {
      ensured = λ bucket s e. ensure_bucket-HasBucket bucket s e;
      no_op = λ bucket s e. ensure_bucket-bucket_exists bucket s e;
      stat_found = λ bucket key s info e.
          stat-found bucket key ("minio: stat " ⧺ bucket ⧺ "/" ⧺ key) s info
            (m.client.stat_object bucket key s).0 refl e;
      stat_missing = λ bucket key s x e t.
          stat-missing bucket key ("minio: stat " ⧺ bucket ⧺ "/" ⧺ key) s x
            (m.client.stat_object bucket key s).0 refl e t;
      stores = upload-Stores;
      stat_absent =
          λ bucket key s a n. stat-absent bucket key ("minio: stat " ⧺ bucket ⧺ "/" ⧺ key) s a n;
    }

  abbrev Provides : Result (StorageBackend B) → Type 0
  Provides (ok b) = IsProvider HasBucket HasObject Answers b
  Provides (err e) = Unit

  Provides-backend_of :
      (new_client : MinioConfig → Result (Client B)) (cfg : MinioConfig) (r : Result (Client B))
      → ((c : Client B) → r ≡ ok c → IsS3 HasBucket HasObject Answers c)
      → Provides (backend_of new_client cfg r)
  Provides-backend_of new_client cfg (ok c) h = as_backend-IsProvider _ (h c refl)
  Provides-backend_of new_client cfg (err x) h = tt

  -- If the S3 store behind a new client does what S3 documents, then the provider keeps what
  -- backend.go says: after an EnsureBucket without error the bucket exists, also when another call
  -- created it in between, and on a bucket that exists it changes nothing; Stat finds only objects
  -- that exist, and says ErrNotFound of one that does not exist if the store answers, and of no
  -- other; a download gives the bytes that were uploaded at its place.
  pub new_minio_backend-IsProvider :
      (new_client : MinioConfig → Result (Client B)) (cfg : MinioConfig) (b : StorageBackend B)
      → ((c : Client B) → new_client cfg ≡ ok c → IsS3 HasBucket HasObject Answers c)
      → new_minio_backend new_client cfg ≡ ok b
      → IsProvider HasBucket HasObject Answers b
  unfolding new_minio_backend
  new_minio_backend-IsProvider new_client cfg b h e =
      subst Provides e (Provides-backend_of new_client cfg (new_client cfg) h)
