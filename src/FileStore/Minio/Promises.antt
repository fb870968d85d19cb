-- ===== src/FileStore/Minio/Promises.antt =====
-- core-services-object-store/pkg/filestore/minio.go: what S3 documents, and what backend.go promises
-- of a provider.
use manju_backend.Prelude.{ℤ, ◌≡◌, String, true, false, str_eq}
use manju_backend.Exec.{Error, is_not_found, ok, err}
use manju_backend.FileStore.{Bytes, ObjectInfo, StorageBackend}
use manju_backend.FileStore.Store.Content.{IsWhole, Stores}
use manju_backend.FileStore.Minio.{Client}

module _ {B : Type 0} (HasBucket : String → B → Type 0)
    (HasObject Answers : String → String → B → Type 0) where
  -- What S3 documents of HeadBucket, CreateBucket, HeadObject, PutObject and GetObject; the client
  -- does not return the errors of the package filestore.
  pub record IsS3 (c : Client B) : Type 0 where
    pub told : (bucket : String) (s : B) → (c.has_bucket bucket s).0 ≡ ok true → HasBucket bucket s
    pub looked : (bucket : String) (s : B) → (c.has_bucket bucket s).1 ≡ s
    pub made :
        (bucket region : String) (s : B)
        → (c.make_bucket bucket region s).0 ≡ ok tt
        → HasBucket bucket (c.make_bucket bucket region s).1
    pub owned :
        (bucket region : String) (s : B) (e : Error)
        → (c.make_bucket bucket region s).0 ≡ err e
        → str_eq (c.error_code e) "BucketAlreadyOwnedByYou" ≡ true
        → HasBucket bucket (c.make_bucket bucket region s).1
    pub found :
        (bucket key : String) (s : B) (info : ObjectInfo)
        → (c.stat_object bucket key s).0 ≡ ok info
        → HasObject bucket key s
    pub missing :
        (bucket key : String) (s : B) (e : Error)
        → (c.stat_object bucket key s).0 ≡ err e
        → str_eq (c.error_code e) "NoSuchKey" ≡ true
        → ¬ HasObject bucket key s
    pub absent :
        (bucket key : String) (s : B)
        → Answers bucket key s
        → ¬ HasObject bucket key s
        → (e : Error) × ((c.stat_object bucket key s).0 ≡ err e)
          × (str_eq (c.error_code e) "NoSuchKey" ≡ true)
    pub put_reads :
        (bucket key : String) (reader : Bytes) (size : ℤ) (content_type : String) (s : B)
        (read : Bytes)
        → IsWhole size reader
        → (c.put_object bucket key reader size content_type s).0 ≡ ok read
        → read ≡ reader
    pub put_keeps :
        (bucket key : String) (reader : Bytes) (size : ℤ) (content_type : String) (s : B)
        (read : Bytes)
        → (c.put_object bucket key reader size content_type s).0 ≡ ok read
        → (c.get_object bucket key (c.put_object bucket key reader size content_type s).1).0
          ≡ ok read
    pub stat_looks : (bucket key : String) (s : B) → (c.stat_object bucket key s).1 ≡ s
    pub foreign :
        (bucket key : String) (s : B) (e : Error)
        → (c.stat_object bucket key s).0 ≡ err e
        → is_not_found e ≡ false

  -- backend.go: EnsureBucket creates the bucket, and is a no-op on a bucket that exists; Stat returns
  -- ErrNotFound if the object does not exist. `Answers` says that the store is there to answer.
  pub record IsProvider (b : StorageBackend B) : Type 0 where
    pub ensured :
        (bucket : String) (s : B)
        → (b.ensure_bucket bucket s).0 ≡ ok tt
        → HasBucket bucket (b.ensure_bucket bucket s).1
    pub no_op :
        (bucket : String) (s : B)
        → (b.bucket_exists bucket s).0 ≡ ok true
        → b.ensure_bucket bucket s ≡ (ok tt, s)
    pub stat_found :
        (bucket key : String) (s : B) (info : ObjectInfo)
        → (b.stat bucket key s).0 ≡ ok info
        → HasObject bucket key s
    pub stat_missing :
        (bucket key : String) (s : B) (e : Error)
        → (b.stat bucket key s).0 ≡ err e
        → is_not_found e ≡ true
        → ¬ HasObject bucket key s
    pub stores : Stores b
    pub stat_absent :
        (bucket key : String) (s : B)
        → Answers bucket key s
        → ¬ HasObject bucket key s
        → (e : Error) × ((b.stat bucket key s).0 ≡ err e) × (is_not_found e ≡ true)
