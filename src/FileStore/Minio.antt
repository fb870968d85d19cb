-- ===== src/FileStore/Minio.antt =====
-- core-services-object-store/pkg/filestore/minio.go: the provider of S3 stores, over minio-go's client.
pub mod Promises
pub mod Provider
mod Tests
use manju_backend.Prelude.{
  ℤ, String, Bool, true, false, List, [], ◌∷◌, str_eq, if◌then◌else◌, codes, has_suffix, ◌⧺◌,
}
use manju_backend.Exec.{
  Error, not_found, wrap, Result, ok, err, Exec, pure, raise, context, wrap_result, ◌>>=◌, ◌>>◌,
}
use manju_backend.FileStore.{Bytes, ObjectInfo, StorageBackend}

pub record MinioConfig : Type 0 where
  pub endpoint : String
  pub access_key_id : String
  pub secret_access_key : String
  pub use_ssl : Bool
  pub region : String

-- *minio.Client over a state of its own: its calls, with the entries of a listing's channel, the
-- code of minio.ToErrorResponse, and the verb %q of fmt.
pub record Client (B : Type 0) : Type 0 where
  pub has_bucket : String → Exec B Bool
  pub make_bucket : String → String → Exec B (Unit {0})
  pub put_object : String → String → Bytes → ℤ → String → Exec B Bytes
  pub get_object : String → String → Exec B Bytes
  pub remove_object : String → String → Exec B (Unit {0})
  pub stat_object : String → String → Exec B ObjectInfo
  pub list_objects : String → String → Bool → Exec B (List (Result ObjectInfo))
  pub presigned_get_object : String → String → ℤ → Exec B String
  pub presigned_put_object : String → String → ℤ → Exec B String
  pub error_code : Error → String
  pub quote : String → String

pub record MinioBackend (B : Type 0) : Type 0 where
  pub client : Client B
  pub region : String

abbrev path : String → String → String
path bucket key = bucket ⧺ "/" ⧺ key

-- An entry of a listing has no content type; a common prefix ends in a slash.
abbrev pub listed : ObjectInfo → ObjectInfo
listed obj = record obj { content_type = ""; is_prefix = has_suffix (codes obj.key) "/" }

abbrev pub stated : ObjectInfo → ObjectInfo
stated info = record info { is_prefix = false }

-- `for obj := range …`: the first error ends it.
abbrev pub appended : Result ObjectInfo → Result (List ObjectInfo) → Result (List ObjectInfo)
appended (err e) rest = err e
appended (ok obj) (err e) = err e
appended (ok obj) (ok results) = ok (listed obj ∷ results)

unfoldable pub collected : List (Result ObjectInfo) → Result (List ObjectInfo)
collected [] = ok []
collected (obj ∷ objs) = appended obj (collected objs)

module _ {B : Type 0} (m : MinioBackend B) where
  abbrev pub owned_or_error : String → Result (Unit {0}) → Result (Unit {0})
  owned_or_error bucket (ok done) = ok done
  owned_or_error bucket (err e) =
      if str_eq (m.client.error_code e) "BucketAlreadyOwnedByYou"
      then ok tt
      else err (wrap ("minio: create bucket " ⧺ m.client.quote bucket) e)

  -- Another call may create the bucket between the two requests.
  abbrev pub create_unless : String → Bool → Exec B (Unit {0})
  create_unless bucket true s = (ok tt, s)
  create_unless bucket false s =
      let (r, s') = m.client.make_bucket bucket m.region s in (owned_or_error bucket r, s')

  unfoldable pub ensure_bucket : String → Exec B (Unit {0})
  ensure_bucket bucket =
      context ("minio: check bucket " ⧺ m.client.quote bucket) (m.client.has_bucket bucket)
      >>= create_unless bucket

  unfoldable pub bucket_exists : String → Exec B Bool
  bucket_exists bucket =
      context ("minio: bucket exists " ⧺ m.client.quote bucket) (m.client.has_bucket bucket)

  unfoldable pub upload : String → String → Bytes → ℤ → String → Exec B Bytes
  upload bucket key r size content_type =
      context ("minio: upload " ⧺ path bucket key)
        (m.client.put_object bucket key r size content_type)

  unfoldable pub download : String → String → Exec B Bytes
  download bucket key =
      context ("minio: download " ⧺ path bucket key) (m.client.get_object bucket key)

  unfoldable pub delete : String → String → Exec B (Unit {0})
  delete bucket key =
      context ("minio: delete " ⧺ path bucket key) (m.client.remove_object bucket key)

  abbrev pub stat_result : String → Result ObjectInfo → Result ObjectInfo
  stat_result msg (ok info) = ok (stated info)
  stat_result msg (err e) =
      if str_eq (m.client.error_code e) "NoSuchKey"
      then err (wrap msg not_found)
      else err (wrap msg e)

  unfoldable pub stat : String → String → Exec B ObjectInfo
  stat bucket key s =
      let (r, s') = m.client.stat_object bucket key s in
      (stat_result ("minio: stat " ⧺ path bucket key) r, s')

  unfoldable pub list : String → String → Bool → Exec B (List ObjectInfo)
  unfolding collected
  list bucket prefix recursive s =
      let (r, s') = m.client.list_objects bucket prefix recursive s in
      (wrap_result ("minio: list " ⧺ path bucket prefix) (listing r), s')
    where
      listing : Result (List (Result ObjectInfo)) → Result (List ObjectInfo)
      listing (ok objs) = collected objs
      listing (err e) = err e

  unfoldable pub presigned_get_url : String → String → ℤ → Exec B String
  presigned_get_url bucket key expiry =
      context ("minio: presigned get " ⧺ path bucket key)
        (m.client.presigned_get_object bucket key expiry)

  unfoldable pub presigned_put_url : String → String → ℤ → Exec B String
  presigned_put_url bucket key expiry =
      context ("minio: presigned put " ⧺ path bucket key)
        (m.client.presigned_put_object bucket key expiry)

  unfoldable pub as_backend : StorageBackend B
  unfolding ensure_bucket bucket_exists upload download delete stat list presigned_get_url
      presigned_put_url
  as_backend = record {
    ensure_bucket = ensure_bucket;
    bucket_exists = bucket_exists;
    upload = upload;
    download = download;
    delete = delete;
    stat = stat;
    list = list;
    presigned_get_url = presigned_get_url;
    presigned_put_url = presigned_put_url;
  }

-- `new_client` is minio.New on the endpoint, the static credentials, TLS and the region.
module _ {B : Type 0} (new_client : MinioConfig → Result (Client B)) where
  abbrev pub region_or_default : String → String
  region_or_default region = if str_eq region "" then "us-east-1" else region

  abbrev pub backend_of : MinioConfig → Result (Client B) → Result (StorageBackend B)
  backend_of cfg (err e) = err (wrap "minio: create client" e)
  backend_of cfg (ok client) =
      ok (as_backend (record { client = client; region = region_or_default cfg.region }))

  unfoldable pub new_minio_backend : MinioConfig → Result (StorageBackend B)
  unfolding as_backend
  new_minio_backend cfg = backend_of cfg (new_client cfg)
