-- ===== src/FileStore/Minio/Tests.antt =====
-- core-services-object-store/pkg/filestore/minio.go: runs on a small S3 store.
use manju_backend.Prelude.{
  ◌≡◌, refl, sym, ap, ◌∙◌, subst, eq_iff, String, Bool, true, false, ◌||◌, List, [], ◌∷◌, str_eq,
  pos, if◌then◌else◌, ◌⧺◌,
}
use manju_backend.Exec.{Error, is_not_found, failure, not_found, wrap, Result, ok, err}
use manju_backend.FileStore.{Bytes, ObjectInfo}
use manju_backend.FileStore.Minio.{
  MinioConfig, Client, new_minio_backend, as_backend, ensure_bucket, stat, list, collected,
}
use manju_backend.FileStore.Minio.Promises.{IsS3, IsProvider}
use manju_backend.FileStore.Minio.Provider.{new_minio_backend-IsProvider}

record Shelves : Type 0 where
  buckets : List String
  objects : List String
  contents : List (String × Bytes)

abbrev held : String → List String → Bool
held name [] = false
held name (n ∷ names) = str_eq n name || held name names

abbrev HasBucket : String → Shelves → Type 0
HasBucket bucket s = held bucket s.buckets ≡ true

abbrev HasObject : String → String → Shelves → Type 0
HasObject bucket key s = held (bucket ⧺ "/" ⧺ key) s.objects ≡ true

abbrev Answers : String → String → Shelves → Type 0
Answers bucket key s = Unit

abbrev made_on : String → Shelves → Bool → Result (Unit {0}) × Shelves
made_on bucket s true = (err (failure "BucketAlreadyOwnedByYou"), s)
made_on bucket s false = (ok tt, record s { buckets = bucket ∷ s.buckets })

abbrev info : String → ObjectInfo
info key = record {
  key = key;
  size = pos 3;
  content_type = "text/csv";
  etag = "";
  last_modified = 0;
  is_prefix = false;
}

abbrev stat_on : String → Bool → Result ObjectInfo
stat_on key true = ok (info key)
stat_on key false = err (failure "NoSuchKey")

abbrev placed : String → Bytes → Shelves → Shelves
placed name r s = record s { objects = name ∷ s.objects; contents = (name, r) ∷ s.contents }

abbrev content_at : String → List (String × Bytes) → Result Bytes
content_at name [] = err (failure "NoSuchKey")
content_at name (entry ∷ rest) = if str_eq entry.0 name then ok entry.1 else content_at name rest

abbrev code : Error → String
code (failure s) = s
code _ = ""

abbrev shelf : Client Shelves
shelf = record {
  has_bucket = λ bucket s. (ok (held bucket s.buckets), s);
  make_bucket = λ bucket region s. made_on bucket s (held bucket s.buckets);
  put_object = λ bucket key r size content_type s. (ok r, placed (bucket ⧺ "/" ⧺ key) r s);
  get_object = λ bucket key s. (content_at (bucket ⧺ "/" ⧺ key) s.contents, s);
  remove_object = λ bucket key s. (ok tt, s);
  stat_object = λ bucket key s. (stat_on key (held (bucket ⧺ "/" ⧺ key) s.objects), s);
  list_objects = λ bucket prefix recursive s. (ok (ok (info "2024/") ∷ ok (info "a.csv") ∷ []), s);
  presigned_get_object = λ bucket key expiry s. (ok key, s);
  presigned_put_object = λ bucket key expiry s. (ok key, s);
  error_code = code;
  quote = λ s. s;
}

told : (b : Bool) → ok b ≡ ok true → b ≡ true
told true e = refl
told false e = cc

made :
    (bucket : String) (s : Shelves) (b : Bool)
    → held bucket s.buckets ≡ b
    → HasBucket bucket (made_on bucket s b).1
made bucket s true e = e
made bucket s false e = rw ((eq_iff bucket bucket).1 refl) refl

found : (key : String) (b : Bool) (i : ObjectInfo) → stat_on key b ≡ ok i → b ≡ true
found key true i e = refl
found key false i e = cc

missing : (key : String) (b : Bool) (e : Error) → stat_on key b ≡ err e → b ≡ false
missing key true x e = cc
missing key false x e = refl

abbrev says_missing : Result ObjectInfo → Bool
says_missing (ok i) = false
says_missing (err e) = is_not_found e

never_not_found : (key : String) (b : Bool) → says_missing (stat_on key b) ≡ false
never_not_found key true = refl
never_not_found key false = refl

gone_from :
    (key : String) (b : Bool)
    → ¬ (b ≡ true)
    → (e : Error) × (stat_on key b ≡ err e) × (str_eq (code e) "NoSuchKey" ≡ true)
gone_from key true n = absurd (n refl)
gone_from key false n = (failure "NoSuchKey", refl, refl)

shelf-IsS3 : IsS3 HasBucket HasObject Answers shelf
shelf-IsS3 = record {
  told = λ bucket s e. told (held bucket s.buckets) e;
  looked = λ bucket s. refl;
  made = λ bucket region s e. made bucket s (held bucket s.buckets) refl;
  owned = λ bucket region s e k t. made bucket s (held bucket s.buckets) refl;
  found = λ bucket key s i e. found key (held (bucket ⧺ "/" ⧺ key) s.objects) i e;
  missing = λ bucket key s x e t h.
      let gone = missing key (held (bucket ⧺ "/" ⧺ key) s.objects) x e in absurd cc;
  put_reads = λ bucket key reader size content_type s read whole e. cc e;
  put_keeps = λ bucket key reader size content_type s read e.
      rw ((eq_iff (bucket ⧺ "/" ⧺ key) (bucket ⧺ "/" ⧺ key)).1 refl) e;
  stat_looks = λ bucket key s. refl;
  absent = λ bucket key s a n. gone_from key (held (bucket ⧺ "/" ⧺ key) s.objects) n;
  foreign = λ bucket key s x e.
      sym (ap says_missing e) ∙ never_not_found key (held (bucket ⧺ "/" ⧺ key) s.objects);
}

abbrev Documented : Result (Client Shelves) → Type 0
Documented (ok c) = IsS3 HasBucket HasObject Answers c
Documented (err e) = Unit

abbrev local : MinioConfig
local = record {
  endpoint = "localhost:9000";
  access_key_id = "minioadmin";
  secret_access_key = "minioadmin";
  use_ssl = false;
  region = "";
}

new_minio_backend-IsProvider_example :
    IsProvider HasBucket HasObject Answers
      (as_backend (record { client = shelf; region = "us-east-1" }))
unfolding new_minio_backend as_backend
new_minio_backend-IsProvider_example =
    new_minio_backend-IsProvider HasBucket HasObject Answers (λ cfg. ok shelf) local _
      (λ c e. subst Documented e shelf-IsS3) refl

abbrev empty : Shelves
empty = record { buckets = []; objects = []; contents = [] }

ensure_bucket-creates :
    ensure_bucket (record { client = shelf; region = "us-east-1" }) "t-1" empty
    ≡ (ok tt, record { buckets = "t-1" ∷ []; objects = []; contents = [] })
unfolding ensure_bucket
ensure_bucket-creates = refl

stat-absent :
    stat (record { client = shelf; region = "us-east-1" }) "t-1" "a.csv" empty
    ≡ (err (wrap "minio: stat t-1/a.csv" not_found), empty)
unfolding stat
stat-absent = refl

list-prefix : list (record { client = shelf; region = "us-east-1" }) "t-1" "" false empty ≡ (
  ok (
      record (info "2024/") { content_type = ""; is_prefix = true }
      ∷ record (info "a.csv") { content_type = "" }
      ∷ []),
  empty,
)
unfolding list collected
list-prefix = refl
