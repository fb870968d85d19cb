-- ===== src/FileStore/Server.antt =====
-- core-services-object-store/cmd/server/main.go: the configuration, and the store that it gives.
mod Tests
use manju_backend.Prelude.{ℤ, pos, String, Bool, false, [], ◌∷◌, Option, none, some}
use manju_backend.Exec.{Result, ok, err}
use manju_backend.FileStore.{StorageBackend, Env, log_emitter}
use manju_backend.FileStore.Store.{Store, new, with_event_emitter}
use manju_backend.FileStore.Minio.{MinioConfig, Client, new_minio_backend}

pub record Config : Type 0 where
  pub platform_dsn : String
  pub minio_endpoint : String
  pub minio_access_key : String
  pub minio_secret_key : String
  pub minio_use_ssl : Bool
  pub port : ℤ

-- A value that is not set, or does not parse, gives way to the fallback.
abbrev pub set_or {ℓ} : {A : Type ℓ} → A → Option A → A
set_or fallback none = fallback
set_or fallback (some v) = v

abbrev pub parsed_or {ℓ} : {A : Type ℓ} → (String → Option A) → A → Option String → A
parsed_or parse fallback none = fallback
parsed_or parse fallback (some v) = set_or fallback (parse v)

-- os.LookupEnv, strconv.ParseBool and strconv.Atoi.
module _ (lookup_env : String → Option String) (parse_bool : String → Option Bool)
    (atoi : String → Option ℤ) where
  abbrev pub get_env : String → String → String
  get_env key fallback = set_or fallback (lookup_env key)

  abbrev pub get_env_bool : String → Bool → Bool
  get_env_bool key fallback = parsed_or parse_bool fallback (lookup_env key)

  abbrev pub get_env_int : String → ℤ → ℤ
  get_env_int key fallback = parsed_or atoi fallback (lookup_env key)

  unfoldable pub load_config : Config
  load_config = record {
    platform_dsn =
        get_env "PLATFORM_DB_DSN"
          "host=localhost port=5432 dbname=manju user=manju password=manju sslmode=disable";
    minio_endpoint = get_env "MINIO_ENDPOINT" "localhost:9000";
    minio_access_key = get_env "MINIO_ACCESS_KEY" "minioadmin";
    minio_secret_key = get_env "MINIO_SECRET_KEY" "minioadmin";
    minio_use_ssl = get_env_bool "MINIO_USE_SSL" false;
    port = get_env_int "PORT" (pos 8081);
  }

-- The provider and the store of `main`, once the database answers.
abbrev pub minio_config : Config → MinioConfig
minio_config cfg = record {
  endpoint = cfg.minio_endpoint;
  access_key_id = cfg.minio_access_key;
  secret_access_key = cfg.minio_secret_key;
  use_ssl = cfg.minio_use_ssl;
  region = "";
}

module _ {B : Type 0} (new_client : MinioConfig → Result (Client B)) (env : Env) where
  abbrev pub store_on : Result (StorageBackend B) → Result (Store B)
  store_on (ok backend) = ok (new env backend (with_event_emitter log_emitter ∷ []))
  store_on (err e) = err e

  unfoldable pub served_store : Config → Result (Store B)
  unfolding new_minio_backend
  served_store cfg = store_on (new_minio_backend new_client (minio_config cfg))
