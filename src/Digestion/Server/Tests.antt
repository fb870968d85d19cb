-- ===== src/Digestion/Server/Tests.antt =====
-- core-services-sql-engine/cmd/server/main.go: runs of the mask and of the configuration.
use manju_backend.Digestion.Server.{load_config, mask_password, mask_password-hides}
use manju_backend.Prelude.{
  ◌≡◌, refl, codes, String, ℤ, pos, Option, none, if◌then◌else◌, str_eq, arith,
}

-- Of the environment only PORT is set, and not to a number.
abbrev environment : String → String
environment key = if str_eq key "PORT" then "http" else ""

abbrev no_number : String → Option ℤ
no_number s = none

load_config-fallback : (load_config environment no_number).port ≡ pos 8080
unfolding load_config
load_config-fallback = refl

-- A URL has no mark, so its password is logged.
mask_password-url :
    mask_password (codes "postgres://manju:secret@db/manju")
    ≡ codes "postgres://manju:secret@db/manju"
unfolding mask_password
mask_password-url = refl

mask_password-hides_example :
    mask_password (codes "db=m password=pw sslmode=disable")
    ≡ codes "db=m password=***** sslmode=disable"
mask_password-hides_example =
    mask_password-hides (codes "db=m ") (codes "pw") (codes " sslmode=disable")
      (refl, (refl, (refl, (refl, (refl, tt))))) (refl, (refl, tt)) (omega arith) refl
