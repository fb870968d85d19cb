-- ===== src/FileStore/Server/Tests.antt =====
-- core-services-object-store/cmd/server/main.go: runs of the configuration.
use manju_backend.Prelude.{
  ℤ, pos, ◌≡◌, refl, String, Bool, true, false, Option, none, some, str_eq, if◌then◌else◌,
}
use manju_backend.FileStore.Server.{load_config}

-- TLS and an empty endpoint are set, the port is not a number.
abbrev environment : String → Option String
environment key =
    if str_eq key "MINIO_USE_SSL"
    then some "true"
    else if str_eq key "MINIO_ENDPOINT"
    then some ""
    else if str_eq key "PORT"
    then some "http"
    else none

abbrev parse_bool : String → Option Bool
parse_bool v = if str_eq v "true" then some true else if str_eq v "false" then some false else none

abbrev no_number : String → Option ℤ
no_number v = none

load_config-ssl : (load_config environment parse_bool no_number).minio_use_ssl ≡ true
unfolding load_config
load_config-ssl = refl

-- A value that is set stands even if it is empty.
load_config-empty : (load_config environment parse_bool no_number).minio_endpoint ≡ ""
unfolding load_config
load_config-empty = refl

load_config-port : (load_config environment parse_bool no_number).port ≡ pos 8081
unfolding load_config
load_config-port = refl
