-- ===== src/Digestion/Engine/Tests.antt =====
-- A registration in a small database.
use manju_backend.Prelude.{◌≡◌, refl, true, pos}
use manju_backend.Digestion.Engine.{RegisterSourceRequest, requested_source}

abbrev request : RegisterSourceRequest
request = record {
  name = "crm";
  description = "";
  db_type = "postgres";
  host = "crm.local";
  port = pos 5432;
  database_name = "crm";
  username = "reader";
  password = "";
  ssl_mode = "";
  sync_enabled = true;
  sync_interval_seconds = pos 0;
  sync_strategy = "";
}

requested_source-ssl_mode : (requested_source request).ssl_mode ≡ "disable"
requested_source-ssl_mode = refl
