-- ===== src/Tests/Web.antt =====
-- An API over the example service: decoders that read one fixed input, and a configuration.
use pocket_mvp_backend.Prelude.{pos, true, none, some, String, List, [], ◌∷◌}
use pocket_mvp_backend.Config.{Config, LogLevel}
use pocket_mvp_backend.Http.Message.{Request, Named}
use pocket_mvp_backend.Http.Contracts.{Codec, Api, not_a_form}
use pocket_mvp_backend.Http.Support.{write_header}
use pocket_mvp_backend.Start.{api_of}
use pocket_mvp_backend.Tests.Scene.{service, password}

abbrev pub codec : Codec
codec = record {
  register_request = λ b. none;
  login_request = λ b. some (record { email = "!"; password = password });
  reset_request = λ b. some (record { email = "!"; locale = "sk" });
  reset_confirmation = λ b. none;
  change_password_request = λ b. none;
  change_email_request = λ b. none;
  update_profile_request = λ b. none;
  venue_input = λ b. none;
  category_input = λ b. some (record { name = "soups"; sort_order = pos 1; is_active = none });
  menu_item_input = λ b. none;
  reorder_input = λ b. none;
  reorder_items_input = λ b. none;
  staff_input = λ b. none;
  subscription_input = λ b. none;
  status_input = λ b. some "served";
  reply_input = λ b. some "thanks";
  floor_plan_input = λ b. some "[]";
  multipart = λ limit memory b. not_a_form;
  detect_content_type = λ b. "text/plain";
  match = λ patterns method path. some (path, []);
  unmatched = λ method path. write_header 404;
}

abbrev pub config : Config
config = record {
  environment = "development";
  http_address = ":8080";
  database_url = "db";
  database_max_connections = 10;
  database_connect_timeout = 1;
  shutdown_timeout = 1;
  allowed_origins = "https://pocket" ∷ [];
  log_level = LogLevel.info;
  data_encryption_key = [];
  data_lookup_key = [];
  session_cookie_name = "session";
  session_ttl = 1;
  cookie_secure = true;
  app_base_url = "https://pocket";
  password_reset_ttl = 1;
  smtp_address = "";
  smtp_username = "";
  smtp_password = "";
  smtp_from = "";
}

abbrev pub api : Api
api = api_of codec config 0 service

-- A request with this method, these headers, cookies and path values.
abbrev pub request : String → List Named → List Named → List Named → Request
request method headers cookies path_values = record {
  method = method;
  path = "/";
  headers = headers;
  cookies = cookies;
  path_values = path_values;
  body = [];
  user_agent = [];
  remote_addr = "ip";
}
