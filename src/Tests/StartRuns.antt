-- ===== src/Tests/StartRuns.antt =====
-- The theorems on the configuration and the start-up, on a host with three variables set.
use pocket_mvp_backend.Prelude.{
  ℕ, ◌≡◌, ◌<◌, ◌⊎◌, refl, true, false, none, List, [], ◌∷◌, length, arith, if◌then◌else◌, ◌==◌,
}
use pocket_mvp_backend.Faults.{other}
use pocket_mvp_backend.Effects.{ok, err}
use pocket_mvp_backend.GoText.{trim_space, trim_left, trim_right, is_space, to_lower, map_chars}
use pocket_mvp_backend.Config.{
  Host, Config, LogLevel, loaded, load, int32_env, duration_env, base64_key_env, bool_env,
  string_env, csv_env, log_level_env, ◌>>=◌,
}
use pocket_mvp_backend.Config.Valid.{IsUsable, load-valid}
use pocket_mvp_backend.Http.Message.{Handler}
use pocket_mvp_backend.Start.{boot}
use pocket_mvp_backend.Start.Boot.{boot-loaded}
use pocket_mvp_backend.Tests.Platform.{platform, at, encode, zeros}
use pocket_mvp_backend.Tests.Scene.{start}
use pocket_mvp_backend.Tests.Web.{codec}
use mathlib.Core.List.{◌++◌}

-- Thirty-three bytes.
abbrev long_key : List ℕ
long_key = 0 ∷ (zeros ++ zeros)

abbrev host : Host
host = record {
  platform = platform;
  getenv = λ key.
      if key == "DATABASE_URL"
      then " db "
      else if key == "DATA_ENCRYPTION_KEY"
      then encode long_key
      else if key == "DATA_LOOKUP_KEY"
      then encode long_key
      else "";
  parse_int32 = λ t. none;
  parse_bool = λ t. none;
  parse_duration = λ t. none;
}

abbrev read : Config
read = record {
  environment = "development";
  http_address = ":8080";
  database_url = "db";
  database_max_connections = 10;
  database_connect_timeout = 15000000000;
  shutdown_timeout = 10000000000;
  allowed_origins = "http://localhost:3000" ∷ [];
  log_level = LogLevel.info;
  data_encryption_key = long_key;
  data_lookup_key = long_key;
  session_cookie_name = "pocket_session";
  session_ttl = 2592000000000000;
  cookie_secure = false;
  app_base_url = "http://localhost:3000";
  password_reset_ttl = 1800000000000;
  smtp_address = "";
  smtp_username = "";
  smtp_password = "";
  smtp_from = "no-reply@localhost";
}

load_run : load host ≡ loaded read
unfolding load int32_env duration_env base64_key_env bool_env string_env csv_env log_level_env
    trim_space trim_left trim_right is_space to_lower map_chars ◌>>=◌
load_run = refl

load-valid_example : IsUsable read
load-valid_example = load-valid host read (λ t k h. cc) load_run

boot-loaded_example :
    (((at 100).accepts_database_url read.database_url ≡ true)
      × (length read.data_encryption_key ≡ 32)
      × (handler : Handler) × ((boot codec read (at 100) start).0 ≡ ok handler))
    ⊎ ((((at 100).accepts_database_url read.database_url ≡ false)
          ⊎ (32 < length read.data_encryption_key))
        × ((boot codec read (at 100) start).0 ≡ err other))
boot-loaded_example =
    boot-loaded codec host read (at 100) start (λ t k h. cc) load_run (λ n. refl) (omega arith)
