-- ===== src/Config.antt =====
-- internal/config/config.go: the configuration read from environment variables.
pub mod Valid
use pocket_mvp_backend.Prelude.{
  ℕ, ◌*◌, ℤ, pos, negsuc, Bool, true, false, ◌&&◌, ◌||◌, not, Option, none, some, String, Bytes,
  List, [], ◌∷◌, length, ltb, if◌then◌else◌, ◌==◌,
}
use pocket_mvp_backend.Platform.{Platform}
use pocket_mvp_backend.GoText.{trim_space, to_lower}
use pocket_mvp_backend.Security.Password.Scan.{split}

-- os.Getenv, strconv.ParseInt(…, 10, 32), strconv.ParseBool and time.ParseDuration (nanoseconds);
-- `none` is their error.
pub record Host : Type 0 where
  pub platform : Platform
  pub open platform use *
  pub getenv : String → String
  pub parse_int32 : String → Option ℤ
  pub parse_bool : String → Option Bool
  pub parse_duration : String → Option ℤ

pub data LogLevel : Type 0 where
  debug info warn error : LogLevel

-- Durations are nanoseconds.
pub record Config : Type 0 where
  pub environment : String
  pub http_address : String
  pub database_url : String
  pub database_max_connections : ℕ
  pub database_connect_timeout : ℕ
  pub shutdown_timeout : ℕ
  pub allowed_origins : List String
  pub log_level : LogLevel
  pub data_encryption_key : Bytes
  pub data_lookup_key : Bytes
  pub session_cookie_name : String
  pub session_ttl : ℕ
  pub cookie_secure : Bool
  pub app_base_url : String
  pub password_reset_ttl : ℕ
  pub smtp_address : String
  pub smtp_username : String
  pub smtp_password : String
  pub smtp_from : String

-- A value, or an error that names the variable at fault.
pub data Loaded (A : Type 0) : Type 0 where
  loaded : A → Loaded A
  invalid : String → Loaded A

infixl 5 ◌>>=◌
unfoldable pub ◌>>=◌ : {A B : Type 0} → Loaded A → (A → Loaded B) → Loaded B
◌>>=◌ (loaded a) f = f a
◌>>=◌ (invalid key) f = invalid key

-- `strings.TrimSpace(os.Getenv(key))`
abbrev pub trimmed_env : Host → String → String
trimmed_env h key = trim_space (h.getenv key)

abbrev long_enough : String → ℕ → Option Bytes → Loaded Bytes
long_enough key minimum none = invalid key
long_enough key minimum (some decoded) =
    if ltb (length decoded) minimum then invalid key else loaded decoded

unfoldable pub base64_key_env : Host → String → ℕ → Loaded Bytes
base64_key_env h key minimum =
    if trimmed_env h key == ""
    then invalid key
    else long_enough key minimum (h.std_decode (trimmed_env h key))

abbrev or_invalid : {A : Type 0} → String → Option A → Loaded A
or_invalid key none = invalid key
or_invalid key (some a) = loaded a

unfoldable pub bool_env : Host → String → Bool → Loaded Bool
bool_env h key fallback =
    if trimmed_env h key == ""
    then loaded fallback
    else or_invalid key (h.parse_bool (trimmed_env h key))

unfoldable pub string_env : Host → String → String → String
string_env h key fallback = if trimmed_env h key == "" then fallback else trimmed_env h key

-- The parts that are not blank, trimmed.
unfoldable pub csv_items : List String → List String
csv_items [] = []
csv_items (part ∷ parts) =
    let rest = csv_items parts in if trim_space part == "" then rest else trim_space part ∷ rest

unfoldable pub csv_env : Host → String → List String → List String
csv_env h key fallback =
    if trimmed_env h key == "" then fallback else csv_items (split b',' (trimmed_env h key))

-- `parsed < 1` and `parsed <= 0` are errors.
abbrev positive : String → Option ℤ → Loaded ℕ
positive key none = invalid key
positive key (some (pos n)) = if ltb n 1 then invalid key else loaded n
positive key (some (negsuc n)) = invalid key

unfoldable pub int32_env : Host → String → ℕ → Loaded ℕ
int32_env h key fallback =
    if trimmed_env h key == ""
    then loaded fallback
    else positive key (h.parse_int32 (trimmed_env h key))

unfoldable pub duration_env : Host → String → ℕ → Loaded ℕ
duration_env h key fallback =
    if trimmed_env h key == ""
    then loaded fallback
    else positive key (h.parse_duration (trimmed_env h key))

unfoldable pub log_level_env : Host → String → LogLevel → LogLevel
log_level_env h key fallback =
    let value = to_lower h.platform (trimmed_env h key) in
    if value == "debug"
    then LogLevel.debug
    else if value == "warn" || value == "warning"
    then LogLevel.warn
    else if value == "error"
    then LogLevel.error
    else if value == "info"
    then LogLevel.info
    else fallback

-- time.Second, in nanoseconds
abbrev pub second : ℕ
second = 1000000000

-- `if test { return Config{}, errors.New(…) }`
abbrev pub invalid_if : Bool → String → Loaded Unit
invalid_if test key = if test then invalid key else loaded tt

unfoldable pub load : Host → Loaded Config
load h = do
  u ← invalid_if (trimmed_env h "DATABASE_URL" == "") "DATABASE_URL"
  max_connections ← int32_env h "DATABASE_MAX_CONNECTIONS" 10
  connect_timeout ← duration_env h "DATABASE_CONNECT_TIMEOUT" (15 * second)
  shutdown_timeout ← duration_env h "SHUTDOWN_TIMEOUT" (10 * second)
  session_ttl ← duration_env h "SESSION_TTL" (30 * 24 * 3600 * second)
  password_reset_ttl ← duration_env h "PASSWORD_RESET_TTL" (30 * 60 * second)
  encryption_key ← base64_key_env h "DATA_ENCRYPTION_KEY" 32
  lookup_key ← base64_key_env h "DATA_LOOKUP_KEY" 32
  cookie_secure ← bool_env h "COOKIE_SECURE" false
  let environment = string_env h "APP_ENV" "development"
  let smtp_address = trimmed_env h "SMTP_ADDRESS"
  v ← invalid_if (not (environment == "development") && smtp_address == "") "SMTP_ADDRESS"
  loaded (record {
    environment = environment;
    http_address = string_env h "HTTP_ADDRESS" ":8080";
    database_url = trimmed_env h "DATABASE_URL";
    database_max_connections = max_connections;
    database_connect_timeout = connect_timeout;
    shutdown_timeout = shutdown_timeout;
    allowed_origins = csv_env h "CORS_ALLOWED_ORIGINS" ("http://localhost:3000" ∷ []);
    log_level = log_level_env h "LOG_LEVEL" LogLevel.info;
    data_encryption_key = encryption_key;
    data_lookup_key = lookup_key;
    session_cookie_name = string_env h "SESSION_COOKIE_NAME" "pocket_session";
    session_ttl = session_ttl;
    cookie_secure = cookie_secure;
    app_base_url = string_env h "APP_BASE_URL" "http://localhost:3000";
    password_reset_ttl = password_reset_ttl;
    smtp_address = smtp_address;
    smtp_username = trimmed_env h "SMTP_USERNAME";
    smtp_password = h.getenv "SMTP_PASSWORD";
    smtp_from = string_env h "SMTP_FROM" "no-reply@localhost";
  })
