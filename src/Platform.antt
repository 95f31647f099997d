-- ===== src/Platform.antt =====
-- What the program calls and does not implement: the Go standard library's tables, cryptography
-- and encodings, golang.org/x/crypto/argon2, PostgreSQL's input functions, and the environment of
-- a run (which external calls fail, the clocks, the random bytes). Each is a parameter.
pub mod Laws
use pocket_mvp_backend.Prelude.{
  ℕ, Bool, Option, some, none, String, Char, Bytes, ◌≡◌, length, ◌+◌, List,
}

pub record Platform : Type 0 where
  -- unicode.ToLower and unicode.ToUpper, the per-rune maps of strings.ToLower and strings.ToUpper
  pub lower : Char → Char
  pub upper : Char → Char
  -- mail.ParseAddress, with the parsed Address; `none` is its error
  pub parse_address : String → Option String
  -- net.SplitHostPort, with the host; net.ParseIP(…) and String() of its result
  pub split_host_port : String → Option String
  pub parse_ip : String → Option String
  -- []byte(s) and string(b)
  pub bytes_of : String → Bytes
  pub text_of : Bytes → String
  -- sha256.Sum256, hex.EncodeToString, hmac.New(sha256.New, key) over a text
  pub sha256 : Bytes → Bytes
  pub hex_encode : Bytes → String
  pub hmac_sha256 : Bytes → Bytes → Bytes
  -- base64.RawURLEncoding and base64.RawStdEncoding
  pub raw_url_encode : Bytes → String
  pub raw_url_decode : String → Option Bytes
  pub raw_std_encode : Bytes → String
  pub raw_std_decode : String → Option Bytes
  -- base64.StdEncoding.DecodeString
  pub std_decode : String → Option Bytes
  -- cipher.NewGCM(aes.NewCipher(key)): Seal and Open over key, nonce, text and additional data
  pub seal : Bytes → Bytes → Bytes → Bytes → Bytes
  pub unseal : Bytes → Bytes → Bytes → Bytes → Option Bytes
  -- argon2.IDKey over password, salt, iterations, memory, parallelism and key length
  pub id_key : Bytes → Bytes → ℕ → ℕ → ℕ → ℕ → Bytes
  -- the text form that PostgreSQL gives a uuid argument; `none` is a malformed one
  pub parse_uuid : String → Option String
  -- whether PostgreSQL accepts these bytes as a value of a `text` column
  pub accepts_text : Bytes → Bool
  -- a timestamp plus interval '1 year' (or else '1 month'), by PostgreSQL's calendar
  pub add_period : Bool → ℕ → ℕ
  -- PostgreSQL's `◌ || ◌` and `◌ - 'floor_plan'` on JSON texts
  pub concat_settings : String → String → String
  pub remove_floor_plan : String → String
  -- json.Valid; `COALESCE(settings -> 'floor_plan', '[]'::jsonb)`, and `jsonb_set(settings,
  -- '{floor_plan}', plan::jsonb, true)`, where `none` is an error of PostgreSQL
  pub json_valid : String → Bool
  pub get_floor_plan : String → String
  pub set_floor_plan : String → String → Option String
  -- CURRENT_DATE as the timestamp at which that day starts, at this time
  pub day_start : ℕ → ℕ
  -- PostgreSQL's lower(text)
  pub lower_text : String → String
  -- whether pgxpool.ParseConfig accepts this connection string
  pub accepts_database_url : String → Bool
  -- url.QueryEscape
  pub query_escape : String → String

-- One run: whether the n-th external call fails, what the clocks show (in microseconds; the
-- database's and the application's differ), gen_random_uuid() and crypto/rand at the n-th call.
pub record Env : Type 0 where
  pub platform : Platform
  pub open platform use *
  pub fault : ℕ → Bool
  pub db_now : ℕ
  pub app_now : ℕ
  pub fresh_id : ℕ → String
  pub random : ℕ → ℕ → Bytes
