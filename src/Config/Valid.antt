-- ===== src/Config/Valid.antt =====
-- What a configuration that `Load` returns can be relied on for.
use pocket_mvp_backend.Prelude.{
  ℕ, ◌≡◌, ◌≤◌, ◌<◌, ◌^◌, refl, pos, negsuc, Bool, false, ◌&&◌, not, Bool-cases, Option-cases, ap,
  subst, some, inl, inr, String, Bytes, List, [], ◌∷◌, All, length, ltb, arith, ◌==◌,
}
use pocket_mvp_backend.GoText.{trim_space, trim_left, trim_right, is_space}
use pocket_mvp_backend.GoText.Trimmed.{trim_space-filled}
use pocket_mvp_backend.Config.{
  ◌>>=◌, Host, Config, Loaded, loaded, invalid, trimmed_env, base64_key_env, string_env, csv_items,
  csv_env, int32_env, duration_env, load, split, invalid_if,
}

csv_items-filled : (parts : List String) → All (λ item. (item == "") ≡ false) (csv_items parts)
unfolding csv_items
csv_items-filled [] = tt
csv_items-filled (part ∷ parts) = elim (Bool-cases (trim_space part == "")) [
  | inl blank ↦ rw blank (csv_items-filled parts)
  | inr filled ↦ rw filled (filled, csv_items-filled parts)
]

duration_env-positive :
    (h : Host) (key : String) (n fallback : ℕ)
    → 1 ≤ fallback
    → duration_env h key fallback ≡ loaded n
    → 1 ≤ n
unfolding duration_env
duration_env-positive h key n fallback default found = elim (Bool-cases (trimmed_env h key == "")) [
  | inl unset ↦ ground arith
  | inr set ↦ elim (Option-cases (h.parse_duration (trimmed_env h key))) [
    | inl bad ↦ absurd (ground arith)
    | inr (pos k, parsed) ↦ elim (Bool-cases (ltb k 1)) [
      | inl small ↦ absurd (ground arith)
      | inr large ↦ ground arith
    ]
    | inr (negsuc k, parsed) ↦ absurd (ground arith)
  ]
]

int32_env-fits :
    (h : Host) (key : String) (n fallback : ℕ)
    → ((t : String) (k : ℕ) → h.parse_int32 t ≡ some (pos k) → k < 2 ^ 31)
    → 1 ≤ fallback
    → fallback < 2 ^ 31
    → int32_env h key fallback ≡ loaded n
    → (1 ≤ n) × (n < 2 ^ 31)
unfolding int32_env
int32_env-fits h key n fallback law low high found = elim (Bool-cases (trimmed_env h key == "")) [
  | inl unset ↦ (ground arith, ground arith)
  | inr set ↦ elim (Option-cases (h.parse_int32 (trimmed_env h key))) [
    | inl bad ↦ absurd (ground arith)
    | inr (pos k, parsed) ↦
        let fits = law (trimmed_env h key) k parsed in
        elim (Bool-cases (ltb k 1)) [
          | inl small ↦ absurd (ground arith)
          | inr large ↦ (ground arith, ground arith)
        ]
    | inr (negsuc k, parsed) ↦ absurd (ground arith)
  ]
]

base64_key_env-long :
    (h : Host) (key : String) (minimum : ℕ) (bytes : Bytes)
    → base64_key_env h key minimum ≡ loaded bytes
    → minimum ≤ length bytes
unfolding base64_key_env
base64_key_env-long h key minimum bytes found = elim (Bool-cases (trimmed_env h key == "")) [
  | inl unset ↦ absurd (ground arith)
  | inr set ↦ elim (Option-cases (h.std_decode (trimmed_env h key))) [
    | inl bad ↦ absurd (ground arith)
    | inr (decoded, parsed) ↦ elim (Bool-cases (ltb (length decoded) minimum)) [
      | inl short ↦ absurd (ground arith)
      | inr long ↦ ground arith
    ]
  ]
]

csv_env-filled :
    (h : Host) (key : String) (fallback : List String)
    → All (λ item. (item == "") ≡ false) fallback
    → All (λ item. (item == "") ≡ false) (csv_env h key fallback)
unfolding csv_env
csv_env-filled h key fallback default = elim (Bool-cases (trimmed_env h key == "")) [
  | inl unset ↦ rw unset default
  | inr set ↦ rw set (csv_items-filled (split b',' (trimmed_env h key)))
]

string_env-filled :
    (h : Host) (key fallback : String)
    → (fallback == "") ≡ false
    → (string_env h key fallback == "") ≡ false
unfolding string_env
string_env-filled h key fallback default = elim (Bool-cases (trimmed_env h key == "")) [
  | inl unset ↦ rw unset default
  | inr set ↦ rw set set
]

bind-eq-loaded :
    {A B : Type 0} (m : Loaded A) (f : A → Loaded B) (b : B)
    → (m >>= f) ≡ loaded b
    → (a : A) × (m ≡ loaded a) × (f a ≡ loaded b)
unfolding ◌>>=◌
bind-eq-loaded (loaded a) f b h = (a, refl, h)
bind-eq-loaded (invalid key) f b h = cc

invalid_if-eq-loaded :
    (test : Bool) (key : String) (u : Unit) → invalid_if test key ≡ loaded u → test ≡ false
invalid_if-eq-loaded test key u h = ground arith

abbrev config_or : Config → Loaded Config → Config
config_or cfg (loaded c) = c
config_or cfg (invalid key) = cfg

abbrev pub IsUsable : Config → Type 0
IsUsable cfg =
    ((cfg.database_url == "") ≡ false)
    × (1 ≤ cfg.database_max_connections)
    × (cfg.database_max_connections < 2 ^ 31)
    × (1 ≤ cfg.database_connect_timeout)
    × (1 ≤ cfg.shutdown_timeout)
    × (1 ≤ cfg.session_ttl)
    × (1 ≤ cfg.password_reset_ttl)
    × (32 ≤ length cfg.data_encryption_key)
    × (32 ≤ length cfg.data_lookup_key)
    × All (λ origin. (origin == "") ≡ false) cfg.allowed_origins
    × ((not (cfg.environment == "development") && cfg.smtp_address == "") ≡ false)
    × ((trim_space cfg.app_base_url == "") ≡ false)

base_url-filled :
    (h : Host) (key : String)
    → (trim_space (string_env h key "http://localhost:3000") == "") ≡ false
unfolding string_env trim_space trim_left trim_right is_space
base_url-filled h key = elim (Bool-cases (trimmed_env h key == "")) [
  | inl unset ↦ rw unset refl
  | inr set ↦ rw set (trim_space-filled (h.getenv key) set)
]

-- A configuration that loads is within these bounds: there is a database URL; the pool has between 1 and
-- 2^31 - 1 connections; all timeouts and times to live are positive; both keys have at least 32
-- bytes; no allowed origin is empty; there is an SMTP server, except in development; and the
-- base URL of links is not blank. (ParseInt
-- gives no number beyond the 32 bits it is asked for.)
pub load-valid :
    (h : Host) (cfg : Config)
    → ((t : String) (k : ℕ) → h.parse_int32 t ≡ some (pos k) → k < 2 ^ 31)
    → load h ≡ loaded cfg
    → IsUsable cfg
unfolding load
load-valid h cfg law found =
    let (u, has_url, found) = bind-eq-loaded _ _ cfg found in
    let (connections, c, found) = bind-eq-loaded _ _ cfg found in
    let (connect, d, found) = bind-eq-loaded _ _ cfg found in
    let (shutdown, s, found) = bind-eq-loaded _ _ cfg found in
    let (ttl, t, found) = bind-eq-loaded _ _ cfg found in
    let (reset, r, found) = bind-eq-loaded _ _ cfg found in
    let (key, k, found) = bind-eq-loaded _ _ cfg found in
    let (look, l, found) = bind-eq-loaded _ _ cfg found in
    let (secure, b, found) = bind-eq-loaded _ _ cfg found in
    let (v, has_mail, found) = bind-eq-loaded _ _ cfg found in
    let (low, high) =
      int32_env-fits h "DATABASE_MAX_CONNECTIONS" connections 10 law (omega arith) (omega arith)
        c in
    let connect_ok = duration_env-positive h _ connect _ (omega arith) d in
    let shutdown_ok = duration_env-positive h _ shutdown _ (omega arith) s in
    let ttl_ok = duration_env-positive h _ ttl _ (omega arith) t in
    let reset_ok = duration_env-positive h _ reset _ (omega arith) r in
    let key_ok = base64_key_env-long h _ 32 key k in
    let look_ok = base64_key_env-long h _ 32 look l in
    let origins =
      csv_env-filled h "CORS_ALLOWED_ORIGINS" ("http://localhost:3000" ∷ []) (refl, tt) in
    let url = invalid_if-eq-loaded _ _ u has_url in
    let mail = invalid_if-eq-loaded _ _ v has_mail in
    let same = ap (config_or cfg) found in
    subst IsUsable same (
      url,
      low,
      high,
      connect_ok,
      shutdown_ok,
      ttl_ok,
      reset_ok,
      key_ok,
      look_ok,
      origins,
      mail,
      base_url-filled h "APP_BASE_URL",
    )
