-- ===== src/Identity/Throttle.antt =====
-- The login throttling of internal/modules/identity/persistence.go: `loginBlocked` and
-- `recordFailure` over the table auth_login_attempts.
pub mod Window
use pocket_mvp_backend.Prelude.{
  ℕ, ◌+◌, ◌*◌, Bool, true, false, ◌&&◌, not, Option, none, some, String, Bytes, List, [], ◌∷◌, find,
  ltb, leb, bytes_eq, if◌then◌else◌, ◌==◌,
}
use pocket_mvp_backend.Schema.{AttemptRow, Database}
use pocket_mvp_backend.Effects.{Op, query, exec}

abbrev pub is_attempt : Bytes → String → AttemptRow → Bool
is_attempt lookup ip a = bytes_eq a.email_lookup lookup && a.ip_address == ip

-- `COALESCE(blocked_until > now(), false)`
abbrev pub blocked_at : ℕ → AttemptRow → Bool
blocked_at now a = elim a.blocked_until [ none ↦ false | some until ↦ ltb now until ]

abbrev pub blocked_row : ℕ → Option AttemptRow → Bool
blocked_row now none = false
blocked_row now (some a) = blocked_at now a

unfoldable pub login_blocked : Bytes → String → Op Bool
login_blocked lookup ip =
    query (λ e db. blocked_row e.db_now (find (is_attempt lookup ip) db.attempts))

-- interval '15 minutes', in microseconds
abbrev pub login_window : ℕ
login_window = 15 * 60 * 1000000

abbrev pub max_failures : ℕ
max_failures = 5

-- `window_started_at < now() - interval '15 minutes'`
abbrev pub window_over : ℕ → AttemptRow → Bool
window_over now a = ltb (a.window_started_at + login_window) now

-- The `DO UPDATE SET` of the upsert.
unfoldable pub next_attempt : ℕ → AttemptRow → AttemptRow
next_attempt now a = record a {
  failure_count = if window_over now a then 1 else a.failure_count + 1;
  window_started_at = if window_over now a then now else a.window_started_at;
  blocked_until =
      if not (window_over now a) && leb max_failures (a.failure_count + 1)
      then some (now + login_window)
      else none;
}

abbrev pub first_attempt : ℕ → Bytes → String → AttemptRow
first_attempt now lookup ip = record {
  email_lookup = lookup;
  ip_address = ip;
  failure_count = 1;
  window_started_at = now;
  blocked_until = none;
}

-- `INSERT … ON CONFLICT (email_lookup, ip_address) DO UPDATE`
unfoldable pub upsert_attempt : ℕ → Bytes → String → List AttemptRow → List AttemptRow
upsert_attempt now lookup ip [] = first_attempt now lookup ip ∷ []
upsert_attempt now lookup ip (a ∷ rest) =
    if is_attempt lookup ip a
    then next_attempt now a ∷ rest
    else a ∷ upsert_attempt now lookup ip rest

unfoldable pub record_failure : Bytes → String → Op Unit
unfolding upsert_attempt
record_failure lookup ip =
    exec (λ e db. record db { attempts = upsert_attempt e.db_now lookup ip db.attempts })
