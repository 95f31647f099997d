-- ===== src/Identity/Throttle/Window.antt =====
-- The counting of failed logins, row by row.
use pocket_mvp_backend.Prelude.{
  ℕ, ◌+◌, ◌≤◌, ◌≡◌, refl, inl, inr, Bool-cases, Option, none, some, String, Bytes, List, [], ◌∷◌,
  find, All, length, leb, bytes_eq_refl, arith, eq_refl, if◌then◌else◌,
}
use pocket_mvp_backend.Schema.{AttemptRow}
use pocket_mvp_backend.Identity.Throttle.{
  is_attempt, login_window, max_failures, next_attempt, first_attempt, upsert_attempt,
}

-- What a failure makes of the row of its key.
abbrev pub bumped : ℕ → Bytes → String → Option AttemptRow → AttemptRow
bumped now email_lookup ip none = first_attempt now email_lookup ip
bumped now email_lookup ip (some a) = next_attempt now a

is_attempt-next_attempt :
    (l : Bytes) (ip : String) (now : ℕ) (a : AttemptRow)
    → is_attempt l ip (next_attempt now a) ≡ is_attempt l ip a
unfolding next_attempt
is_attempt-next_attempt l ip now a = refl

-- The upsert changes the row of its key as `bumped` says.
pub find-upsert_attempt :
    (now : ℕ) (l : Bytes) (ip : String) (rows : List AttemptRow)
    → find (is_attempt l ip) (upsert_attempt now l ip rows)
      ≡ some (bumped now l ip (find (is_attempt l ip) rows))
unfolding upsert_attempt
find-upsert_attempt now l ip [] = ground (arith, bytes_eq_refl l, eq_refl ip)
find-upsert_attempt now l ip (a ∷ rows) = elim (Bool-cases (is_attempt l ip a)) [
  | inl hit ↦ ground (arith, is_attempt-next_attempt l ip now a)
  | inr miss ↦ ground (arith, find-upsert_attempt now l ip rows)
]

-- The rows after failures of one key at these times, first to last.
unfoldable pub after_failures : Bytes → String → List ℕ → List AttemptRow → List AttemptRow
after_failures l ip [] rows = rows
after_failures l ip (now ∷ later) rows = after_failures l ip later (upsert_attempt now l ip rows)

-- The row of a key whose window began at `start` and whose last of `n` failures was at `last`.
abbrev pub counted : Bytes → String → ℕ → ℕ → ℕ → AttemptRow
counted l ip start last n = record {
  email_lookup = l;
  ip_address = ip;
  failure_count = n;
  window_started_at = start;
  blocked_until = if leb max_failures n then some (last + login_window) else none;
}

pub next_attempt-counted :
    (l : Bytes) (ip : String) (start last now n : ℕ)
    → now ≤ start + login_window
    → next_attempt now (counted l ip start last n) ≡ counted l ip start now (n + 1)
unfolding next_attempt
next_attempt-counted l ip start last now n h = ground arith

abbrev pub last_of : ℕ → List ℕ → ℕ
last_of now [] = now
last_of now (later ∷ rest) = last_of later rest

failures_counted :
    (l : Bytes) (ip : String) (start last n : ℕ) (later : List ℕ) (rows : List AttemptRow)
    → All (λ now. now ≤ start + login_window) later
    → find (is_attempt l ip) rows ≡ some (counted l ip start last n)
    → find (is_attempt l ip) (after_failures l ip later rows)
      ≡ some (counted l ip start (last_of last later) (n + length later))
unfolding after_failures
failures_counted l ip start last n [] rows h e = ground arith
failures_counted l ip start last n (now ∷ later) rows (fits, h) e =
    let bumps : find (is_attempt l ip) (upsert_attempt now l ip rows)
        ≡ some (counted l ip start now (n + 1)) =
      ground (
        arith,
        find-upsert_attempt now l ip rows,
        next_attempt-counted l ip start last now n fits,
      ) in
    ground
      (arith, failures_counted l ip start now (n + 1) later (upsert_attempt now l ip rows) h bumps)

-- Failures of a key with no row yet, within fifteen minutes of the first, are counted exactly, and
-- the key is blocked from the fifth on, until fifteen minutes after the last.
pub after_failures-counted :
    (l : Bytes) (ip : String) (start : ℕ) (later : List ℕ) (rows : List AttemptRow)
    → find (is_attempt l ip) rows ≡ none
    → All (λ now. now ≤ start + login_window) later
    → find (is_attempt l ip) (after_failures l ip (start ∷ later) rows)
      ≡ some (counted l ip start (last_of start later) (1 + length later))
unfolding after_failures
after_failures-counted l ip start later rows fresh h =
    failures_counted l ip start start 1 later (upsert_attempt start l ip rows) h
      (ground (arith, find-upsert_attempt start l ip rows))
