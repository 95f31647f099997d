-- ===== src/Identity/Refusal.antt =====
-- What `Login` of internal/modules/identity/service.go answers when it refuses, and what it leaves.
use pocket_mvp_backend.Prelude.{
  ℕ, suc, ◌≡◌, ap, ◌∙◌, sym, subst, Bool, true, false, Bool-cases, none, some, Option-cases, inl,
  inr, String, Bytes, List, find, arith,
}
use pocket_mvp_backend.Faults.{Error, IdentityError, identity}
use pocket_mvp_backend.Platform.{Env}
use pocket_mvp_backend.Schema.{UserRow, AttemptRow, Database}
use pocket_mvp_backend.Effects.{State, err, ◌>>=◌, ask, fail_if, fail, query, exec, external}
use pocket_mvp_backend.Security.Data.{lookup, normalize_email}
use pocket_mvp_backend.Identity.Model.{LoginInput, Service}
use pocket_mvp_backend.Identity.Validation.{normalized_ip}
use pocket_mvp_backend.Identity.Persistence.{has_lookup, find_user_by_lookup}
use pocket_mvp_backend.Identity.Throttle.{
  is_attempt, blocked_row, login_blocked, upsert_attempt, record_failure,
}
use pocket_mvp_backend.Identity.Service.{
  password_matches, refuse_login, decide_login, malformed_login, login,
}

-- The key under which the failures of this login are counted.
abbrev pub login_lookup : Service → Env → LoginInput → Bytes
login_lookup svc e input = lookup e.platform svc.protector (normalize_email e.platform input.email)

abbrev pub login_ip : Env → LoginInput → String
login_ip e input = normalized_ip e.platform input.ip_address

abbrev pub is_blocked : ℕ → Bytes → String → Database → Bool
is_blocked now l ip db = blocked_row now (find (is_attempt l ip) db.attempts)

-- Whether an active account has the e-mail and the password.
abbrev pub accepts : Env → LoginInput → Bytes → List UserRow → Bool
accepts e input l users = elim (find (has_lookup l) users) [
  | none ↦ false
  | some u ↦ password_matches e.platform input.password u.password_hash
]

-- While the key is blocked, a well-formed login whose query works fails with ErrTooManyAttempts and
-- changes nothing, whether its password is right or wrong.
pub login-blocked :
    (svc : Service) (input : LoginInput) (e : Env) (s : State)
    → malformed_login e.platform input ≡ false
    → e.fault s.calls ≡ false
    → is_blocked e.db_now (login_lookup svc e input) (login_ip e input) s.db ≡ true
    → ((login svc input e s).0 ≡ err (identity IdentityError.too_many_attempts))
      × ((login svc input e s).1.db ≡ s.db)
unfolding login ◌>>=◌ ask fail_if login_blocked query external
login-blocked svc input e s formed works blocked = (ground arith, ground arith)

-- A well-formed wrong login on a key that is not blocked, with no fault, fails with
-- ErrInvalidCredentials, the same for an unknown e-mail and for a wrong password, and counts one
-- failure.
pub login-refused :
    (svc : Service) (input : LoginInput) (e : Env) (s : State)
    → malformed_login e.platform input ≡ false
    → ((n : ℕ) → e.fault n ≡ false)
    → is_blocked e.db_now (login_lookup svc e input) (login_ip e input) s.db ≡ false
    → accepts e input (login_lookup svc e input) s.db.users ≡ false
    → ((login svc input e s).0 ≡ err (identity IdentityError.invalid_credentials))
      × ((login svc input e s).1.db ≡ record s.db {
        attempts =
            upsert_attempt e.db_now (login_lookup svc e input) (login_ip e input) s.db.attempts;
      })
unfolding login ◌>>=◌ ask fail_if fail login_blocked find_user_by_lookup query exec external
    decide_login refuse_login record_failure
login-refused svc input e s formed works unblocked wrong =
    let n₀ = works s.calls in
    let n₁ = works (suc s.calls) in
    let n₂ = works (suc (suc s.calls)) in
    elim (Option-cases (find (has_lookup (login_lookup svc e input)) s.db.users)) [
      | inl unknown ↦ (ground arith, ground arith)
      | inr (u, known) ↦ (ground arith, ground arith)
    ]

-- How a login that is refused ends: with this error, and with these attempts in a database that is
-- otherwise as it was.
abbrev pub EndsWith : Service → LoginInput → Env → State → Error → List AttemptRow → Type 0
EndsWith svc input e s x attempts =
    ((login svc input e s).0 ≡ err x)
    × ((login svc input e s).1.db ≡ record s.db { attempts = attempts })

-- A refused login is answered alike whether or not its e-mail has an account: where no call to the
-- outside fails, the same login on two databases with the same recorded attempts, and with whatever
-- accounts that do not accept it, ends with the same error and leaves the same attempts, and
-- nothing else is changed. (A malformed login, a blocked key, an unknown e-mail and a wrong
-- password are all covered.)
pub login-uniform :
    (svc : Service) (input : LoginInput) (e : Env) (s t : State)
    → ((n : ℕ) → e.fault n ≡ false)
    → t.db.attempts ≡ s.db.attempts
    → accepts e input (login_lookup svc e input) s.db.users ≡ false
    → accepts e input (login_lookup svc e input) t.db.users ≡ false
    → (x : Error) × (attempts : List AttemptRow) × EndsWith svc input e s x attempts
      × EndsWith svc input e t x attempts
unfolding login ◌>>=◌ ask fail_if
login-uniform svc input e s t works alike wrong_s wrong_t =
    let l = login_lookup svc e input in
    let ip = login_ip e input in
    let tidy : record t.db { attempts = s.db.attempts } ≡ t.db =
      ap (λ rows. record t.db { attempts = rows }) (sym alike) in
    elim (Bool-cases (malformed_login e.platform input)) [
      | inl malformed ↦ (
        identity IdentityError.invalid_credentials,
        s.db.attempts,
        (ground arith, ground arith),
        (ground arith, ground (arith, tidy)),
      )
      | inr formed ↦ elim (Bool-cases (is_blocked e.db_now l ip s.db)) [
        | inl blocked ↦
            let blocked_t =
              subst (λ rows. blocked_row e.db_now (find (is_attempt l ip) rows) ≡ true) (sym alike)
                blocked in
            let (err_s, same_s) = login-blocked svc input e s formed (works s.calls) blocked in
            let (err_t, same_t) = login-blocked svc input e t formed (works t.calls) blocked_t in
            (
              identity IdentityError.too_many_attempts,
              s.db.attempts,
              (err_s, same_s),
              (err_t, same_t ∙ sym tidy),
            )
        | inr free ↦
            let free_t =
              subst (λ rows. blocked_row e.db_now (find (is_attempt l ip) rows) ≡ false) (sym alike)
                free in
            let (err_t, same_t) = login-refused svc input e t formed works free_t wrong_t in
            (
              identity IdentityError.invalid_credentials,
              upsert_attempt e.db_now l ip s.db.attempts,
              login-refused svc input e s formed works free wrong_s,
              (
                err_t,
                subst
                    (λ rows.
                      (login svc input e t).1.db
                      ≡ record t.db { attempts = upsert_attempt e.db_now l ip rows })
                    alike same_t,
              ),
            )
      ]
    ]
