-- ===== src/Identity/Lockout.antt =====
-- Login throttling from outside: several logins, one after the other, on one key.
use pocket_mvp_backend.Prelude.{
  ℕ, ◌+◌, ◌≤◌, ◌<◌, ◌≡◌, sym, subst, true, false, none, some, String, Bytes, List, [], ◌∷◌, find,
  All, length, arith,
}
use pocket_mvp_backend.Faults.{IdentityError, identity}
use pocket_mvp_backend.Platform.{Env}
use pocket_mvp_backend.Schema.{UserRow}
use pocket_mvp_backend.Effects.{State, err}
use pocket_mvp_backend.Identity.Model.{LoginInput, Service}
use pocket_mvp_backend.Identity.Throttle.{is_attempt, login_window, max_failures, upsert_attempt}
use pocket_mvp_backend.Identity.Throttle.Window.{
  counted, last_of, find-upsert_attempt, next_attempt-counted,
}
use pocket_mvp_backend.Identity.Service.{malformed_login, login}
use pocket_mvp_backend.Identity.Refusal.{
  login_lookup, login_ip, is_blocked, accepts, login-blocked, login-refused,
}

-- Logins one after the other, each with its own clocks and faults.
unfoldable pub run_logins : Service → List (Env × LoginInput) → State → State
run_logins svc [] s = s
run_logins svc ((e, input) ∷ rest) s = run_logins svc rest (login svc input e s).1

abbrev pub times : List (Env × LoginInput) → List ℕ
times [] = []
times ((e, input) ∷ rest) = e.db_now ∷ times rest

-- A well-formed login on the key `l`, `ip` that the accounts `users` do not accept, with no fault.
pub record IsWrong (svc : Service) (l : Bytes) (ip : String) (users : List UserRow)
    (r : Env × LoginInput) : Type 0 where
  pub formed : malformed_login r.0.platform r.1 ≡ false
  pub works : (n : ℕ) → r.0.fault n ≡ false
  pub keyed : login_lookup svc r.0 r.1 ≡ l
  pub placed : login_ip r.0 r.1 ≡ ip
  pub refused : accepts r.0 r.1 l users ≡ false

module _ (svc : Service) (l : Bytes) (ip : String) where
  -- One wrong login on a key that is not blocked.
  wrong_login :
      (e : Env) (input : LoginInput) (s : State)
      → IsWrong svc l ip s.db.users (e, input)
      → is_blocked e.db_now l ip s.db ≡ false
      → (login svc input e s).1.db
        ≡ record s.db { attempts = upsert_attempt e.db_now l ip s.db.attempts }
  wrong_login e input s w unblocked =
      let refusal =
        login-refused svc input e s w.formed w.works
          (subst (λ k. is_blocked e.db_now k (login_ip e input) s.db ≡ false) (sym w.keyed)
            (subst (λ k. is_blocked e.db_now l k s.db ≡ false) (sym w.placed) unblocked))
          (subst (λ k. accepts e input k s.db.users ≡ false) (sym w.keyed) w.refused) in
      subst
        (λ k.
          (login svc input e s).1.db
          ≡ record s.db { attempts = upsert_attempt e.db_now k ip s.db.attempts })
        w.keyed
        (subst
          (λ k. (login svc input e s).1.db ≡ record s.db {
            attempts = upsert_attempt e.db_now (login_lookup svc e input) k s.db.attempts;
          })
          w.placed refusal.1)

  -- Up to the fifth, each wrong login is counted.
  wrong_logins-counted :
      (runs : List (Env × LoginInput)) (s : State) (start last n : ℕ)
      → n + length runs ≤ max_failures
      → All (IsWrong svc l ip s.db.users) runs
      → All (λ now. now ≤ start + login_window) (times runs)
      → find (is_attempt l ip) s.db.attempts ≡ some (counted l ip start last n)
      → find (is_attempt l ip) (run_logins svc runs s).db.attempts
        ≡ some (counted l ip start (last_of last (times runs)) (n + length runs))
  unfolding run_logins
  wrong_logins-counted [] s start last n few wrong fits e = ground arith
  wrong_logins-counted ((env, input) ∷ rest) s start last n few (w, ws) (fit, fits) e =
      let now = env.db_now in
      let after = wrong_login env input s w (ground arith) in
      let s' = (login svc input env s).1 in
      let bumps : find (is_attempt l ip) (upsert_attempt now l ip s.db.attempts)
          ≡ some (counted l ip start now (n + 1)) =
        ground (
          arith,
          find-upsert_attempt now l ip s.db.attempts,
          next_attempt-counted l ip start last now n fit,
        ) in
      let found' =
        subst (λ d. find (is_attempt l ip) d.attempts ≡ some (counted l ip start now (n + 1)))
          (sym after) bumps in
      let ws' = subst (λ d. All (IsWrong svc l ip d.users) rest) (sym after) ws in
      ground (arith, wrong_logins-counted rest s' start now (n + 1) (omega arith) ws' fits found')

  -- Five well-formed wrong logins on a key that has no recorded failure yet, the later four within
  -- fifteen minutes of the first, lock the key: until fifteen minutes after the last of them a
  -- well-formed login on it fails with ErrTooManyAttempts, whether its password is right or wrong.
  -- (No call of these logins to the outside fails, and no other login comes between them.)
  pub login-locked_out :
      (first : Env × LoginInput) (rest : List (Env × LoginInput)) (s : State) (e : Env)
      (input : LoginInput)
      → length rest ≡ 4
      → find (is_attempt l ip) s.db.attempts ≡ none
      → All (IsWrong svc l ip s.db.users) (first ∷ rest)
      → All (λ now. now ≤ first.0.db_now + login_window) (times rest)
      → malformed_login e.platform input ≡ false
      → ((n : ℕ) → e.fault n ≡ false)
      → login_lookup svc e input ≡ l
      → login_ip e input ≡ ip
      → e.db_now < last_of first.0.db_now (times rest) + login_window
      → (login svc input e (run_logins svc (first ∷ rest) s)).0
        ≡ err (identity IdentityError.too_many_attempts)
  unfolding run_logins
  login-locked_out (env, typed) rest s e input four fresh (w, ws) fits formed works keyed placed
        soon =
      let start = env.db_now in
      let after = wrong_login env typed s w (ground arith) in
      let s' = (login svc typed env s).1 in
      let bumps : find (is_attempt l ip) (upsert_attempt start l ip s.db.attempts)
          ≡ some (counted l ip start start 1) =
        ground (arith, find-upsert_attempt start l ip s.db.attempts) in
      let found' =
        subst (λ d. find (is_attempt l ip) d.attempts ≡ some (counted l ip start start 1))
          (sym after) bumps in
      let ws' = subst (λ d. All (IsWrong svc l ip d.users) rest) (sym after) ws in
      let s'' = run_logins svc rest s' in
      let found = wrong_logins-counted rest s' start start 1 (omega arith) ws' fits found' in
      let blocked : is_blocked e.db_now l ip s''.db ≡ true = ground arith in
      (login-blocked svc input e s'' formed (works s''.calls) (
        subst (λ k. is_blocked e.db_now k (login_ip e input) s''.db ≡ true) (sym keyed)
          (subst (λ k. is_blocked e.db_now l k s''.db ≡ true) (sym placed) blocked))).0
