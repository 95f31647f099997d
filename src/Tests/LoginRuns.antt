-- ===== src/Tests/LoginRuns.antt =====
-- The theorems on logins on the example database.
use pocket_mvp_backend.Prelude.{
  ◌≡◌, refl, sym, subst, false, true, some, List, [], ◌∷◌, find, arith, bytes_eq, ℕ,
}
use pocket_mvp_backend.Faults.{Error, IdentityError, identity}
use pocket_mvp_backend.Platform.{Env}
use pocket_mvp_backend.Schema.{UserRow, AttemptRow, AccountRole}
use pocket_mvp_backend.Effects.{
  State, ok, err, ◌>>=◌, pure, ask, or_fail, fail_if, exec, external, query, statement, read_random,
  transaction, uuid_arg,
}
use pocket_mvp_backend.GoText.{is_space, trim_space, trim_left, trim_right, to_lower, contains_code}
use pocket_mvp_backend.Security.Data.{lookup, normalize_email, decrypt}
use pocket_mvp_backend.Security.Password.{verify_password, encoded_hash}
use pocket_mvp_backend.Security.Password.Scan.{split, scan_version, scan_parameters}
use pocket_mvp_backend.Security.Session.{new_session_token, hash_session_token}
use pocket_mvp_backend.Identity.Model.{User, Session, LoginInput}
use pocket_mvp_backend.Identity.Validation.{valid_email, normalized_ip}
use pocket_mvp_backend.Identity.Persistence.{
  has_lookup, find_user_by_lookup, create_session, storable_session, insert_session, decrypt_user,
  decrypt_phone,
}
use pocket_mvp_backend.Identity.Throttle.{is_attempt, login_blocked}
use pocket_mvp_backend.Identity.Throttle.Window.{after_failures, counted, after_failures-counted}
use pocket_mvp_backend.Identity.Sessions.{session_user}
use pocket_mvp_backend.Identity.Service.{
  password_matches, malformed_login, open_login, decide_login, login,
}
use pocket_mvp_backend.Identity.Refusal.{
  login_lookup, login_ip, is_blocked, accepts, EndsWith, login-uniform,
}
use pocket_mvp_backend.Identity.Lockout.{run_logins, IsWrong, login-locked_out}
use pocket_mvp_backend.Identity.Admission.{login-opens_session}
use pocket_mvp_backend.Access.{list_capabilities}
use pocket_mvp_backend.Access.Owner.{list_capabilities-ReadsOnly}
use pocket_mvp_backend.Tests.Platform.{platform, at, codes, encode, fit}
use pocket_mvp_backend.Tests.Scene.{service, start, database, password, hash_of}

abbrev right : LoginInput
right = record { email = "!"; password = password; user_agent = []; ip_address = "ip" }

abbrev wrong : LoginInput
wrong = record { email = "?"; password = "x"; user_agent = []; ip_address = "ip" }

after_failures-counted_example :
    find (is_attempt (codes "?") "ip") (after_failures (codes "?") "ip" (100 ∷ 200 ∷ []) [])
    ≡ some (counted (codes "?") "ip" 100 200 2)
after_failures-counted_example =
    after_failures-counted (codes "?") "ip" 100 (200 ∷ []) [] refl (omega arith, tt)

right_formed : malformed_login platform right ≡ false
unfolding malformed_login valid_email normalize_email trim_space trim_left trim_right is_space
    to_lower contains_code
right_formed = refl

wrong_formed : malformed_login platform wrong ≡ false
unfolding malformed_login valid_email normalize_email trim_space trim_left trim_right is_space
    to_lower contains_code
wrong_formed = refl

wrong_key : (e : ℕ) → login_lookup service (at e) wrong ≡ codes "?"
unfolding lookup normalize_email trim_space trim_left trim_right is_space to_lower
wrong_key e = refl

wrong_place : (e : ℕ) → login_ip (at e) wrong ≡ "ip"
unfolding normalized_ip trim_space trim_left trim_right is_space
wrong_place e = refl

wrong_refused : accepts (at 100) wrong (codes "?") database.users ≡ false
unfolding bytes_eq
wrong_refused = refl

-- The example database without its accounts.
abbrev nobody : State
nobody = record start { db = record database { users = [] } }

login-uniform_example :
    (x : Error) × (attempts : List AttemptRow) × EndsWith service wrong (at 100) start x attempts
    × EndsWith service wrong (at 100) nobody x attempts
login-uniform_example =
    login-uniform service wrong (at 100) start nobody (λ n. refl) refl
      (subst (λ k. accepts (at 100) wrong k database.users ≡ false) (sym (wrong_key 100))
        wrong_refused)
      refl

wrong-IsWrong : (now : ℕ) → IsWrong service (codes "?") "ip" database.users (at now, wrong)
unfolding bytes_eq
wrong-IsWrong now = record {
  formed = wrong_formed;
  works = λ n. refl;
  keyed = wrong_key now;
  placed = wrong_place now;
  refused = refl;
}

abbrev tries : List (Env × LoginInput)
tries = (at 200, wrong) ∷ (at 300, wrong) ∷ (at 400, wrong) ∷ (at 500, wrong) ∷ []

login-locked_out_example :
    (login service wrong (at 600) (run_logins service ((at 100, wrong) ∷ tries) start)).0
    ≡ err (identity IdentityError.too_many_attempts)
login-locked_out_example =
    login-locked_out service (codes "?") "ip" (at 100, wrong) tries start (at 600) wrong refl refl
      (
        wrong-IsWrong 100,
        (wrong-IsWrong 200, (wrong-IsWrong 300, (wrong-IsWrong 400, (wrong-IsWrong 500, tt)))),
      )
      (omega arith, (omega arith, (omega arith, (omega arith, tt)))) wrong_formed (λ n. refl)
      (wrong_key 600) (wrong_place 600) (omega arith)

abbrev account : User
account = record {
  id = "u";
  email = "!";
  first_name = "!";
  last_name = "!";
  phone = "";
  role = AccountRole.customer;
  capabilities = "customer" ∷ "owner" ∷ [];
  avatar_version = 0;
}

abbrev opened : Session
opened = record { token = encode (fit 32 (4 ∷ [])); expires_at = 1100 }

login_runs : (login service right (at 100) start).0 ≡ ok (account, opened)
unfolding login malformed_login valid_email normalize_email trim_space trim_left trim_right is_space
    to_lower contains_code lookup normalized_ip ◌>>=◌ pure ask or_fail fail_if exec external query
    statement read_random transaction uuid_arg login_blocked find_user_by_lookup password_matches
    verify_password split scan_version scan_parameters encoded_hash hash_of bytes_eq decide_login
    decrypt_user decrypt_phone decrypt open_login create_session new_session_token
    hash_session_token storable_session insert_session list_capabilities
login_runs = refl

login-opens_session_example :
    (u : UserRow) × (find (has_lookup (login_lookup service (at 100) right)) database.users
      ≡ some u)
    × (password_matches platform password u.password_hash ≡ true)
    × (is_blocked 100 (login_lookup service (at 100) right) (login_ip (at 100) right) database
        ≡ false)
    × (account.id ≡ u.id)
    × (session_user 1099
          (hash_session_token platform opened.token)
          (login service right (at 100) start).1.db
        ≡ some u)
login-opens_session_example =
    login-opens_session service right (at 100) start account opened 1099 list_capabilities-ReadsOnly
      (refl, (refl, tt)) login_runs (omega arith)
