-- ===== src/Tests/AccountRuns.antt =====
-- The theorems on password resets and changes, sessions and atomicity, on the example database.
use pocket_mvp_backend.Prelude.{◌≡◌, ◌≢◌, refl, true, some, String, [], ◌∷◌, find, bytes_eq, ◌==◌}
use pocket_mvp_backend.Schema.{UserRow, AccountRole}
use pocket_mvp_backend.Effects.{
  State, ok, ◌>>=◌, pure, ask, fail_if, exec, external, query, query_row, on_error, read_random,
  transaction, uuid_arg, or_fail,
}
use pocket_mvp_backend.Effects.Rules.{AllOrNothing}
use pocket_mvp_backend.GoText.{is_space}
use pocket_mvp_backend.Security.Password.{hash_password, verify_password, encoded_hash}
use pocket_mvp_backend.Security.Password.Scan.{split, scan_version, scan_parameters}
use pocket_mvp_backend.Security.Session.{hash_session_token}
use pocket_mvp_backend.Security.Data.{decrypt}
use pocket_mvp_backend.Identity.Model.{
  User, RegisterInput, PasswordResetConfirmation, ChangePasswordInput,
}
use pocket_mvp_backend.Identity.Validation.{valid_password}
use pocket_mvp_backend.Identity.Sessions.{session_user, authenticate, logout}
use pocket_mvp_backend.Identity.PasswordReset.{reset_password, redeem, set_password}
use pocket_mvp_backend.Identity.PasswordChange.{change_password, password_change}
use pocket_mvp_backend.Identity.Account.{confirm_password}
use pocket_mvp_backend.Identity.Persistence.{with_capabilities, decrypt_user, decrypt_phone}
use pocket_mvp_backend.Identity.Service.{register, password_matches}
use pocket_mvp_backend.Identity.Sessions.Logout.{logout-ends_session}
use pocket_mvp_backend.Identity.Revocation.{
  reset_password-ends_sessions, reset_password-single_use, reset_password-sets_password,
}
use pocket_mvp_backend.Identity.PasswordChange.Kept.{
  change_password-ends_others, change_password-keeps_current,
}
use pocket_mvp_backend.Identity.Atomicity.{account_changes-AllOrNothing}
use pocket_mvp_backend.Access.{list_capabilities}
use pocket_mvp_backend.Tests.Platform.{platform, at, at-IsLawful}
use pocket_mvp_backend.Tests.Scene.{service, start, password, reset, reset_token, user, hash_of}

abbrev new_password : String
new_password = "############"

abbrev confirmation : PasswordResetConfirmation
confirmation = record { token = reset_token; password = new_password }

abbrev reset_state : State
reset_state = (reset_password service confirmation (at 100) start).1

-- It succeeds.
reset_runs : (reset_password service confirmation (at 100) start).0 ≡ ok tt
unfolding reset_password redeem hash_password valid_password hash_session_token ◌>>=◌ ask fail_if
    exec external query_row on_error read_random transaction
reset_runs = refl

-- The other user's session is still open afterwards.
abbrev other_user : User
other_user = record {
  id = "w";
  email = "#";
  first_name = "!";
  last_name = "!";
  phone = "";
  role = AccountRole.customer;
  capabilities = "customer" ∷ [];
  avatar_version = 0;
}

other_stays : (authenticate service "q" (at 200) reset_state).0 ≡ ok other_user
unfolding reset_password redeem hash_password valid_password hash_session_token ◌>>=◌ ask fail_if
    exec external query_row on_error read_random transaction authenticate with_capabilities
    decrypt_user decrypt_phone or_fail pure list_capabilities uuid_arg query decrypt
other_stays = refl

reset_password-ends_sessions_example : other_user.id ≢ reset.user_id
unfolding hash_session_token
reset_password-ends_sessions_example =
    reset_password-ends_sessions service confirmation (at 100) (at 200) start reset_state reset "q"
      other_user refl reset_runs refl other_stays

reset_password-single_use_example :
    (reset_password service (record confirmation { password = password }) (at 200) reset_state).0
    ≢ ok tt
reset_password-single_use_example =
    reset_password-single_use service confirmation (record confirmation { password = password })
      (at 100) (at 200) start reset_state (refl, tt) reset_runs refl refl refl

reset_password-sets_password_example :
    (u : UserRow) × (find (λ u. u.id == "u") reset_state.db.users ≡ some u)
    × (verify_password platform new_password u.password_hash ≡ some true)
unfolding hash_session_token
reset_password-sets_password_example =
    reset_password-sets_password service confirmation (at 100) start reset
      (user "u" "!" (hash_of password)) (at-IsLawful 100) refl refl reset_runs

abbrev change : ChangePasswordInput
change = record {
  user_id = "u";
  session_token = "s";
  current_password = password;
  new_password = new_password;
}

abbrev change_state : State
change_state = (change_password service change (at 100) start).1

change_runs : (change_password service change (at 100) start).0 ≡ ok tt
unfolding change_password password_change confirm_password password_matches hash_password
    valid_password hash_session_token ◌>>=◌ ask fail_if exec external query_row on_error read_random
    transaction uuid_arg verify_password hash_of split scan_version scan_parameters encoded_hash
    bytes_eq is_space
change_runs = refl

other_unchanged : (authenticate service "q" (at 200) change_state).0 ≡ ok other_user
unfolding change_password password_change confirm_password password_matches hash_password
    valid_password hash_session_token ◌>>=◌ ask fail_if exec external query_row on_error read_random
    transaction uuid_arg verify_password hash_of split scan_version scan_parameters encoded_hash
    bytes_eq is_space authenticate with_capabilities decrypt_user decrypt_phone or_fail pure
    list_capabilities query decrypt
other_unchanged = refl

change_password-ends_others_example : other_user.id ≢ change.user_id
unfolding hash_session_token
change_password-ends_others_example =
    change_password-ends_others service change (at 100) (at 200) start change_state "u" "q"
      other_user refl change_runs refl refl other_unchanged

change_password-keeps_current_example :
    (h : String) × (verify_password platform new_password h ≡ some true)
    × (session_user 200 "s" change_state.db
        ≡ some (set_password h (user "u" "!" (hash_of password))))
unfolding hash_session_token
change_password-keeps_current_example =
    change_password-keeps_current service change (at 100) start "u" 200
      (user "u" "!" (hash_of password)) (at-IsLawful 100) refl change_runs refl

abbrev newcomer : RegisterInput
newcomer = record {
  first_name = "A";
  last_name = "B";
  email = "c";
  phone = "";
  password = password;
  user_agent = [];
  ip_address = "ip";
}

account_changes-AllOrNothing_example :
    AllOrNothing (register service newcomer) (at 100) start
    × AllOrNothing (reset_password service confirmation) (at 100) start
    × AllOrNothing (change_password service change) (at 100) start
account_changes-AllOrNothing_example =
    account_changes-AllOrNothing service newcomer confirmation change (at 100) start

abbrev logout_state : State
logout_state = (logout service "s" (at 100) start).1

logout_runs : (logout service "s" (at 100) start).0 ≡ ok tt
unfolding logout exec external
logout_runs = refl

logout-ends_session_example : (authenticate service "s" (at 200) logout_state).0 ≢ ok other_user
logout-ends_session_example =
    logout-ends_session service "s" (at 100) (at 200) start logout_state other_user refl logout_runs
      refl refl
