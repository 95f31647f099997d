-- ===== src/Identity/PasswordChange.antt =====
-- internal/modules/identity/password_change.go
pub mod Sessions
pub mod Kept
use pocket_mvp_backend.Prelude.{Bool, ◌&&◌, ◌||◌, not, String, update_where, if◌then◌else◌, ◌==◌}
use pocket_mvp_backend.Faults.{IdentityError, identity}
use pocket_mvp_backend.Effects.{Op, fail_if, ask, exec, uuid_arg, transaction, ◌>>=◌, ◌>>◌}
use pocket_mvp_backend.Security.Password.{hash_password}
use pocket_mvp_backend.Security.Session.{hash_session_token}
use pocket_mvp_backend.Identity.Model.{ChangePasswordInput, Service}
use pocket_mvp_backend.Identity.Validation.{valid_password}
use pocket_mvp_backend.Identity.Sessions.{revoke}
use pocket_mvp_backend.Identity.Account.{unfit_password, confirm_password}
use pocket_mvp_backend.Identity.PasswordReset.{set_password, consume_once, is_session_of}

-- The transaction of `ChangePassword`.
unfoldable pub password_change : String → String → String → String → Op Unit
password_change id current_password new_password kept_hash = do
  confirm_password id current_password
  new_hash ← hash_password new_password
  exec (λ e db. record db {
    users = update_where (λ u. u.id == id) (set_password new_hash) db.users;
  })
  exec (λ e db. record db {
    sessions =
        update_where (λ r. is_session_of id r && not (r.refresh_token_hash == kept_hash))
          (revoke e.db_now) db.sessions;
  })
  exec (λ e db. record db {
    resets = update_where (λ t. t.user_id == id) (consume_once e.db_now) db.resets;
  })

unfoldable pub change_password : Service → ChangePasswordInput → Op Unit
change_password svc input = do
  fail_if
      (input.user_id == ""
        || input.session_token == ""
        || unfit_password input.current_password
        || not (valid_password input.new_password))
      (identity IdentityError.invalid_input)
  id ← uuid_arg input.user_id
  e ← ask
  transaction (
      password_change id input.current_password input.new_password
        (hash_session_token e.platform input.session_token))
