-- ===== src/Identity/Sessions.antt =====
-- The rest of internal/modules/identity/service.go: what a session token gives access to.
pub mod Access
pub mod Logout
use pocket_mvp_backend.Prelude.{
  ℕ, Bool, ◌&&◌, ◌||◌, not, Option, none, some, String, List, find, find_map, update_where, ltb,
  if◌then◌else◌, ◌==◌,
}
use pocket_mvp_backend.Faults.{IdentityError, identity, no_rows_as}
use pocket_mvp_backend.Schema.{UserRow, SessionRow, Database, is_null}
use pocket_mvp_backend.Effects.{
  Op, pure, fail, fail_if, ask, query_row, exec, statement, Statement, no_row, done, on_error,
  uuid_arg, ◌>>=◌, ◌>>◌,
}
use pocket_mvp_backend.GoText.{trim_space}
use pocket_mvp_backend.Security.Session.{hash_session_token}
use pocket_mvp_backend.Identity.Model.{UpdateProfileInput, User, Service}
use pocket_mvp_backend.Identity.Validation.{valid_profile_update}
use pocket_mvp_backend.Identity.Persistence.{
  EncryptedUser, EncryptedProfile, encrypt_profile, is_active, is_active_id, encrypted_user,
  map_option, with_capabilities,
}

-- `s.revoked_at IS NULL AND s.expires_at > now()`
abbrev pub is_live : ℕ → SessionRow → Bool
is_live now r = is_null r.revoked_at && ltb now r.expires_at

-- The row of `user_sessions JOIN users` for this session.
abbrev pub joined_user : ℕ → String → Database → SessionRow → Option UserRow
joined_user now token_hash db r =
    if r.refresh_token_hash == token_hash && is_live now r
    then find (is_active_id r.user_id) db.users
    else none

abbrev pub session_user : ℕ → String → Database → Option UserRow
session_user now token_hash db = find_map (joined_user now token_hash db) db.sessions

unfoldable pub authenticate : Service → String → Op User
authenticate svc token = if token == "" then fail (identity IdentityError.unauthorized) else do
  row ←
      on_error
        (query_row (λ e db.
          map_option encrypted_user
            (session_user e.db_now (hash_session_token e.platform token) db)))
        (no_rows_as (identity IdentityError.unauthorized))
  with_capabilities svc row

-- An `UPDATE users SET … WHERE id = … AND status = 'active' AND deleted_at IS NULL RETURNING …`.
unfoldable pub update_active_user :
    String → (UserRow → UserRow) → Database → Statement EncryptedUser
update_active_user id change db = elim (find (is_active_id id) db.users) [
  | none ↦ no_row
  | some u ↦
      done (encrypted_user (change u))
        (record db { users = update_where (is_active_id id) change db.users })
]

abbrev pub set_profile : EncryptedProfile → UserRow → UserRow
set_profile p u = record u { first_name = p.first_name; last_name = p.last_name; phone = p.phone }

unfoldable pub update_profile : Service → String → UpdateProfileInput → Op User
update_profile svc user_id raw = do
  let input : UpdateProfileInput = record {
    first_name = trim_space raw.first_name;
    last_name = trim_space raw.last_name;
    phone = trim_space raw.phone;
  }
  fail_if (user_id == "" || not (valid_profile_update input)) (identity IdentityError.invalid_input)
  encrypted ← encrypt_profile svc input
  id ← uuid_arg user_id
  row ←
      on_error (statement (λ n e db. update_active_user id (set_profile encrypted) db))
        (no_rows_as (identity IdentityError.unauthorized))
  with_capabilities svc row

-- `SET revoked_at = now() WHERE … AND revoked_at IS NULL`
abbrev pub revoke : ℕ → SessionRow → SessionRow
revoke now r = record r { revoked_at = some now }

unfoldable pub logout : Service → String → Op Unit
logout svc token =
    if token == ""
    then pure tt
    else exec (λ e db. record db {
      sessions =
          update_where
            (λ r.
              r.refresh_token_hash == hash_session_token e.platform token && is_null r.revoked_at)
            (revoke e.db_now) db.sessions;
    })
