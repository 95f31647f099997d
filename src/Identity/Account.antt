-- ===== src/Identity/Account.antt =====
-- internal/modules/identity/account.go
use pocket_mvp_backend.Prelude.{
  ℕ, ◌*◌, Bool, ◌&&◌, ◌||◌, not, Option, none, some, String, Bytes, find, exists, update_where,
  count_where, length, ltb, nat_eq, bytes_eq, if◌then◌else◌, ◌==◌,
}
use pocket_mvp_backend.Faults.{PgCode, IdentityError, identity, other, no_rows_as, duplicate_as}
use pocket_mvp_backend.Schema.{UserRow, Database, is_null}
use pocket_mvp_backend.Effects.{
  Op, pure, fail, fail_if, ask, or_fail, query_row, statement, Statement, rejected, done, on_error,
  uuid_arg, transaction, ◌>>=◌, ◌>>◌,
}
use pocket_mvp_backend.GoText.{byte_len}
use pocket_mvp_backend.Security.Data.{
  lookup, normalize_email, encrypt, encrypt_bytes, decrypt_bytes,
}
use pocket_mvp_backend.Identity.Model.{ChangeEmailInput, Avatar, User, Service}
use pocket_mvp_backend.Identity.Validation.{valid_email}
use pocket_mvp_backend.Identity.Persistence.{
  is_active_id, encrypted_user, map_option, with_capabilities,
}
use pocket_mvp_backend.Identity.Service.{password_matches}

abbrev pub max_avatar_bytes : ℕ
max_avatar_bytes = 2 * 1048576

-- `len(input.CurrentPassword) == 0 || len(input.CurrentPassword) > 128`
abbrev pub unfit_password : String → Bool
unfit_password password = nat_eq (byte_len password) 0 || ltb 128 (byte_len password)

unfoldable pub load_user : Service → String → Op User
load_user svc user_id = do
  id ← uuid_arg user_id
  row ←
      on_error (query_row (λ e db. map_option encrypted_user (find (is_active_id id) db.users)))
        (no_rows_as (identity IdentityError.unauthorized))
  with_capabilities svc row

-- `SELECT password_hash … FOR UPDATE`, and the check of the current password.
unfoldable pub confirm_password : String → String → Op Unit
confirm_password id current_password = do
  e ← ask
  current_hash ←
      on_error
        (query_row (λ e db. map_option (λ u. u.password_hash) (find (is_active_id id) db.users)))
        (no_rows_as (identity IdentityError.unauthorized))
  fail_if (not (password_matches e.platform current_password current_hash))
      (identity IdentityError.invalid_current_password)

abbrev pub set_email : String → Bytes → UserRow → UserRow
set_email email email_lookup u = record u {
  email = email;
  email_lookup = email_lookup;
  email_verified_at = none;
}

-- `UPDATE users SET email = …`, with users_email_lookup_unique.
unfoldable pub update_email : String → String → Bytes → Database → Statement Unit
update_email id email email_lookup db =
    if exists (is_active_id id) db.users
      && exists
          (λ u. not (u.id == id) && bytes_eq u.email_lookup email_lookup && is_null u.deleted_at)
          db.users
    then rejected PgCode.unique_violation
    else done tt (record db {
      users = update_where (is_active_id id) (set_email email email_lookup) db.users;
    })

-- The transaction of `ChangeEmail`.
unfoldable pub email_change : Service → String → String → String → Op Unit
email_change svc id current_password new_email = do
  e ← ask
  confirm_password id current_password
  encrypted_email ← encrypt svc.protector new_email "users.email"
  on_error
      (statement (λ n env db.
        update_email id encrypted_email (lookup e.platform svc.protector new_email) db))
      (duplicate_as (identity IdentityError.email_already_exists))

unfoldable pub change_email : Service → ChangeEmailInput → Op User
change_email svc input = do
  e ← ask
  let new_email = normalize_email e.platform input.new_email
  fail_if
      (input.user_id == ""
        || not (valid_email e.platform new_email)
        || unfit_password input.current_password)
      (identity IdentityError.invalid_input)
  id ← uuid_arg input.user_id
  transaction (email_change svc id input.current_password new_email)
  load_user svc input.user_id

unfoldable pub allowed_avatar_type : String → Bool
allowed_avatar_type content_type =
    content_type == "image/jpeg" || content_type == "image/png" || content_type == "image/webp"

abbrev pub set_avatar : ℕ → Bytes → String → UserRow → UserRow
set_avatar now contents mime_type u = record u {
  avatar_data = some contents;
  avatar_mime_type = some mime_type;
  avatar_updated_at = some now;
}

unfoldable pub update_avatar : Service → String → String → Bytes → Op User
update_avatar svc user_id content_type contents = do
  fail_if
      (user_id == ""
        || nat_eq (length contents) 0
        || ltb max_avatar_bytes (length contents)
        || not (allowed_avatar_type content_type))
      (identity IdentityError.invalid_input)
  encrypted ← encrypt_bytes svc.protector contents "users.avatar_data"
  id ← uuid_arg user_id
  affected ← statement (λ n e db. done (count_where (is_active_id id) db.users) (record db {
    users = update_where (is_active_id id) (set_avatar e.db_now encrypted content_type) db.users;
  }))
  fail_if (nat_eq affected 0) (identity IdentityError.unauthorized)
  load_user svc user_id

abbrev pub avatar_columns : UserRow → Option Avatar
avatar_columns u = elim u.avatar_data [
  | none ↦ none
  | some contents ↦
      map_option (λ mime. record { contents = contents; content_type = mime }) u.avatar_mime_type
]

abbrev pub stored_avatar : Option UserRow → Option Avatar
stored_avatar none = none
stored_avatar (some u) = avatar_columns u

unfoldable pub avatar : Service → String → Op Avatar
avatar svc user_id = if user_id == "" then fail (identity IdentityError.unauthorized) else do
  e ← ask
  id ← uuid_arg user_id
  found ←
      on_error (query_row (λ env db. stored_avatar (find (is_active_id id) db.users)))
        (no_rows_as (identity IdentityError.avatar_not_found))
  contents ←
      or_fail (decrypt_bytes e.platform svc.protector found.contents "users.avatar_data") other
  pure (record found { contents = contents })
