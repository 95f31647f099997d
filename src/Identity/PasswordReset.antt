-- ===== src/Identity/PasswordReset.antt =====
-- internal/modules/identity/password_reset.go
pub mod Answered
use Prim.Native.String.{◌++◌}
use mathlib.Core.List.{◌++◌ as ◌++ᴸ◌}
use pocket_mvp_backend.Prelude.{
  ℕ, ◌+◌, ◌*◌, Bool, ◌&&◌, ◌||◌, not, Option, none, some, String, [], ◌∷◌, find, exists,
  update_where, delete_where, ltb, if◌then◌else◌, ◌==◌,
}
use pocket_mvp_backend.Faults.{PgCode, IdentityError, identity, no_rows_as}
use pocket_mvp_backend.Platform.{Platform}
use pocket_mvp_backend.Schema.{UserRow, SessionRow, ResetRow, Database, is_null}
use pocket_mvp_backend.Effects.{
  Op, pure, fail_if, ask, query, query_row, exec, statement, Statement, rejected, done, on_error,
  on_failure, transaction, ◌>>=◌, ◌>>◌,
}
use pocket_mvp_backend.GoText.{trim_space, to_lower, byte_len}
use pocket_mvp_backend.Security.Data.{lookup, normalize_email}
use pocket_mvp_backend.Security.Password.{hash_password}
use pocket_mvp_backend.Security.Session.{new_session_token, hash_session_token}
use pocket_mvp_backend.Identity.Model.{PasswordResetRequest, PasswordResetConfirmation, Service}
use pocket_mvp_backend.Identity.Validation.{valid_email, valid_password, normalized_ip}
use pocket_mvp_backend.Identity.Persistence.{CredentialRecord, map_option, find_user_by_lookup}
use pocket_mvp_backend.Identity.Sessions.{revoke}

-- time.Minute, in microseconds
abbrev pub password_reset_cooldown : ℕ
password_reset_cooldown = 60 * 1000000

-- `used_at IS NULL AND expires_at > now()`
abbrev pub is_usable : ℕ → ResetRow → Bool
is_usable now t = is_null t.used_at && ltb now t.expires_at

-- `… AND created_at > now() - make_interval(secs => 60)`
abbrev pub is_recent : ℕ → String → ResetRow → Bool
is_recent now user_id t =
    t.user_id == user_id && is_usable now t && ltb now (t.created_at + password_reset_cooldown)

abbrev pub consume : ℕ → ResetRow → ResetRow
consume now t = record t { used_at = some now }

abbrev pub is_unused_of : String → ResetRow → Bool
is_unused_of user_id t = t.user_id == user_id && is_null t.used_at

-- The row, with the unique hash, the user, and the check that it expires after its creation.
unfoldable pub insert_reset : String → String → String → ℕ → ℕ → Database → Statement Unit
insert_reset user_id token_hash ip expires_at now db =
    if exists (λ t. t.token_hash == token_hash) db.resets
    then rejected PgCode.unique_violation
    else if not (exists (λ u. u.id == user_id) db.users)
    then rejected PgCode.foreign_key_violation
    else if not (ltb now expires_at)
    then rejected PgCode.check_violation
    else done tt (record db {
      resets =
          db.resets
          ++ᴸ record {
            user_id = user_id;
            token_hash = token_hash;
            requested_ip = ip;
            expires_at = expires_at;
            used_at = none;
            created_at = now;
          }
            ∷ [];
    })

-- The transaction of `RequestPasswordReset` once no recent request was found.
unfoldable pub replace_token : Service → String → String → Op (Option String)
replace_token svc ip user_id = do
  token ← new_session_token
  e ← ask
  exec (λ env db. record db {
    resets = update_where (is_unused_of user_id) (consume env.db_now) db.resets;
  })
  statement (λ n env db.
      insert_reset user_id (hash_session_token e.platform token) (normalized_ip e.platform ip)
        (e.app_now + svc.reset_ttl) env.db_now db)
  pure (some token)

-- The transaction of `RequestPasswordReset`; `none` is the early commit inside the cooldown.
unfoldable pub issue_token : Service → String → String → Op (Option String)
issue_token svc ip user_id = do
  recently_requested ← query (λ e db. exists (is_recent e.db_now user_id) db.resets)
  if recently_requested then pure none else replace_token svc ip user_id

unfoldable pub normalize_reset_locale : Platform → String → String
normalize_reset_locale e locale =
    let normalized = to_lower e (trim_space locale) in
    if normalized == "ru" || normalized == "ua" || normalized == "uk" || normalized == "sk"
    then normalized
    else "en"

unfoldable pub reset_url : Platform → Service → String → String → String
reset_url e svc locale token =
    svc.reset_base_url ++ ("/" ++ (locale ++ ("/reset-password?token=" ++ e.query_escape token)))

-- After the commit: the link is sent, and the token deleted if that fails.
unfoldable pub deliver_token : Service → String → String → Option String → Op Unit
deliver_token svc email locale none = pure tt
deliver_token svc email locale (some token) = do
  e ← ask
  on_failure (svc.send_password_reset email (reset_url e.platform svc locale token) locale) (
      exec (λ env db. record db {
        resets = delete_where (λ t. t.token_hash == hash_session_token e.platform token) db.resets;
      }))

unfoldable pub request_for :
    Service → PasswordResetRequest → String → Option CredentialRecord → Op Unit
request_for svc input email none = pure tt
request_for svc input email (some found) = do
  e ← ask
  issued ← transaction (issue_token svc input.ip_address found.user.id)
  deliver_token svc email (normalize_reset_locale e.platform input.locale) issued

unfoldable pub request_password_reset : Service → PasswordResetRequest → Op Unit
request_password_reset svc input = do
  e ← ask
  let email = normalize_email e.platform input.email
  if not (valid_email e.platform email) then pure tt else do
    found ← find_user_by_lookup (lookup e.platform svc.protector email)
    request_for svc input email found

abbrev pub set_password : String → UserRow → UserRow
set_password password_hash u = record u { password_hash = password_hash }

-- `SET used_at = COALESCE(used_at, now())`
abbrev pub consume_once : ℕ → ResetRow → ResetRow
consume_once now t = if is_null t.used_at then consume now t else t

abbrev pub is_session_of : String → SessionRow → Bool
is_session_of user_id r = r.user_id == user_id && is_null r.revoked_at

-- The transaction of `ResetPassword`.
unfoldable pub redeem : String → String → Op Unit
redeem token_hash password_hash = do
  user_id ←
      on_error
        (query_row (λ e db.
          map_option (λ t. t.user_id)
            (find (λ t. t.token_hash == token_hash && is_usable e.db_now t) db.resets)))
        (no_rows_as (identity IdentityError.invalid_reset_token))
  exec (λ e db. record db {
    users = update_where (λ u. u.id == user_id) (set_password password_hash) db.users;
  })
  exec (λ e db. record db {
    resets = update_where (λ t. t.user_id == user_id) (consume_once e.db_now) db.resets;
  })
  exec (λ e db. record db {
    sessions = update_where (is_session_of user_id) (revoke e.db_now) db.sessions;
  })

unfoldable pub reset_password : Service → PasswordResetConfirmation → Op Unit
reset_password svc input = do
  fail_if (ltb (byte_len input.token) 32) (identity IdentityError.invalid_reset_token)
  fail_if (not (valid_password input.password)) (identity IdentityError.invalid_input)
  password_hash ← hash_password input.password
  e ← ask
  transaction (redeem (hash_session_token e.platform input.token) password_hash)
