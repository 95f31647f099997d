-- ===== src/Identity/Persistence.antt =====
-- internal/modules/identity/persistence.go
use pocket_mvp_backend.Prelude.{
  ℕ, ◌+◌, ◌/◌, Bool, true, false, ◌&&◌, not, Option, none, some, String, Bytes, [], ◌∷◌, ◌++◌, find,
  exists, bytes_eq, if◌then◌else◌, ◌==◌,
}
use pocket_mvp_backend.Faults.{PgCode, other}
use pocket_mvp_backend.Platform.{Platform}
use pocket_mvp_backend.Schema.{AccountRole, UserStatus, UserRow, SessionRow, Database, is_null}
use pocket_mvp_backend.Effects.{
  Op, pure, or_fail, ask, query, statement, Statement, rejected, done, ◌>>=◌, ◌>>◌,
}
use pocket_mvp_backend.Security.Data.{encrypt, decrypt}
use pocket_mvp_backend.Security.Session.{new_session_token, hash_session_token}
use pocket_mvp_backend.Identity.Model.{RegisterInput, UpdateProfileInput, User, Session, Service}
use pocket_mvp_backend.Identity.Validation.{truncate, normalized_ip}

pub record EncryptedRegistration : Type 0 where
  pub email : String
  pub first_name : String
  pub last_name : String
  pub phone : Option String

pub record EncryptedUser : Type 0 where
  pub id : String
  pub email : String
  pub first_name : String
  pub last_name : String
  pub phone : Option String
  pub role : AccountRole
  pub avatar_updated_at : Option ℕ

pub record CredentialRecord : Type 0 where
  pub user : EncryptedUser
  pub password_hash : String

pub record EncryptedProfile : Type 0 where
  pub first_name : String
  pub last_name : String
  pub phone : Option String

-- `if input.Phone != ""`
unfoldable pub encrypt_phone : Service → String → Op (Option String)
encrypt_phone svc phone =
    if phone == ""
    then pure none
    else do value ← encrypt svc.protector phone "users.phone"; pure (some value)

unfoldable pub encrypt_registration : Service → RegisterInput → Op EncryptedRegistration
encrypt_registration svc input = do
  email ← encrypt svc.protector input.email "users.email"
  first_name ← encrypt svc.protector input.first_name "users.first_name"
  last_name ← encrypt svc.protector input.last_name "users.last_name"
  phone ← encrypt_phone svc input.phone
  pure (record { email = email; first_name = first_name; last_name = last_name; phone = phone })

unfoldable pub encrypt_profile : Service → UpdateProfileInput → Op EncryptedProfile
encrypt_profile svc input = do
  first_name ← encrypt svc.protector input.first_name "users.first_name"
  last_name ← encrypt svc.protector input.last_name "users.last_name"
  phone ← encrypt_phone svc input.phone
  pure (record { first_name = first_name; last_name = last_name; phone = phone })

-- `updatedAt.UnixMilli()`, from microseconds
abbrev pub avatar_version : Option ℕ → ℕ
avatar_version none = 0
avatar_version (some updated_at) = updated_at / 1000

-- `if record.phone != nil`
unfoldable pub decrypt_phone : Platform → Service → Option String → Op String
decrypt_phone e svc none = pure ""
decrypt_phone e svc (some phone) = or_fail (decrypt e svc.protector phone "users.phone") other

-- The capabilities are filled in by the callers.
unfoldable pub decrypt_user : Service → EncryptedUser → Op User
decrypt_user svc row = do
  e ← ask
  email ← or_fail (decrypt e.platform svc.protector row.email "users.email") other
  first_name ← or_fail (decrypt e.platform svc.protector row.first_name "users.first_name") other
  last_name ← or_fail (decrypt e.platform svc.protector row.last_name "users.last_name") other
  phone ← decrypt_phone e.platform svc row.phone
  pure (record {
    id = row.id;
    email = email;
    first_name = first_name;
    last_name = last_name;
    phone = phone;
    role = row.role;
    capabilities = [];
    avatar_version = avatar_version row.avatar_updated_at;
  })

abbrev pub is_active_status : UserStatus → Bool
is_active_status UserStatus.active = true
is_active_status _ = false

-- `status = 'active' AND deleted_at IS NULL`
abbrev pub is_active : UserRow → Bool
is_active u = is_active_status u.status && is_null u.deleted_at

-- `WHERE id = $1 AND status = 'active' AND deleted_at IS NULL`
abbrev pub is_active_id : String → UserRow → Bool
is_active_id id u = u.id == id && is_active u

-- The columns that the statements return as an `encryptedUser`.
abbrev pub encrypted_user : UserRow → EncryptedUser
encrypted_user u = record {
  id = u.id;
  email = u.email;
  first_name = u.first_name;
  last_name = u.last_name;
  phone = u.phone;
  role = u.account_role;
  avatar_updated_at = u.avatar_updated_at;
}

abbrev pub credentials : UserRow → CredentialRecord
credentials u = record { user = encrypted_user u; password_hash = u.password_hash }

abbrev pub has_lookup : Bytes → UserRow → Bool
has_lookup lookup u = bytes_eq u.email_lookup lookup && is_active u

abbrev pub map_option {ℓ κ} : {A : Type ℓ} {B : Type κ} → (A → B) → Option A → Option B
map_option f none = none
map_option f (some a) = some (f a)

-- No row is no error here: `none` is `false` in the second result.
unfoldable pub find_user_by_lookup : Bytes → Op (Option CredentialRecord)
find_user_by_lookup lookup =
    query (λ e db. map_option credentials (find (has_lookup lookup) db.users))

abbrev pub session_row : String → String → Bytes → String → ℕ → SessionRow
session_row user_id token_hash user_agent ip expires_at = record {
  user_id = user_id;
  refresh_token_hash = token_hash;
  user_agent = user_agent;
  ip_address = ip;
  expires_at = expires_at;
  revoked_at = none;
}

-- The row, the unique hash and the user that `user_sessions` asks for.
unfoldable pub insert_session : String → String → Bytes → String → ℕ → Database → Statement Unit
insert_session user_id token_hash user_agent ip expires_at db =
    if exists (λ r. r.refresh_token_hash == token_hash) db.sessions
    then rejected PgCode.unique_violation
    else if not (exists (λ u. u.id == user_id) db.users)
    then rejected PgCode.foreign_key_violation
    else done tt (record db {
      sessions = db.sessions ++ session_row user_id token_hash user_agent ip expires_at ∷ [];
    })

-- PostgreSQL refuses a text that is not valid in the database's encoding.
unfoldable pub storable_session : Platform → Bytes → Statement Unit → Statement Unit
storable_session e user_agent insertion =
    if e.accepts_text user_agent then insertion else rejected PgCode.other_code

unfoldable pub create_session : Service → String → Bytes → String → Op Session
unfolding storable_session insert_session
create_session svc user_id user_agent ip = do
  token ← new_session_token
  e ← ask
  let expires_at = e.app_now + svc.ttl
  let agent = truncate user_agent 512
  statement (λ n e db. storable_session e.platform agent (
      insert_session user_id (hash_session_token e.platform token) agent
        (normalized_ip e.platform ip) expires_at db))
  pure (record { token = token; expires_at = expires_at })

-- `user.Capabilities, err = s.capabilities.ListCapabilities(ctx, user.ID)`
unfoldable pub with_capabilities : Service → EncryptedUser → Op User
with_capabilities svc row = do
  user ← decrypt_user svc row
  capabilities ← svc.list_capabilities user.id
  pure (record user { capabilities = capabilities })
