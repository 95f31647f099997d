-- ===== src/Identity/Service.antt =====
-- internal/modules/identity/service.go
use pocket_mvp_backend.Prelude.{
  ℕ, Bool, true, false, ◌&&◌, ◌||◌, not, Option, none, some, String, Bytes, List, [], ◌∷◌, ◌++◌,
  exists, delete_where, ltb, nat_eq, bytes_eq, if◌then◌else◌, ◌==◌, code,
}
use pocket_mvp_backend.Faults.{PgCode, IdentityError, identity, other, duplicate_as}
use pocket_mvp_backend.Platform.{Platform}
use pocket_mvp_backend.Schema.{AccountRole, UserStatus, Database, is_null}
use pocket_mvp_backend.Effects.{
  Op, pure, fail, fail_if, ask, exec, statement, Statement, rejected, done, on_error, transaction,
  ◌>>=◌, ◌>>◌,
}
use pocket_mvp_backend.GoText.{trim_space, byte_len, is_empty}
use pocket_mvp_backend.Security.Data.{DataProtector, lookup, normalize_email}
use pocket_mvp_backend.Security.Password.{hash_password, verify_password}
use pocket_mvp_backend.Identity.Model.{RegisterInput, LoginInput, User, Session, Service}
use pocket_mvp_backend.Identity.Validation.{valid_email, normalized_ip, valid_registration}
use pocket_mvp_backend.Identity.Persistence.{
  EncryptedRegistration, CredentialRecord, encrypt_registration, decrypt_user, find_user_by_lookup,
  create_session,
}
use pocket_mvp_backend.Identity.Throttle.{is_attempt, login_blocked, record_failure}

-- strings.TrimRight(s, "/")
unfoldable pub trim_right_slashes : String → String
trim_right_slashes String.[] = String.[]
trim_right_slashes (String.◌∷◌ c s) =
    let rest = trim_right_slashes s in
    if is_empty rest && nat_eq (code c) b'/' then String.[] else String.◌∷◌ c rest

-- `NewService`; the sender is nil or a function, and the reset TTL a duration that is not negative.
unfoldable pub new_service :
    DataProtector
    → (String → Op (List String))
    → ℕ
    → Option (String → String → String → Op Unit)
    → String
    → ℕ
    → Op Service
new_service protector capabilities ttl sender base_url reset_ttl = do
  dummy_hash ← hash_password "dummy-password-never-used"
  fail_if (trim_space base_url == "" || nat_eq reset_ttl 0) other
  elim sender [
    | none ↦ fail other
    | some send ↦ pure (record {
      protector = protector;
      list_capabilities = capabilities;
      ttl = ttl;
      dummy_hash = dummy_hash;
      send_password_reset = send;
      reset_base_url = trim_right_slashes base_url;
      reset_ttl = reset_ttl;
    })
  ]

-- The assignments to `input` at the start of `Register`.
unfoldable pub normalized_registration : Platform → RegisterInput → RegisterInput
normalized_registration e input = record input {
  first_name = trim_space input.first_name;
  last_name = trim_space input.last_name;
  phone = trim_space input.phone;
  email = normalize_email e input.email;
}

-- `INSERT INTO users … RETURNING id`, with the primary key and users_email_lookup_unique.
unfoldable pub insert_user :
    String → EncryptedRegistration → Bytes → String → Database → Statement String
insert_user id encrypted email_lookup password_hash db =
    if exists (λ u. u.id == id) db.users
      || exists (λ u. bytes_eq u.email_lookup email_lookup && is_null u.deleted_at) db.users
    then rejected PgCode.unique_violation
    else done id (record db {
      users =
          db.users
          ++ record {
            id = id;
            email = encrypted.email;
            email_lookup = email_lookup;
            password_hash = password_hash;
            first_name = encrypted.first_name;
            last_name = encrypted.last_name;
            phone = encrypted.phone;
            account_role = AccountRole.customer;
            status = UserStatus.active;
            email_verified_at = none;
            deleted_at = none;
            avatar_data = none;
            avatar_mime_type = none;
            avatar_updated_at = none;
          }
            ∷ [];
    })

unfoldable pub registered_user : String → RegisterInput → User
registered_user id input = record {
  id = id;
  email = input.email;
  first_name = input.first_name;
  last_name = input.last_name;
  phone = input.phone;
  role = AccountRole.customer;
  capabilities = "customer" ∷ [];
  avatar_version = 0;
}

-- The transaction of `Register`.
unfoldable pub registration :
    Service → RegisterInput → Bytes → String → EncryptedRegistration → Op (String × Session)
registration svc input email_lookup password_hash encrypted = do
  user_id ←
      on_error
        (statement (λ n e db. insert_user (e.fresh_id n) encrypted email_lookup password_hash db))
        (duplicate_as (identity IdentityError.email_already_exists))
  session ← create_session svc user_id input.user_agent input.ip_address
  pure (user_id, session)

-- `Register` from BeginTx on.
unfoldable pub complete_registration :
    Service → RegisterInput → Bytes → String → EncryptedRegistration → Op (User × Session)
complete_registration svc input email_lookup password_hash encrypted = do
  (user_id, session) ← transaction (registration svc input email_lookup password_hash encrypted)
  pure (registered_user user_id input, session)

unfoldable pub register : Service → RegisterInput → Op (User × Session)
register svc raw = do
  e ← ask
  let input = normalized_registration e.platform raw
  fail_if (not (valid_registration e.platform input)) (identity IdentityError.invalid_input)
  password_hash ← hash_password input.password
  encrypted ← encrypt_registration svc input
  complete_registration svc input (lookup e.platform svc.protector input.email) password_hash
      encrypted

-- `VerifyPassword`, with an error read as a mismatch.
unfoldable pub password_matches : Platform → String → String → Bool
password_matches e password password_hash = elim (verify_password e password password_hash) [
  | none ↦ false
  | some verified ↦ verified
]

-- The hash that `Login` checks: the dummy one if no account was found.
abbrev pub hash_to_check : Service → Option CredentialRecord → String
hash_to_check svc none = svc.dummy_hash
hash_to_check svc (some r) = r.password_hash

-- The transaction of `Login`.
unfoldable pub open_login : Service → LoginInput → Bytes → String → String → Op Session
open_login svc input email_lookup ip user_id = do
  exec (λ e db. record db { attempts = delete_where (is_attempt email_lookup ip) db.attempts })
  create_session svc user_id input.user_agent ip

unfoldable pub refuse_login : {A : Type 0} → Bytes → String → Op A
refuse_login email_lookup ip = do
  record_failure email_lookup ip
  fail (identity IdentityError.invalid_credentials)

-- `Login` from `if !found || !verified`.
unfoldable pub decide_login :
    Service → LoginInput → Bytes → String → Option CredentialRecord → Bool → Op (User × Session)
decide_login svc input email_lookup ip (some found) true = do
  user ← decrypt_user svc found.user
  session ← transaction (open_login svc input email_lookup ip user.id)
  capabilities ← svc.list_capabilities user.id
  pure (record user { capabilities = capabilities }, session)
decide_login svc input email_lookup ip (some found) false = refuse_login email_lookup ip
decide_login svc input email_lookup ip none verified = refuse_login email_lookup ip

-- The guard at the start of `Login`.
unfoldable pub malformed_login : Platform → LoginInput → Bool
malformed_login e input =
    not (valid_email e (normalize_email e input.email))
    || nat_eq (byte_len input.password) 0
    || ltb 128 (byte_len input.password)

unfoldable pub login : Service → LoginInput → Op (User × Session)
login svc input = do
  e ← ask
  let email = normalize_email e.platform input.email
  fail_if (malformed_login e.platform input) (identity IdentityError.invalid_credentials)
  let email_lookup = lookup e.platform svc.protector email
  let ip = normalized_ip e.platform input.ip_address
  blocked ← login_blocked email_lookup ip
  fail_if blocked (identity IdentityError.too_many_attempts)
  found ← find_user_by_lookup email_lookup
  decide_login svc input email_lookup ip found
      (password_matches e.platform input.password (hash_to_check svc found))
