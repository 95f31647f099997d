-- ===== src/Identity/Atomicity.antt =====
-- Which operations of the identity module are all or nothing, whichever external call fails.
use pocket_mvp_backend.Prelude.{refl, String, Bytes}
use pocket_mvp_backend.Platform.{Env}
use pocket_mvp_backend.Effects.{State, pure}
use pocket_mvp_backend.Effects.Rules.{
  ReadsOnly, IsAtomic, reads_only, atomic, IsAtomic-bind_ok, IsAtomic-transaction, AllOrNothing,
  IsAtomic-AllOrNothing,
}
use pocket_mvp_backend.Security.Data.{DataProtector, encrypt, encrypt_bytes}
use pocket_mvp_backend.Security.Password.{hash_password}
use pocket_mvp_backend.Identity.Model.{
  RegisterInput, PasswordResetConfirmation, ChangePasswordInput, Service,
}
use pocket_mvp_backend.Identity.Persistence.{
  EncryptedRegistration, encrypt_phone, encrypt_registration,
}
use pocket_mvp_backend.Identity.Service.{
  registered_user, registration, complete_registration, register,
}
use pocket_mvp_backend.Identity.PasswordReset.{reset_password}
use pocket_mvp_backend.Identity.PasswordChange.{change_password}

encrypt_bytes-ReadsOnly :
    (p : DataProtector) (v : Bytes) (f : String) → ReadsOnly (encrypt_bytes p v f)
unfolding encrypt_bytes
encrypt_bytes-ReadsOnly p v f = search reads_only

pub encrypt-ReadsOnly : (p : DataProtector) (v f : String) → ReadsOnly (encrypt p v f)
unfolding encrypt
encrypt-ReadsOnly p v f = search (reads_only, encrypt_bytes-ReadsOnly)

pub hash_password-ReadsOnly : (password : String) → ReadsOnly (hash_password password)
unfolding hash_password
hash_password-ReadsOnly password = search reads_only

encrypt_phone-ReadsOnly : (svc : Service) (phone : String) → ReadsOnly (encrypt_phone svc phone)
unfolding encrypt_phone
encrypt_phone-ReadsOnly svc phone = search (reads_only, encrypt-ReadsOnly)

encrypt_registration-ReadsOnly :
    (svc : Service) (input : RegisterInput) → ReadsOnly (encrypt_registration svc input)
unfolding encrypt_registration
encrypt_registration-ReadsOnly svc input =
    search (reads_only, encrypt-ReadsOnly, encrypt_phone-ReadsOnly) depth 12

complete_registration-IsAtomic :
    (svc : Service) (input : RegisterInput) (email_lookup : Bytes) (password_hash : String)
    (encrypted : EncryptedRegistration)
    → IsAtomic (complete_registration svc input email_lookup password_hash encrypted)
unfolding complete_registration pure
complete_registration-IsAtomic svc input email_lookup password_hash encrypted =
    IsAtomic-bind_ok _ _
      (IsAtomic-transaction (registration svc input email_lookup password_hash encrypted))
      (λ p e s. ((registered_user p.0 input, p.1), refl))

register-IsAtomic : (svc : Service) (input : RegisterInput) → IsAtomic (register svc input)
unfolding register
register-IsAtomic svc input =
    search
      (
        atomic, hash_password-ReadsOnly, encrypt_registration-ReadsOnly,
        complete_registration-IsAtomic,
      )
      depth 12

reset_password-IsAtomic :
    (svc : Service) (input : PasswordResetConfirmation) → IsAtomic (reset_password svc input)
unfolding reset_password
reset_password-IsAtomic svc input = search (atomic, hash_password-ReadsOnly) depth 12

change_password-IsAtomic :
    (svc : Service) (input : ChangePasswordInput) → IsAtomic (change_password svc input)
unfolding change_password
change_password-IsAtomic svc input = search atomic depth 12

-- Registration, password reset and password change are all or nothing: each of them either succeeds
-- or leaves the database as it was, whichever statement, random read or commit fails.
pub account_changes-AllOrNothing :
    (svc : Service) (r : RegisterInput) (p : PasswordResetConfirmation) (c : ChangePasswordInput)
    (e : Env) (s : State)
    → AllOrNothing (register svc r) e s
      × AllOrNothing (reset_password svc p) e s
      × AllOrNothing (change_password svc c) e s
account_changes-AllOrNothing svc r p c e s = (
  IsAtomic-AllOrNothing (register-IsAtomic svc r) e s,
  IsAtomic-AllOrNothing (reset_password-IsAtomic svc p) e s,
  IsAtomic-AllOrNothing (change_password-IsAtomic svc c) e s,
)
