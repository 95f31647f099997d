-- ===== src/Identity/Model.antt =====
-- internal/modules/identity/model.go, and the `Service` of service.go.
use pocket_mvp_backend.Prelude.{ℕ, String, List, Bytes}
use pocket_mvp_backend.Schema.{AccountRole}
use pocket_mvp_backend.Effects.{Op}
use pocket_mvp_backend.Security.Data.{DataProtector}

pub record RegisterInput : Type 0 where
  pub first_name : String
  pub last_name : String
  pub email : String
  pub phone : String
  pub password : String
  pub user_agent : Bytes
  pub ip_address : String

pub record LoginInput : Type 0 where
  pub email : String
  pub password : String
  pub user_agent : Bytes
  pub ip_address : String

pub record PasswordResetRequest : Type 0 where
  pub email : String
  pub locale : String
  pub ip_address : String

pub record PasswordResetConfirmation : Type 0 where
  pub token : String
  pub password : String

pub record ChangePasswordInput : Type 0 where
  pub user_id : String
  pub session_token : String
  pub current_password : String
  pub new_password : String

pub record ChangeEmailInput : Type 0 where
  pub user_id : String
  pub current_password : String
  pub new_email : String

pub record UpdateProfileInput : Type 0 where
  pub first_name : String
  pub last_name : String
  pub phone : String

pub record Avatar : Type 0 where
  pub contents : Bytes
  pub content_type : String

pub record User : Type 0 where
  pub id : String
  pub email : String
  pub first_name : String
  pub last_name : String
  pub phone : String
  pub role : AccountRole
  pub capabilities : List String
  pub avatar_version : ℕ

pub record Session : Type 0 where
  pub token : String
  pub expires_at : ℕ

-- The fields of `Service` other than the database; the capability reader and the sender of reset
-- links are the interfaces `CapabilityReader` and `PasswordResetSender`.
pub record Service : Type 0 where
  pub protector : DataProtector
  pub list_capabilities : String → Op (List String)
  pub ttl : ℕ
  pub dummy_hash : String
  pub send_password_reset : String → String → String → Op Unit
  pub reset_base_url : String
  pub reset_ttl : ℕ
