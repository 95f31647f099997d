-- ===== src/Identity.antt =====
-- internal/modules/identity: accounts, sessions, login throttling and password resets.
pub mod Model
pub mod Validation
pub mod Persistence
pub mod Throttle
pub mod Service
pub mod Sessions
pub mod Account
pub mod PasswordReset
pub mod PasswordChange
pub mod Atomicity
pub mod Revocation
pub mod Refusal
pub mod Lockout
pub mod Opening
pub mod Admission
