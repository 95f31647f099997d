-- ===== src/Http.antt =====
-- internal/httpapi: the requests that the service answers, the guards around them, and what each
-- handler makes of a service's results and errors.
pub mod Message
pub mod Contracts
pub mod Support
pub mod Auth
pub mod Avatar
pub mod Owner
pub mod Menus
pub mod Server
pub mod Routes
pub mod Denies
pub mod Laws
pub mod Guards
pub mod Strangers
