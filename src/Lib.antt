-- ===== src/Lib.antt =====
-- The Pocket backend (a Go service over PostgreSQL): accounts and sessions, venues with their menus,
-- staff, orders, reviews, floor plans and figures, the subscriptions of their owners, the HTTP API
-- over them, and the start-up that puts them together.
--
-- Parts, and the code that they are about:
-- - Prelude: shared names, tests, and tables as lists with the parts of SQL that are used.
-- - Faults: internal/appfault/errors.go (MapWriteError) and the error values of the identity module.
-- - Platform: what is called and not in the repository (cryptography, encodings, PostgreSQL's input
--   functions, clocks, random bytes, which external calls fail) as fields of a record;
--   Platform.Laws names the documented behaviour that some theorems assume.
-- - Schema: the tables of migrations/ that the modelled statements read and write.
-- - Effects: an operation takes the environment and the state (database, number of external calls,
--   mail sent) and returns a result or an error with the new state. BeginTx with the deferred
--   Rollback and Commit is `transaction`. Effects.Rules has the rules for operations that only
--   read or that are all or nothing.
-- - GoText: the parts of strings and unicode/utf8 that are used.
-- - Security: internal/security (Encrypt, Decrypt, Lookup, HashPassword, VerifyPassword,
--   NewSessionToken, HashSessionToken).
-- - Access: internal/access (ListCapabilities, RequireOwner).
-- - Identity: internal/modules/identity, one module for each group of operations: Service (Register,
--   Login), Sessions (Authenticate, UpdateProfile, Logout), Account (ChangeEmail, UpdateAvatar,
--   Avatar), PasswordReset, PasswordChange, over Persistence, Throttle and Validation.
-- - Catalog: internal/modules/catalog: the changes of a menu, and in Catalog.Listings its listings.
-- - Billing: internal/modules/billing: subscriptions, and in Billing.Payments the payments.
-- - Venues: internal/modules/venues: slugs, the changes of venues, and their listing.
-- - Workforce: internal/modules/workforce: the changes of a venue's staff, and its listing.
-- - Ordering: internal/modules/ordering (List, UpdateStatus). Ordering.Book is the order book, the
--   abstract view of the table; Ordering.Lifecycle has sequences of status changes as a relation.
-- - Feedback: internal/modules/feedback (List, Reply).
-- - FloorPlan: internal/modules/floorplan (Get, Save), a plan being a text of JSON.
-- - Reporting: internal/modules/reporting (Dashboard).
-- - Notifications: internal/notifications/password_reset.go.
-- - Config: internal/config/config.go (Load and its parsers).
-- - Http: internal/httpapi. Message (requests, responses, and handlers as a small monad), Contracts
--   (the interfaces of the services, and API), Support (cookies, bodies, errors), Auth, Avatar, Owner
--   and Menus (the handlers), Server (cors, securityHeaders), Routes (routes, New). Http.Laws is the
--   interface that the proofs of Guards and Strangers ask of the services.
-- - Start: cmd/api/main.go up to the handler, internal/buildinfo, and Open of
--   internal/database (ParseConfig is a parameter); Start.Guarded fills the laws of Http.Laws with
--   the services of `main`.
-- - Tests: a platform that obeys the laws, a small database, and the theorems applied to runs on it.
--
-- A handler of Http reads the cookie, asks identity for the user, decodes the body and calls an
-- operation of a service; identity asks Access for the capabilities of a user, the modules of a venue
-- ask it whether the caller owns the venue; all of them keep their state in the database. The API has
-- each service as a record of operations, which Start fills with the operations of the modules.
-- Names are the source's in antt's spelling: `reset_password` is ResetPassword. A statement is a
-- function on the database, with the constraints that it can violate; ORDER BY is the stable
-- insertion sort of Prelude.Sorting, so that rows that compare equal stay in table order; each
-- external call takes a number, and the environment says for each number whether that call fails.
--
-- Bounds: every loop of the modelled code is structural recursion, so that no fuel is used. Times
-- are microseconds (the configuration's durations nanoseconds, of which whole microseconds count);
-- durations are not negative. A count of failed logins is a natural number; its column has 32
-- bits, far more than a key gets that is blocked from its fifth failure on. Go's int is ℤ, and
-- what an integer column cannot hold is refused as pgx does.
--
-- Not modelled: an external call that fails (Commit included) has had no effect; the statements of
-- one request do not interleave with those of another; columns and tables that no statement reads,
-- logging, context cancellation, and the data race between check and write that row locks prevent.
-- The routing of net/http, which picks a route of the table, and the decoders of JSON and of
-- multipart forms are parameters (Codec). The recovery from panics and the request log, which change
-- no response, the HTTP server with its timeouts, signals, and the connection pool are left out. The
-- average rating is kept as a sum and a count, which PostgreSQL divides and rounds.
pub mod Prelude
pub mod Faults
pub mod Platform
pub mod Schema
pub mod Effects
pub mod GoText
pub mod Security
pub mod Access
pub mod Identity
pub mod Billing
pub mod Catalog
pub mod Tests
pub mod Venues
pub mod Workforce
pub mod Ordering
pub mod Feedback
pub mod FloorPlan
pub mod Reporting
pub mod Notifications
pub mod Config
pub mod Http
pub mod Start
