-- ===== src/Identity/Revocation.antt =====
-- What a password reset and a password change do to the sessions and the reset tokens of the
-- account.
use pocket_mvp_backend.Prelude.{
  ℕ, suc, subst, ◌≡◌, sym, ◌≢◌, ◌∙◌, ap, All-update_where, if◌then◌else◌, true, false, ◌&&◌, Option,
  some, Option-cases, inl, inr, String, find, update_where, UniqueBy, find-spoiled,
  find-update_where, find-fits, arith, eq_iff, eq_refl, ◌==◌,
}
use mathlib.Core.Path.{ap₂}
use pocket_mvp_backend.Platform.{Env}
use pocket_mvp_backend.Schema.{UserRow, SessionRow, ResetRow, Database}
use pocket_mvp_backend.Effects.{
  State, ok, ◌>>=◌, query_row, exec, on_error, ask, fail_if, transaction,
}
use pocket_mvp_backend.Effects.Rules.{transaction-eq-ok, Result-cases}
use pocket_mvp_backend.Platform.Laws.{IsLawful}
use pocket_mvp_backend.Security.Password.{hash_password, verify_password}
use pocket_mvp_backend.Security.Password.RoundTrip.{hash_password-verifies}
use pocket_mvp_backend.Security.Session.{hash_session_token}
use pocket_mvp_backend.Identity.Model.{User, PasswordResetConfirmation, Service}
use pocket_mvp_backend.Identity.Atomicity.{hash_password-ReadsOnly}
use pocket_mvp_backend.Identity.Sessions.{is_live, session_user, authenticate, revoke}
use pocket_mvp_backend.Identity.Sessions.Access.{authenticate-eq-ok, session_user-id}
use pocket_mvp_backend.Identity.PasswordReset.{
  is_usable, set_password, consume_once, is_session_of, redeem, reset_password,
}

-- The token row that a reset with this hash redeems.
abbrev pub usable_token : ℕ → String → Database → Option ResetRow
usable_token now token_hash db = find (λ t. t.token_hash == token_hash && is_usable now t) db.resets

-- The database after a redeemed reset of `user_id`.
abbrev pub redeemed : ℕ → String → String → Database → Database
redeemed now user_id password_hash db = record db {
  users = update_where (λ u. u.id == user_id) (set_password password_hash) db.users;
  resets = update_where (λ t. t.user_id == user_id) (consume_once now) db.resets;
  sessions = update_where (is_session_of user_id) (revoke now) db.sessions;
}

pub redeem-eq-ok :
    (token_hash password_hash : String) (e : Env) (s : State)
    → (redeem token_hash password_hash e s).0 ≡ ok tt
    → (t : ResetRow) × (usable_token e.db_now token_hash s.db ≡ some t)
      × ((redeem token_hash password_hash e s).1.db
          ≡ redeemed e.db_now t.user_id password_hash s.db)
unfolding redeem ◌>>=◌ query_row exec on_error
redeem-eq-ok token_hash password_hash e s h =
    elim (Option-cases (usable_token e.db_now token_hash s.db)) [
      | inl missing ↦ absurd (ground arith)
      | inr (t, found) ↦ (t, found, ground arith)
    ]

-- What a successful reset has done: its token named a usable row, and the database is `redeemed`.
pub reset_password-eq-ok :
    (svc : Service) (input : PasswordResetConfirmation) (e : Env) (s : State)
    → (reset_password svc input e s).0 ≡ ok tt
    → (t : ResetRow) × (password_hash : String) × (usable_token e.db_now
          (hash_session_token e.platform input.token)
          s.db
        ≡ some t)
      × ((reset_password svc input e s).1.db ≡ redeemed e.db_now t.user_id password_hash s.db)
      × ((hash_password input.password e s).0 ≡ ok password_hash)
unfolding reset_password ◌>>=◌ fail_if ask
reset_password-eq-ok svc input e s h = elim (Result-cases (hash_password input.password e s).0) [
  | inr (x, failed) ↦ absurd (ground arith)
  | inl (password_hash, hashed) ↦
      let token_hash = hash_session_token e.platform input.token in
      let s₁ = (hash_password input.password e s).1 in
      let same = (hash_password-ReadsOnly input.password).keeps e s in
      let (ran, kept) =
        transaction-eq-ok (redeem token_hash password_hash) e s₁ tt (ground arith) in
      let (t, found, after) =
        redeem-eq-ok token_hash password_hash e (record s₁ { calls = suc s₁.calls }) ran in
      let ended : (reset_password svc input e s).1.db
          ≡ (transaction (redeem token_hash password_hash) e s₁).1.db =
        ground arith in
      (
        t,
        password_hash,
        subst (λ d. usable_token e.db_now token_hash d ≡ some t) same found,
        ended ∙ kept ∙ after ∙ ap (redeemed e.db_now t.user_id password_hash) same,
        hashed,
      )
]

revoked_is_dead :
    (id : String) (now later : ℕ) (r : SessionRow)
    → let r' = if is_session_of id r then revoke now r else r in
      r'.user_id ≡ id → is_live later r' ≡ false
revoked_is_dead id now later r e = ground (arith, eq_iff r.user_id id)

-- After a successful password reset the account of the redeemed token has no session left: whenever
-- and with whichever token `authenticate` is called on that database, it does not answer with it.
pub reset_password-ends_sessions :
    (svc : Service) (input : PasswordResetConfirmation) (e e' : Env) (s s' : State) (t : ResetRow)
    (token : String) (u : User)
    → usable_token e.db_now (hash_session_token e.platform input.token) s.db ≡ some t
    → (reset_password svc input e s).0 ≡ ok tt
    → s'.db ≡ (reset_password svc input e s).1.db
    → (authenticate svc token e' s').0 ≡ ok u
    → u.id ≢ t.user_id
reset_password-ends_sessions svc input e e' s s' t token u redeemable h same answered =
    let (t', password_hash, found, after, _) = reset_password-eq-ok svc input e s h in
    let (row, live, named) = authenticate-eq-ok svc token e' s' u answered in
    let token_hash = hash_session_token e'.platform token in
    let db' = redeemed e.db_now t'.user_id password_hash s.db in
    let live' = subst (λ d. session_user e'.db_now token_hash d ≡ some row) (same ∙ after) live in
    let token_is : t.user_id ≡ t'.user_id = ground arith in
    λ is_account.
      session_user-id e'.db_now token_hash t'.user_id db' db'.sessions row
        (All-update_where _ (is_session_of t'.user_id) (revoke e.db_now)
          (λ r mine _. revoked_is_dead t'.user_id e.db_now e'.db_now r mine) s.db.sessions)
        live' (sym named ∙ is_account ∙ token_is)

consume_once-hash : (now : ℕ) (t : ResetRow) → (consume_once now t).token_hash ≡ t.token_hash
consume_once-hash now t = ground arith

consumed_is_spent : (now later : ℕ) (t : ResetRow) → is_usable later (consume_once now t) ≡ false
consumed_is_spent now later t = ground arith

-- A reset token works once: token hashes being unique, after a successful reset a second one with
-- the same token does not succeed, at any time and whatever its new password.
pub reset_password-single_use :
    (svc : Service) (input again : PasswordResetConfirmation) (e e' : Env) (s s' : State)
    → UniqueBy (λ t. t.token_hash) s.db.resets
    → (reset_password svc input e s).0 ≡ ok tt
    → again.token ≡ input.token
    → e'.platform ≡ e.platform
    → s'.db ≡ (reset_password svc input e s).1.db
    → (reset_password svc again e' s').0 ≢ ok tt
reset_password-single_use svc input again e e' s s' unique h token platform same twice =
    let (t, password_hash, found, after, _) = reset_password-eq-ok svc input e s h in
    let (t', _, found', _, _) = reset_password-eq-ok svc again e' s' twice in
    let hash = hash_session_token e.platform input.token in
    let spent =
      find-spoiled (λ t. t.token_hash) hash (is_usable e.db_now) (is_usable e'.db_now)
        (λ t'. t'.user_id == t.user_id) (consume_once e.db_now) (consume_once-hash e.db_now)
        (consumed_is_spent e.db_now e'.db_now) s.db.resets t unique found (eq_refl t.user_id) in
    cc (
      spent,
      subst (λ d. usable_token e'.db_now hash d ≡ some t') (same ∙ after)
          (subst (λ h. usable_token e'.db_now h s'.db ≡ some t')
            (ap₂ hash_session_token platform token) found'),
    )

-- After a successful password reset the account of the redeemed token has a password hash that the
-- new password passes, where the platform's calls behave as documented.
pub reset_password-sets_password :
    (svc : Service) (input : PasswordResetConfirmation) (e : Env) (s : State) (t : ResetRow)
    (u : UserRow)
    → IsLawful e
    → usable_token e.db_now (hash_session_token e.platform input.token) s.db ≡ some t
    → find (λ u. u.id == t.user_id) s.db.users ≡ some u
    → (reset_password svc input e s).0 ≡ ok tt
    → (u' : UserRow) × (find (λ u. u.id == t.user_id) (reset_password svc input e s).1.db.users
        ≡ some u')
      × (verify_password e.platform input.password u'.password_hash ≡ some true)
reset_password-sets_password svc input e s t u lawful redeemable known h =
    let (t', password_hash, found, after, hashed) = reset_password-eq-ok svc input e s h in
    let id = t.user_id in
    let token_is : t'.user_id ≡ id = ground arith in
    let effect =
      subst (λ i. (reset_password svc input e s).1.db ≡ redeemed e.db_now i password_hash s.db)
        token_is after in
    (
      set_password password_hash u,
      ap (λ d. find (λ u. u.id == id) d.users) effect
          ∙ find-update_where (λ u. u.id == id) (λ u. u.id == id) (set_password password_hash)
              (λ r. ground arith) s.db.users u known
          ∙ ground (arith, find-fits (λ u. u.id == id) s.db.users u known),
      hash_password-verifies lawful input.password s password_hash hashed,
    )
