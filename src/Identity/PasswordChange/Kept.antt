-- ===== src/Identity/PasswordChange/Kept.antt =====
-- A password change keeps exactly the session that it came from.
use pocket_mvp_backend.Prelude.{
  ℕ, subst, ◌≡◌, ◌≢◌, sym, ◌∙◌, true, false, none, some, String, List, find_map, update_where,
  All-update_where, find-update_where, find-update_where_absent, find_map-update_where, arith,
  eq_iff, if◌then◌else◌, ◌==◌,
}
use pocket_mvp_backend.Platform.{Env}
use pocket_mvp_backend.Platform.Laws.{IsLawful}
use pocket_mvp_backend.Schema.{UserRow, SessionRow, Database}
use pocket_mvp_backend.Effects.{State, ok}
use pocket_mvp_backend.Security.Password.{verify_password}
use pocket_mvp_backend.Security.Password.RoundTrip.{hash_password-verifies}
use pocket_mvp_backend.Security.Session.{hash_session_token}
use pocket_mvp_backend.Identity.Model.{User, ChangePasswordInput, Service}
use pocket_mvp_backend.Identity.Persistence.{is_active_id}
use pocket_mvp_backend.Identity.Sessions.{is_live, joined_user, session_user, authenticate, revoke}
use pocket_mvp_backend.Identity.Sessions.Access.{authenticate-eq-ok, session_user-id}
use pocket_mvp_backend.Identity.PasswordReset.{set_password}
use pocket_mvp_backend.Identity.PasswordChange.{change_password}
use pocket_mvp_backend.Identity.PasswordChange.Sessions.{
  is_other_session, changed, change_password-eq-ok,
}

other_is_dead :
    (id kept : String) (now later : ℕ) (r : SessionRow)
    → let r' = if is_other_session id kept r then revoke now r else r in
      r'.user_id ≡ id → (r'.refresh_token_hash == kept) ≡ false → is_live later r' ≡ false
other_is_dead id kept now later r mine other = ground (arith, eq_iff r.user_id id)

module _ (now later : ℕ) (id kept new_hash : String) (db : Database) where
  abbrev updated : SessionRow → SessionRow
  updated r = if is_other_session id kept r then revoke now r else r

  abbrev renewed : UserRow → UserRow
  renewed u = if u.id == id then set_password new_hash u else u

  abbrev after : Database
  after = changed now id kept new_hash db

  active_id_renewed :
      (owner : String) (u : UserRow) → is_active_id owner (renewed u) ≡ is_active_id owner u
  active_id_renewed owner u = ground arith

  joined_absent :
      (r : SessionRow)
      → joined_user later kept db r ≡ none
      → joined_user later kept after (updated r) ≡ none
  joined_absent r h = ground (
    arith,
    find-update_where_absent (λ u. u.id == id) (is_active_id r.user_id) (set_password new_hash)
        (active_id_renewed r.user_id) db.users,
  )

  joined_present :
      (r : SessionRow) (u : UserRow)
      → joined_user later kept db r ≡ some u
      → joined_user later kept after (updated r) ≡ some (renewed u)
  joined_present r u h = ground (
    arith,
    find-update_where (λ u. u.id == id) (is_active_id r.user_id) (set_password new_hash)
        (active_id_renewed r.user_id) db.users u,
  )

  session_kept :
      (rs : List SessionRow) (u : UserRow)
      → find_map (joined_user later kept db) rs ≡ some u
      → find_map
          (joined_user later kept after)
          (update_where (is_other_session id kept) (revoke now) rs)
        ≡ some (renewed u)
  session_kept =
      find_map-update_where (joined_user later kept db) (joined_user later kept after) renewed
        (is_other_session id kept) (revoke now) joined_absent joined_present

-- After a successful password change a token other than the session's own no longer authenticates
-- as that account, whenever it is tried on that database.
pub change_password-ends_others :
    (svc : Service) (input : ChangePasswordInput) (e e' : Env) (s s' : State) (id token : String)
    (u : User)
    → e.parse_uuid input.user_id ≡ some id
    → (change_password svc input e s).0 ≡ ok tt
    → s'.db ≡ (change_password svc input e s).1.db
    → (hash_session_token e'.platform token == hash_session_token e.platform input.session_token)
      ≡ false
    → (authenticate svc token e' s').0 ≡ ok u
    → u.id ≢ id
change_password-ends_others svc input e e' s s' id token u known h same other answered =
    let (id', new_hash, parsed, effect, _, _) = change_password-eq-ok svc input e s h in
    let kept = hash_session_token e.platform input.session_token in
    let db' = changed e.db_now id' kept new_hash s.db in
    let (row, live, named) = authenticate-eq-ok svc token e' s' u answered in
    let hash = hash_session_token e'.platform token in
    let live' = subst (λ d. session_user e'.db_now hash d ≡ some row) (same ∙ effect) live in
    let account : id ≡ id' = ground arith in
    λ is_account.
      session_user-id e'.db_now hash id' db' db'.sessions row
        (All-update_where _ (is_other_session id' kept) (revoke e.db_now)
          (λ r mine hashed.
            other_is_dead id' kept e.db_now e'.db_now r mine
              (subst (λ x. (x == kept) ≡ false) (sym hashed) other))
          s.db.sessions)
        live' (sym named ∙ is_account ∙ account)

-- After a successful password change the session's own token still leads, at any time, to the user
-- that it led to before; where that user is the account itself, with a password hash that the new
-- password passes, and otherwise unchanged. (The platform's calls behave as documented.)
pub change_password-keeps_current :
    (svc : Service) (input : ChangePasswordInput) (e : Env) (s : State) (id : String) (later : ℕ)
    (row : UserRow)
    → IsLawful e
    → e.parse_uuid input.user_id ≡ some id
    → (change_password svc input e s).0 ≡ ok tt
    → session_user later (hash_session_token e.platform input.session_token) s.db ≡ some row
    → (new_hash : String) × (verify_password e.platform input.new_password new_hash ≡ some true)
      × (session_user later
            (hash_session_token e.platform input.session_token)
            (change_password svc input e s).1.db
          ≡ some (if row.id == id then set_password new_hash row else row))
change_password-keeps_current svc input e s id later row lawful known h before =
    let (id', new_hash, parsed, effect, t, hashed) = change_password-eq-ok svc input e s h in
    let kept = hash_session_token e.platform input.session_token in
    let account : id' ≡ id = ground arith in
    let moved = session_kept e.db_now later id' kept new_hash s.db s.db.sessions row before in
    (
      new_hash,
      hash_password-verifies lawful input.new_password t new_hash hashed,
      subst
          (λ i.
            session_user later kept (change_password svc input e s).1.db
            ≡ some (if row.id == i then set_password new_hash row else row))
          account
          (subst
            (λ d.
              session_user later kept d
              ≡ some (if row.id == id' then set_password new_hash row else row))
            (sym effect) moved),
    )
