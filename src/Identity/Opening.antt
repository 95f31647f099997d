-- ===== src/Identity/Opening.antt =====
-- The session that `createSession` and the transaction of `Login` add, and what its token leads to.
use pocket_mvp_backend.Prelude.{
  ℕ, suc, ◌+◌, ◌≡◌, ◌∙◌, true, false, Bool-cases, some, inl, inr, String, Bytes, [], ◌∷◌, ◌++◌,
  find, exists, find_map-append_none, find_map-all_none, arith, eq_refl, ◌==◌, delete_where,
}
use pocket_mvp_backend.Platform.{Env}
use pocket_mvp_backend.Schema.{UserRow, SessionRow, Database}
use pocket_mvp_backend.Effects.{State, ok, ◌>>=◌, ask, statement, pure, read_random, external, exec}
use pocket_mvp_backend.Security.Session.{new_session_token, hash_session_token}
use pocket_mvp_backend.Identity.Model.{Session, LoginInput, Service}
use pocket_mvp_backend.Identity.Validation.{truncate, normalized_ip}
use pocket_mvp_backend.Identity.Persistence.{
  session_row, storable_session, insert_session, create_session, is_active_id,
}
use pocket_mvp_backend.Identity.Throttle.{is_attempt}
use pocket_mvp_backend.Identity.Sessions.{is_live, joined_user, session_user}
use pocket_mvp_backend.Identity.Service.{open_login}

-- A created session is a new row, under a hash that no session had.
pub create_session-eq-ok :
    (svc : Service) (user_id : String) (agent : Bytes) (ip : String) (e : Env) (s : State)
    (opened : Session)
    → (create_session svc user_id agent ip e s).0 ≡ ok opened
    → let hash = hash_session_token e.platform opened.token in
      (opened.expires_at ≡ e.app_now + svc.ttl)
      × (exists (λ r. r.refresh_token_hash == hash) s.db.sessions ≡ false)
      × ((create_session svc user_id agent ip e s).1.db ≡ record s.db {
        sessions =
            s.db.sessions
            ++ session_row user_id hash
                (truncate agent 512)
                (normalized_ip e.platform ip)
                (e.app_now + svc.ttl)
              ∷ [];
      })
unfolding create_session new_session_token read_random ◌>>=◌ ask statement pure storable_session
    insert_session
create_session-eq-ok svc user_id agent ip e s opened h = (ground arith, ground arith, ground arith)

-- The database with a session added.
abbrev pub with_session : SessionRow → Database → Database
with_session r db = record db { sessions = db.sessions ++ r ∷ [] }

-- Until it expires, a new session leads to its user.
pub session_user-with_session :
    (now : ℕ) (r : SessionRow) (db : Database) (u : UserRow)
    → exists (λ x. x.refresh_token_hash == r.refresh_token_hash) db.sessions ≡ false
    → is_live now r ≡ true
    → find (is_active_id r.user_id) db.users ≡ some u
    → session_user now r.refresh_token_hash (with_session r db) ≡ some u
session_user-with_session now r db u new live user =
    let join = joined_user now r.refresh_token_hash (with_session r db) in
    let none_yet =
      find_map-all_none join (λ x. x.refresh_token_hash == r.refresh_token_hash)
        (λ x miss. ground arith) db.sessions new in
    let joins : join r ≡ some u = ground (arith, eq_refl r.refresh_token_hash) in
    find_map-append_none join db.sessions r none_yet ∙ joins

pub open_login-eq-ok :
    (svc : Service) (input : LoginInput) (l : Bytes) (ip user_id : String) (e : Env) (s : State)
    (opened : Session)
    → (open_login svc input l ip user_id e s).0 ≡ ok opened
    → let hash = hash_session_token e.platform opened.token in
      (opened.expires_at ≡ e.app_now + svc.ttl)
      × (exists (λ r. r.refresh_token_hash == hash) s.db.sessions ≡ false)
      × ((open_login svc input l ip user_id e s).1.db
          ≡ with_session
              (session_row user_id hash
                (truncate input.user_agent 512)
                (normalized_ip e.platform ip)
                (e.app_now + svc.ttl))
              (record s.db { attempts = delete_where (is_attempt l ip) s.db.attempts }))
unfolding open_login ◌>>=◌ exec external
open_login-eq-ok svc input l ip user_id e s opened h = elim (Bool-cases (e.fault s.calls)) [
  | inl down ↦ absurd (ground arith)
  | inr up ↦
      let cleared = record s {
        calls = suc s.calls;
        db = record s.db { attempts = delete_where (is_attempt l ip) s.db.attempts };
      } in
      let (expiry, new, after) =
        create_session-eq-ok svc user_id input.user_agent ip e cleared opened (ground arith) in
      (expiry, new, ground arith)
]
