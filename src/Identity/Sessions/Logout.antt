-- ===== src/Identity/Sessions/Logout.antt =====
-- What a logout does to its token.
use pocket_mvp_backend.Prelude.{
  ℕ, ◌≡◌, ◌≢◌, refl, subst, ◌∙◌, Bool, false, ◌&&◌, Bool-cases, none, inl, inr, some, String, List,
  [], ◌∷◌, find_map, update_where, arith, if◌then◌else◌, ◌==◌,
}
use pocket_mvp_backend.Platform.{Env}
use pocket_mvp_backend.Schema.{SessionRow, Database, is_null}
use pocket_mvp_backend.Effects.{State, ok, exec, external}
use pocket_mvp_backend.Security.Session.{hash_session_token}
use pocket_mvp_backend.Identity.Model.{User, Service}
use pocket_mvp_backend.Identity.Sessions.{joined_user, session_user, revoke, logout, authenticate}
use pocket_mvp_backend.Identity.Sessions.Access.{authenticate-eq-ok}

abbrev is_open : String → SessionRow → Bool
is_open hash r = r.refresh_token_hash == hash && is_null r.revoked_at

revoked_joins_none :
    (now later : ℕ) (hash : String) (db : Database) (r : SessionRow)
    → joined_user later hash db (if is_open hash r then revoke now r else r) ≡ none
revoked_joins_none now later hash db r = elim (Bool-cases (is_open hash r)) [
  | inl hit ↦ ground arith
  | inr shut ↦ ground arith
]

all_revoked :
    (now later : ℕ) (hash : String) (db : Database) (rows : List SessionRow)
    → find_map (joined_user later hash db) (update_where (is_open hash) (revoke now) rows) ≡ none
all_revoked now later hash db [] = refl
all_revoked now later hash db (r ∷ rows) =
    ground (arith, revoked_joins_none now later hash db r, all_revoked now later hash db rows)

-- After a successful logout its token authenticates nobody, at any time.
pub logout-ends_session :
    (svc : Service) (token : String) (e e' : Env) (s s' : State) (u : User)
    → (token == "") ≡ false
    → (logout svc token e s).0 ≡ ok tt
    → e'.platform ≡ e.platform
    → s'.db ≡ (logout svc token e s).1.db
    → (authenticate svc token e' s').0 ≢ ok u
unfolding logout exec external
logout-ends_session svc token e e' s s' u given h platform same answered =
    let (row, live, named) = authenticate-eq-ok svc token e' s' u answered in
    let hash = hash_session_token e.platform token in
    let after = record s.db {
      sessions = update_where (is_open hash) (revoke e.db_now) s.db.sessions;
    } in
    let effect : (logout svc token e s).1.db ≡ after = ground arith in
    let joins : session_user e'.db_now hash s'.db ≡ some row =
      subst (λ p. session_user e'.db_now (hash_session_token p token) s'.db ≡ some row) platform
        live in
    cc (
      all_revoked e.db_now e'.db_now hash after s.db.sessions,
      subst (λ d. session_user e'.db_now hash d ≡ some row) (same ∙ effect) joins,
    )
