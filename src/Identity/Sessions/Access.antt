-- ===== src/Identity/Sessions/Access.antt =====
-- What a token gives access to: `authenticate` answers with the user of a live session.
use pocket_mvp_backend.Prelude.{
  suc, ◌≡◌, ◌≢◌, ◌∙◌, true, false, some, Option-cases, inl, inr, String, List, [], ◌∷◌, find,
  find-fits, find_map, All, arith, eq_iff, ℕ,
}
use pocket_mvp_backend.Platform.{Env}
use pocket_mvp_backend.Schema.{UserRow, SessionRow, Database}
use pocket_mvp_backend.Effects.{State, ok, ◌>>=◌, query_row, on_error, ask, or_fail, pure, fail}
use pocket_mvp_backend.Effects.Rules.{Result-cases}
use pocket_mvp_backend.Security.Session.{hash_session_token}
use pocket_mvp_backend.Identity.Model.{User, Service}
use pocket_mvp_backend.Identity.Persistence.{
  EncryptedUser, encrypted_user, is_active_id, decrypt_phone, decrypt_user, with_capabilities,
}
use pocket_mvp_backend.Identity.Sessions.{is_live, joined_user, session_user, authenticate}

-- Decryption does not change the account.
pub id-decrypt_user :
    (svc : Service) (row : EncryptedUser) (e : Env) (s : State) (u : User)
    → (decrypt_user svc row e s).0 ≡ ok u
    → u.id ≡ row.id
unfolding decrypt_user ◌>>=◌ ask or_fail decrypt_phone pure
id-decrypt_user svc row e s u h = ground arith

pub id-with_capabilities :
    (svc : Service) (row : EncryptedUser) (e : Env) (s : State) (u : User)
    → (with_capabilities svc row e s).0 ≡ ok u
    → u.id ≡ row.id
unfolding with_capabilities pure ◌>>=◌
id-with_capabilities svc row e s u h = elim (Result-cases (decrypt_user svc row e s).0) [
  | inl (v, decrypted) ↦ ground (arith, id-decrypt_user svc row e s v decrypted)
  | inr (x, failed) ↦ ground arith
]

-- A user that `authenticate` returns is the one that the token's live session belongs to.
pub authenticate-eq-ok :
    (svc : Service) (token : String) (e : Env) (s : State) (u : User)
    → (authenticate svc token e s).0 ≡ ok u
    → (row : UserRow) × (session_user e.db_now (hash_session_token e.platform token) s.db
        ≡ some row)
      × (u.id ≡ row.id)
unfolding authenticate ◌>>=◌ query_row on_error fail
authenticate-eq-ok svc token e s u h =
    elim (Option-cases (session_user e.db_now (hash_session_token e.platform token) s.db)) [
      | inl missing ↦ absurd (ground arith)
      | inr (row, found) ↦ (
        row,
        found,
        id-with_capabilities svc (encrypted_user row) e (record s { calls = suc s.calls }) u
            (ground arith),
      )
    ]

module _ (now : ℕ) (token_hash : String) (db : Database) (r : SessionRow) (row : UserRow) where
  joined-is_live : joined_user now token_hash db r ≡ some row → is_live now r ≡ true
  joined-is_live h = ground arith

  joined-hash : joined_user now token_hash db r ≡ some row → r.refresh_token_hash ≡ token_hash
  joined-hash h = ground (arith, eq_iff r.refresh_token_hash token_hash)

  joined-user_id : joined_user now token_hash db r ≡ some row → r.user_id ≡ row.id
  joined-user_id h =
      let found : find (is_active_id r.user_id) db.users ≡ some row = ground arith in
      ground (arith, find-fits (is_active_id r.user_id) db.users row found, eq_iff row.id r.user_id)

-- A user none of whose sessions with the token's hash is live is not the one that it gives.
pub session_user-id :
    (now : ℕ) (token_hash id : String) (db : Database) (rs : List SessionRow) (row : UserRow)
    → All (λ r. r.user_id ≡ id → r.refresh_token_hash ≡ token_hash → is_live now r ≡ false) rs
    → find_map (joined_user now token_hash db) rs ≡ some row
    → row.id ≢ id
session_user-id now token_hash id db [] row dead h = cc
session_user-id now token_hash id db (r ∷ rs) row dead h =
    elim (Option-cases (joined_user now token_hash db r)) [
      | inl missing ↦ session_user-id now token_hash id db rs row dead.1 (ground arith)
      | inr (found, joined) ↦ λ same. cc (
        dead.0 (joined-user_id now token_hash db r row (ground arith) ∙ same)
            (joined-hash now token_hash db r row (ground arith)),
        joined-is_live now token_hash db r row (ground arith),
      )
    ]
