-- ===== src/Start/SignIn.antt =====
-- A session over HTTP: the cookie that a login sets, and what a request that carries it finds.
use pocket_mvp_backend.Prelude.{
  ℕ, suc, ◌≡◌, ◌⊎◌, ◌≤◌, ◌<◌, ◌+◌, sym, subst, ap, ◌∙◌, false, Bool-cases, Option-cases, Option,
  none, some, inl, inr, String, arith, if◌then◌else◌, ◌==◌, UniqueBy, ltb, length,
}
use pocket_mvp_backend.Faults.{Error, IdentityError, identity, app, no_rows, pg, other, no_rows_as}
use pocket_mvp_backend.Platform.{Env}
use pocket_mvp_backend.Schema.{UserRow}
use pocket_mvp_backend.Effects.{State, Op, Result, ok, err}
use pocket_mvp_backend.Effects as E
use pocket_mvp_backend.Effects.Rules.{ReadsOnly, Result-cases}
use pocket_mvp_backend.Identity.Model.{User, Session, Service}
use pocket_mvp_backend.Identity.Persistence.{
  EncryptedUser, encrypted_user, decrypt_phone, decrypt_user, with_capabilities,
}
use pocket_mvp_backend.Identity.Sessions.{authenticate, session_user}
use pocket_mvp_backend.Identity.Sessions.Access.{id-with_capabilities}
use pocket_mvp_backend.Identity.Admission.{login-opens_session}
use pocket_mvp_backend.Identity.Service as Accounts
use pocket_mvp_backend.Security.Session.{hash_session_token}
use pocket_mvp_backend.Config.{Config}
use pocket_mvp_backend.Http.Message.{
  Request, Response, Cookie, call, or_respond, ask, pure, serve, named, ◌>>=◌,
}
use pocket_mvp_backend.Http.Contracts.{Codec, Api, LoginRequest}
use pocket_mvp_backend.Http.Support.{
  write_auth_error, decode_auth_json, decode_limited, require_cookie, set_session_cookie,
  new_auth_response, max_auth_body,
}
use pocket_mvp_backend.Http.Auth.{login, login_input, me}
use pocket_mvp_backend.Start.{api_of}

auth_error_failure : (x : Error) → 400 ≤ (write_auth_error x).status
unfolding write_auth_error
auth_error_failure (identity IdentityError.invalid_input) = omega arith
auth_error_failure (identity IdentityError.email_already_exists) = omega arith
auth_error_failure (identity IdentityError.invalid_credentials) = omega arith
auth_error_failure (identity IdentityError.invalid_current_password) = omega arith
auth_error_failure (identity IdentityError.too_many_attempts) = omega arith
auth_error_failure (identity IdentityError.unauthorized) = omega arith
auth_error_failure (identity IdentityError.invalid_reset_token) = omega arith
auth_error_failure (identity IdentityError.avatar_not_found) = omega arith
auth_error_failure (app a) = omega arith
auth_error_failure no_rows = omega arith
auth_error_failure (pg c) = omega arith
auth_error_failure other = omega arith

-- The value of the cookie that a response sets.
abbrev value_of_cookie : Option Cookie → Option String
value_of_cookie none = none
value_of_cookie (some c) = some c.value

abbrev pub cookie_value : Response → Option String
cookie_value r = value_of_cookie r.cookie

-- A login that is answered with 200 is one of the service, whose token the cookie carries.
login-eq-200 :
    (api : Api) (r : Request) (e : Env) (s : State)
    → (serve (login api r) e s).0.status ≡ 200
    → (request : LoginRequest) × (user : User) × (opened : Session) × ((api.identity.login
          (login_input request r e.platform)
          e
          s).0
        ≡ ok (user, opened))
      × ((serve (login api r) e s).1
          ≡ (api.identity.login (login_input request r e.platform) e s).1)
      × (cookie_value (serve (login api r) e s).0 ≡ some opened.token)
      × ((serve (login api r) e s).0.payload ≡ new_auth_response user)
unfolding login decode_auth_json decode_limited or_respond ◌>>=◌ ask call pure serve
    set_session_cookie
login-eq-200 api r e s answered =
    elim (Option-cases
      (if ltb max_auth_body (length r.body) then none else api.codec.login_request r.body)) [
        | inl bad ↦ absurd (ground arith)
        | inr (request, good) ↦
            elim (Result-cases (api.identity.login (login_input request r e.platform) e s).0) [
              | inr (x, refused) ↦ let bad = auth_error_failure x in absurd (ground arith)
              | inl ((user, opened), admitted) ↦
                  (request, user, opened, admitted, ground arith, ground arith, ground arith)
            ]
      ]

decrypt_user-eq-err :
    (svc : Service) (row : EncryptedUser) (e : Env) (s : State) (x : Error)
    → (decrypt_user svc row e s).0 ≡ err x
    → x ≡ other
unfolding decrypt_user decrypt_phone E.◌>>=◌ E.ask E.or_fail E.pure
decrypt_user-eq-err svc row e s x h = elim (Option-cases row.phone) [
  | inl unset ↦ ground arith
  | inr (phone, set) ↦ ground arith
]

-- The capability reader has no errors that a handler tells apart.
abbrev pub FailsPlainly : Service → Type 0
FailsPlainly svc =
    (id : String) (e : Env) (s : State) (x : Error)
    → (svc.list_capabilities id e s).0 ≡ err x
    → x ≡ other

with_capabilities-eq-err :
    (svc : Service) (row : EncryptedUser) (e : Env) (s : State) (x : Error)
    → FailsPlainly svc
    → (with_capabilities svc row e s).0 ≡ err x
    → x ≡ other
unfolding with_capabilities E.◌>>=◌ E.pure
with_capabilities-eq-err svc row e s x plain h = elim (Result-cases (decrypt_user svc row e s).0) [
  | inr (y, failed) ↦ let why = decrypt_user-eq-err svc row e s y failed in ground arith
  | inl (u, decrypted) ↦
      elim (Result-cases (svc.list_capabilities u.id e (decrypt_user svc row e s).1).0) [
        | inr (y, failed) ↦
            let why = plain u.id e (decrypt_user svc row e s).1 y failed in ground arith
        | inl (c, listed) ↦ absurd (ground arith)
      ]
]

-- The token of a live session leads to its user, or a call to the outside failed.
authenticate-live :
    (svc : Service) (token : String) (e : Env) (s : State) (row : UserRow)
    → FailsPlainly svc
    → (token == "") ≡ false
    → session_user e.db_now (hash_session_token e.platform token) s.db ≡ some row
    → ((u : User) × ((authenticate svc token e s).0 ≡ ok u) × (u.id ≡ row.id))
      ⊎ ((authenticate svc token e s).0 ≡ err other)
unfolding authenticate E.◌>>=◌ E.query_row E.on_error E.external no_rows_as
authenticate-live svc token e s row plain sent live = elim (Bool-cases (e.fault s.calls)) [
  | inl broken ↦ inr (ground arith)
  | inr works ↦
      let t = record s { calls = suc s.calls } in
      elim (Result-cases (with_capabilities svc (encrypted_user row) e t).0) [
        | inl (u, found) ↦
            inl (u, ground arith, id-with_capabilities svc (encrypted_user row) e t u found)
        | inr (x, failed) ↦
            let why = with_capabilities-eq-err svc (encrypted_user row) e t x plain failed in
            inr (ground arith)
      ]
]

-- After a login that was answered with 200, a request to `me` with the cookie that it set is, until
-- the session's time to live is over, answered with 200 and the user of the login, or with 500: the
-- session is never refused. (On the database that the login left; the capability reader only reads
-- and has no error of its own, user ids are unique, and the token is not empty.)
pub me-login :
    (codec : Codec) (cfg : Config) (started : ℕ) (svc : Service) (r r' : Request) (e e' : Env)
    (s s' : State) (token : String)
    → ((id : String) → ReadsOnly (svc.list_capabilities id))
    → FailsPlainly svc
    → UniqueBy (λ (u : UserRow). u.id) s.db.users
    → (serve (login (api_of codec cfg started svc) r) e s).0.status ≡ 200
    → cookie_value (serve (login (api_of codec cfg started svc) r) e s).0 ≡ some token
    → (token == "") ≡ false
    → s'.db ≡ (serve (login (api_of codec cfg started svc) r) e s).1.db
    → e'.platform ≡ e.platform
    → e'.db_now < e.app_now + svc.ttl
    → named cfg.session_cookie_name r'.cookies ≡ some token
    → (user seen : User) × ((serve (login (api_of codec cfg started svc) r) e s).0.payload
        ≡ new_auth_response user)
      × (((serve (me (api_of codec cfg started svc) r') e' s').0.status ≡ 500)
          ⊎ (((serve (me (api_of codec cfg started svc) r') e' s').0.status ≡ 200)
              × ((serve (me (api_of codec cfg started svc) r') e' s').0.payload
                  ≡ new_auth_response seen)
              × (seen.id ≡ user.id)))
unfolding me require_cookie or_respond ◌>>=◌ call pure serve api_of write_auth_error
me-login codec cfg started svc r r' e e' s s' token reads plain unique answered cookie sent next
      platforms soon carried =
    let api = api_of codec cfg started svc in
    let (request, user, opened, admitted, state, set, shown) = login-eq-200 api r e s answered in
    let (u, _, _, _, same_id, live) =
      login-opens_session svc (login_input request r e.platform) e s user opened e'.db_now reads
        unique admitted soon in
    let same_token : opened.token ≡ token = ground arith in
    let same_db = next ∙ ap (λ t. t.db) state in
    let found : session_user e'.db_now (hash_session_token e'.platform token) s'.db ≡ some u =
      subst (λ d. session_user e'.db_now (hash_session_token e'.platform token) d ≡ some u)
        (sym same_db)
        (subst
          (λ p.
            session_user e'.db_now (hash_session_token p token)
              (Accounts.login svc (login_input request r e.platform) e s).1.db
            ≡ some u)
          (sym platforms)
          (subst
            (λ t.
              session_user e'.db_now (hash_session_token e.platform t)
                (Accounts.login svc (login_input request r e.platform) e s).1.db
              ≡ some u)
            same_token live)) in
    elim (authenticate-live svc token e' s' u plain sent found) [
      | inl (seen, known, id) ↦
          (user, seen, shown, inr (ground arith, ground arith, id ∙ sym same_id))
      | inr broken ↦ (user, user, shown, inl (ground arith))
    ]
