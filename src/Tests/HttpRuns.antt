-- ===== src/Tests/HttpRuns.antt =====
-- The theorems on requests, on the example service.
use pocket_mvp_backend.Prelude.{
  ◌≡◌, ◌⊎◌, refl, true, false, none, some, String, [], ◌∷◌, ◌++◌, All, arith, bytes_eq,
}
use pocket_mvp_backend.Faults.{AppFault, app}
use pocket_mvp_backend.Schema.{AccountRole}
use pocket_mvp_backend.Effects.{State, Op, ok, err}
use pocket_mvp_backend.Effects as E
use pocket_mvp_backend.GoText.{trim_space, trim_left, trim_right, is_space, to_lower, contains_code}
use pocket_mvp_backend.Security.Data.{decrypt, decrypt_bytes, lookup, normalize_email}
use pocket_mvp_backend.Security.Password.{verify_password, encoded_hash}
use pocket_mvp_backend.Security.Password.Scan.{split, scan_version, scan_parameters}
use pocket_mvp_backend.Security.Session.{new_session_token, hash_session_token}
use pocket_mvp_backend.Access.{list_capabilities, require_owner}
use pocket_mvp_backend.Access.Owner.{list_capabilities-ReadsOnly, list_capabilities-eq-err}
use pocket_mvp_backend.Identity.Model.{User}
use pocket_mvp_backend.Identity.Validation.{valid_email, normalized_ip}
use pocket_mvp_backend.Identity.Persistence.{
  decrypt_user, decrypt_phone, with_capabilities, create_session, insert_session, storable_session,
  find_user_by_lookup,
}
use pocket_mvp_backend.Identity.Throttle.{login_blocked}
use pocket_mvp_backend.Identity.Service as Accounts
use pocket_mvp_backend.Identity.Sessions.{authenticate}
use pocket_mvp_backend.Identity.PasswordReset.Answered.{IsServing}
use pocket_mvp_backend.Http.Message.{
  Request, Response, named, serve, next, ◌>>=◌, call, or_respond, ask, pure,
}
use pocket_mvp_backend.Http.Support.{
  current_user, require_cookie, path_value, decode_auth_json, decode_limited, set_session_cookie,
  new_auth_response, client_ip,
}
use pocket_mvp_backend.Http.Auth.{login, me, request_password_reset, accepted}
use pocket_mvp_backend.Http.Routes.{user_routes, venue_routes, routes, new_handler}
use pocket_mvp_backend.Http.Server.{is_read_method, guard_headers}
use pocket_mvp_backend.Http.Server.Origins.{new_handler-foreign}
use pocket_mvp_backend.Http.Denies.{Denies}
use pocket_mvp_backend.Http.Guards.{Unauthorized, guarded_routes-Unauthorized}
use pocket_mvp_backend.Http.Strangers.{venue_routes-Denies}
use pocket_mvp_backend.Start.{api_of}
use pocket_mvp_backend.Start.Guarded.{authenticate-ReadsOnly, api_of-IsGuarded}
use pocket_mvp_backend.Start.SignIn.{cookie_value, me-login}
use pocket_mvp_backend.Start.Requests.{request_password_reset-uniform}
use pocket_mvp_backend.Tests.Platform.{at, encode, fit}
use pocket_mvp_backend.Tests.Scene.{start, database, service, hash_of}
use pocket_mvp_backend.Tests.Web.{codec, config, api, request}

-- A request without a cookie.
abbrev nobody : Request
nobody = request "DELETE" [] [] (("venueID", "v") ∷ [])

guarded_routes-Unauthorized_example :
    All (λ route. Unauthorized (route.1 api nobody) (at 100) start) (user_routes ++ venue_routes)
unfolding api_of
guarded_routes-Unauthorized_example =
    guarded_routes-Unauthorized api nobody (at 100) start
      (authenticate-ReadsOnly service list_capabilities-ReadsOnly) (λ token sent. cc)

-- A signed-in user who does not own the venue "v" wants to add a category to its menu.
abbrev stranger : Request
stranger = request "POST" [] (("session", "q") ∷ []) (("venueID", "v") ∷ [])

abbrev stranger_user : User
stranger_user = record {
  id = "w";
  email = "#";
  first_name = "!";
  last_name = "!";
  phone = "";
  role = AccountRole.customer;
  capabilities = "customer" ∷ [];
  avatar_version = 0;
}

stranger_in : (current_user api stranger (at 100) start).0 ≡ next stranger_user
unfolding current_user require_cookie or_respond ◌>>=◌ call authenticate with_capabilities
    decrypt_user decrypt_phone decrypt decrypt_bytes hash_session_token list_capabilities api_of
    E.◌>>=◌ E.query_row E.query E.external E.on_error E.pure E.ask E.or_fail E.uuid_arg
stranger_in = refl

stranger_refused :
    (require_owner "w"
      (path_value "venueID" stranger)
      (at 100)
      (current_user api stranger (at 100) start).1).0
    ≡ err (app AppFault.not_found)
unfolding current_user require_cookie or_respond ◌>>=◌ call authenticate with_capabilities
    decrypt_user decrypt_phone decrypt decrypt_bytes hash_session_token list_capabilities api_of
    E.◌>>=◌ E.query_row E.query E.external E.on_error E.pure E.ask E.or_fail E.uuid_arg path_value
    require_owner E.fail_if
stranger_refused = refl

venue_routes-Denies_example :
    All (λ route. Denies (route.1 api stranger) (at 100) start) venue_routes
venue_routes-Denies_example =
    venue_routes-Denies api stranger (at 100) start stranger_user (app AppFault.not_found)
      (api_of-IsGuarded codec config 0 service list_capabilities-ReadsOnly) stranger_in
      stranger_refused

-- A page of another origin signs somebody in.
abbrev foreign : Request
foreign = request "POST" (("Origin", "https://evil") ∷ []) [] []

new_handler-foreign_example :
    ((is_read_method foreign ≡ false)
      × ((serve (new_handler api foreign) (at 100) start).0.status ≡ 403)
      × ((serve (new_handler api foreign) (at 100) start).1 ≡ start)
      × (named "Access-Control-Allow-Origin"
            (serve (new_handler api foreign) (at 100) start).0.headers
          ≡ none))
    ⊎ ((is_read_method foreign ≡ true)
        × ((serve (new_handler api foreign) (at 100) start).1
            ≡ (serve (routes api foreign) (at 100) start).1)
        × ((serve (new_handler api foreign) (at 100) start).0
            ≡ record (serve (routes api foreign) (at 100) start).0 {
              headers = (serve (routes api foreign) (at 100) start).0.headers ++ guard_headers;
            })
        × (named "Access-Control-Allow-Origin"
              (serve (new_handler api foreign) (at 100) start).0.headers
            ≡ named "Access-Control-Allow-Origin"
                (serve (routes api foreign) (at 100) start).0.headers))
unfolding api_of
new_handler-foreign_example = new_handler-foreign api foreign (at 100) start refl refl

abbrev sign_in : Request
sign_in = request "POST" [] [] []

abbrev token : String
token = encode (fit 32 (4 ∷ []))

abbrev signed_in : Response × State
signed_in = serve (login api sign_in) (at 100) start

login_answered : (signed_in.0.status ≡ 200) × (cookie_value signed_in.0 ≡ some token)
unfolding login decode_auth_json decode_limited or_respond ◌>>=◌ call ask pure serve
    set_session_cookie client_ip api_of Accounts.login Accounts.malformed_login valid_email
    normalize_email trim_space trim_left trim_right is_space to_lower contains_code lookup
    normalized_ip E.◌>>=◌ E.pure E.ask E.or_fail E.fail_if E.exec E.external E.query E.statement
    E.read_random E.transaction E.uuid_arg login_blocked find_user_by_lookup
    Accounts.password_matches verify_password split scan_version scan_parameters encoded_hash
    hash_of bytes_eq Accounts.decide_login decrypt_user decrypt_phone decrypt Accounts.open_login
    create_session new_session_token hash_session_token storable_session insert_session
    list_capabilities
login_answered = (refl, refl)

abbrev visit : Request
visit = request "GET" [] (("session", token) ∷ []) []

me-login_example :
    (user seen : User) × (signed_in.0.payload ≡ new_auth_response user)
    × (((serve (me api visit) (at 300) signed_in.1).0.status ≡ 500)
        ⊎ (((serve (me api visit) (at 300) signed_in.1).0.status ≡ 200)
            × ((serve (me api visit) (at 300) signed_in.1).0.payload ≡ new_auth_response seen)
            × (seen.id ≡ user.id)))
me-login_example =
    me-login codec config 0 service sign_in visit (at 100) (at 300) start signed_in.1 token
      list_capabilities-ReadsOnly list_capabilities-eq-err (refl, (refl, tt)) login_answered.0
      login_answered.1 refl refl refl (omega arith) refl

-- The example state without its reset token.
abbrev no_resets : State
no_resets = record start { db = record database { resets = [] } }

serving : IsServing service (at 100) no_resets.db
unfolding E.pure
serving = record {
  works = λ n. refl;
  fresh = λ n. refl;
  lasting = omega arith;
  delivers = λ to url locale s. refl;
}

request_password_reset-uniform_example :
    (serve (request_password_reset api sign_in) (at 100) no_resets).0 ≡ accepted
request_password_reset-uniform_example =
    request_password_reset-uniform codec config 0 service sign_in
      (record { email = "!"; locale = "sk" }) (at 100) no_resets serving refl refl
