-- ===== src/Http/Support.antt =====
-- What the handlers share: owner_support.go, and the helpers of auth.go and server.go.
use Prim.Native.String.{◌++◌ as ◌⧺◌}
use pocket_mvp_backend.Prelude.{
  ℕ, ◌*◌, ◌^◌, ◌-◌, ◌/◌, true, Option, none, some, String, Bytes, [], ◌∷◌, length, ltb,
  if◌then◌else◌,
}
use pocket_mvp_backend.Faults.{Error, IdentityError, AppFault, identity, app}
use pocket_mvp_backend.Platform.{Platform}
use pocket_mvp_backend.GoText.{decimal}
use pocket_mvp_backend.Identity.Model.{User, Session}
use pocket_mvp_backend.Http.Message.{
  Request, Response, Payload, Web, named, or_blank, call, or_respond, ◌>>=◌, nothing, api_error,
}
use pocket_mvp_backend.Http.Contracts.{Api}

-- `w.Header().Set(name, value)`: the first value of a name is the one sent.
abbrev pub set_header : String → String → Response → Response
set_header name value r = record r { headers = (name, value) ∷ r.headers }

-- `w.WriteHeader(status)` with no body
abbrev pub write_header : ℕ → Response
write_header status = record { status = status; headers = []; cookie = none; payload = nothing }

abbrev pub write_json : ℕ → Payload → Response
write_json status payload = record {
  status = status;
  headers = ("Content-Type", "application/json; charset=utf-8") ∷ [];
  cookie = none;
  payload = payload;
}

abbrev pub no_store : Response → Response
no_store r = set_header "Cache-Control" "no-store" r

abbrev pub write_api_error : ℕ → String → String → Response
write_api_error status code message = no_store (write_json status (api_error code message))

-- `writeAuthError`
unfoldable pub write_auth_error : Error → Response
write_auth_error (identity IdentityError.invalid_input) =
    write_api_error 422 "invalid_input"
      "Проверьте поля формы. Пароль должен содержать от 12 до 128 символов"
write_auth_error (identity IdentityError.email_already_exists) =
    write_api_error 409 "account_exists" "Аккаунт с таким e-mail уже существует"
write_auth_error (identity IdentityError.invalid_credentials) =
    write_api_error 401 "invalid_credentials" "Неверный e-mail или пароль"
write_auth_error (identity IdentityError.invalid_current_password) =
    write_api_error 422 "invalid_current_password" "Текущий пароль указан неверно"
write_auth_error (identity IdentityError.too_many_attempts) =
    write_api_error 429 "too_many_attempts" "Слишком много попыток. Попробуйте через 15 минут"
write_auth_error (identity IdentityError.unauthorized) =
    write_api_error 401 "unauthorized" "Требуется вход в аккаунт"
write_auth_error _ = write_api_error 500 "internal_server_error" "Не удалось выполнить запрос"

-- `writeOwnerError`
unfoldable pub write_owner_error : Error → Response
write_owner_error (app AppFault.invalid_input) =
    write_api_error 422 "invalid_input" "Проверьте введенные данные"
write_owner_error (app AppFault.not_found) =
    write_api_error 404 "not_found" "Объект не найден или недоступен"
write_owner_error (app AppFault.conflict) =
    write_api_error 409 "conflict" "Такой объект уже существует или используется"
write_owner_error _ = write_api_error 500 "internal_server_error" "Не удалось выполнить запрос"

abbrev pub max_auth_body : ℕ
max_auth_body = 64 * 2 ^ 10

abbrev pub max_owner_body : ℕ
max_owner_body = 2 ^ 20

-- A body is read through http.MaxBytesReader to its end: one that is longer is an error.
unfoldable pub decode_limited : {A : Type 0} → ℕ → (Bytes → Option A) → Request → Web A
decode_limited limit decode r =
    or_respond (if ltb limit (length r.body) then none else decode r.body)
      (write_api_error 400 "invalid_request" "Проверьте введенные данные")

-- `decodeAuthJSON` and `decodeOwnerJSON`
unfoldable pub decode_auth_json : {A : Type 0} → (Bytes → Option A) → Request → Web A
decode_auth_json decode r = decode_limited max_auth_body decode r

unfoldable pub decode_owner_json : {A : Type 0} → (Bytes → Option A) → Request → Web A
decode_owner_json decode r = decode_limited max_owner_body decode r

-- `r.Cookie(api.sessionCookie)`
abbrev pub session_token : Api → Request → Option String
session_token api r = named api.session_cookie r.cookies

-- The cookie's value, or `writeAuthError(w, identity.ErrUnauthorized)`.
unfoldable pub require_cookie : Api → Request → Web String
require_cookie api r =
    or_respond (session_token api r) (write_auth_error (identity IdentityError.unauthorized))

unfoldable pub current_user : Api → Request → Web User
current_user api r = do
  token ← require_cookie api r
  call (api.identity.authenticate token) write_auth_error

unfoldable pub path_value : String → Request → String
path_value name r = or_blank (named name r.path_values)

abbrev host_or_address : Option String → String → String
host_or_address none address = address
host_or_address (some host) address = host

unfoldable pub client_ip : Platform → Request → String
client_ip e r = host_or_address (e.split_host_port r.remote_addr) r.remote_addr

unfoldable pub new_auth_response : User → Payload
new_auth_response user = Payload.auth_response (record {
  user = user;
  avatar_url =
      if ltb 0 user.avatar_version
      then "/api/v1/auth/me/avatar?v=" ⧺ decimal user.avatar_version
      else "";
})

-- `setSessionCookie`; a session expires after the application's present, since its time to live is
-- a duration that is not negative, and MaxAge counts whole seconds.
unfoldable pub set_session_cookie : Api → ℕ → Session → Response → Response
set_session_cookie api now session r = record r {
  cookie = some (record {
    name = api.session_cookie;
    value = session.token;
    path = "/";
    expires = some session.expires_at;
    max_age = some ((session.expires_at - now) / 10 ^ 6);
    http_only = true;
    secure = api.session_secure;
    same_site_lax = true;
  });
}

-- The cookie of `logout`, which deletes the session cookie.
unfoldable pub clear_session_cookie : Api → Response → Response
clear_session_cookie api r = record r {
  cookie = some (record {
    name = api.session_cookie;
    value = "";
    path = "/";
    expires = none;
    max_age = none;
    http_only = true;
    secure = api.session_secure;
    same_site_lax = true;
  });
}
