-- ===== src/Http/Auth.antt =====
-- internal/httpapi/auth.go: accounts and sessions.
use pocket_mvp_backend.Prelude.{Option, none, some, String, [], ◌∷◌}
use pocket_mvp_backend.Faults.{Error, IdentityError, identity}
use pocket_mvp_backend.Identity.Model.{
  RegisterInput, LoginInput, PasswordResetRequest, ChangePasswordInput, ChangeEmailInput,
}
use pocket_mvp_backend.Platform.{Platform}
use pocket_mvp_backend.Http.Message.{
  Request, Response, Handler, Web, pure, call, ask, ◌>>=◌, ◌>>◌, texts,
}
use pocket_mvp_backend.Http.Contracts.{Api, RegisterRequest, LoginRequest, ResetRequest}
use pocket_mvp_backend.Http.Support.{
  write_json, write_header, write_api_error, write_auth_error, no_store, decode_auth_json,
  current_user, require_cookie, session_token, client_ip, new_auth_response, set_session_cookie,
  clear_session_cookie,
}

abbrev register_input : RegisterRequest → Request → Platform → RegisterInput
register_input request r e = record {
  first_name = request.first_name;
  last_name = request.last_name;
  email = request.email;
  phone = request.phone;
  password = request.password;
  user_agent = r.user_agent;
  ip_address = client_ip e r;
}

unfoldable pub register : Api → Handler
register api r = do
  request ← decode_auth_json api.codec.register_request r
  e ← ask
  (user, session) ←
      call (api.identity.register (register_input request r e.platform)) write_auth_error
  pure (
      set_session_cookie api e.app_now session (no_store (write_json 201 (new_auth_response user))))

abbrev pub login_input : LoginRequest → Request → Platform → LoginInput
login_input request r e = record {
  email = request.email;
  password = request.password;
  user_agent = r.user_agent;
  ip_address = client_ip e r;
}

unfoldable pub login : Api → Handler
login api r = do
  request ← decode_auth_json api.codec.login_request r
  e ← ask
  (user, session) ← call (api.identity.login (login_input request r e.platform)) write_auth_error
  pure (
      set_session_cookie api e.app_now session (no_store (write_json 200 (new_auth_response user))))

unfoldable pub me : Api → Handler
me api r = do
  token ← require_cookie api r
  user ← call (api.identity.authenticate token) write_auth_error
  pure (no_store (write_json 200 (new_auth_response user)))

unfoldable pub update_profile : Api → Handler
update_profile api r = do
  user ← current_user api r
  request ← decode_auth_json api.codec.update_profile_request r
  updated ← call (api.identity.update_profile user.id request) write_auth_error
  pure (no_store (write_json 200 (new_auth_response updated)))

-- The session that the cookie names is revoked, if there is a cookie.
abbrev revoke_session : Api → Option String → Web Unit
revoke_session api none = pure tt
revoke_session api (some token) = call (api.identity.logout token) write_auth_error

unfoldable pub logout : Api → Handler
logout api r = do
  revoke_session api (session_token api r)
  pure (clear_session_cookie api (no_store (write_header 204)))

abbrev pub reset_request : ResetRequest → Request → Platform → PasswordResetRequest
reset_request request r e = record {
  email = request.email;
  locale = request.locale;
  ip_address = client_ip e r;
}

abbrev internal_error : Response
internal_error = write_api_error 500 "internal_server_error" "Не удалось выполнить запрос"

abbrev pub accepted : Response
accepted = no_store (write_json 202 (texts (("status", "accepted") ∷ [])))

unfoldable pub request_password_reset : Api → Handler
request_password_reset api r = do
  request ← decode_auth_json api.codec.reset_request r
  e ← ask
  call (api.identity.request_password_reset (reset_request request r e.platform))
      (λ x. internal_error)
  pure accepted

-- The switch of `resetPassword`.
unfoldable pub write_reset_error : Error → Response
write_reset_error (identity IdentityError.invalid_reset_token) =
    write_api_error 422 "invalid_reset_token" "Ссылка недействительна или устарела"
write_reset_error (identity IdentityError.invalid_input) =
    write_api_error 422 "invalid_input" "Проверьте введенные данные"
write_reset_error _ = internal_error

unfoldable pub reset_password : Api → Handler
reset_password api r = do
  request ← decode_auth_json api.codec.reset_confirmation r
  call (api.identity.reset_password request) write_reset_error
  pure (no_store (write_header 204))

unfoldable pub change_password : Api → Handler
change_password api r = do
  user ← current_user api r
  token ← require_cookie api r
  request ← decode_auth_json api.codec.change_password_request r
  let input : ChangePasswordInput = record {
    user_id = user.id;
    session_token = token;
    current_password = request.current_password;
    new_password = request.new_password;
  }
  call (api.identity.change_password input) write_auth_error
  pure (no_store (write_header 204))

unfoldable pub change_email : Api → Handler
change_email api r = do
  user ← current_user api r
  request ← decode_auth_json api.codec.change_email_request r
  let input : ChangeEmailInput = record {
    user_id = user.id;
    current_password = request.current_password;
    new_email = request.new_email;
  }
  updated ← call (api.identity.change_email input) write_auth_error
  pure (no_store (write_json 200 (new_auth_response updated)))
