-- ===== src/Start/Requests.antt =====
-- What a request for a reset link is answered, over the wired services.
use pocket_mvp_backend.Prelude.{ℕ, ◌≡◌, false, some, length, arith, ltb}
use pocket_mvp_backend.Platform.{Env}
use pocket_mvp_backend.Effects.{State}
use pocket_mvp_backend.Identity.Model.{Service}
use pocket_mvp_backend.Identity.PasswordReset.Answered.{IsServing, request_password_reset-ok}
use pocket_mvp_backend.Config.{Config}
use pocket_mvp_backend.Http.Message.{Request, serve, call, ask, pure, or_respond, ◌>>=◌}
use pocket_mvp_backend.Http.Contracts.{Codec, ResetRequest}
use pocket_mvp_backend.Http.Support.{decode_auth_json, decode_limited, max_auth_body}
use pocket_mvp_backend.Http.Auth.{request_password_reset, reset_request, accepted}
use pocket_mvp_backend.Start.{api_of}

-- Every request for a reset link whose body is short enough and can be decoded gets one and the same
-- response, whatever its address and whether or not that has an account, provided that: no call to
-- the outside fails, the sender of links itself never answers with an error, the tokens that can be
-- drawn are new, and a link that is issued now is still valid by the database's clock.
pub request_password_reset-uniform :
    (codec : Codec) (cfg : Config) (started : ℕ) (svc : Service) (r : Request)
    (request : ResetRequest) (e : Env) (s : State)
    → IsServing svc e s.db
    → ltb max_auth_body (length r.body) ≡ false
    → codec.reset_request r.body ≡ some request
    → (serve (request_password_reset (api_of codec cfg started svc) r) e s).0 ≡ accepted
unfolding request_password_reset decode_auth_json decode_limited or_respond ◌>>=◌ ask call pure
    serve api_of
request_password_reset-uniform codec cfg started svc r request e s serving short decoded =
    let done = request_password_reset-ok svc (reset_request request r e.platform) e s serving in
    ground arith
