-- ===== src/Http/Server.antt =====
-- internal/httpapi/server.go: the guards around the handlers, and the handlers of no module. The
-- recovery from panics and the request log change no response of these handlers.
pub mod Origins
use pocket_mvp_backend.Prelude.{
  ℕ, ◌-◌, Bool, true, false, ◌&&◌, not, Option, none, some, String, List, [], ◌∷◌, ◌++◌, exists,
  if◌then◌else◌, ◌==◌,
}
use pocket_mvp_backend.Faults.{Error}
use pocket_mvp_backend.Http.Message.{
  Named, Request, Response, Handler, Web, named, or_blank, pure, ask, call, adjust, ◌>>=◌, ◌>>◌,
  texts, health_report, service_report,
}
use pocket_mvp_backend.Http.Contracts.{Api}
use pocket_mvp_backend.Http.Support.{write_json, write_header}

unfoldable pub health : Api → Handler
health api r = do e ← ask; pure (write_json 200 (health_report (e.app_now - api.started_at)))

abbrev pub not_ready : Response
not_ready = write_json 503 (texts (("status", "not_ready") ∷ []))

unfoldable pub ready : Api → Handler
ready api r = do
  call api.ping (λ x. not_ready)
  pure (write_json 200 (texts (("status", "ready") ∷ [])))

unfoldable pub service_info : Api → Handler
service_info api r = pure (write_json 200 (service_report api.build))

-- Headers that are set before a handler runs: those that it sets itself replace them.
abbrev pub after_headers : List Named → Response → Response
after_headers headers r = record r { headers = r.headers ++ headers }

-- `r.Header.Get("Origin")`
abbrev pub origin_of : Request → String
origin_of r = or_blank (named "Origin" r.headers)

unfoldable pub origin_allowed : Api → Request → Bool
origin_allowed api r =
    not (origin_of r == "") && exists (λ origin. origin == origin_of r) api.allowed_origins

-- The headers that an allowed origin gets.
unfoldable pub cors_headers : Api → Request → List Named
cors_headers api r =
    if origin_allowed api r
    then ("Access-Control-Allow-Origin", origin_of r)
      ∷ ("Access-Control-Allow-Credentials", "true")
      ∷ ("Vary", "Origin")
      ∷ []
    else []

abbrev pub origin_not_allowed : Response
origin_not_allowed = write_json 403 (texts (("error", "origin_not_allowed") ∷ []))

abbrev pub preflight : Response
preflight = record (write_header 204) {
  headers =
      ("Access-Control-Allow-Headers", "Authorization, Content-Type, Idempotency-Key")
      ∷ ("Access-Control-Allow-Methods", "GET, POST, PATCH, PUT, DELETE, OPTIONS")
      ∷ [];
}

-- An origin that is named and not allowed.
unfoldable pub is_foreign : Api → Request → Bool
is_foreign api r = not (origin_of r == "") && not (origin_allowed api r)

abbrev pub is_read_method : Request → Bool
is_read_method r = if r.method == "GET" then true else r.method == "HEAD"

unfoldable pub cors : Api → Handler → Handler
cors api next r =
    if r.method == "OPTIONS"
    then (if is_foreign api r
        then pure origin_not_allowed
        else pure (after_headers (cors_headers api r) preflight))
    else if is_foreign api r && not (is_read_method r)
    then pure origin_not_allowed
    else adjust (after_headers (cors_headers api r)) (next r)

abbrev pub guard_headers : List Named
guard_headers =
    ("X-Content-Type-Options", "nosniff")
    ∷ ("X-Frame-Options", "DENY")
    ∷ ("Referrer-Policy", "no-referrer")
    ∷ []

unfoldable pub security_headers : Handler → Handler
security_headers next r = adjust (after_headers guard_headers) (next r)
