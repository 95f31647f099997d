-- ===== src/Http/Server/Origins.antt =====
-- What another origin's page gets of the handler that `New` of server.go builds.
use pocket_mvp_backend.Prelude.{
  ◌≡◌, ◌∙◌, refl, ◌⊎◌, Bool, true, false, Bool-cases, none, inl, inr, List, [], ◌∷◌, ◌++◌, exists,
  find, arith, ap, eq_iff, ◌==◌,
}
use pocket_mvp_backend.Platform.{Env}
use pocket_mvp_backend.Effects.{State}
use pocket_mvp_backend.Http.Message.{Named, Request, Response, pure, adjust, serve, named, value_of}
use pocket_mvp_backend.Http.Contracts.{Api}
use pocket_mvp_backend.Http.Server.{
  cors, security_headers, cors_headers, origin_allowed, origin_of, is_foreign, is_read_method,
  guard_headers,
}
use pocket_mvp_backend.Http.Routes.{routes, new_handler}

not_preflight : (r : Request) → is_read_method r ≡ true → (r.method == "OPTIONS") ≡ false
not_preflight r h = elim (Bool-cases (r.method == "GET")) [
  | inl get ↦ ap (λ m. m == "OPTIONS") ((eq_iff r.method "GET").0 get)
  | inr other ↦ ap (λ m. m == "OPTIONS") ((eq_iff r.method "HEAD").0 (ground arith))
]

-- Headers of other names that are added at the end do not hide or replace one.
find-append_other :
    (p : Named → Bool) (xs ys : List Named) → find p ys ≡ none → find p (xs ++ ys) ≡ find p xs
find-append_other p [] ys h = h
find-append_other p (x ∷ xs) ys h = ground (arith, find-append_other p xs ys h)

unfoldable with_headers : Response → List Named → Response
with_headers w hs = record w { headers = hs ++ guard_headers }

append-nil : (xs : List Named) → xs ++ [] ≡ xs
append-nil [] = refl
append-nil (x ∷ xs) = ap (λ l. x ∷ l) (append-nil xs)

named-append :
    (xs ys : List Named)
    → find (λ v. v.0 == "Access-Control-Allow-Origin") ys ≡ none
    → named "Access-Control-Allow-Origin" (xs ++ ys) ≡ named "Access-Control-Allow-Origin" xs
named-append xs ys h =
    ap value_of (find-append_other (λ v. v.0 == "Access-Control-Allow-Origin") xs ys h)

-- A request that names an origin that is not listed is, unless its method is GET or HEAD, answered
-- with 403 and without Access-Control-Allow-Origin, and leaves the state alone. With GET or HEAD it
-- gets the state and the response of the routes, to whose headers the guards only add their three,
-- after the handler's own; Access-Control-Allow-Origin is then what the handler itself set, if
-- anything.
pub new_handler-foreign :
    (api : Api) (r : Request) (e : Env) (s : State)
    → (origin_of r == "") ≡ false
    → exists (λ origin. origin == origin_of r) api.allowed_origins ≡ false
    → ((is_read_method r ≡ false)
        × ((serve (new_handler api r) e s).0.status ≡ 403)
        × ((serve (new_handler api r) e s).1 ≡ s)
        × (named "Access-Control-Allow-Origin" (serve (new_handler api r) e s).0.headers ≡ none))
      ⊎ ((is_read_method r ≡ true)
          × ((serve (new_handler api r) e s).1 ≡ (serve (routes api r) e s).1)
          × ((serve (new_handler api r) e s).0 ≡ record (serve (routes api r) e s).0 {
            headers = (serve (routes api r) e s).0.headers ++ guard_headers;
          })
          × (named "Access-Control-Allow-Origin" (serve (new_handler api r) e s).0.headers
              ≡ named "Access-Control-Allow-Origin" (serve (routes api r) e s).0.headers))
unfolding new_handler with_headers security_headers cors cors_headers origin_allowed is_foreign
    adjust serve pure
new_handler-foreign api r e s origin unlisted = elim (Bool-cases (is_read_method r)) [
  | inr changing ↦ inl (changing, ground arith, ground arith, ground arith)
  | inl reading ↦
      let plain = not_preflight r reading in
      let hs = (serve (routes api r) e s).0.headers in
      let kept = named-append hs [] refl in
      let also = named-append (hs ++ []) guard_headers refl in
      let first : (serve (cors api (routes api) r) e s).0
          ≡ record (serve (routes api r) e s).0 { headers = hs ++ [] } =
        ground arith in
      let whole : (serve (new_handler api r) e s).0
          ≡ record (serve (routes api r) e s).0 { headers = (hs ++ []) ++ guard_headers } =
        ap (λ (w : Response). record w { headers = w.headers ++ guard_headers }) first in
      let tidy = ap (with_headers (serve (routes api r) e s).0) (append-nil hs) in
      inr (reading, ground arith, whole ∙ tidy, ground (arith, kept, also))
]
