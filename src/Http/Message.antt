-- ===== src/Http/Message.antt =====
-- Requests, responses and handlers of net/http as internal/httpapi uses them: a handler runs until
-- it writes its response, and calls services on the way.
use pocket_mvp_backend.Prelude.{ℕ, Bool, Option, none, some, String, Bytes, List, find, ◌==◌}
use pocket_mvp_backend.Faults.{Error}
use pocket_mvp_backend.Platform.{Env}
use pocket_mvp_backend.Effects.{Result, ok, err, State, Op}
use pocket_mvp_backend.Identity.Model.{User}
use pocket_mvp_backend.Venues.Model.{Venue}
use pocket_mvp_backend.Catalog.Model.{Category, MenuItem}
use pocket_mvp_backend.Workforce.{StaffMember}
use pocket_mvp_backend.Ordering.{Order}
use pocket_mvp_backend.Feedback.{Review}
use pocket_mvp_backend.Billing.{Subscription}
use pocket_mvp_backend.Billing.Payments.{Payment}
use pocket_mvp_backend.Reporting.{Dashboard}

-- A header, a cookie or a path value, by its name.
abbrev pub Named : Type 0
Named = String × String

abbrev pub value_of : Option Named → Option String
value_of none = none
value_of (some (name, value)) = some value

-- The first value of this name.
abbrev pub named : String → List Named → Option String
named name values = value_of (find (λ v. v.0 == name) values)

abbrev pub or_blank : Option String → String
or_blank none = ""
or_blank (some value) = value

-- A request; the path values are those that ServeMux found.
pub record Request : Type 0 where
  pub method : String
  pub path : String
  pub headers : List Named
  pub cookies : List Named
  pub path_values : List Named
  pub body : Bytes
  pub user_agent : Bytes
  pub remote_addr : String

-- `authUserResponse`
pub record AuthUser : Type 0 where
  pub user : User
  pub avatar_url : String

-- What is written: nothing, bytes, or a value as JSON. `api_error` is an `errorEnvelope`, `texts` a
-- map of texts, `auth_response` an `authResponse`, and each other constructor the map with the key
-- of its name.
pub data Payload : Type 0 where
  nothing : Payload
  raw : Bytes → Payload
  api_error : String → String → Payload
  texts : List Named → Payload
  health_report : ℕ → Payload
  service_report : List Named → Payload
  auth_response : AuthUser → Payload
  venues : List Venue → Payload
  venue : Venue → Payload
  dashboard : Dashboard → Payload
  categories : List Category → Payload
  category : Category → Payload
  items : List MenuItem → Payload
  item : MenuItem → Payload
  staff : List StaffMember → Payload
  staff_member : StaffMember → Payload
  orders : List Order → Payload
  order : Order → Payload
  reviews : List Review → Payload
  review : Review → Payload
  payments : List Payment → Payload
  subscription : Option Subscription → Payload
  floor_plan : String → Payload

-- The http.Cookie that is handed to http.SetCookie; `max_age` is none for the -1 that deletes it.
-- (SetCookie writes no Max-Age where it is 0.)
pub record Cookie : Type 0 where
  pub name : String
  pub value : String
  pub path : String
  pub expires : Option ℕ
  pub max_age : Option ℕ
  pub http_only : Bool
  pub secure : Bool
  pub same_site_lax : Bool

pub record Response : Type 0 where
  pub status : ℕ
  pub headers : List Named
  pub cookie : Option Cookie
  pub payload : Payload

-- A handler that has answered, or goes on with a value.
pub data Outcome (A : Type 0) : Type 0 where
  stop : Response → Outcome A
  next : A → Outcome A

abbrev pub Web : Type 0 → Type 0
Web A = Env → State → Outcome A × State

abbrev pub Handler : Type 0
Handler = Request → Web Response

module _ {A : Type 0} where
  unfoldable pub pure : A → Web A
  pure a e s = (next a, s)

  -- Write the response and return.
  unfoldable pub respond : Response → Web A
  respond r e s = (stop r, s)

abbrev pub proceed : {A B : Type 0} → Outcome A → (A → Web B) → Web B
proceed (next a) f e s = f a e s
proceed (stop r) f e s = (stop r, s)

infixl 5 ◌>>=◌ ◌>>◌
unfoldable pub ◌>>=◌ : {A B : Type 0} → Web A → (A → Web B) → Web B
◌>>=◌ m f e s = let (o, s') = m e s in proceed o f e s'

abbrev pub ◌>>◌ : {B : Type 0} → Web (Unit {0}) → Web B → Web B
m >> k = m >>= λ _. k

-- The environment, for the clock.
unfoldable pub ask : Web Env
ask e s = (next e, s)

abbrev pub answered : {A : Type 0} → (Error → Response) → Result A → Outcome A
answered f (ok a) = next a
answered f (err x) = stop (f x)

-- `value, err := service(…); if err != nil { write…Error(w, err); return }`
unfoldable pub call : {A : Type 0} → Op A → (Error → Response) → Web A
call m f e s = let (r, s') = m e s in (answered f r, s')

abbrev pub given : {A : Type 0} → Option A → Response → Outcome A
given none r = stop r
given (some a) r = next a

-- `if !ok { write…; return }`
unfoldable pub or_respond : {A : Type 0} → Option A → Response → Web A
or_respond o r e s = (given o r, s)

abbrev pub written : Outcome Response → Response
written (stop r) = r
written (next r) = r

-- The response of a handler and the state that it leaves.
unfoldable pub serve : Web Response → Env → State → Response × State
serve m e s = let (o, s') = m e s in (written o, s')

-- The handler with its response changed, as by headers that were set before it ran.
unfoldable pub adjust : (Response → Response) → Web Response → Web Response
adjust f m e s = let (o, s') = m e s in (next (f (written o)), s')
