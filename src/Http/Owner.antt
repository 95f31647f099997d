-- ===== src/Http/Owner.antt =====
-- internal/httpapi/owner_*.go: the handlers of an owner's venues, subscription, staff, orders,
-- reviews, payments and floor plans.
use pocket_mvp_backend.Prelude.{some, if◌then◌else◌, ◌==◌}
use pocket_mvp_backend.Effects.{Op}
use pocket_mvp_backend.Http.Message.{Response, Handler, Web, Payload, pure, call, ◌>>=◌, ◌>>◌}
use pocket_mvp_backend.Http.Contracts.{Api}
use pocket_mvp_backend.Http.Support.{
  write_json, write_header, write_owner_error, decode_owner_json, current_user, path_value,
}

abbrev pub method_not_allowed : Web Response
method_not_allowed = pure (write_header 405)

-- `item, err := service(…); if err != nil { … }; writeJSON(w, http.StatusOK, …)`
abbrev pub reply : {A : Type 0} → Op A → (A → Payload) → Web Response
reply m show = do value ← call m write_owner_error; pure (write_json 200 (show value))

-- The same with http.StatusCreated.
abbrev pub created : {A : Type 0} → Op A → (A → Payload) → Web Response
created m show = do value ← call m write_owner_error; pure (write_json 201 (show value))

-- The same with http.StatusNoContent.
abbrev pub no_content : Op Unit → Web Response
no_content m = do call m write_owner_error; pure (write_header 204)

unfoldable pub owner_venues : Api → Handler
owner_venues api r = do
  user ← current_user api r
  if r.method == "GET"
      then reply (api.venues.list user.id) Payload.venues
      else if r.method == "POST"
      then (do
        input ← decode_owner_json api.codec.venue_input r
        created (api.venues.create user.id input) Payload.venue)
      else method_not_allowed

unfoldable pub owner_venue : Api → Handler
owner_venue api r = do
  user ← current_user api r
  let venue_id = path_value "venueID" r
  if r.method == "PATCH"
      then (do
        input ← decode_owner_json api.codec.venue_input r
        reply (api.venues.update user.id venue_id input) Payload.venue)
      else if r.method == "DELETE"
      then no_content (api.venues.delete user.id venue_id)
      else method_not_allowed

unfoldable pub owner_dashboard : Api → Handler
owner_dashboard api r = do
  user ← current_user api r
  reply (api.reporting.dashboard user.id (path_value "venueID" r)) Payload.dashboard

unfoldable pub owner_staff : Api → Handler
owner_staff api r = do
  user ← current_user api r
  let venue_id = path_value "venueID" r
  if r.method == "GET"
      then reply (api.workforce.list user.id venue_id) Payload.staff
      else if r.method == "POST"
      then (do
        input ← decode_owner_json api.codec.staff_input r
        created (api.workforce.create user.id venue_id input) Payload.staff_member)
      else method_not_allowed

unfoldable pub owner_staff_member : Api → Handler
owner_staff_member api r = do
  user ← current_user api r
  let venue_id = path_value "venueID" r
  let staff_id = path_value "resourceID" r
  if r.method == "PATCH"
      then (do
        input ← decode_owner_json api.codec.staff_input r
        reply (api.workforce.update user.id venue_id staff_id input) Payload.staff_member)
      else if r.method == "DELETE"
      then no_content (api.workforce.delete user.id venue_id staff_id)
      else method_not_allowed

unfoldable pub owner_orders : Api → Handler
owner_orders api r = do
  user ← current_user api r
  reply (api.ordering.list user.id (path_value "venueID" r)) Payload.orders

unfoldable pub owner_order : Api → Handler
owner_order api r = do
  user ← current_user api r
  status ← decode_owner_json api.codec.status_input r
  reply
      (api.ordering.update_status user.id (path_value "venueID" r) (path_value "resourceID" r)
        status)
      Payload.order

unfoldable pub owner_reviews : Api → Handler
owner_reviews api r = do
  user ← current_user api r
  reply (api.feedback.list user.id (path_value "venueID" r)) Payload.reviews

unfoldable pub owner_review : Api → Handler
owner_review api r = do
  user ← current_user api r
  text ← decode_owner_json api.codec.reply_input r
  reply (api.feedback.reply user.id (path_value "venueID" r) (path_value "resourceID" r) text)
      Payload.review

unfoldable pub owner_payments : Api → Handler
owner_payments api r = do
  user ← current_user api r
  reply (api.billing.list_payments user.id (path_value "venueID" r)) Payload.payments

unfoldable pub owner_subscription : Api → Handler
owner_subscription api r = do
  user ← current_user api r
  if r.method == "GET"
      then reply (api.billing.get_subscription user.id) Payload.subscription
      else if r.method == "PUT"
      then (do
        input ← decode_owner_json api.codec.subscription_input r
        reply (api.billing.upsert_subscription user.id input) (λ s. Payload.subscription (some s)))
      else method_not_allowed

unfoldable pub owner_floor_plan : Api → Handler
owner_floor_plan api r = do
  user ← current_user api r
  let venue_id = path_value "venueID" r
  if r.method == "GET"
      then reply (api.floor_plan.get user.id venue_id) Payload.floor_plan
      else if r.method == "PUT"
      then (do
        plan ← decode_owner_json api.codec.floor_plan_input r
        reply (api.floor_plan.save user.id venue_id plan) Payload.floor_plan)
      else method_not_allowed
