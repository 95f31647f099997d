-- ===== src/Http/Routes.antt =====
-- internal/httpapi/routes.go, and the handler that `New` of server.go builds.
use pocket_mvp_backend.Prelude.{Option, none, some, String, List, [], ◌∷◌, ◌++◌, map, find, ◌==◌}
use pocket_mvp_backend.Http.Message.{Request, Response, Handler, Web, Named, pure}
use pocket_mvp_backend.Http.Contracts.{Api}
use pocket_mvp_backend.Http.Auth.{
  register, login, me, update_profile, logout, request_password_reset, reset_password,
  change_password, change_email,
}
use pocket_mvp_backend.Http.Avatar.{update_avatar, avatar}
use pocket_mvp_backend.Http.Owner.{
  owner_venues, owner_venue, owner_dashboard, owner_staff, owner_staff_member, owner_orders,
  owner_order, owner_reviews, owner_review, owner_payments, owner_subscription, owner_floor_plan,
}
use pocket_mvp_backend.Http.Menus.{
  owner_categories, owner_category, owner_category_order, owner_menu_items, owner_menu_item,
  owner_menu_item_order,
}
use pocket_mvp_backend.Http.Server.{health, ready, service_info, cors, security_headers}

-- A pattern of ServeMux with its handler.
abbrev pub Route : Type 0
Route = String × (Api → Handler)

abbrev pub open_routes : List Route
open_routes =
    ("GET /health", health)
    ∷ ("GET /healthz", health)
    ∷ ("GET /readyz", ready)
    ∷ ("GET /api/v1", service_info)
    ∷ ("POST /api/v1/auth/register", register)
    ∷ ("POST /api/v1/auth/login", login)
    ∷ ("POST /api/v1/auth/logout", logout)
    ∷ ("POST /api/v1/auth/password-reset/request", request_password_reset)
    ∷ ("POST /api/v1/auth/password-reset/confirm", reset_password)
    ∷ []

-- The routes of a signed-in user.
abbrev pub user_routes : List Route
user_routes =
    ("GET /api/v1/auth/me", me)
    ∷ ("PATCH /api/v1/auth/me", update_profile)
    ∷ ("POST /api/v1/auth/password/change", change_password)
    ∷ ("POST /api/v1/auth/email/change", change_email)
    ∷ ("GET /api/v1/auth/me/avatar", avatar)
    ∷ ("POST /api/v1/auth/me/avatar", update_avatar)
    ∷ ("/api/v1/owner/venues", owner_venues)
    ∷ ("/api/v1/owner/subscription", owner_subscription)
    ∷ []

-- The routes of a signed-in user that are about one venue.
abbrev pub venue_routes : List Route
venue_routes =
    ("/api/v1/owner/venues/{venueID}", owner_venue)
    ∷ ("GET /api/v1/owner/venues/{venueID}/dashboard", owner_dashboard)
    ∷ ("/api/v1/owner/venues/{venueID}/categories", owner_categories)
    ∷ ("PUT /api/v1/owner/venues/{venueID}/categories/order", owner_category_order)
    ∷ ("/api/v1/owner/venues/{venueID}/categories/{resourceID}", owner_category)
    ∷ ("/api/v1/owner/venues/{venueID}/menu-items", owner_menu_items)
    ∷ ("PUT /api/v1/owner/venues/{venueID}/menu-items/order", owner_menu_item_order)
    ∷ ("/api/v1/owner/venues/{venueID}/menu-items/{resourceID}", owner_menu_item)
    ∷ ("/api/v1/owner/venues/{venueID}/staff", owner_staff)
    ∷ ("/api/v1/owner/venues/{venueID}/staff/{resourceID}", owner_staff_member)
    ∷ ("GET /api/v1/owner/venues/{venueID}/orders", owner_orders)
    ∷ ("PATCH /api/v1/owner/venues/{venueID}/orders/{resourceID}", owner_order)
    ∷ ("GET /api/v1/owner/venues/{venueID}/reviews", owner_reviews)
    ∷ ("PATCH /api/v1/owner/venues/{venueID}/reviews/{resourceID}", owner_review)
    ∷ ("GET /api/v1/owner/venues/{venueID}/payments", owner_payments)
    ∷ ("/api/v1/owner/venues/{venueID}/floor-plan", owner_floor_plan)
    ∷ []

-- Everything that is registered; the order of registration does not matter to ServeMux.
abbrev pub registered : List Route
registered = open_routes ++ (user_routes ++ venue_routes)

abbrev run_route : Api → Request → Option Route → Web Response
run_route api r none = pure (api.codec.unmatched r.method r.path)
run_route api r (some (pattern, handler)) = handler api r

abbrev dispatch : Api → Request → Option (String × List Named) → Web Response
dispatch api r none = pure (api.codec.unmatched r.method r.path)
dispatch api r (some (pattern, values)) =
    run_route api (record r { path_values = values })
      (find (λ (route : Route). route.0 == pattern) registered)

-- `routes`: ServeMux picks a pattern and runs its handler.
unfoldable pub routes : Api → Handler
routes api r =
    dispatch api r (api.codec.match (map (λ (route : Route). route.0) registered) r.method r.path)

-- The chain of `New`.
unfoldable pub new_handler : Api → Handler
new_handler api = security_headers (cors api (routes api))
