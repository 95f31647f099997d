-- ===== src/Start.antt =====
-- cmd/api/main.go up to the handler: the services that are made from a configuration, and the API
-- over them. The server, its timeouts and the signals are not part of it.

pub mod Guarded
pub mod SignIn
pub mod Boot
pub mod Requests
use pocket_mvp_backend.Prelude.{ℕ, ◌/◌, not, Option, none, some, String, List, [], ◌∷◌}
use pocket_mvp_backend.Faults.{other}
use pocket_mvp_backend.Effects.{Op, ok, pure, ask, fail_if, or_fail, external, ◌>>=◌, ◌>>◌}
use pocket_mvp_backend.Security.Data.{new_data_protector}
use pocket_mvp_backend.Access.{list_capabilities}
use pocket_mvp_backend.Config.{Config}
use pocket_mvp_backend.Notifications.{new_password_reset_sender, send_password_reset}
use pocket_mvp_backend.Identity.Model.{Service}
use pocket_mvp_backend.Identity.Service as Accounts
use pocket_mvp_backend.Identity.Sessions as Sessions
use pocket_mvp_backend.Identity.Account as Account
use pocket_mvp_backend.Identity.PasswordReset as Reset
use pocket_mvp_backend.Identity.PasswordChange as Change
use pocket_mvp_backend.Venues.Listing.{list_venues}
use pocket_mvp_backend.Venues.Changes.{create_venue, update_venue, delete_venue}
use pocket_mvp_backend.Catalog.Listings as Menus
use pocket_mvp_backend.Catalog.Categories as Categories
use pocket_mvp_backend.Catalog.MenuItems as Items
use pocket_mvp_backend.Catalog.Order as Order
use pocket_mvp_backend.Workforce.Listing.{list_staff}
use pocket_mvp_backend.Workforce.{create_staff, update_staff, delete_staff}
use pocket_mvp_backend.Ordering as Orders
use pocket_mvp_backend.Feedback.{list_reviews, reply_to_review}
use pocket_mvp_backend.Billing.Payments as Payments
use pocket_mvp_backend.Billing as Subscriptions
use pocket_mvp_backend.FloorPlan.{get_plan, save_plan}
use pocket_mvp_backend.Reporting as Figures
use pocket_mvp_backend.Http.Message.{Named, Handler}
use pocket_mvp_backend.Http.Contracts.{
  IdentityService, VenueService, CatalogService, WorkforceService, OrderingService, FeedbackService,
  BillingService, FloorPlanService, ReportingService, Codec, Api,
}
use pocket_mvp_backend.Http.Routes.{new_handler}

-- The methods of each service, which are those that the handlers' interfaces ask for.
abbrev pub identity_service : Service → IdentityService
identity_service svc = record {
  register = Accounts.register svc;
  login = Accounts.login svc;
  authenticate = Sessions.authenticate svc;
  update_profile = Sessions.update_profile svc;
  logout = Sessions.logout svc;
  request_password_reset = Reset.request_password_reset svc;
  reset_password = Reset.reset_password svc;
  change_password = Change.change_password svc;
  change_email = Account.change_email svc;
  update_avatar = Account.update_avatar svc;
  avatar = Account.avatar svc;
}

abbrev pub venue_service : VenueService
venue_service = record {
  list = list_venues;
  create = create_venue;
  update = update_venue;
  delete = delete_venue;
}

abbrev pub catalog_service : CatalogService
catalog_service = record {
  list_categories = Menus.list_categories;
  create_category = Categories.create_category;
  update_category = Categories.update_category;
  delete_category = Categories.delete_category;
  reorder_categories = Order.reorder_categories;
  list_menu_items = Menus.list_menu_items;
  create_menu_item = Items.create_menu_item;
  update_menu_item = Items.update_menu_item;
  delete_menu_item = Items.delete_menu_item;
  reorder_menu_items = Order.reorder_menu_items;
}

abbrev pub workforce_service : WorkforceService
workforce_service = record {
  list = list_staff;
  create = create_staff;
  update = update_staff;
  delete = delete_staff;
}

abbrev pub ordering_service : OrderingService
ordering_service = record { list = Orders.list_orders; update_status = Orders.update_status }

abbrev pub feedback_service : FeedbackService
feedback_service = record { list = list_reviews; reply = reply_to_review }

abbrev pub billing_service : BillingService
billing_service = record {
  list_payments = Payments.list_payments;
  get_subscription = Subscriptions.get_subscription;
  upsert_subscription = Subscriptions.upsert_subscription;
}

abbrev pub floor_plan_service : FloorPlanService
floor_plan_service = record { get = get_plan; save = save_plan }

abbrev pub reporting_service : ReportingService
reporting_service = record { dashboard = Figures.dashboard }

-- buildinfo.Current, with the values that a build without -ldflags has.
abbrev pub current_build : List Named
current_build = ("version", "dev") ∷ ("commit", "unknown") ∷ ("build_date", "unknown") ∷ []

-- Ping, a round trip to the database.
unfoldable pub ping : Op Unit
ping = external λ n e s. (ok tt, s)

-- pgxpool.NewWithConfig
abbrev new_pool : Op Unit
new_pool = external λ n e s. (ok tt, s)

-- database.Open
unfoldable pub open_database : String → Op Unit
open_database url = do e ← ask; fail_if (not (e.accepts_database_url url)) other; new_pool; ping

-- The dependencies that `main` hands to httpapi.New.
unfoldable pub api_of : Codec → Config → ℕ → Service → Api
api_of codec cfg now svc = record {
  codec = codec;
  ping = ping;
  allowed_origins = cfg.allowed_origins;
  build = current_build;
  started_at = now;
  identity = identity_service svc;
  venues = venue_service;
  catalog = catalog_service;
  workforce = workforce_service;
  ordering = ordering_service;
  feedback = feedback_service;
  billing = billing_service;
  floor_plan = floor_plan_service;
  reporting = reporting_service;
  session_cookie = cfg.session_cookie_name;
  session_secure = cfg.cookie_secure;
}

-- The identity service of `main`; times of sessions and tokens are kept in microseconds.
unfoldable pub new_identity : Config → Op Service
new_identity cfg = do
  e ← ask
  protector ← or_fail (new_data_protector cfg.data_encryption_key cfg.data_lookup_key) other
  let sender =
      new_password_reset_sender cfg.smtp_address cfg.smtp_username cfg.smtp_password cfg.smtp_from
  Accounts.new_service protector list_capabilities (cfg.session_ttl / 1000)
      (some (send_password_reset sender)) cfg.app_base_url (cfg.password_reset_ttl / 1000)

-- `main` from database.Open to the handler; every error ends the process.
unfoldable pub boot : Codec → Config → Op Handler
boot codec cfg = do
  open_database cfg.database_url
  e ← ask
  svc ← new_identity cfg
  pure (new_handler (api_of codec cfg e.app_now svc))
