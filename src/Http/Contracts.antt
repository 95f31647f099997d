-- ===== src/Http/Contracts.antt =====
-- internal/httpapi/contracts.go: the services that the handlers call, and the API.
use pocket_mvp_backend.Prelude.{ℕ, Bool, Option, String, Bytes, List}
use pocket_mvp_backend.Effects.{Op}
use pocket_mvp_backend.Identity.Model.{
  RegisterInput, LoginInput, PasswordResetRequest, PasswordResetConfirmation, ChangePasswordInput,
  ChangeEmailInput, UpdateProfileInput, Avatar, User, Session,
}
use pocket_mvp_backend.Venues.Model.{Venue}
use pocket_mvp_backend.Venues.Model as Venues
use pocket_mvp_backend.Catalog.Model.{Category, CategoryInput, MenuItem, MenuItemInput}
use pocket_mvp_backend.Workforce.{StaffMember, StaffInput}
use pocket_mvp_backend.Ordering.{Order}
use pocket_mvp_backend.Feedback.{Review}
use pocket_mvp_backend.Billing.{Subscription, SubscriptionInput}
use pocket_mvp_backend.Billing.Payments.{Payment}
use pocket_mvp_backend.Reporting.{Dashboard}
use pocket_mvp_backend.Http.Message.{Named, Response}

pub record IdentityService : Type 0 where
  pub register : RegisterInput → Op (User × Session)
  pub login : LoginInput → Op (User × Session)
  pub authenticate : String → Op User
  pub update_profile : String → UpdateProfileInput → Op User
  pub logout : String → Op Unit
  pub request_password_reset : PasswordResetRequest → Op Unit
  pub reset_password : PasswordResetConfirmation → Op Unit
  pub change_password : ChangePasswordInput → Op Unit
  pub change_email : ChangeEmailInput → Op User
  pub update_avatar : String → String → Bytes → Op User
  pub avatar : String → Op Avatar

pub record VenueService : Type 0 where
  pub list : String → Op (List Venue)
  pub create : String → Venues.Input → Op Venue
  pub update : String → String → Venues.Input → Op Venue
  pub delete : String → String → Op Unit

pub record CatalogService : Type 0 where
  pub list_categories : String → String → Op (List Category)
  pub create_category : String → String → CategoryInput → Op Category
  pub update_category : String → String → String → CategoryInput → Op Category
  pub delete_category : String → String → String → Op Unit
  pub reorder_categories : String → String → List String → Op Unit
  pub list_menu_items : String → String → Op (List MenuItem)
  pub create_menu_item : String → String → MenuItemInput → Op MenuItem
  pub update_menu_item : String → String → String → MenuItemInput → Op MenuItem
  pub delete_menu_item : String → String → String → Op Unit
  pub reorder_menu_items : String → String → String → List String → Op Unit

pub record WorkforceService : Type 0 where
  pub list : String → String → Op (List StaffMember)
  pub create : String → String → StaffInput → Op StaffMember
  pub update : String → String → String → StaffInput → Op StaffMember
  pub delete : String → String → String → Op Unit

pub record OrderingService : Type 0 where
  pub list : String → String → Op (List Order)
  pub update_status : String → String → String → String → Op Order

pub record FeedbackService : Type 0 where
  pub list : String → String → Op (List Review)
  pub reply : String → String → String → String → Op Review

pub record BillingService : Type 0 where
  pub list_payments : String → String → Op (List Payment)
  pub get_subscription : String → Op (Option Subscription)
  pub upsert_subscription : String → SubscriptionInput → Op Subscription

pub record FloorPlanService : Type 0 where
  pub get : String → String → Op String
  pub save : String → String → String → Op String

pub record ReportingService : Type 0 where
  pub dashboard : String → String → Op Dashboard

-- The requests' bodies, each with the fields of its struct.
pub record RegisterRequest : Type 0 where
  pub first_name : String
  pub last_name : String
  pub email : String
  pub phone : String
  pub password : String

pub record LoginRequest : Type 0 where
  pub email : String
  pub password : String

pub record ResetRequest : Type 0 where
  pub email : String
  pub locale : String

pub record ChangePasswordRequest : Type 0 where
  pub current_password : String
  pub new_password : String

pub record ChangeEmailRequest : Type 0 where
  pub current_password : String
  pub new_email : String

pub record ReorderItemsRequest : Type 0 where
  pub category_id : String
  pub ids : List String

-- What a multipart body has in the field "avatar".
pub data Form : Type 0 where
  not_a_form no_avatar : Form
  avatar_file : Bytes → Form

-- encoding/json, net/http and mime/multipart. A decoder is `Decode` with `DisallowUnknownFields`
-- into the struct, and then `io.EOF` at the end of the body; `none` is an error of either.
pub record Codec : Type 0 where
  pub register_request : Bytes → Option RegisterRequest
  pub login_request : Bytes → Option LoginRequest
  pub reset_request : Bytes → Option ResetRequest
  pub reset_confirmation : Bytes → Option PasswordResetConfirmation
  pub change_password_request : Bytes → Option ChangePasswordRequest
  pub change_email_request : Bytes → Option ChangeEmailRequest
  pub update_profile_request : Bytes → Option UpdateProfileInput
  pub venue_input : Bytes → Option Venues.Input
  pub category_input : Bytes → Option CategoryInput
  pub menu_item_input : Bytes → Option MenuItemInput
  pub reorder_input : Bytes → Option (List String)
  pub reorder_items_input : Bytes → Option ReorderItemsRequest
  pub staff_input : Bytes → Option StaffInput
  pub subscription_input : Bytes → Option SubscriptionInput
  pub status_input : Bytes → Option String
  pub reply_input : Bytes → Option String
  pub floor_plan_input : Bytes → Option String
  -- ParseMultipartForm and FormFile, with the limits on the body and on the memory
  pub multipart : ℕ → ℕ → Bytes → Form
  -- http.DetectContentType
  pub detect_content_type : Bytes → String
  -- the pattern that ServeMux picks of those registered, with the path values, for a method and a
  -- path; and its own answer where no pattern fits
  pub match : List String → String → String → Option (String × List Named)
  pub unmatched : String → String → Response

-- `Dependencies` and `API`, less the logger. `ping` is the database's Ping.
pub record Api : Type 0 where
  pub codec : Codec
  pub ping : Op Unit
  pub allowed_origins : List String
  pub build : List Named
  pub started_at : ℕ
  pub identity : IdentityService
  pub venues : VenueService
  pub catalog : CatalogService
  pub workforce : WorkforceService
  pub ordering : OrderingService
  pub feedback : FeedbackService
  pub billing : BillingService
  pub floor_plan : FloorPlanService
  pub reporting : ReportingService
  pub session_cookie : String
  pub session_secure : Bool
