-- ===== src/Schema.antt =====
-- The tables of migrations/ that the modelled statements read and write, and the database as
-- their product. Columns that no modelled statement reads are left out.
use pocket_mvp_backend.Prelude.{ℕ, ℤ, Bool, Option, String, Bytes, List, not, is_some}

pub data AccountRole : Type 0 where
  customer venue_owner : AccountRole

pub data UserStatus : Type 0 where
  pending active suspended deleted : UserStatus

pub record UserRow : Type 0 where
  pub id : String
  pub email : String
  pub email_lookup : Bytes
  pub password_hash : String
  pub first_name : String
  pub last_name : String
  pub phone : Option String
  pub account_role : AccountRole
  pub status : UserStatus
  pub email_verified_at : Option ℕ
  pub deleted_at : Option ℕ
  pub avatar_data : Option Bytes
  pub avatar_mime_type : Option String
  pub avatar_updated_at : Option ℕ

pub record SessionRow : Type 0 where
  pub user_id : String
  pub refresh_token_hash : String
  pub user_agent : Bytes
  pub ip_address : String
  pub expires_at : ℕ
  pub revoked_at : Option ℕ

-- auth_login_attempts, with the key (email_lookup, ip_address)
pub record AttemptRow : Type 0 where
  pub email_lookup : Bytes
  pub ip_address : String
  pub failure_count : ℕ
  pub window_started_at : ℕ
  pub blocked_until : Option ℕ

-- password_reset_tokens
pub record ResetRow : Type 0 where
  pub user_id : String
  pub token_hash : String
  pub requested_ip : String
  pub expires_at : ℕ
  pub used_at : Option ℕ
  pub created_at : ℕ

pub data VenueStatus : Type 0 where
  draft active paused closed : VenueStatus

-- venues, with the JSON text of the settings
pub record VenueRow : Type 0 where
  pub id : String
  pub owner_user_id : String
  pub slug : String
  pub name : String
  pub description : Option String
  pub cuisine_type : Option String
  pub phone : Option String
  pub email : Option String
  pub address_line1 : String
  pub city : String
  pub postal_code : Option String
  pub country_code : String
  pub timezone : String
  pub currency : String
  pub status : VenueStatus
  pub settings : String
  pub created_at : ℕ
  pub deleted_at : Option ℕ

pub data StaffStatus : Type 0 where
  invited active inactive removed : StaffStatus

-- venue_staff
pub record StaffRow : Type 0 where
  pub id : String
  pub venue_id : String
  pub user_id : Option String
  pub display_name : Option String
  pub invited_email : String
  pub role : String
  pub status : StaffStatus
  pub invited_by_user_id : String
  pub invited_at : ℕ
  pub accepted_at : Option ℕ
  pub removed_at : Option ℕ
  pub created_at : ℕ

-- menu_categories
pub record CategoryRow : Type 0 where
  pub id : String
  pub venue_id : String
  pub name : String
  pub sort_order : ℤ
  pub is_active : Bool
  pub created_at : ℕ

pub record MenuItemRow : Type 0 where
  pub id : String
  pub venue_id : String
  pub category_id : String
  pub name : String
  pub description : Option String
  pub price_minor : ℤ
  pub currency : String
  pub is_available : Bool
  pub is_popular : Bool
  pub sort_order : ℤ
  pub created_at : ℕ
  pub deleted_at : Option ℕ

-- menu_item_images; the images of one item all have the default sort_order.
pub record ImageRow : Type 0 where
  pub menu_item_id : String
  pub storage_key : String
  pub public_url : String

-- workspace_subscriptions, whose status is checked to be one of these
pub data SubscriptionStatus : Type 0 where
  trialing active past_due cancelled expired : SubscriptionStatus

pub record SubscriptionRow : Type 0 where
  pub id : String
  pub owner_user_id : String
  pub plan : String
  pub billing_cycle : String
  pub status : SubscriptionStatus
  pub venue_limit : Option ℕ
  pub trial_ends_at : ℕ
  pub current_period_ends_at : ℕ
  pub cancelled_at : Option ℕ

pub data TableStatus : Type 0 where
  available occupied reserved disabled : TableStatus

-- venue_tables
pub record TableRow : Type 0 where
  pub id : String
  pub venue_id : String
  pub identifier : String
  pub status : TableStatus
  pub deleted_at : Option ℕ

pub data Channel : Type 0 where
  dine_in online pickup preorder : Channel

pub data OrderStatus : Type 0 where
  draft new accepted preparing ready served completed cancelled : OrderStatus

-- orders, whose total is checked not to be negative
pub record OrderRow : Type 0 where
  pub id : String
  pub order_number : ℕ
  pub venue_id : String
  pub venue_table_id : Option String
  pub channel : Channel
  pub status : OrderStatus
  pub guest_name : Option String
  pub currency : String
  pub total_minor : ℕ
  pub notes : Option String
  pub completed_at : Option ℕ
  pub created_at : ℕ

pub data PaymentStatus : Type 0 where
  pending requires_action processing paid failed refunded disputed cancelled : PaymentStatus

-- payments, whose amounts are checked not to be negative
pub record PaymentRow : Type 0 where
  pub id : String
  pub venue_id : String
  pub provider : String
  pub status : PaymentStatus
  pub amount_minor : ℕ
  pub refunded_minor : ℕ
  pub currency : String
  pub paid_at : Option ℕ
  pub created_at : ℕ

pub data ReviewStatus : Type 0 where
  pending published hidden : ReviewStatus

-- reviews
pub record ReviewRow : Type 0 where
  pub id : String
  pub venue_id : String
  pub order_id : Option String
  pub venue_table_id : Option String
  pub rating : ℕ
  pub body : Option String
  pub status : ReviewStatus
  pub owner_reply : Option String
  pub replied_by_user_id : Option String
  pub replied_at : Option ℕ
  pub created_at : ℕ

pub record Database : Type 0 where
  pub users : List UserRow
  pub sessions : List SessionRow
  pub attempts : List AttemptRow
  pub resets : List ResetRow
  pub venues : List VenueRow
  pub staff : List StaffRow
  pub categories : List CategoryRow
  pub menu_items : List MenuItemRow
  pub images : List ImageRow
  pub subscriptions : List SubscriptionRow
  pub tables : List TableRow
  pub orders : List OrderRow
  pub payments : List PaymentRow
  pub reviews : List ReviewRow

abbrev pub is_null {ℓ} : {A : Type ℓ} → Option A → Bool
is_null o = not (is_some o)
