-- ===== src/Catalog/Model.antt =====
-- internal/modules/catalog/model.go and validation.go. The service's authorizer is the
-- `VenueAuthorizer` of internal/access, as cmd/api/main.go wires it.
use pocket_mvp_backend.Prelude.{
  ℤ, is_nonneg, Bool, ◌&&◌, not, Option, none, some, String, nat_eq, if◌then◌else◌, ◌==◌, ℕ,
}
use pocket_mvp_backend.Platform.{Platform}
use pocket_mvp_backend.GoText.{trim_space, to_upper, byte_len}

pub record Category : Type 0 where
  pub id : String
  pub name : String
  pub sort_order : ℤ
  pub is_active : Bool
  pub item_count : ℕ

pub record CategoryInput : Type 0 where
  pub name : String
  pub sort_order : ℤ
  pub is_active : Option Bool

pub record MenuItem : Type 0 where
  pub id : String
  pub category_id : String
  pub category : String
  pub name : String
  pub description : String
  pub price_minor : ℤ
  pub currency : String
  pub is_available : Bool
  pub is_popular : Bool
  pub sort_order : ℤ
  pub image_url : String

pub record MenuItemInput : Type 0 where
  pub category_id : String
  pub name : String
  pub description : String
  pub price_minor : ℤ
  pub currency : String
  pub is_available : Option Bool
  pub is_popular : Bool
  pub sort_order : ℤ
  pub image_url : String

unfoldable pub bool_value : Option Bool → Bool → Bool
bool_value none fallback = fallback
bool_value (some value) fallback = value

-- `if input.Currency == "" { input.Currency = "EUR" }`
abbrev pub or_euro : String → String
or_euro currency = if currency == "" then "EUR" else currency

unfoldable pub normalize_menu_item : Platform → MenuItemInput → MenuItemInput
normalize_menu_item e input = record input {
  name = trim_space input.name;
  description = trim_space input.description;
  currency = or_euro (to_upper e (trim_space input.currency));
}

unfoldable pub valid_menu_item : MenuItemInput → Bool
valid_menu_item input =
    not (input.category_id == "")
    && not (input.name == "")
    && is_nonneg input.price_minor
    && nat_eq (byte_len input.currency) 3
