-- ===== src/Venues/Model.antt =====
-- The input checks of internal/modules/venues/service.go, and model.go.
use pocket_mvp_backend.Prelude.{
  ℕ, Bool, ◌&&◌, not, Option, none, some, String, is_some, nat_eq, if◌then◌else◌, ◌==◌,
}
use pocket_mvp_backend.Platform.{Platform}
use pocket_mvp_backend.Schema.{VenueStatus}
use pocket_mvp_backend.GoText.{trim_space, to_upper, byte_len}

pub record Venue : Type 0 where
  pub id : String
  pub name : String
  pub slug : String
  pub description : String
  pub cuisine_type : String
  pub phone : String
  pub email : String
  pub address : String
  pub city : String
  pub postal_code : String
  pub country_code : String
  pub timezone : String
  pub currency : String
  pub status : VenueStatus
  pub settings : String
  pub created_at : ℕ

-- `settings` is the JSON text of the map, or `none` for nil.
pub record Input : Type 0 where
  pub name : String
  pub description : String
  pub cuisine_type : String
  pub phone : String
  pub email : String
  pub address : String
  pub city : String
  pub postal_code : String
  pub country_code : String
  pub timezone : String
  pub currency : String
  pub status : String
  pub settings : Option String

-- `if value == "" { value = fallback }`
abbrev pub or_default : String → String → String
or_default value fallback = if value == "" then fallback else value

abbrev pub settings_or_empty : Option String → String
settings_or_empty none = "{}"
settings_or_empty (some settings) = settings

unfoldable pub normalize_input : Platform → Input → Input
normalize_input e input = record {
  name = trim_space input.name;
  description = trim_space input.description;
  cuisine_type = trim_space input.cuisine_type;
  phone = trim_space input.phone;
  email = trim_space input.email;
  address = or_default (trim_space input.address) "Адрес не указан";
  city = trim_space input.city;
  postal_code = trim_space input.postal_code;
  country_code = or_default (to_upper e (trim_space input.country_code)) "SK";
  timezone = or_default (trim_space input.timezone) "Europe/Bratislava";
  currency = or_default (to_upper e (trim_space input.currency)) "EUR";
  status = or_default (trim_space input.status) "draft";
  settings = some (settings_or_empty input.settings);
}

-- `^(draft|active|paused|closed)$`
unfoldable pub status_of : String → Option VenueStatus
status_of text =
    if text == "draft"
    then some VenueStatus.draft
    else if text == "active"
    then some VenueStatus.active
    else if text == "paused"
    then some VenueStatus.paused
    else if text == "closed"
    then some VenueStatus.closed
    else none

unfoldable pub valid_input : Input → Bool
valid_input input =
    not (input.name == "")
    && not (input.city == "")
    && nat_eq (byte_len input.country_code) 2
    && nat_eq (byte_len input.currency) 3
    && is_some (status_of input.status)
