-- ===== src/Tests/Scene.antt =====
-- A small database and service for the examples: two users, one venue with two categories, a
-- session and a reset token of the first user.
use pocket_mvp_backend.Prelude.{ℕ, Option, true, none, some, pos, String, [], ◌∷◌, ◌++◌}
use pocket_mvp_backend.Schema.{
  AccountRole, UserStatus, UserRow, SessionRow, ResetRow, VenueRow, VenueStatus, StaffRow,
  StaffStatus, CategoryRow, MenuItemRow, OrderRow, OrderStatus, Channel, TableRow, TableStatus,
  ReviewRow, ReviewStatus, Database,
}
use pocket_mvp_backend.Effects.{State, pure}
use pocket_mvp_backend.Security.Data.{DataProtector}
use pocket_mvp_backend.Security.Password.{encoded_hash}
use pocket_mvp_backend.Access.{list_capabilities}
use pocket_mvp_backend.Identity.Model.{Service}
use pocket_mvp_backend.Tests.Platform.{platform, codes, encode, fit, zeros}

abbrev pub protector : DataProtector
protector = record { encryption_key = []; lookup_key = [] }

abbrev pub service : Service
service = record {
  protector = protector;
  list_capabilities = list_capabilities;
  ttl = 1000;
  dummy_hash = "";
  send_password_reset = λ to url locale. pure tt;
  reset_base_url = "";
  reset_ttl = 1000;
}

-- The stored form of an encrypted text.
abbrev sealed : String → String
sealed t = encode (fit 12 [] ++ (zeros ++ codes t))

abbrev pub user : String → String → String → UserRow
user id email password_hash = record {
  id = id;
  email = sealed email;
  email_lookup = codes email;
  password_hash = password_hash;
  first_name = sealed "!";
  last_name = sealed "!";
  phone = none;
  account_role = AccountRole.customer;
  status = UserStatus.active;
  email_verified_at = none;
  deleted_at = none;
  avatar_data = none;
  avatar_mime_type = none;
  avatar_updated_at = none;
}

abbrev pub password : String
password = "!!!!!!!!!!!!"

-- The hash of this password with a salt of zeros.
unfoldable pub hash_of : String → String
unfolding encoded_hash
hash_of p = encoded_hash platform (fit 16 []) (fit 32 (codes p))

abbrev pub session : String → String → SessionRow
session id hash = record {
  user_id = id;
  refresh_token_hash = hash;
  user_agent = [];
  ip_address = "ip";
  expires_at = 5000;
  revoked_at = none;
}

abbrev pub venue : VenueRow
venue = record {
  id = "v";
  owner_user_id = "u";
  slug = "v-1";
  name = "V";
  description = none;
  cuisine_type = none;
  phone = none;
  email = none;
  address_line1 = "A";
  city = "C";
  postal_code = none;
  country_code = "SK";
  timezone = "UTC";
  currency = "EUR";
  status = VenueStatus.active;
  settings = "{}";
  created_at = 1;
  deleted_at = none;
}

abbrev pub staff_member : String → StaffStatus → StaffRow
staff_member id status = record {
  id = id;
  venue_id = "v";
  user_id = none;
  display_name = none;
  invited_email = id;
  role = "waiter";
  status = status;
  invited_by_user_id = "u";
  invited_at = 1;
  accepted_at = none;
  removed_at = none;
  created_at = 1;
}

abbrev pub category : String → CategoryRow
category id = record {
  id = id;
  venue_id = "v";
  name = id;
  sort_order = pos 0;
  is_active = true;
  created_at = 1;
}

abbrev pub item : String → MenuItemRow
item category_id = record {
  id = "i";
  venue_id = "v";
  category_id = category_id;
  name = "soup";
  description = none;
  price_minor = pos 500;
  currency = "EUR";
  is_available = true;
  is_popular = true;
  sort_order = pos 0;
  created_at = 1;
  deleted_at = some 3;
}

-- Its hash on the example platform is the token itself.
abbrev pub reset_token : String
reset_token = "tttttttttttttttttttttttttttttttt"

abbrev pub reset : ResetRow
reset = record {
  user_id = "u";
  token_hash = reset_token;
  requested_ip = "ip";
  expires_at = 5000;
  used_at = none;
  created_at = 1;
}

abbrev pub order : String → OrderStatus → Option ℕ → ℕ → OrderRow
order id status completed_at created_at = record {
  id = id;
  order_number = created_at;
  venue_id = "v";
  venue_table_id = some "t";
  channel = Channel.dine_in;
  status = status;
  guest_name = none;
  currency = "EUR";
  total_minor = 700;
  notes = none;
  completed_at = completed_at;
  created_at = created_at;
}

abbrev pub table : TableRow
table = record {
  id = "t";
  venue_id = "v";
  identifier = "1";
  status = TableStatus.occupied;
  deleted_at = none;
}

abbrev pub review : ReviewRow
review = record {
  id = "r";
  venue_id = "v";
  order_id = some "p";
  venue_table_id = none;
  rating = 4;
  body = none;
  status = ReviewStatus.published;
  owner_reply = none;
  replied_by_user_id = none;
  replied_at = none;
  created_at = 80;
}

abbrev pub database : Database
database = record {
  users = user "u" "!" (hash_of password) ∷ user "w" "#" "" ∷ [];
  sessions = session "u" "s" ∷ session "u" "r" ∷ session "w" "q" ∷ [];
  attempts = [];
  resets = reset ∷ [];
  venues = venue ∷ [];
  staff = staff_member "m" StaffStatus.active ∷ staff_member "n" StaffStatus.removed ∷ [];
  categories = category "a" ∷ category "b" ∷ [];
  menu_items = item "b" ∷ [];
  images = [];
  subscriptions = [];
  tables = table ∷ [];
  orders =
      order "o" OrderStatus.new none 60
      ∷ order "p" OrderStatus.completed (some 75) 70
      ∷ order "q" OrderStatus.cancelled (some 45) 40
      ∷ [];
  payments = [];
  reviews = review ∷ [];
}

abbrev pub start : State
start = record { db = database; calls = 0; outbox = [] }
