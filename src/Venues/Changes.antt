-- ===== src/Venues/Changes.antt =====
-- `Create`, `Update` and `Delete` of internal/modules/venues/service.go.
pub mod Dashes
pub mod Storable
use pocket_mvp_backend.Prelude.{
  ℕ, Bool, true, false, ◌&&◌, ◌||◌, not, Option, none, some, String, List, [], ◌∷◌, ◌++◌, find,
  exists, count_where, update_where, nat_eq, if◌then◌else◌, ◌==◌,
}
use pocket_mvp_backend.Faults.{PgCode, app, AppFault, map_write_error, no_rows_as}
use pocket_mvp_backend.Platform.{Env}
use pocket_mvp_backend.Schema.{AccountRole, VenueStatus, VenueRow, UserRow, Database, is_null}
use pocket_mvp_backend.Effects.{
  Op, pure, fail_if, ask, exec, statement, Statement, rejected, no_row, done, on_error, uuid_arg,
  storable_text, transaction, or_fail, ◌>>=◌, ◌>>◌,
}
use pocket_mvp_backend.Access.{is_owned_by}
use pocket_mvp_backend.Catalog.MenuItems.{is_currency, null_if_empty, or_empty}
use pocket_mvp_backend.Venues.Slug.{unique_slug, is_slug}
use pocket_mvp_backend.Venues.Model.{
  Venue, Input, normalize_input, valid_input, status_of, settings_or_empty,
}

-- The RETURNING columns, read by `scanVenue`.
abbrev pub scanned : VenueRow → Venue
scanned v = record {
  id = v.id;
  name = v.name;
  slug = v.slug;
  description = or_empty v.description;
  cuisine_type = or_empty v.cuisine_type;
  phone = or_empty v.phone;
  email = or_empty v.email;
  address = v.address_line1;
  city = v.city;
  postal_code = or_empty v.postal_code;
  country_code = v.country_code;
  timezone = v.timezone;
  currency = v.currency;
  status = v.status;
  settings = v.settings;
  created_at = v.created_at;
}

abbrev pub new_venue : String → String → String → ℕ → Input → VenueStatus → VenueRow
new_venue id owner slug now input status = record {
  id = id;
  owner_user_id = owner;
  slug = slug;
  name = input.name;
  description = null_if_empty input.description;
  cuisine_type = null_if_empty input.cuisine_type;
  phone = null_if_empty input.phone;
  email = null_if_empty input.email;
  address_line1 = input.address;
  city = input.city;
  postal_code = null_if_empty input.postal_code;
  country_code = input.country_code;
  timezone = input.timezone;
  currency = input.currency;
  status = status;
  settings = settings_or_empty input.settings;
  created_at = now;
  deleted_at = none;
}

-- `INSERT INTO venues …` with its checks, unique columns and the owner's row.
unfoldable pub insert_venue : VenueRow → Database → Statement Venue
insert_venue v db =
    if not (is_slug v.slug && is_currency v.currency)
    then rejected PgCode.check_violation
    else if exists (λ x. x.id == v.id || x.slug == v.slug) db.venues
    then rejected PgCode.unique_violation
    else if not (exists (λ u. u.id == v.owner_user_id) db.users)
    then rejected PgCode.foreign_key_violation
    else done (scanned v) (record db { venues = db.venues ++ v ∷ [] })

-- The text arguments as PostgreSQL takes them.
abbrev pub storable_venue : {A : Type 0} → Env → Input → Statement A → Statement A
storable_venue e input s = storable_text e input.name (
    storable_text e input.description (
      storable_text e input.cuisine_type (
        storable_text e input.phone (
          storable_text e input.email (
            storable_text e input.address (
              storable_text e input.city (
                storable_text e input.postal_code (
                  storable_text e input.country_code (
                    storable_text e input.timezone (
                      storable_text e input.currency
                        (storable_text e (settings_or_empty input.settings) s)))))))))))

abbrev pub own_venue : UserRow → UserRow
own_venue u = record u { account_role = AccountRole.venue_owner }

-- The transaction of `Create`.
unfoldable pub venue_creation : String → Input → VenueStatus → String → Op Venue
venue_creation owner_id input status slug = do
  owner ← uuid_arg owner_id
  venue ←
      on_error
        (statement (λ n e db.
          storable_venue e input
            (insert_venue (new_venue (e.fresh_id n) owner slug e.db_now input status) db)))
        map_write_error
  exec (λ e db. record db { users = update_where (λ u. u.id == owner) own_venue db.users })
  pure venue

unfoldable pub create_venue : String → Input → Op Venue
create_venue owner_id raw = do
  e ← ask
  let input = normalize_input e.platform raw
  fail_if (not (valid_input input)) (app AppFault.invalid_input)
  status ← or_fail (status_of input.status) (app AppFault.invalid_input)
  slug ← unique_slug input.name
  transaction (venue_creation owner_id input status slug)

-- `WHERE id = $2 AND owner_user_id = $1 AND deleted_at IS NULL`
abbrev pub is_venue : String → String → VenueRow → Bool
is_venue id owner v = v.id == id && is_owned_by owner v

abbrev pub set_venue : Env → Input → VenueStatus → VenueRow → VenueRow
set_venue e input status v = record v {
  name = input.name;
  description = null_if_empty input.description;
  cuisine_type = null_if_empty input.cuisine_type;
  phone = null_if_empty input.phone;
  email = null_if_empty input.email;
  address_line1 = input.address;
  city = input.city;
  postal_code = null_if_empty input.postal_code;
  country_code = input.country_code;
  timezone = input.timezone;
  currency = input.currency;
  status = status;
  settings = e.concat_settings v.settings (e.remove_floor_plan (settings_or_empty input.settings));
}

-- `UPDATE venues SET … RETURNING …`
unfoldable pub update_venue_row :
    Env → String → String → Input → VenueStatus → Database → Statement Venue
update_venue_row e id owner input status db = elim (find (is_venue id owner) db.venues) [
  | none ↦ no_row
  | some v ↦
      if not (is_currency input.currency)
      then rejected PgCode.check_violation
      else done (scanned (set_venue e input status v)) (record db {
        venues = update_where (is_venue id owner) (set_venue e input status) db.venues;
      })
]

unfoldable pub update_venue : String → String → Input → Op Venue
update_venue owner_id venue_id raw = do
  e ← ask
  let input = normalize_input e.platform raw
  fail_if (not (valid_input input)) (app AppFault.invalid_input)
  status ← or_fail (status_of input.status) (app AppFault.invalid_input)
  on_error
      (do
        owner ← uuid_arg owner_id
        id ← uuid_arg venue_id
        statement (λ n e db. storable_venue e input (update_venue_row e id owner input status db)))
      (λ x. map_write_error (no_rows_as (app AppFault.not_found) x))

abbrev pub close_venue : ℕ → VenueRow → VenueRow
close_venue now v = record v { deleted_at = some now; status = VenueStatus.closed }

-- `UPDATE venues SET deleted_at = now() …` with its `RowsAffected`
unfoldable pub delete_venue_row : ℕ → String → String → Database → Statement ℕ
delete_venue_row now id owner db =
    done (count_where (is_venue id owner) db.venues)
      (record db { venues = update_where (is_venue id owner) (close_venue now) db.venues })

unfoldable pub delete_venue : String → String → Op Unit
delete_venue owner_id venue_id = do
  owner ← uuid_arg owner_id
  id ← uuid_arg venue_id
  rows_affected ← statement (λ n e db. delete_venue_row e.db_now id owner db)
  fail_if (nat_eq rows_affected 0) (app AppFault.not_found)
