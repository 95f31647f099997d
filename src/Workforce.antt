-- ===== src/Workforce.antt =====
-- internal/modules/workforce: the staff of a venue.
pub mod Removed
pub mod Listing
use pocket_mvp_backend.Prelude.{
  ℕ, Bool, true, false, ◌&&◌, ◌||◌, not, Option, none, some, String, List, [], ◌∷◌, ◌++◌, find,
  exists, count_where, update_where, nat_eq, if◌then◌else◌, ◌==◌,
}
use pocket_mvp_backend.Faults.{PgCode, app, AppFault, map_write_error, no_rows_as}
use pocket_mvp_backend.Platform.{Env}
use pocket_mvp_backend.Schema.{StaffRow, StaffStatus, Database}
use pocket_mvp_backend.Effects.{
  Op, fail_if, ask, statement, Statement, rejected, no_row, done, on_error, or_fail, uuid_arg,
  storable_text, ◌>>=◌, ◌>>◌,
}
use pocket_mvp_backend.GoText.{trim_space, to_lower, contains_code}
use pocket_mvp_backend.Access.{require_owner}

pub record StaffMember : Type 0 where
  pub id : String
  pub display_name : String
  pub email : String
  pub role : String
  pub status : StaffStatus
  pub invited_at : ℕ
  pub accepted_at : Option ℕ

pub record StaffInput : Type 0 where
  pub display_name : String
  pub email : String
  pub role : String
  pub status : String

-- `^(manager|waiter|kitchen|viewer)$`
unfoldable pub valid_role : String → Bool
valid_role value =
    value == "manager" || value == "waiter" || value == "kitchen" || value == "viewer"

-- The status that is set, "" being "invited"; `none` fails `^(invited|active|inactive)$`.
unfoldable pub staff_status : String → Option StaffStatus
staff_status text =
    if text == "" || text == "invited"
    then some StaffStatus.invited
    else if text == "active"
    then some StaffStatus.active
    else if text == "inactive"
    then some StaffStatus.inactive
    else none

-- `status <> 'removed'`
abbrev pub is_kept : StaffStatus → Bool
is_kept StaffStatus.removed = false
is_kept StaffStatus.invited = true
is_kept StaffStatus.active = true
is_kept StaffStatus.inactive = true

abbrev pub name_or_empty : Option String → String
name_or_empty none = ""
name_or_empty (some name) = name

-- The RETURNING columns.
abbrev pub member : StaffRow → StaffMember
member r = record {
  id = r.id;
  display_name = name_or_empty r.display_name;
  email = r.invited_email;
  role = r.role;
  status = r.status;
  invited_at = r.invited_at;
  accepted_at = r.accepted_at;
}

abbrev pub invitation : String → String → String → ℕ → StaffInput → StaffRow
invitation id venue owner now input = record {
  id = id;
  venue_id = venue;
  user_id = none;
  display_name = some input.display_name;
  invited_email = input.email;
  role = input.role;
  status = StaffStatus.invited;
  invited_by_user_id = owner;
  invited_at = now;
  accepted_at = none;
  removed_at = none;
  created_at = now;
}

-- venue_staff_email_unique
abbrev pub is_invited : Env → String → String → StaffRow → Bool
is_invited e venue email r =
    r.venue_id == venue && e.lower_text r.invited_email == e.lower_text email && is_kept r.status

-- `INSERT INTO venue_staff …` with its unique columns and the rows that it refers to.
unfoldable pub insert_staff : Env → StaffRow → Database → Statement StaffMember
insert_staff e r db =
    if exists (λ x. x.id == r.id || is_invited e r.venue_id r.invited_email x) db.staff
    then rejected PgCode.unique_violation
    else if not (
        exists (λ v. v.id == r.venue_id) db.venues
        && exists (λ u. u.id == r.invited_by_user_id) db.users)
    then rejected PgCode.foreign_key_violation
    else done (member r) (record db { staff = db.staff ++ r ∷ [] })

unfoldable pub create_staff : String → String → StaffInput → Op StaffMember
create_staff owner_id venue_id raw = do
  require_owner owner_id venue_id
  e ← ask
  let input : StaffInput = record raw {
    display_name = trim_space raw.display_name;
    email = to_lower e.platform (trim_space raw.email);
  }
  fail_if
      (input.display_name == ""
        || not (contains_code b'@' input.email)
        || not (valid_role input.role))
      (app AppFault.invalid_input)
  on_error
      (do
        venue ← uuid_arg venue_id
        owner ← uuid_arg owner_id
        statement (λ n e db. storable_text e input.display_name (
            storable_text e input.email
              (insert_staff e (invitation (e.fresh_id n) venue owner e.db_now input) db))))
      map_write_error

-- `WHERE id = $2 AND venue_id = $1 AND status <> 'removed'`
abbrev pub is_staff : String → String → StaffRow → Bool
is_staff id venue r = r.id == id && r.venue_id == venue && is_kept r.status

abbrev pub set_staff : String → StaffStatus → StaffRow → StaffRow
set_staff role status r = record r { role = role; status = status }

-- `UPDATE venue_staff SET role = …, status = … RETURNING …`
unfoldable pub update_staff_row :
    String → String → String → StaffStatus → Database → Statement StaffMember
update_staff_row id venue role status db = elim (find (is_staff id venue) db.staff) [
  | none ↦ no_row
  | some r ↦
      done (member (set_staff role status r))
        (record db { staff = update_where (is_staff id venue) (set_staff role status) db.staff })
]

unfoldable pub update_staff : String → String → String → StaffInput → Op StaffMember
update_staff owner_id venue_id staff_id input = do
  require_owner owner_id venue_id
  fail_if (not (valid_role input.role)) (app AppFault.invalid_input)
  status ← or_fail (staff_status input.status) (app AppFault.invalid_input)
  on_error
      (do
        venue ← uuid_arg venue_id
        id ← uuid_arg staff_id
        statement (λ n e db. update_staff_row id venue input.role status db))
      (λ x. map_write_error (no_rows_as (app AppFault.not_found) x))

abbrev pub remove : ℕ → StaffRow → StaffRow
remove now r = record r { status = StaffStatus.removed; removed_at = some now }

-- `UPDATE venue_staff SET status = 'removed' …` with its `RowsAffected`
unfoldable pub remove_staff_row : ℕ → String → String → Database → Statement ℕ
remove_staff_row now id venue db =
    done (count_where (is_staff id venue) db.staff)
      (record db { staff = update_where (is_staff id venue) (remove now) db.staff })

unfoldable pub delete_staff : String → String → String → Op Unit
delete_staff owner_id venue_id staff_id = do
  require_owner owner_id venue_id
  venue ← uuid_arg venue_id
  id ← uuid_arg staff_id
  rows_affected ← statement (λ n e db. remove_staff_row e.db_now id venue db)
  fail_if (nat_eq rows_affected 0) (app AppFault.not_found)
