-- ===== src/Access.antt =====
-- internal/access: the capability projection and the ownership policy.
pub mod Owner
pub mod Listing
use pocket_mvp_backend.Prelude.{
  Bool, true, false, ◌&&◌, not, Option, none, some, String, List, [], ◌∷◌, ◌++◌, exists,
  if◌then◌else◌, ◌==◌,
}
use pocket_mvp_backend.Faults.{app, AppFault}
use pocket_mvp_backend.Schema.{Database, VenueRow, StaffRow, StaffStatus, is_null}
use pocket_mvp_backend.Effects.{Op, pure, fail_if, ◌>>=◌, query, uuid_arg}

abbrev pub is_active_staff : StaffStatus → Bool
is_active_staff StaffStatus.active = true
is_active_staff _ = false

abbrev pub user_is : String → Option String → Bool
user_is u none = false
user_is u (some v) = v == u

-- `owner_user_id = $1 AND deleted_at IS NULL`
abbrev pub is_owned_by : String → VenueRow → Bool
is_owned_by u v = v.owner_user_id == u && is_null v.deleted_at

-- `EXISTS (SELECT 1 FROM venues WHERE id = $2 AND owner_user_id = $1 AND deleted_at IS NULL)`
abbrev pub owns : String → String → Database → Bool
owns u venue db = exists (λ v. v.id == venue && is_owned_by u v) db.venues

abbrev pub owns_any : String → Database → Bool
owns_any u db = exists (is_owned_by u) db.venues

abbrev pub works_somewhere : String → Database → Bool
works_somewhere u db = exists (λ r. user_is u r.user_id && is_active_staff r.status) db.staff

-- `CapabilityReader.ListCapabilities`
unfoldable pub list_capabilities : String → Op (List String)
list_capabilities user_id = do
  u ← uuid_arg user_id
  owns_venue ← query (λ e db. owns_any u db)
  works_at_venue ← query (λ e db. works_somewhere u db)
  let with_owner = if owns_venue then "customer" ∷ "owner" ∷ [] else "customer" ∷ []
  pure (if works_at_venue then with_owner ++ "staff" ∷ [] else with_owner)

-- `VenueAuthorizer.RequireOwner`
unfoldable pub require_owner : String → String → Op Unit
require_owner user_id venue_id = do
  u ← uuid_arg user_id
  v ← uuid_arg venue_id
  allowed ← query (λ e db. owns u v db)
  fail_if (not allowed) (app AppFault.not_found)
