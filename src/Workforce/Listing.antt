-- ===== src/Workforce/Listing.antt =====
-- `List` of internal/modules/workforce/service.go.
use pocket_mvp_backend.Prelude.{Bool, ◌&&◌, String, List, map, select_where, sort_by, leb, ◌==◌}
use pocket_mvp_backend.Schema.{StaffRow, Database}
use pocket_mvp_backend.Effects.{Op, query, uuid_arg, ◌>>=◌, ◌>>◌}
use pocket_mvp_backend.Access.{require_owner}
use pocket_mvp_backend.Workforce.{StaffMember, member, is_kept}

-- `WHERE venue_id = $1 AND status <> 'removed'`
abbrev pub is_kept_in : String → StaffRow → Bool
is_kept_in venue r = r.venue_id == venue && is_kept r.status

-- `ORDER BY created_at`
abbrev pub older_staff : StaffRow → StaffRow → Bool
older_staff a b = leb a.created_at b.created_at

unfoldable pub select_staff : String → Database → List StaffMember
select_staff venue db = map member (sort_by older_staff (select_where (is_kept_in venue) db.staff))

unfoldable pub list_staff : String → String → Op (List StaffMember)
list_staff owner_id venue_id = do
  require_owner owner_id venue_id
  venue ← uuid_arg venue_id
  query (λ e db. select_staff venue db)
