-- ===== src/Venues/Listing.antt =====
-- `List` of internal/modules/venues/service.go.
use pocket_mvp_backend.Prelude.{Bool, String, List, map, select_where, sort_by, leb}
use pocket_mvp_backend.Schema.{VenueRow, Database}
use pocket_mvp_backend.Effects.{Op, query, uuid_arg, ◌>>=◌}
use pocket_mvp_backend.Access.{is_owned_by}
use pocket_mvp_backend.Venues.Model.{Venue}
use pocket_mvp_backend.Venues.Changes.{scanned}

-- `ORDER BY created_at`
abbrev pub older_venue : VenueRow → VenueRow → Bool
older_venue a b = leb a.created_at b.created_at

unfoldable pub select_venues : String → Database → List Venue
select_venues owner db =
    map scanned (sort_by older_venue (select_where (is_owned_by owner) db.venues))

unfoldable pub list_venues : String → Op (List Venue)
list_venues owner_id = do owner ← uuid_arg owner_id; query (λ e db. select_venues owner db)
