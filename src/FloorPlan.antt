-- ===== src/FloorPlan.antt =====
-- internal/modules/floorplan: the floor plan in the settings of a venue. A json.RawMessage is its
-- text.
pub mod Kept
pub mod Updates
use pocket_mvp_backend.Prelude.{
  ℕ, Bool, not, ◌||◌, Option, none, some, String, find, count_where, update_where, nat_eq, ◌==◌,
}
use pocket_mvp_backend.Faults.{PgCode, app, AppFault, no_rows_as}
use pocket_mvp_backend.Platform.{Env}
use pocket_mvp_backend.Schema.{VenueRow, Database}
use pocket_mvp_backend.Effects.{
  Op, pure, fail_if, ask, query_row, statement, Statement, rejected, done, on_error, uuid_arg,
  ◌>>=◌, ◌>>◌,
}
use pocket_mvp_backend.Access.{require_owner}
use pocket_mvp_backend.Venues.Changes.{is_venue}

abbrev pub plan_of : Env → Option VenueRow → Option String
plan_of e none = none
plan_of e (some v) = some (e.get_floor_plan v.settings)

-- `SELECT COALESCE(settings -> 'floor_plan', '[]'::jsonb) FROM venues WHERE id = $1`
unfoldable pub select_plan : Env → String → Database → Option String
select_plan e venue db = plan_of e (find (λ v. v.id == venue) db.venues)

unfoldable pub get_plan : String → String → Op String
get_plan owner_id venue_id = do
  require_owner owner_id venue_id
  on_error (do venue ← uuid_arg venue_id; query_row (λ e db. select_plan e venue db))
      (no_rows_as (app AppFault.not_found))

abbrev set_or_keep : Option String → VenueRow → VenueRow
set_or_keep none v = v
set_or_keep (some settings) v = record v { settings = settings }

abbrev pub set_plan : Env → String → VenueRow → VenueRow
set_plan e plan v = set_or_keep (e.set_floor_plan v.settings plan) v

abbrev save_if_set : Option String → Statement ℕ → Statement ℕ
save_if_set none s = rejected PgCode.other_code
save_if_set (some settings) s = s

abbrev plan_for : Env → String → Option VenueRow → Option String
plan_for e plan none = some plan
plan_for e plan (some v) = e.set_floor_plan v.settings plan

-- `UPDATE venues SET settings = jsonb_set(…) …` with its `RowsAffected`; ids are unique, so that
-- at most one row fits, and the statement fails if jsonb_set does.
unfoldable pub save_plan_row : Env → String → String → String → Database → Statement ℕ
save_plan_row e owner id plan db =
    save_if_set (plan_for e plan (find (is_venue id owner) db.venues)) (
      done (count_where (is_venue id owner) db.venues)
        (record db { venues = update_where (is_venue id owner) (set_plan e plan) db.venues }))

unfoldable pub save_plan : String → String → String → Op String
save_plan owner_id venue_id plan = do
  require_owner owner_id venue_id
  e ← ask
  fail_if (plan == "" || not (e.json_valid plan)) (app AppFault.invalid_input)
  owner ← uuid_arg owner_id
  id ← uuid_arg venue_id
  rows_affected ← statement (λ n e db. save_plan_row e owner id plan db)
  fail_if (nat_eq rows_affected 0) (app AppFault.not_found)
  pure plan
