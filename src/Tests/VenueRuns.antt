-- ===== src/Tests/VenueRuns.antt =====
-- The theorems on venues on the example database.
use pocket_mvp_backend.Prelude.{◌≡◌, refl, true, false, none}
use pocket_mvp_backend.Faults.{app, AppFault}
use pocket_mvp_backend.Platform.{Env}
use pocket_mvp_backend.Effects.{ok, err, ◌>>=◌, ask, fail_if, pure, external, read_random}
use pocket_mvp_backend.GoText.{
  trim_space, trim_left, trim_right, is_space, to_lower, to_upper, map_chars,
}
use pocket_mvp_backend.Security.Session.{new_session_token}
use pocket_mvp_backend.Venues.Slug.{
  unique_slug, slugify, dash_runs, trim_dashes_left, trim_dashes_right, cut, is_slug,
}
use pocket_mvp_backend.Venues.Slug.Pattern.{ends_clean, unique_slug-matches}
use pocket_mvp_backend.Venues.Model.{Input, normalize_input, valid_input, status_of}
use pocket_mvp_backend.Venues.Changes.{create_venue}
use pocket_mvp_backend.Venues.Changes.Dashes.{create_venue-dashed}
use pocket_mvp_backend.Tests.Platform.{platform, at}
use pocket_mvp_backend.Tests.Scene.{start, database}

slug_drawn : (unique_slug "cafe & bar" (at 100) start).0 ≡ ok "cafe-bar-bbbbbbb"
unfolding unique_slug new_session_token read_random external ◌>>=◌ ask fail_if pure slugify
    dash_runs trim_dashes_left trim_dashes_right cut trim_space trim_left trim_right is_space
    to_lower map_chars
slug_drawn = refl

unique_slug-matches_example : is_slug "cafe-bar-bbbbbbb" ≡ ends_clean false "cafe-bar-bbbbbbb"
unique_slug-matches_example =
    unique_slug-matches "cafe & bar" (at 100) start "cafe-bar-bbbbbbb" slug_drawn

-- A run whose token has a dash after six characters.
abbrev dashed : Env
dashed = record (at 100) { platform = record platform { raw_url_encode = λ b. "abcdef-ghijk" } }

abbrev pub cafe : Input
cafe = record {
  name = "cafe";
  description = "";
  cuisine_type = "";
  phone = "";
  email = "";
  address = "";
  city = "B";
  postal_code = "";
  country_code = "";
  timezone = "";
  currency = "";
  status = "";
  settings = none;
}

cafe_valid : valid_input (normalize_input dashed.platform cafe) ≡ true
unfolding valid_input normalize_input status_of trim_space trim_left trim_right is_space to_upper
    map_chars
cafe_valid = refl

dashed_drawn :
    (unique_slug (normalize_input dashed.platform cafe).name dashed start).0 ≡ ok "cafe-abcdef-"
unfolding unique_slug new_session_token read_random external ◌>>=◌ ask fail_if pure slugify
    dash_runs trim_dashes_left trim_dashes_right cut trim_space trim_left trim_right is_space
    to_lower map_chars normalize_input
dashed_drawn = refl

create_venue-dashed_example :
    ((create_venue "u" cafe dashed start).0 ≡ err (app AppFault.invalid_input))
    × ((create_venue "u" cafe dashed start).1.db ≡ database)
create_venue-dashed_example =
    create_venue-dashed "u" "u" "cafe-abcdef-" cafe dashed start cafe_valid dashed_drawn refl refl
      (λ n. refl) (λ b. refl)
