-- ===== src/Tests/CatalogRuns.antt =====
-- The theorems on ownership, the catalog and subscriptions on the example database.
use pocket_mvp_backend.Prelude.{
  ◌≡◌, ◌≢◌, ◌⊎◌, ◌++◌, All, eq_iff, refl, false, ◌&&◌, leb, none, some, pos, String, List, [], ◌∷◌,
  find, count_where, length, ℕ,
}
use mathlib.Core.Bool.{false≢true}
use pocket_mvp_backend.Faults.{app, AppFault}
use pocket_mvp_backend.Schema.{CategoryRow, VenueRow, SubscriptionRow, SubscriptionStatus}
use pocket_mvp_backend.Effects.{
  ok, err, ◌>>=◌, fail_if, exec, external, query, on_error, statement, transaction, uuid_arg,
}
use pocket_mvp_backend.Effects.Rules.{AllOrNothing}
use pocket_mvp_backend.GoText.{trim_space, trim_left, trim_right, is_space}
use pocket_mvp_backend.Access.{is_owned_by, require_owner}
use pocket_mvp_backend.Access.Owner.{require_owner_decides, IsOwnedVenue, Refused}
use pocket_mvp_backend.Catalog.Model.{CategoryInput, MenuItemInput}
use pocket_mvp_backend.Catalog.Order.{
  valid_order, all_new, position_of, reorder_categories, reorder_menu_items, place_categories,
  order_categories, reorder_rows, category_sort_order,
}
use pocket_mvp_backend.Catalog.Complete.{valid_order_lem, no_blank, distinct, trimmed_ids}
use pocket_mvp_backend.Catalog.Reordered.{reorder_categories-places_all, is_listed_in}
use pocket_mvp_backend.Catalog.Categories.{create_category, update_category, delete_category}
use pocket_mvp_backend.Catalog.MenuItems.{create_menu_item, update_menu_item, delete_menu_item}
use pocket_mvp_backend.Catalog.Deletion.{delete_category_lem}
use pocket_mvp_backend.Catalog.Guards.{catalog_changes-Refused, catalog_transactions-AllOrNothing}
use pocket_mvp_backend.Billing.{
  Subscription, SubscriptionInput, upsert_subscription, replace_subscription, insert_subscription,
  limit_for_plan, is_current_of, shown, exceeds,
}
use pocket_mvp_backend.Billing.OneLive.{upsert_subscription-one_current}
use pocket_mvp_backend.Tests.Platform.{at}
use pocket_mvp_backend.Tests.Scene.{start, database}

require_owner_decides_example :
    ((require_owner "w" "v" (at 100) start).1.db ≡ database)
    × ((((require_owner "w" "v" (at 100) start).0 ≡ ok tt)
          × (before after : List VenueRow) × (row : VenueRow) × (database.venues
              ≡ before ++ row ∷ after)
          × IsOwnedVenue "w" "v" row)
        ⊎ (((require_owner "w" "v" (at 100) start).0 ≡ err (app AppFault.not_found))
            × All (λ row. ¬ IsOwnedVenue "w" "v" row) database.venues))
require_owner_decides_example = require_owner_decides "w" "v" "w" "v" (at 100) start refl refl refl

abbrev swap : List String
swap = "b" ∷ "a" ∷ []

abbrev alike : List String
alike = "a" ∷ " a" ∷ []

abbrev soups : CategoryInput
soups = record { name = "soups"; sort_order = pos 1; is_active = none }

abbrev stew : MenuItemInput
stew = record {
  category_id = "a";
  name = "stew";
  description = "";
  price_minor = pos 900;
  currency = "EUR";
  is_available = none;
  is_popular = false;
  sort_order = pos 2;
  image_url = "";
}

stranger_refused : (require_owner "w" "v" (at 100) start).0 ≡ err (app AppFault.not_found)
unfolding require_owner uuid_arg query external fail_if ◌>>=◌
stranger_refused = refl

catalog_changes-Refused_example :
    let no = app AppFault.not_found in
    Refused (create_category "w" "v" soups) (at 100) start no
    × Refused (update_category "w" "v" "a" soups) (at 100) start no
    × Refused (delete_category "w" "v" "a") (at 100) start no
    × Refused (create_menu_item "w" "v" stew) (at 100) start no
    × Refused (update_menu_item "w" "v" "a" stew) (at 100) start no
    × Refused (delete_menu_item "w" "v" "a") (at 100) start no
    × Refused (reorder_categories "w" "v" swap) (at 100) start no
    × Refused (reorder_menu_items "w" "v" "b" swap) (at 100) start no
catalog_changes-Refused_example =
    catalog_changes-Refused "w" "v" "a" "b" swap soups stew (at 100) start (app AppFault.not_found)
      stranger_refused

catalog_transactions-AllOrNothing_example :
    AllOrNothing (create_menu_item "u" "v" stew) (at 100) start
    × AllOrNothing (reorder_categories "u" "v" swap) (at 100) start
    × AllOrNothing (reorder_menu_items "u" "v" "b" swap) (at 100) start
catalog_transactions-AllOrNothing_example =
    catalog_transactions-AllOrNothing "u" "v" "b" swap stew (at 100) start

valid_order_lem_example : valid_order alike ≡ (
    leb 1 (length alike)
    && leb (length alike) 500
    && no_blank (trimmed_ids alike)
    && distinct (trimmed_ids alike))
valid_order_lem_example = valid_order_lem alike

swap_runs : (reorder_categories "u" "v" swap (at 100) start).0 ≡ ok tt
unfolding reorder_categories require_owner ◌>>=◌ uuid_arg query external fail_if valid_order all_new
    trim_space trim_left trim_right is_space transaction place_categories reorder_rows
    order_categories statement position_of
swap_runs = refl

reorder_categories-places_all_example :
    let after = (reorder_categories "u" "v" swap (at 100) start).1.db in
    (c : CategoryRow) × (k : ℕ) × (position_of "a" swap ≡ some k)
    × (find (is_listed_in "v" "a") database.categories ≡ some c)
    × (find (is_listed_in "v" "a") after.categories ≡ some (category_sort_order c k))
reorder_categories-places_all_example =
    reorder_categories-places_all "u" "v" "v" "a" swap (at 100) start (refl, (refl, tt)) refl
      swap_runs refl

-- The only item of the category "b" is marked as deleted.
delete_category_lem_example :
    ((delete_category "u" "v" "b" (at 100) start).0 ≡ err (app AppFault.invalid_input))
    × ((delete_category "u" "v" "b" (at 100) start).1.db ≡ database)
delete_category_lem_example =
    delete_category_lem "u" "v" "b" "u" "v" "b" (at 100) start refl refl refl refl (λ n. refl)

abbrev owner : String
owner = "u"

apart : owner ≢ "w"
apart p = false≢true ((eq_iff owner "w").1 p)

abbrev start_plan : SubscriptionInput
start_plan = record { plan = "start"; billing_cycle = "monthly" }

abbrev subscription : Subscription
subscription = record {
  id = "aaab";
  plan = "start";
  billing_cycle = "monthly";
  status = SubscriptionStatus.trialing;
  venue_limit = some 1;
  trial_ends_at = 1209600000100;
  current_period_ends_at = 1100;
}

upsert_runs : (upsert_subscription "u" start_plan (at 100) start).0 ≡ ok subscription
unfolding upsert_subscription ◌>>=◌ uuid_arg query external fail_if limit_for_plan transaction
    replace_subscription insert_subscription exec on_error statement
upsert_runs = refl

upsert_subscription-one_current_example :
    let rows = (upsert_subscription "u" start_plan (at 100) start).1.db.subscriptions in
    (r : SubscriptionRow) × (count_where (is_current_of "u") rows ≡ 1)
    × (find (is_current_of "u") rows ≡ some r)
    × (shown r ≡ subscription)
    × (r.plan ≡ "start")
    × (exceeds (count_where (is_owned_by "u") database.venues) (limit_for_plan "start") ≡ false)
    × (find (is_current_of "w") rows ≡ find (is_current_of "w") [])
upsert_subscription-one_current_example =
    upsert_subscription-one_current "u" "u" "w" start_plan (at 100) start subscription refl apart
      upsert_runs
