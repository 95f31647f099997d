-- ===== src/Tests/OrderRuns.antt =====
-- The theorems on orders, reviews, floor plans and figures on the example database.
use pocket_mvp_backend.Prelude.{
  ℕ, ◌≡◌, ◌≤◌, ◌*◌, ◌+◌, refl, ◌⊎◌, true, false, not, none, some, String, List, [], ◌∷◌, ◌++◌, Perm,
  map, length, find, select_where, All, IsOrdered, arith, if◌then◌else◌, ◌==◌, ◌&&◌,
}
use pocket_mvp_backend.Platform.Laws.{IsPlanLawful, IsMergeLawful}
use pocket_mvp_backend.Schema.{OrderStatus, OrderRow, ReviewRow}
use pocket_mvp_backend.Effects.{
  State, ok, ◌>>=◌, ask, pure, fail_if, or_fail, query, query_row, statement, storable_text,
  external, on_error, uuid_arg,
}
use pocket_mvp_backend.GoText.{trim_space, trim_left, trim_right, is_space, decimal, rune_count}
use pocket_mvp_backend.Access.{require_owner}
use pocket_mvp_backend.Ordering.{
  Order, order_status, list_orders, select_orders, listed_source, scan_order, newer, order_in,
  list_limit, update_order_row, returned_source, update_status,
}
use pocket_mvp_backend.Ordering.Listing.{list_orders-newest}
use pocket_mvp_backend.Ordering.Book.{book, move, update_status-moves}
use pocket_mvp_backend.Ordering.Lifecycle.{
  StatusSteps, start as from_start, step, AllTimed, Kept, finished_orders-timed, completed_at-Kept,
}
use pocket_mvp_backend.Feedback.{
  Review, reply_to_review, is_review, set_reply, scan_review, unfit_reply, update_review_row,
}
use pocket_mvp_backend.Feedback.Replies.{reply_to_review-stores}
use pocket_mvp_backend.FloorPlan.{get_plan, save_plan, save_plan_row, select_plan}
use pocket_mvp_backend.FloorPlan.Kept.{get_plan-save_plan}
use pocket_mvp_backend.FloorPlan.Updates.{select_plan-update_venue}
use pocket_mvp_backend.Venues.Changes.{update_venue}
use pocket_mvp_backend.Reporting.{Dashboard, sum_totals, dashboard, select_dashboard, average}
use pocket_mvp_backend.Reporting.Bounds.{IsDay, IsStars, dashboard-bounds}
use pocket_mvp_backend.Tests.Platform.{at}
use pocket_mvp_backend.Tests.Scene.{start, database, order}
use pocket_mvp_backend.Tests.VenueRuns.{cafe}

abbrev shown : OrderRow → Order
shown o = scan_order "Стол 1" o

abbrev open_order : OrderRow
open_order = order "o" OrderStatus.new none 60

abbrev done_order : OrderRow
done_order = order "p" OrderStatus.completed (some 75) 70

abbrev lost_order : OrderRow
lost_order = order "q" OrderStatus.cancelled (some 45) 40

abbrev listed : List Order
listed = shown done_order ∷ shown open_order ∷ shown lost_order ∷ []

orders_listed : (list_orders "u" "v" (at 100) start).0 ≡ ok listed
unfolding list_orders select_orders listed_source require_owner ◌>>=◌ query external uuid_arg
    fail_if
orders_listed = refl

list_orders-newest_example :
    (kept rest : List OrderRow) × (listed ≡ map (λ o. scan_order (listed_source database o) o) kept)
    × Perm (kept ++ rest) (select_where (order_in "v") database.orders)
    × IsOrdered newer kept
    × All (λ x. All (λ y. newer x y ≡ true) rest) kept
    × (length kept ≤ list_limit)
    × ((length kept ≡ list_limit) ⊎ (rest ≡ []))
list_orders-newest_example = list_orders-newest "u" "v" "v" (at 100) start listed refl orders_listed

abbrev served : Order
served = shown (order "o" OrderStatus.served none 60)

served_run : (update_status "u" "v" "o" "served" (at 100) start).0 ≡ ok served
unfolding update_status order_status update_order_row returned_source require_owner ◌>>=◌ query
    external uuid_arg fail_if or_fail on_error statement
served_run = refl

update_status-moves_example :
    (status : OrderStatus) × (order_status "served" ≡ some status)
    × (served.status ≡ status)
    × (served.id ≡ "o")
    × ((w j : String)
        → book (update_status "u" "v" "o" "served" (at 100) start).1.db w j ≡ (
            if j == "o" && w == "v"
            then move 100 status (book database w j)
            else book database w j))
update_status-moves_example =
    update_status-moves "u" "v" "o" "served" "v" "o" (at 100) start served refl refl served_run

-- An order that was completed is set back to "new".
abbrev reopened : State
reopened = (update_status "u" "v" "p" "new" (at 100) start).1

reopening : StatusSteps start reopened
reopening = step from_start "u" "v" "p" "new" (at 100)

finished_orders-timed_example : AllTimed reopened.db.orders
finished_orders-timed_example =
    finished_orders-timed start reopened reopening (refl, (refl, (refl, tt)))

completed_at-Kept_example : Kept "p" done_order reopened.db.orders
completed_at-Kept_example = completed_at-Kept start reopened "p" done_order reopening refl refl

abbrev replied : Review
replied = record {
  id = "r";
  guest_name = "Гость";
  rating = 4;
  table = "";
  order = "#70";
  body = "";
  owner_reply = "thanks";
  replied_at = some 100;
  created_at = 80;
}

reply_run : (reply_to_review "u" "v" "r" " thanks " (at 100) start).0 ≡ ok replied
unfolding reply_to_review unfit_reply update_review_row scan_review decimal trim_space trim_left
    trim_right is_space require_owner ◌>>=◌ query external uuid_arg fail_if on_error statement
    storable_text
reply_run = refl

reply_to_review-stores_example :
    ((trim_space " thanks " == "") ≡ false)
    × (rune_count (trim_space " thanks ") ≤ 2000)
    × (row : ReviewRow) × (find (is_review "r" "v") database.reviews ≡ some row)
    × (find (is_review "r" "v") (reply_to_review "u" "v" "r" " thanks " (at 100) start).1.db.reviews
        ≡ some (set_reply 100 "u" (trim_space " thanks ") row))
    × (replied ≡ scan_review database (set_reply 100 "u" (trim_space " thanks ") row))
reply_to_review-stores_example =
    reply_to_review-stores "u" "v" "r" " thanks " "u" "v" "r" (at 100) start replied refl refl refl
      reply_run

at-IsPlanLawful : (now : ℕ) → IsPlanLawful (at now) (λ t. t)
at-IsPlanLawful now = record { get-set = λ settings plan changed h. cc }

at-IsMergeLawful : (now : ℕ) → IsMergeLawful (at now) (λ t. not (t == ""))
at-IsMergeLawful now = record {
  has-remove = λ changes. refl;
  get-concat = λ settings changes h. ground arith;
}

abbrev plan : String
plan = "[1]"

abbrev planned : State
planned = (save_plan "u" "v" "[1]" (at 100) start).1

save_run : (save_plan "u" "v" "[1]" (at 100) start).0 ≡ ok "[1]"
unfolding save_plan save_plan_row require_owner ◌>>=◌ query external uuid_arg fail_if ask pure
    statement
save_run = refl

get_run : (get_plan "u" "v" (at 200) planned).0 ≡ ok "[1]"
unfolding get_plan select_plan save_plan save_plan_row require_owner ◌>>=◌ query query_row external
    uuid_arg fail_if ask pure statement on_error
get_run = refl

get_plan-save_plan_example : (plan ≡ plan) × (plan ≡ plan)
get_plan-save_plan_example =
    get_plan-save_plan (λ t. t) "u" "v" "[1]" "[1]" "u" "v" (at 100) start "u" "[1]" (at 200)
      planned (at-IsPlanLawful 100) refl refl (refl, tt) save_run refl refl get_run

select_plan-update_venue_example :
    select_plan (at 100) "v" (update_venue "u" "v" cafe (at 100) start).1.db
    ≡ select_plan (at 100) "v" database
select_plan-update_venue_example =
    select_plan-update_venue (λ t. not (t == "")) "u" "v" "v" cafe (at 100) start
      (at-IsMergeLawful 100)

abbrev figures : Dashboard
figures = record {
  revenue_minor = 1400;
  orders_today = 2;
  average_order_minor = 700;
  active_tables = 1;
  total_tables = 1;
  new_orders = 1;
  average_rating = some (4, 1);
}

figures_run : (dashboard "u" "v" (at 100) start).0 ≡ ok figures
unfolding dashboard select_dashboard average require_owner ◌>>=◌ query external uuid_arg fail_if
figures_run = refl

dashboard-bounds_example :
    (paid cancelled rest : List OrderRow) × IsDay (at 100) "v" database.orders paid cancelled rest
    × (figures.revenue_minor ≡ sum_totals paid)
    × (figures.orders_today ≡ length paid + length cancelled)
    × (2 * (figures.average_order_minor * length paid) ≤ 2 * figures.revenue_minor + length paid)
    × (2 * figures.revenue_minor ≤ 2 * (figures.average_order_minor * length paid) + length paid)
    × (figures.active_tables ≤ figures.total_tables)
    × IsStars figures.average_rating
dashboard-bounds_example =
    dashboard-bounds "u" "v" "v" (at 100) start figures ((omega arith, omega arith), tt) refl
      figures_run
