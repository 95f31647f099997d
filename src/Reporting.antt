-- ===== src/Reporting.antt =====
-- internal/modules/reporting: the figures of a venue's day.
pub mod Bounds
use pocket_mvp_backend.Prelude.{
  ℕ, ◌+◌, ◌*◌, ◌/◌, Bool, true, false, ◌&&◌, not, Option, none, some, String, List, [], ◌∷◌,
  select_where, count_where, length, leb, nat_eq, if◌then◌else◌, ◌==◌,
}
use pocket_mvp_backend.Platform.{Env}
use pocket_mvp_backend.Schema.{
  OrderRow, OrderStatus, TableRow, TableStatus, ReviewRow, Database, is_null,
}
use pocket_mvp_backend.Effects.{Op, query, uuid_arg, ◌>>=◌, ◌>>◌}
use pocket_mvp_backend.Feedback.{is_shown_review}
use pocket_mvp_backend.Access.{require_owner}

-- `average_rating` is the sum and the number of the ratings, whose quotient PostgreSQL rounds to a
-- float8; `none` is 0, where there are none.
pub record Dashboard : Type 0 where
  pub revenue_minor : ℕ
  pub orders_today : ℕ
  pub average_order_minor : ℕ
  pub active_tables : ℕ
  pub total_tables : ℕ
  pub new_orders : ℕ
  pub average_rating : Option (ℕ × ℕ)

abbrev pub is_cancelled : OrderStatus → Bool
is_cancelled OrderStatus.cancelled = true
is_cancelled _ = false

abbrev is_new : OrderStatus → Bool
is_new OrderStatus.new = true
is_new _ = false

abbrev is_occupied : TableStatus → Bool
is_occupied TableStatus.occupied = true
is_occupied _ = false

-- `venue_id = $1 AND created_at >= CURRENT_DATE`
abbrev pub is_today : Env → String → OrderRow → Bool
is_today e venue o = o.venue_id == venue && leb (e.day_start e.db_now) o.created_at

-- `… AND status <> 'cancelled'`
abbrev pub is_paid_today : Env → String → OrderRow → Bool
is_paid_today e venue o = is_today e venue o && not (is_cancelled o.status)

abbrev pub is_new_in : String → OrderRow → Bool
is_new_in venue o = o.venue_id == venue && is_new o.status

abbrev pub is_table_of : String → TableRow → Bool
is_table_of venue t = t.venue_id == venue && is_null t.deleted_at

abbrev pub is_active_table : String → TableRow → Bool
is_active_table venue t = is_table_of venue t && is_occupied t.status

-- `SUM(…)`, and 0 for no rows by the COALESCE
abbrev pub sum_totals : List OrderRow → ℕ
sum_totals [] = 0
sum_totals (o ∷ rest) = o.total_minor + sum_totals rest

abbrev pub sum_ratings : List ReviewRow → ℕ
sum_ratings [] = 0
sum_ratings (r ∷ rest) = r.rating + sum_ratings rest

-- `AVG(…)::bigint`, which rounds half up, and 0 for no rows
unfoldable pub average : ℕ → ℕ → ℕ
average sum count = if nat_eq count 0 then 0 else (2 * sum + count) / (2 * count)

abbrev pub rating_of : List ReviewRow → Option (ℕ × ℕ)
rating_of [] = none
rating_of (r ∷ rest) = some (sum_ratings (r ∷ rest), length (r ∷ rest))

unfoldable pub select_dashboard : Env → String → Database → Dashboard
select_dashboard e venue db =
    let paid = select_where (is_paid_today e venue) db.orders in
    record {
      revenue_minor = sum_totals paid;
      orders_today = count_where (is_today e venue) db.orders;
      average_order_minor = average (sum_totals paid) (length paid);
      active_tables = count_where (is_active_table venue) db.tables;
      total_tables = count_where (is_table_of venue) db.tables;
      new_orders = count_where (is_new_in venue) db.orders;
      average_rating = rating_of (select_where (is_shown_review venue) db.reviews);
    }

unfoldable pub dashboard : String → String → Op Dashboard
dashboard owner_id venue_id = do
  require_owner owner_id venue_id
  venue ← uuid_arg venue_id
  query (λ e db. select_dashboard e venue db)
