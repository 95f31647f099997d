-- ===== src/Reporting/Bounds.antt =====
-- The bounds that the figures of internal/modules/reporting keep.
use native.Mathlib.Nat.{div-mul-le_self, lt-div-mul-add, mul_left_comm}
use pocket_mvp_backend.Prelude.{
  ℕ, suc, ◌≡◌, ◌≢◌, ◌↔◌, ◌∙◌, ◌≤◌, ◌<◌, ◌+◌, ◌*◌, ◌/◌, Bool, true, false, not, Bool-cases, Option,
  none, some, inl, inr, String, List, [], ◌∷◌, ◌++◌, Perm, select_where, select_where-perm,
  select_where-and, length-select_where, count_where, count_where-eq, All-select_where,
  All-select_where_keeps, length, All, arith, refl, subst, zero, sym, ap, eq_iff,
}
use pocket_mvp_backend.Platform.{Env}
use mathlib.Core.List.Perm
use pocket_mvp_backend.Schema.{OrderRow, OrderStatus, ReviewRow, Database}
use pocket_mvp_backend.Effects.{State, ok}
use pocket_mvp_backend.Access.Listing.{listing-eq-ok}
use pocket_mvp_backend.Feedback.{is_shown_review}
use pocket_mvp_backend.Reporting.{
  Dashboard, is_cancelled, is_today, is_paid_today, is_table_of, is_active_table, sum_totals,
  sum_ratings, average, rating_of, select_dashboard, dashboard,
}

count_where-le :
    {A : Type 0} (p q : A → Bool) (rows : List A)
    → ((r : A) → p r ≡ true → q r ≡ true)
    → count_where p rows ≤ count_where q rows
count_where-le p q [] h = omega arith
count_where-le p q (r ∷ rows) h = ground (arith, h r, count_where-le p q rows h)

-- `CHECK (rating BETWEEN 1 AND 5)`
abbrev pub IsRated : ReviewRow → Type 0
IsRated r = (1 ≤ r.rating) × (r.rating ≤ 5)

ratings_between :
    (p : ReviewRow → Bool) (rows : List ReviewRow)
    → All IsRated rows
    → (length (select_where p rows) ≤ sum_ratings (select_where p rows))
      × (sum_ratings (select_where p rows) ≤ 5 * length (select_where p rows))
ratings_between p [] h = (omega arith, omega arith)
ratings_between p (r ∷ rows) h =
    let (low, high) = ratings_between p rows h.1 in
    let (one, five) = h.0 in
    elim (Bool-cases (p r)) [
      | inl hit ↦ (ground arith, ground arith)
      | inr miss ↦ (ground arith, ground arith)
    ]

-- Between one and five stars on average, of at least one review; or no review.
abbrev pub IsStars : Option (ℕ × ℕ) → Type 0
IsStars none = Unit
IsStars (some (sum, count)) = (1 ≤ count) × (count ≤ sum) × (sum ≤ 5 * count)

stars :
    (rows : List ReviewRow)
    → (length rows ≤ sum_ratings rows) × (sum_ratings rows ≤ 5 * length rows)
    → IsStars (rating_of rows)
stars [] h = tt
stars (r ∷ rows) h = (omega arith, h.0, h.1)

-- The rounded quotient is at most half a unit off.
average_close :
    (sum count : ℕ)
    → (count ≡ 0 → sum ≡ 0)
    → (2 * (average sum count * count) ≤ 2 * sum + count)
      × (2 * sum ≤ 2 * (average sum count * count) + count)
unfolding average
average_close sum zero h = let none = h refl in (ground arith, ground arith)
average_close sum (suc n) h =
    let q = (2 * sum + suc n) / (2 * suc n) in
    let low : q * (2 * suc n) ≤ 2 * sum + suc n = div-mul-le_self (2 * sum + suc n) (2 * suc n) in
    let high : 2 * sum + suc n < q * (2 * suc n) + 2 * suc n = lt-div-mul-add (omega arith) in
    let twice : q * (2 * suc n) ≡ 2 * (q * suc n) = mul_left_comm q 2 (suc n) in
    let eq : average sum (suc n) ≡ q = ground arith in
    let scaled : average sum (suc n) * suc n ≡ q * suc n = ap (λ k. k * suc n) eq in
    (omega (arith, low, twice, scaled), omega (arith, high, twice, scaled))

none_sums : (rows : List OrderRow) → length rows ≡ 0 → sum_totals rows ≡ 0
none_sums [] h = refl
none_sums (o ∷ rows) h = omega (arith, h)

-- The order was made at the venue since the start of the database's day.
abbrev pub IsToday : Env → String → OrderRow → Type 0
IsToday e v o = (o.venue_id ≡ v) × (e.day_start e.db_now ≤ o.created_at)

is_today-IsToday : (e : Env) (v : String) (o : OrderRow) → is_today e v o ≡ true → IsToday e v o
is_today-IsToday e v o h = ((eq_iff o.venue_id v).0 (ground arith), ground arith)

other_row : (e : Env) (v : String) (o : OrderRow) → is_today e v o ≡ false → ¬ IsToday e v o
other_row e v o h (here, now) = let at_v = (eq_iff o.venue_id v).1 here in ground arith

is_cancelled_iff : (t : OrderStatus) → (is_cancelled t ≡ true) ↔ (t ≡ OrderStatus.cancelled)
is_cancelled_iff t = (cancelled_of t, λ same. ap is_cancelled same)
  where
    cancelled_of : (t : OrderStatus) → is_cancelled t ≡ true → t ≡ OrderStatus.cancelled
    cancelled_of OrderStatus.cancelled h = refl
    cancelled_of OrderStatus.draft h = cc
    cancelled_of OrderStatus.new h = cc
    cancelled_of OrderStatus.accepted h = cc
    cancelled_of OrderStatus.preparing h = cc
    cancelled_of OrderStatus.ready h = cc
    cancelled_of OrderStatus.served h = cc
    cancelled_of OrderStatus.completed h = cc

-- The orders of a table, told apart: today's that count, today's cancelled ones, and the rest.
abbrev pub IsDay :
    Env → String → List OrderRow → List OrderRow → List OrderRow → List OrderRow → Type 0
IsDay e v orders paid cancelled rest =
    Perm ((paid ++ cancelled) ++ rest) orders
    × All (λ o. IsToday e v o × (o.status ≢ OrderStatus.cancelled)) paid
    × All (λ o. IsToday e v o × (o.status ≡ OrderStatus.cancelled)) cancelled
    × All (λ o. ¬ IsToday e v o) rest

module _ (e : Env) (v : String) (orders : List OrderRow) where
  abbrev todays : List OrderRow
  todays = select_where (is_today e v) orders

  abbrev counting : OrderRow → Bool
  counting o = not (is_cancelled o.status)

  day :
      IsDay e v orders
        (select_where counting todays)
        (select_where (λ o. not (counting o)) todays)
        (select_where (λ o. not (is_today e v o)) orders)
  day =
      let all_today = All-select_where (IsToday e v) (is_today e v) (is_today-IsToday e v) orders in
      (
        Perm.trans
            (Perm.append_right (select_where (λ o. not (is_today e v o)) orders)
              (select_where-perm counting todays))
            (select_where-perm (is_today e v) orders),
        All-select_where_keeps (IsToday e v)
            (λ o. IsToday e v o × (o.status ≢ OrderStatus.cancelled)) counting
            (λ o today hit.
              (today, λ same. let gone = (is_cancelled_iff o.status).1 same in ground arith))
            todays all_today,
        All-select_where_keeps (IsToday e v)
            (λ o. IsToday e v o × (o.status ≡ OrderStatus.cancelled)) (λ o. not (counting o))
            (λ o today hit. (today, (is_cancelled_iff o.status).0 (ground arith))) todays all_today,
        All-select_where (λ o. ¬ IsToday e v o) (λ o. not (is_today e v o))
            (λ o hit. other_row e v o (ground arith)) orders,
      )

-- A dashboard that is returned is right about the day: of the orders of the table, told apart as
-- today's of this venue that are not cancelled, today's of this venue that are, and all others, the
-- revenue is the sum of the first, the number of orders that of the first and the second together,
-- and the average order, times the number of the first, is the revenue up to half a minor unit for
-- each of them. The venue's occupied tables are among its tables, and the rating is between one and
-- five stars (where the table's CHECK holds).
pub dashboard-bounds :
    (owner_id venue_id v : String) (e : Env) (s : State) (result : Dashboard)
    → All IsRated s.db.reviews
    → e.parse_uuid venue_id ≡ some v
    → (dashboard owner_id venue_id e s).0 ≡ ok result
    → (paid cancelled rest : List OrderRow) × IsDay e v s.db.orders paid cancelled rest
      × (result.revenue_minor ≡ sum_totals paid)
      × (result.orders_today ≡ length paid + length cancelled)
      × (2 * (result.average_order_minor * length paid) ≤ 2 * result.revenue_minor + length paid)
      × (2 * result.revenue_minor ≤ 2 * (result.average_order_minor * length paid) + length paid)
      × (result.active_tables ≤ result.total_tables)
      × IsStars result.average_rating
unfolding dashboard select_dashboard
dashboard-bounds owner_id venue_id v e s result rated parsed h =
    let f = λ (e' : Env) (w : String) (d : Database). select_dashboard e' w d in
    let same = listing-eq-ok f owner_id venue_id v e s result parsed h in
    let today = select_where (is_today e v) s.db.orders in
    let paid = select_where (counting e v s.db.orders) today in
    let cancelled = select_where (λ o. not (counting e v s.db.orders o)) today in
    let selected : select_where (is_paid_today e v) s.db.orders ≡ paid =
      select_where-and (is_today e v) (counting e v s.db.orders) s.db.orders in
    let (below, above) = average_close (sum_totals paid) (length paid) (none_sums paid) in
    let shown = select_where (is_shown_review v) s.db.reviews in
    let counted : count_where (is_today e v) s.db.orders ≡ length paid + length cancelled =
      count_where-eq (is_today e v) s.db.orders
      ∙ sym (length-select_where (counting e v s.db.orders) today) in
    let revenue : result.revenue_minor ≡ sum_totals paid =
      ap (λ (r : Dashboard). r.revenue_minor) same ∙ ap sum_totals selected in
    let mean : result.average_order_minor ≡ average (sum_totals paid) (length paid) =
      ap (λ (r : Dashboard). r.average_order_minor) same
      ∙ ap (λ l. average (sum_totals l) (length l)) selected in
    (
      paid,
      cancelled,
      select_where (λ o. not (is_today e v o)) s.db.orders,
      day e v s.db.orders,
      revenue,
      ap (λ (r : Dashboard). r.orders_today) same ∙ counted,
      rw (mean, revenue) below,
      rw (mean, revenue) above,
      subst (λ (r : Dashboard). r.active_tables ≤ r.total_tables) (sym same)
          (count_where-le (is_active_table v) (is_table_of v) s.db.tables (λ t hit. ground arith)),
      subst (λ (r : Dashboard). IsStars r.average_rating) (sym same)
          (stars shown (ratings_between (is_shown_review v) s.db.reviews rated)),
    )
