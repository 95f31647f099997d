-- ===== src/Ordering/Listing.antt =====
-- What `List` of internal/modules/ordering/service.go shows of a venue's orders.
use pocket_mvp_backend.Prelude.{
  ◌≡◌, some, ◌≤◌, true, false, String, List, [], ◌++◌, Perm, map, length, take, drop, select_where,
  sort_by, All, IsOrdered, sort_by-IsOrdered, sort_by-perm, take-IsOrdered, take-before-drop,
  take-drop, length-take-le, take-full, ◌⊎◌, arith, subst, sym,
}
use pocket_mvp_backend.Platform.{Env}
use pocket_mvp_backend.Schema.{OrderRow}
use pocket_mvp_backend.Effects.{State, ok}
use pocket_mvp_backend.Access.Listing.{listing-eq-ok}
use pocket_mvp_backend.Ordering.{
  Order, list_orders, select_orders, listed_source, scan_order, newer, order_in, list_limit,
}

newer_total : (a b : OrderRow) → newer a b ≡ false → newer b a ≡ true
newer_total a b h = ground arith

newer_trans : (a b c : OrderRow) → newer a b ≡ true → newer b c ≡ true → newer a c ≡ true
newer_trans a b c h k = ground arith

-- A listing of orders that succeeds shows the newest orders of the venue, each once and newest
-- first, at most 200 of them; none is left out unless 200 are shown, and what is left out is not
-- newer than anything shown. (`kept` and `rest` are the rows shown and left out.)
pub list_orders-newest :
    (owner_id venue_id v : String) (e : Env) (s : State) (orders : List Order)
    → e.parse_uuid venue_id ≡ some v
    → (list_orders owner_id venue_id e s).0 ≡ ok orders
    → (kept rest : List OrderRow) × (orders ≡ map (λ o. scan_order (listed_source s.db o) o) kept)
      × Perm (kept ++ rest) (select_where (order_in v) s.db.orders)
      × IsOrdered newer kept
      × All (λ x. All (λ y. newer x y ≡ true) rest) kept
      × (length kept ≤ list_limit)
      × ((length kept ≡ list_limit) ⊎ (rest ≡ []))
unfolding list_orders select_orders
list_orders-newest owner_id venue_id v e s orders parsed h =
    let rows = select_where (order_in v) s.db.orders in
    let sorted = sort_by newer rows in
    let ordered = sort_by-IsOrdered newer newer_total newer_trans rows in
    (
      take list_limit sorted,
      drop list_limit sorted,
      listing-eq-ok (λ e' w d. select_orders w d) owner_id venue_id v e s orders parsed h,
      subst (λ l. Perm l rows) (sym (take-drop list_limit sorted)) (sort_by-perm newer rows),
      take-IsOrdered newer list_limit sorted ordered,
      take-before-drop newer list_limit sorted ordered,
      length-take-le list_limit sorted,
      take-full list_limit sorted,
    )
