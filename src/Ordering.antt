-- ===== src/Ordering.antt =====
-- internal/modules/ordering: the orders of a venue, their listing and their status.
pub mod Listing
pub mod Book
pub mod Lifecycle
use Prim.Native.String.{◌++◌ as ◌⧺◌}
use pocket_mvp_backend.Prelude.{
  ℕ, Bool, ◌&&◌, Option, none, some, String, List, map, take, find, select_where, update_where,
  sort_by, leb, if◌then◌else◌, ◌==◌,
}
use pocket_mvp_backend.Faults.{app, AppFault, no_rows_as}
use pocket_mvp_backend.Schema.{Channel, OrderStatus, OrderRow, TableRow, Database}
use pocket_mvp_backend.Effects.{
  Op, query, statement, Statement, no_row, done, on_error, or_fail, uuid_arg, ◌>>=◌, ◌>>◌,
}
use pocket_mvp_backend.Catalog.MenuItems.{or_empty}
use pocket_mvp_backend.Access.{require_owner}

pub record Order : Type 0 where
  pub id : String
  pub number : ℕ
  pub channel : Channel
  pub source : String
  pub guest_name : String
  pub total_minor : ℕ
  pub currency : String
  pub status : OrderStatus
  pub notes : String
  pub created_at : ℕ

-- `^(new|accepted|preparing|ready|served|completed|cancelled)$`; `none` is a text that fails it.
unfoldable pub order_status : String → Option OrderStatus
order_status text =
    if text == "new"
    then some OrderStatus.new
    else if text == "accepted"
    then some OrderStatus.accepted
    else if text == "preparing"
    then some OrderStatus.preparing
    else if text == "ready"
    then some OrderStatus.ready
    else if text == "served"
    then some OrderStatus.served
    else if text == "completed"
    then some OrderStatus.completed
    else if text == "cancelled"
    then some OrderStatus.cancelled
    else none

abbrev channel_source : Channel → String
channel_source Channel.pickup = "Самовывоз"
channel_source Channel.dine_in = "Онлайн"
channel_source Channel.online = "Онлайн"
channel_source Channel.preorder = "Онлайн"

-- `LEFT JOIN venue_tables t ON t.id = o.venue_table_id`, and the scalar subquery of the update
abbrev pub table_of : Option String → List TableRow → Option TableRow
table_of none tables = none
table_of (some id) tables = find (λ t. t.id == id) tables

abbrev joined_source : Option TableRow → Channel → String
joined_source none channel = channel_source channel
joined_source (some t) channel = "Стол " ⧺ t.identifier

-- The CASE of `List`.
unfoldable pub listed_source : Database → OrderRow → String
listed_source db o = joined_source (table_of o.venue_table_id db.tables) o.channel

abbrev identifier_or_empty : Option TableRow → String
identifier_or_empty none = ""
identifier_or_empty (some t) = t.identifier

abbrev own_source : Option String → Option TableRow → Channel → String
own_source none t channel = channel_source channel
own_source (some id) t channel = "Стол " ⧺ identifier_or_empty t

-- The CASE of `UpdateStatus`.
unfoldable pub returned_source : Database → OrderRow → String
returned_source db o = own_source o.venue_table_id (table_of o.venue_table_id db.tables) o.channel

-- The scanned columns.
abbrev pub scan_order : String → OrderRow → Order
scan_order source o = record {
  id = o.id;
  number = o.order_number;
  channel = o.channel;
  source = source;
  guest_name = or_empty o.guest_name;
  total_minor = o.total_minor;
  currency = o.currency;
  status = o.status;
  notes = or_empty o.notes;
  created_at = o.created_at;
}

-- `ORDER BY created_at DESC`
abbrev pub newer : OrderRow → OrderRow → Bool
newer a b = leb b.created_at a.created_at

abbrev pub order_in : String → OrderRow → Bool
order_in venue o = o.venue_id == venue

-- `LIMIT 200`
abbrev pub list_limit : ℕ
list_limit = 200

unfoldable pub select_orders : String → Database → List Order
select_orders venue db =
    map (λ o. scan_order (listed_source db o) o)
      (take list_limit (sort_by newer (select_where (order_in venue) db.orders)))

unfoldable pub list_orders : String → String → Op (List Order)
list_orders owner_id venue_id = do
  require_owner owner_id venue_id
  venue ← uuid_arg venue_id
  query (λ e db. select_orders venue db)

-- `status IN ('completed', 'cancelled')`
abbrev pub is_finished : OrderStatus → Bool
is_finished OrderStatus.completed = Bool.true
is_finished OrderStatus.cancelled = Bool.true
is_finished OrderStatus.draft = Bool.false
is_finished OrderStatus.new = Bool.false
is_finished OrderStatus.accepted = Bool.false
is_finished OrderStatus.preparing = Bool.false
is_finished OrderStatus.ready = Bool.false
is_finished OrderStatus.served = Bool.false

-- `WHERE o.id = $2 AND o.venue_id = $1`
abbrev pub is_order : String → String → OrderRow → Bool
is_order id venue o = o.id == id && o.venue_id == venue

abbrev pub set_status : ℕ → OrderStatus → OrderRow → OrderRow
set_status now status o = record o {
  status = status;
  completed_at = if is_finished status then some now else o.completed_at;
}

-- `UPDATE orders SET status = … RETURNING …`
unfoldable pub update_order_row : ℕ → String → String → OrderStatus → Database → Statement Order
unfolding returned_source
update_order_row now id venue status db = elim (find (is_order id venue) db.orders) [
  | none ↦ no_row
  | some o ↦
      let changed = set_status now status o in
      done (scan_order (returned_source db changed) changed)
        (record db { orders = update_where (is_order id venue) (set_status now status) db.orders })
]

unfoldable pub update_status : String → String → String → String → Op Order
update_status owner_id venue_id order_id text = do
  require_owner owner_id venue_id
  status ← or_fail (order_status text) (app AppFault.invalid_input)
  on_error
      (do
        venue ← uuid_arg venue_id
        id ← uuid_arg order_id
        statement (λ n e db. update_order_row e.db_now id venue status db))
      (no_rows_as (app AppFault.not_found))
