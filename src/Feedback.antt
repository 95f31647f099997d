-- ===== src/Feedback.antt =====
-- internal/modules/feedback: the reviews of a venue and the owner's replies.
pub mod Replies
use Prim.Native.String.{◌++◌ as ◌⧺◌}
use pocket_mvp_backend.Prelude.{
  ℕ, Bool, true, false, ◌&&◌, ◌||◌, Option, none, some, String, List, map, find, select_where,
  update_where, sort_by, leb, ltb, if◌then◌else◌, ◌==◌,
}
use pocket_mvp_backend.Faults.{app, AppFault, no_rows_as}
use pocket_mvp_backend.Schema.{OrderRow, TableRow, ReviewRow, ReviewStatus, Database}
use pocket_mvp_backend.Effects.{
  Op, fail_if, query, statement, Statement, no_row, done, on_error, uuid_arg, storable_text, ◌>>=◌,
  ◌>>◌,
}
use pocket_mvp_backend.GoText.{trim_space, rune_count, decimal}
use pocket_mvp_backend.Catalog.MenuItems.{or_empty}
use pocket_mvp_backend.Ordering.{table_of}
use pocket_mvp_backend.Access.{require_owner}

pub record Review : Type 0 where
  pub id : String
  pub guest_name : String
  pub rating : ℕ
  pub table : String
  pub order : String
  pub body : String
  pub owner_reply : String
  pub replied_at : Option ℕ
  pub created_at : ℕ

-- `LEFT JOIN orders o ON o.id = r.order_id`, and the scalar subqueries of the update
abbrev order_of : Option String → List OrderRow → Option OrderRow
order_of none orders = none
order_of (some id) orders = find (λ o. o.id == id) orders

abbrev name_or_guest : Option String → String
name_or_guest none = "Гость"
name_or_guest (some name) = if name == "" then "Гость" else name

abbrev guest_name : Option OrderRow → String
guest_name none = "Гость"
guest_name (some o) = name_or_guest o.guest_name

abbrev order_label : Option OrderRow → String
order_label none = ""
order_label (some o) = "#" ⧺ decimal o.order_number

abbrev table_label : Option TableRow → String
table_label none = ""
table_label (some t) = t.identifier

-- The columns of `List`, which are those of the RETURNING clause of `Reply`.
unfoldable pub scan_review : Database → ReviewRow → Review
scan_review db r = record {
  id = r.id;
  guest_name = guest_name (order_of r.order_id db.orders);
  rating = r.rating;
  table = table_label (table_of r.venue_table_id db.tables);
  order = order_label (order_of r.order_id db.orders);
  body = or_empty r.body;
  owner_reply = or_empty r.owner_reply;
  replied_at = r.replied_at;
  created_at = r.created_at;
}

abbrev pub is_published : ReviewStatus → Bool
is_published ReviewStatus.published = true
is_published ReviewStatus.pending = false
is_published ReviewStatus.hidden = false

abbrev pub is_shown_review : String → ReviewRow → Bool
is_shown_review venue r = r.venue_id == venue && is_published r.status

-- `ORDER BY r.created_at DESC`
abbrev pub newer_review : ReviewRow → ReviewRow → Bool
newer_review a b = leb b.created_at a.created_at

unfoldable pub select_reviews : String → Database → List Review
select_reviews venue db =
    map (scan_review db) (sort_by newer_review (select_where (is_shown_review venue) db.reviews))

unfoldable pub list_reviews : String → String → Op (List Review)
list_reviews owner_id venue_id = do
  require_owner owner_id venue_id
  venue ← uuid_arg venue_id
  query (λ e db. select_reviews venue db)

-- `reply == "" || utf8.RuneCountInString(reply) > 2000`
unfoldable pub unfit_reply : String → Bool
unfit_reply reply = reply == "" || ltb 2000 (rune_count reply)

-- `WHERE r.id = $3 AND r.venue_id = $2`
abbrev pub is_review : String → String → ReviewRow → Bool
is_review id venue r = r.id == id && r.venue_id == venue

abbrev pub set_reply : ℕ → String → String → ReviewRow → ReviewRow
set_reply now owner reply r = record r {
  owner_reply = some reply;
  replied_by_user_id = some owner;
  replied_at = some now;
}

-- `UPDATE reviews SET owner_reply = … RETURNING …`; the owner is a user, by `RequireOwner`.
unfoldable pub update_review_row :
    ℕ → String → String → String → String → Database → Statement Review
update_review_row now owner id venue reply db = elim (find (is_review id venue) db.reviews) [
  | none ↦ no_row
  | some r ↦ done (scan_review db (set_reply now owner reply r)) (record db {
    reviews = update_where (is_review id venue) (set_reply now owner reply) db.reviews;
  })
]

unfoldable pub reply_to_review : String → String → String → String → Op Review
reply_to_review owner_id venue_id review_id text = do
  require_owner owner_id venue_id
  let reply = trim_space text
  fail_if (unfit_reply reply) (app AppFault.invalid_input)
  on_error
      (do
        owner ← uuid_arg owner_id
        venue ← uuid_arg venue_id
        id ← uuid_arg review_id
        statement
            (λ n e db. storable_text e reply (update_review_row e.db_now owner id venue reply db)))
      (no_rows_as (app AppFault.not_found))
