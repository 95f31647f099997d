-- ===== src/Catalog/Order.antt =====
-- internal/modules/catalog/reorder.go
use pocket_mvp_backend.Prelude.{
  ℕ, suc, pos, Bool, true, ◌&&◌, ◌||◌, not, Option, none, some, String, List, [], ◌∷◌, exists,
  count_where, length, ltb, nat_eq, is_some, if◌then◌else◌, ◌==◌,
}
use pocket_mvp_backend.Faults.{app, AppFault}
use pocket_mvp_backend.Schema.{CategoryRow, MenuItemRow, Database, is_null}
use pocket_mvp_backend.Effects.{
  Op, fail_if, statement, done, Statement, transaction, uuid_arg, ◌>>=◌, ◌>>◌,
}
use pocket_mvp_backend.GoText.{trim_space}
use pocket_mvp_backend.Access.{require_owner}

abbrev pub max_reorder_items : ℕ
max_reorder_items = 500

-- The loop of `validOrder`; `seen` are the ids before.
unfoldable pub all_new : List String → List String → Bool
all_new seen [] = true
all_new seen (id ∷ ids) =
    let trimmed = trim_space id in
    not (trimmed == "") && not (exists (λ s. s == trimmed) seen) && all_new (trimmed ∷ seen) ids

unfoldable pub valid_order : List String → Bool
unfolding all_new
valid_order ids =
    not (nat_eq (length ids) 0 || ltb max_reorder_items (length ids)) && all_new [] ids

-- `ordered.position - 1` of an id in `unnest(ids) WITH ORDINALITY`
unfoldable pub position_of : String → List String → Option ℕ
position_of id [] = none
position_of id (x ∷ xs) =
    if x == id then some 0 else elim (position_of id xs) [ none ↦ none | some n ↦ some (suc n) ]

abbrev pub placed : {A : Type 0} → (A → ℕ → A) → A → Option ℕ → A
placed set r none = r
placed set r (some n) = set r n

-- `UPDATE … SET sort_order = ordered.position - 1 FROM unnest(ids) … WHERE fits AND id = ordered.id`
abbrev pub reordered :
    {A : Type 0} → (A → Bool) → (A → String) → (A → ℕ → A) → List String → List A → List A
reordered fits id set ids [] = []
reordered fits id set ids (r ∷ rs) =
    (if fits r then placed set r (position_of (id r) ids) else r) ∷ reordered fits id set ids rs

-- `RowsAffected` of that statement
abbrev pub affected : {A : Type 0} → (A → Bool) → (A → String) → List String → List A → ℕ
affected fits id ids rs = count_where (λ r. fits r && is_some (position_of (id r) ids)) rs

-- The body of the transaction of `reorder`.
unfoldable pub reorder_rows : (Database → Statement ℕ) → List String → Op Unit
reorder_rows update ids = do
  rows_affected ← statement (λ n e db. update db)
  fail_if (not (nat_eq rows_affected (length ids))) (app AppFault.invalid_input)

abbrev pub category_sort_order : CategoryRow → ℕ → CategoryRow
category_sort_order c n = record c { sort_order = pos n }

abbrev pub in_venue : String → CategoryRow → Bool
in_venue venue c = c.venue_id == venue

unfoldable pub order_categories : String → List String → Database → Statement ℕ
order_categories venue ids db =
    done (affected (in_venue venue) (λ c. c.id) ids db.categories) (record db {
      categories = reordered (in_venue venue) (λ c. c.id) category_sort_order ids db.categories;
    })

unfoldable pub place_categories : String → List String → Op Unit
place_categories venue_id ids = do
  venue ← uuid_arg venue_id
  reorder_rows (order_categories venue ids) ids

unfoldable pub reorder_categories : String → String → List String → Op Unit
reorder_categories owner_id venue_id ids = do
  require_owner owner_id venue_id
  fail_if (not (valid_order ids)) (app AppFault.invalid_input)
  transaction (place_categories venue_id ids)

abbrev pub item_sort_order : MenuItemRow → ℕ → MenuItemRow
item_sort_order i n = record i { sort_order = pos n }

abbrev pub in_category : String → String → MenuItemRow → Bool
in_category venue category i =
    i.venue_id == venue && i.category_id == category && is_null i.deleted_at

unfoldable pub order_menu_items : String → String → List String → Database → Statement ℕ
order_menu_items venue category ids db =
    done (affected (in_category venue category) (λ i. i.id) ids db.menu_items) (record db {
      menu_items =
          reordered (in_category venue category) (λ i. i.id) item_sort_order ids db.menu_items;
    })

unfoldable pub place_menu_items : String → String → List String → Op Unit
place_menu_items venue_id category_id ids = do
  venue ← uuid_arg venue_id
  reorder_rows (order_menu_items venue category_id ids) ids

unfoldable pub reorder_menu_items : String → String → String → List String → Op Unit
reorder_menu_items owner_id venue_id category_id ids = do
  require_owner owner_id venue_id
  fail_if (trim_space category_id == "" || not (valid_order ids)) (app AppFault.invalid_input)
  transaction (place_menu_items venue_id category_id ids)
