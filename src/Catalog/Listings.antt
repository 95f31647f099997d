-- ===== src/Catalog/Listings.antt =====
-- `ListCategories` and `ListMenuItems` of internal/modules/catalog.
use pocket_mvp_backend.Prelude.{
  ℤ, pos, negsuc, Bool, true, false, ◌&&◌, none, some, String, List, [], ◌∷◌, map, find,
  select_where, count_where, sort_by, leb, if◌then◌else◌, ◌==◌,
}
use pocket_mvp_backend.Schema.{CategoryRow, MenuItemRow, Database, is_null}
use pocket_mvp_backend.Effects.{Op, query, uuid_arg, ◌>>=◌, ◌>>◌}
use pocket_mvp_backend.Access.{require_owner}
use pocket_mvp_backend.Catalog.Model.{Category, MenuItem}
use pocket_mvp_backend.Catalog.Order.{in_venue}
use pocket_mvp_backend.Catalog.Categories.{returned, is_shown_in}
use pocket_mvp_backend.Catalog.MenuItems.{returned_item, image_of}

-- `<=` on integers
abbrev pub int_leb : ℤ → ℤ → Bool
int_leb (pos a) (pos b) = leb a b
int_leb (pos a) (negsuc b) = false
int_leb (negsuc a) (pos b) = true
int_leb (negsuc a) (negsuc b) = leb b a

-- `ORDER BY a, rest`: by the first key, and where it is equal by the rest.
abbrev pub first_by : ℤ → ℤ → Bool → Bool
first_by a b rest = if int_leb b a then (if int_leb a b then rest else false) else true

-- `ORDER BY c.sort_order, c.created_at`
abbrev pub category_before : CategoryRow → CategoryRow → Bool
category_before c d = first_by c.sort_order d.sort_order (leb c.created_at d.created_at)

unfoldable pub select_categories : String → Database → List Category
select_categories venue db =
    map (λ c. returned c (count_where (is_shown_in c.id) db.menu_items))
      (sort_by category_before (select_where (in_venue venue) db.categories))

unfoldable pub list_categories : String → String → Op (List Category)
list_categories owner_id venue_id = do
  require_owner owner_id venue_id
  venue ← uuid_arg venue_id
  query (λ e db. select_categories venue db)

-- `JOIN menu_categories c ON c.id = i.category_id`, where c.id is unique
abbrev pub join_category : List CategoryRow → List MenuItemRow → List (MenuItemRow × CategoryRow)
join_category categories [] = []
join_category categories (i ∷ items) = elim (find (λ c. c.id == i.category_id) categories) [
  | none ↦ join_category categories items
  | some c ↦ (i, c) ∷ join_category categories items
]

-- `ORDER BY c.sort_order, i.sort_order, i.created_at`
abbrev pub item_before : MenuItemRow × CategoryRow → MenuItemRow × CategoryRow → Bool
item_before (i, c) (j, d) =
    first_by c.sort_order d.sort_order
      (first_by i.sort_order j.sort_order (leb i.created_at j.created_at))

-- `i.venue_id = $1 AND i.deleted_at IS NULL`
abbrev pub is_listed : String → MenuItemRow → Bool
is_listed venue i = i.venue_id == venue && is_null i.deleted_at

abbrev shown_item : Database → MenuItemRow × CategoryRow → MenuItem
shown_item db (i, c) = returned_item i c.name (image_of i.id db)

unfoldable pub select_items : String → Database → List MenuItem
select_items venue db = map (shown_item db) (
    sort_by item_before
      (join_category db.categories (select_where (is_listed venue) db.menu_items)))

unfoldable pub list_menu_items : String → String → Op (List MenuItem)
list_menu_items owner_id venue_id = do
  require_owner owner_id venue_id
  venue ← uuid_arg venue_id
  query (λ e db. select_items venue db)
