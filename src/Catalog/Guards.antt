-- ===== src/Catalog/Guards.antt =====
-- Who may change a catalog, and what a failed change leaves.
use pocket_mvp_backend.Prelude.{String, List, ◌≡◌}
use pocket_mvp_backend.Effects.{State, err}
use pocket_mvp_backend.Platform.{Env}
use pocket_mvp_backend.Faults.{Error}
use pocket_mvp_backend.Effects.Rules.{IsAtomic, atomic, AllOrNothing, IsAtomic-AllOrNothing}
use pocket_mvp_backend.Access.{require_owner}
use pocket_mvp_backend.Access.Owner.{Refused, Refused-bind, require_owner-ReadsOnly}
use pocket_mvp_backend.Catalog.Model.{CategoryInput, MenuItemInput}
use pocket_mvp_backend.Catalog.Order.{reorder_categories, reorder_menu_items}
use pocket_mvp_backend.Catalog.Categories.{create_category, update_category, delete_category}
use pocket_mvp_backend.Catalog.MenuItems.{create_menu_item, update_menu_item, delete_menu_item}

-- Every change of a catalog first asks `RequireOwner`: what that refuses, the operation refuses
-- with the same error, and the database is as it was.
pub catalog_changes-Refused :
    (owner venue id category : String) (ids : List String) (c : CategoryInput) (i : MenuItemInput)
    (e : Env) (s : State) (x : Error)
    → (require_owner owner venue e s).0 ≡ err x
    → Refused (create_category owner venue c) e s x
      × Refused (update_category owner venue id c) e s x
      × Refused (delete_category owner venue id) e s x
      × Refused (create_menu_item owner venue i) e s x
      × Refused (update_menu_item owner venue id i) e s x
      × Refused (delete_menu_item owner venue id) e s x
      × Refused (reorder_categories owner venue ids) e s x
      × Refused (reorder_menu_items owner venue category ids) e s x
unfolding create_category update_category delete_category create_menu_item update_menu_item
    delete_menu_item reorder_categories reorder_menu_items
catalog_changes-Refused owner venue id category ids c i e s x h = (
  Refused-bind owner venue _ e s x h,
  Refused-bind owner venue _ e s x h,
  Refused-bind owner venue _ e s x h,
  Refused-bind owner venue _ e s x h,
  Refused-bind owner venue _ e s x h,
  Refused-bind owner venue _ e s x h,
  Refused-bind owner venue _ e s x h,
  Refused-bind owner venue _ e s x h,
)

module _ (owner venue : String) where
  create_menu_item-IsAtomic :
      (input : MenuItemInput) → IsAtomic (create_menu_item owner venue input)
  unfolding create_menu_item
  create_menu_item-IsAtomic input = search (atomic, require_owner-ReadsOnly) depth 12

  reorder_categories-IsAtomic : (ids : List String) → IsAtomic (reorder_categories owner venue ids)
  unfolding reorder_categories
  reorder_categories-IsAtomic ids = search (atomic, require_owner-ReadsOnly) depth 12

  reorder_menu_items-IsAtomic :
      (category : String) (ids : List String)
      → IsAtomic (reorder_menu_items owner venue category ids)
  unfolding reorder_menu_items
  reorder_menu_items-IsAtomic category ids = search (atomic, require_owner-ReadsOnly) depth 12

-- Creating a menu item with its image, and the two reorderings, are all or nothing: each of them
-- either succeeds or leaves the database as it was (an order that names a missing row included).
pub catalog_transactions-AllOrNothing :
    (owner venue category : String) (ids : List String) (i : MenuItemInput) (e : Env) (s : State)
    → AllOrNothing (create_menu_item owner venue i) e s
      × AllOrNothing (reorder_categories owner venue ids) e s
      × AllOrNothing (reorder_menu_items owner venue category ids) e s
catalog_transactions-AllOrNothing owner venue category ids i e s = (
  IsAtomic-AllOrNothing (create_menu_item-IsAtomic owner venue i) e s,
  IsAtomic-AllOrNothing (reorder_categories-IsAtomic owner venue ids) e s,
  IsAtomic-AllOrNothing (reorder_menu_items-IsAtomic owner venue category ids) e s,
)
