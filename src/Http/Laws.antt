-- ===== src/Http/Laws.antt =====
-- What the handlers rely on of the services of contracts.go: whoever is not the owner of a venue
-- gets an error from each operation on it, and changes nothing.
use pocket_mvp_backend.Prelude.{◌≡◌, String, List}
use pocket_mvp_backend.Faults.{Error}
use pocket_mvp_backend.Platform.{Env}
use pocket_mvp_backend.Effects.{State, Op, err}
use pocket_mvp_backend.Effects.Rules.{ReadsOnly}
use pocket_mvp_backend.Access.{require_owner}
use pocket_mvp_backend.Venues.Model as Venues
use pocket_mvp_backend.Catalog.Model.{CategoryInput, MenuItemInput}
use pocket_mvp_backend.Workforce.{StaffInput}
use pocket_mvp_backend.Http.Contracts.{Api}
use pocket_mvp_backend.Http.Denies.{Fails}

-- Where `RequireOwner` refuses, the operation fails and changes nothing.
pub record IsOwnerOnly {A : Type 0} (owner venue : String) (m : Op A) : Type 0 where
  pub fails :
      (e : Env) (s : State) (x : Error) → (require_owner owner venue e s).0 ≡ err x → Fails m e s

pub record IsGuarded (api : Api) : Type 0 where
  pub authenticate : (token : String) → ReadsOnly (api.identity.authenticate token)
  pub dashboard : (o v : String) → IsOwnerOnly o v (api.reporting.dashboard o v)
  pub update_venue : (o v : String) (i : Venues.Input) → IsOwnerOnly o v (api.venues.update o v i)
  pub delete_venue : (o v : String) → IsOwnerOnly o v (api.venues.delete o v)
  pub list_categories : (o v : String) → IsOwnerOnly o v (api.catalog.list_categories o v)
  pub create_category :
      (o v : String) (c : CategoryInput) → IsOwnerOnly o v (api.catalog.create_category o v c)
  pub update_category :
      (o v i : String) (c : CategoryInput) → IsOwnerOnly o v (api.catalog.update_category o v i c)
  pub delete_category : (o v i : String) → IsOwnerOnly o v (api.catalog.delete_category o v i)
  pub reorder_categories :
      (o v : String) (ids : List String) → IsOwnerOnly o v (api.catalog.reorder_categories o v ids)
  pub list_menu_items : (o v : String) → IsOwnerOnly o v (api.catalog.list_menu_items o v)
  pub create_menu_item :
      (o v : String) (i : MenuItemInput) → IsOwnerOnly o v (api.catalog.create_menu_item o v i)
  pub update_menu_item :
      (o v i : String) (m : MenuItemInput) → IsOwnerOnly o v (api.catalog.update_menu_item o v i m)
  pub delete_menu_item : (o v i : String) → IsOwnerOnly o v (api.catalog.delete_menu_item o v i)
  pub reorder_menu_items :
      (o v c : String) (ids : List String)
      → IsOwnerOnly o v (api.catalog.reorder_menu_items o v c ids)
  pub list_staff : (o v : String) → IsOwnerOnly o v (api.workforce.list o v)
  pub create_staff : (o v : String) (i : StaffInput) → IsOwnerOnly o v (api.workforce.create o v i)
  pub update_staff :
      (o v m : String) (i : StaffInput) → IsOwnerOnly o v (api.workforce.update o v m i)
  pub delete_staff : (o v m : String) → IsOwnerOnly o v (api.workforce.delete o v m)
  pub list_orders : (o v : String) → IsOwnerOnly o v (api.ordering.list o v)
  pub update_status : (o v i t : String) → IsOwnerOnly o v (api.ordering.update_status o v i t)
  pub list_reviews : (o v : String) → IsOwnerOnly o v (api.feedback.list o v)
  pub reply : (o v i t : String) → IsOwnerOnly o v (api.feedback.reply o v i t)
  pub list_payments : (o v : String) → IsOwnerOnly o v (api.billing.list_payments o v)
  pub get_plan : (o v : String) → IsOwnerOnly o v (api.floor_plan.get o v)
  pub save_plan : (o v p : String) → IsOwnerOnly o v (api.floor_plan.save o v p)
