-- ===== src/Http/Menus.antt =====
-- internal/httpapi/owner_catalog.go: the handlers of a venue's menu.
use pocket_mvp_backend.Prelude.{if◌then◌else◌, ◌==◌}
use pocket_mvp_backend.Http.Message.{Handler, Payload, ◌>>=◌}
use pocket_mvp_backend.Http.Contracts.{Api}
use pocket_mvp_backend.Http.Support.{decode_owner_json, current_user, path_value}
use pocket_mvp_backend.Http.Owner.{method_not_allowed, reply, created, no_content}

unfoldable pub owner_categories : Api → Handler
owner_categories api r = do
  user ← current_user api r
  let venue_id = path_value "venueID" r
  if r.method == "GET"
      then reply (api.catalog.list_categories user.id venue_id) Payload.categories
      else if r.method == "POST"
      then (do
        input ← decode_owner_json api.codec.category_input r
        created (api.catalog.create_category user.id venue_id input) Payload.category)
      else method_not_allowed

unfoldable pub owner_category : Api → Handler
owner_category api r = do
  user ← current_user api r
  let venue_id = path_value "venueID" r
  let category_id = path_value "resourceID" r
  if r.method == "PATCH"
      then (do
        input ← decode_owner_json api.codec.category_input r
        reply (api.catalog.update_category user.id venue_id category_id input) Payload.category)
      else if r.method == "DELETE"
      then no_content (api.catalog.delete_category user.id venue_id category_id)
      else method_not_allowed

unfoldable pub owner_category_order : Api → Handler
owner_category_order api r = do
  user ← current_user api r
  ids ← decode_owner_json api.codec.reorder_input r
  no_content (api.catalog.reorder_categories user.id (path_value "venueID" r) ids)

unfoldable pub owner_menu_items : Api → Handler
owner_menu_items api r = do
  user ← current_user api r
  let venue_id = path_value "venueID" r
  if r.method == "GET"
      then reply (api.catalog.list_menu_items user.id venue_id) Payload.items
      else if r.method == "POST"
      then (do
        input ← decode_owner_json api.codec.menu_item_input r
        created (api.catalog.create_menu_item user.id venue_id input) Payload.item)
      else method_not_allowed

unfoldable pub owner_menu_item : Api → Handler
owner_menu_item api r = do
  user ← current_user api r
  let venue_id = path_value "venueID" r
  let item_id = path_value "resourceID" r
  if r.method == "PATCH"
      then (do
        input ← decode_owner_json api.codec.menu_item_input r
        reply (api.catalog.update_menu_item user.id venue_id item_id input) Payload.item)
      else if r.method == "DELETE"
      then no_content (api.catalog.delete_menu_item user.id venue_id item_id)
      else method_not_allowed

unfoldable pub owner_menu_item_order : Api → Handler
owner_menu_item_order api r = do
  user ← current_user api r
  input ← decode_owner_json api.codec.reorder_items_input r
  no_content
      (api.catalog.reorder_menu_items user.id (path_value "venueID" r) input.category_id input.ids)
