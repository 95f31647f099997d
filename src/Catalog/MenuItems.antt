-- ===== src/Catalog/MenuItems.antt =====
-- internal/modules/catalog/menu_items.go.
use pocket_mvp_backend.Prelude.{
  ℕ, Bool, true, false, ◌&&◌, not, Option, none, some, String, [], ◌∷◌, ◌++◌, find, exists,
  count_where, update_where, nat_eq, if◌then◌else◌, ◌==◌, Char, code, leb,
}
use Prim.Native.String.{◌++◌ as ◌⧺◌}
use pocket_mvp_backend.Faults.{PgCode, app, AppFault, map_write_error, no_rows_as}
use pocket_mvp_backend.Platform.{Env}
use pocket_mvp_backend.Schema.{MenuItemRow, Database, is_null}
use pocket_mvp_backend.Effects.{
  Op, pure, fail_if, ask, statement, Statement, rejected, no_row, done, on_error, uuid_arg,
  int4_arg, storable_text, transaction, ◌>>=◌, ◌>>◌,
}
use pocket_mvp_backend.Access.{require_owner}
use pocket_mvp_backend.Catalog.Model.{
  MenuItem, MenuItemInput, bool_value, normalize_menu_item, valid_menu_item,
}
use pocket_mvp_backend.Catalog.Categories.{is_category}

-- `CHECK (currency ~ '^[A-Z]{3}$')`
abbrev is_capital : Char → Bool
is_capital c = leb b'A' (code c) && leb (code c) b'Z'

abbrev pub is_currency : String → Bool
is_currency (String.◌∷◌ a (String.◌∷◌ b (String.◌∷◌ c String.[]))) =
    is_capital a && is_capital b && is_capital c
is_currency _ = false

-- `NULLIF(text, '')` and `COALESCE(text, '')`
abbrev pub null_if_empty : String → Option String
null_if_empty text = if text == "" then none else some text

abbrev pub or_empty : Option String → String
or_empty none = ""
or_empty (some text) = text

-- The columns that the insertion and the update set.
abbrev pub set_item : MenuItemInput → MenuItemRow → MenuItemRow
set_item input i = record i {
  name = input.name;
  description = null_if_empty input.description;
  price_minor = input.price_minor;
  currency = input.currency;
  is_available = bool_value input.is_available true;
  is_popular = input.is_popular;
  sort_order = input.sort_order;
}

abbrev pub new_item : String → String → String → ℕ → MenuItemInput → MenuItemRow
new_item id venue category now input = record {
  id = id;
  venue_id = venue;
  category_id = category;
  name = input.name;
  description = null_if_empty input.description;
  price_minor = input.price_minor;
  currency = input.currency;
  is_available = bool_value input.is_available true;
  is_popular = input.is_popular;
  sort_order = input.sort_order;
  created_at = now;
  deleted_at = none;
}

-- The RETURNING columns, scanned by `scanMenuItem`.
abbrev pub returned_item : MenuItemRow → String → String → MenuItem
returned_item i category image_url = record {
  id = i.id;
  category_id = i.category_id;
  category = category;
  name = i.name;
  description = or_empty i.description;
  price_minor = i.price_minor;
  currency = i.currency;
  is_available = i.is_available;
  is_popular = i.is_popular;
  sort_order = i.sort_order;
  image_url = image_url;
}

-- `INSERT INTO menu_items … SELECT … FROM menu_categories … RETURNING …`
unfoldable pub insert_item :
    String → String → String → ℕ → MenuItemInput → Database → Statement MenuItem
insert_item id venue category now input db =
    elim (find (is_category category venue) db.categories) [
      | none ↦ no_row
      | some c ↦
          if not (is_currency input.currency)
          then rejected PgCode.check_violation
          else if exists (λ i. i.id == id) db.menu_items
          then rejected PgCode.unique_violation
          else done (returned_item (new_item id venue category now input) c.name "") (record db {
            menu_items = db.menu_items ++ new_item id venue category now input ∷ [];
          })
    ]

-- `INSERT INTO menu_item_images …`, with the unique storage key
unfoldable pub insert_image : String → String → Database → Statement Unit
insert_image id url db =
    if exists (λ g. g.storage_key == ("external/" ⧺ id)) db.images
    then rejected PgCode.unique_violation
    else done tt (record db {
      images =
          db.images
          ++ record { menu_item_id = id; storage_key = "external/" ⧺ id; public_url = url } ∷ [];
    })

-- `if input.ImageURL != ""`
unfoldable pub add_image : String → MenuItem → Op MenuItem
add_image url item = if url == "" then pure item else do
  statement (λ n e db. storable_text e url (insert_image item.id url db))
  pure (record item { image_url = url })

-- The arguments of the statements as PostgreSQL takes them.
abbrev pub storable_item : {A : Type 0} → Env → MenuItemInput → Statement A → Statement A
storable_item e input s =
    storable_text e input.name
      (storable_text e input.description (storable_text e input.currency s))

-- The transaction of `CreateMenuItem`.
unfoldable pub item_creation : String → MenuItemInput → Op MenuItem
item_creation venue_id input = do
  item ←
      on_error
        (do
          venue ← uuid_arg venue_id
          category ← uuid_arg input.category_id
          _ ← int4_arg input.price_minor
          _ ← int4_arg input.sort_order
          statement (λ n e db.
              storable_item e input (insert_item (e.fresh_id n) venue category e.db_now input db)))
        (λ x. map_write_error (no_rows_as (app AppFault.invalid_input) x))
  add_image input.image_url item

unfoldable pub create_menu_item : String → String → MenuItemInput → Op MenuItem
create_menu_item owner_id venue_id raw = do
  require_owner owner_id venue_id
  e ← ask
  let input = normalize_menu_item e.platform raw
  fail_if (not (valid_menu_item input)) (app AppFault.invalid_input)
  transaction (item_creation venue_id input)

-- `i.id = $2 AND i.venue_id = $1 AND i.deleted_at IS NULL`
abbrev pub is_item : String → String → MenuItemRow → Bool
is_item id venue i = i.id == id && i.venue_id == venue && is_null i.deleted_at

-- The public URL of the item's first image, or "".
abbrev pub image_of : String → Database → String
image_of id db = elim (find (λ g. g.menu_item_id == id) db.images) [
  | none ↦ ""
  | some g ↦ g.public_url
]

abbrev pub moved_item : String → MenuItemInput → MenuItemRow → MenuItemRow
moved_item category input i = record (set_item input i) { category_id = category }

-- `UPDATE menu_items … FROM menu_categories … RETURNING …`
unfoldable pub update_item_row :
    String → String → String → MenuItemInput → Database → Statement MenuItem
update_item_row id venue category input db = elim (find (is_item id venue) db.menu_items) [
  | none ↦ no_row
  | some i ↦ elim (find (is_category category venue) db.categories) [
    | none ↦ no_row
    | some c ↦
        if not (is_currency input.currency)
        then rejected PgCode.check_violation
        else done (returned_item (moved_item category input i) c.name (image_of id db)) (record db {
          menu_items = update_where (is_item id venue) (moved_item category input) db.menu_items;
        })
  ]
]

unfoldable pub update_menu_item : String → String → String → MenuItemInput → Op MenuItem
update_menu_item owner_id venue_id item_id raw = do
  require_owner owner_id venue_id
  e ← ask
  let input = normalize_menu_item e.platform raw
  fail_if (not (valid_menu_item input)) (app AppFault.invalid_input)
  on_error
      (do
        venue ← uuid_arg venue_id
        id ← uuid_arg item_id
        category ← uuid_arg input.category_id
        _ ← int4_arg input.price_minor
        _ ← int4_arg input.sort_order
        statement (λ n e db. storable_item e input (update_item_row id venue category input db)))
      (λ x. map_write_error (no_rows_as (app AppFault.not_found) x))

abbrev pub mark_deleted : ℕ → MenuItemRow → MenuItemRow
mark_deleted now i = record i { deleted_at = some now; is_available = false }

-- `UPDATE menu_items SET deleted_at = now() …` with its `RowsAffected`
unfoldable pub delete_item_row : ℕ → String → String → Database → Statement ℕ
delete_item_row now id venue db =
    done (count_where (is_item id venue) db.menu_items)
      (record db { menu_items = update_where (is_item id venue) (mark_deleted now) db.menu_items })

unfoldable pub delete_menu_item : String → String → String → Op Unit
delete_menu_item owner_id venue_id item_id = do
  require_owner owner_id venue_id
  venue ← uuid_arg venue_id
  id ← uuid_arg item_id
  rows_affected ← statement (λ n e db. delete_item_row e.db_now id venue db)
  fail_if (nat_eq rows_affected 0) (app AppFault.not_found)
