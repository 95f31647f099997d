-- ===== src/Catalog/Categories.antt =====
-- internal/modules/catalog/categories.go.
use pocket_mvp_backend.Prelude.{
  ℕ, ℤ, Bool, true, ◌&&◌, ◌||◌, not, none, some, String, [], ◌∷◌, ◌++◌, find, exists, count_where,
  update_where, delete_where, ltb, nat_eq, if◌then◌else◌, ◌==◌,
}
use pocket_mvp_backend.Faults.{PgCode, app, AppFault, map_write_error, no_rows_as}
use pocket_mvp_backend.Schema.{CategoryRow, MenuItemRow, Database, is_null}
use pocket_mvp_backend.Effects.{
  Op, fail_if, statement, Statement, rejected, no_row, done, on_error, uuid_arg, int4_arg,
  storable_text, ◌>>=◌, ◌>>◌,
}
use pocket_mvp_backend.GoText.{trim_space, rune_count}
use pocket_mvp_backend.Access.{require_owner}
use pocket_mvp_backend.Catalog.Model.{Category, CategoryInput, bool_value}

-- `input.Name == "" || utf8.RuneCountInString(input.Name) > 80`
abbrev pub bad_name : String → Bool
bad_name name = name == "" || ltb 80 (rune_count name)

-- UNIQUE (venue_id, name)
abbrev pub is_named : String → String → CategoryRow → Bool
is_named venue name c = c.venue_id == venue && c.name == name

abbrev pub returned : CategoryRow → ℕ → Category
returned c count = record {
  id = c.id;
  name = c.name;
  sort_order = c.sort_order;
  is_active = c.is_active;
  item_count = count;
}

-- `INSERT INTO menu_categories … RETURNING …`
unfoldable pub insert_category :
    String → String → String → ℤ → Bool → ℕ → Database → Statement Category
insert_category id venue name sort_order is_active now db =
    let row : CategoryRow = record {
      id = id;
      venue_id = venue;
      name = name;
      sort_order = sort_order;
      is_active = is_active;
      created_at = now;
    } in
    if exists (λ c. c.id == id || is_named venue name c) db.categories
    then rejected PgCode.unique_violation
    else if not (exists (λ v. v.id == venue) db.venues)
    then rejected PgCode.foreign_key_violation
    else done (returned row 0) (record db { categories = db.categories ++ row ∷ [] })

unfoldable pub create_category : String → String → CategoryInput → Op Category
create_category owner_id venue_id input = do
  require_owner owner_id venue_id
  let name = trim_space input.name
  fail_if (bad_name name) (app AppFault.invalid_input)
  on_error
      (do
        venue ← uuid_arg venue_id
        sort_order ← int4_arg input.sort_order
        statement (λ n e db. storable_text e name (
            insert_category (e.fresh_id n) venue name sort_order (bool_value input.is_active true)
              e.db_now db)))
      map_write_error

-- `WHERE id = $2 AND venue_id = $1`
abbrev pub is_category : String → String → CategoryRow → Bool
is_category id venue c = c.id == id && c.venue_id == venue

abbrev pub is_shown_in : String → MenuItemRow → Bool
is_shown_in category i = i.category_id == category && is_null i.deleted_at

abbrev pub set_category : String → ℤ → Bool → CategoryRow → CategoryRow
set_category name sort_order is_active c = record c {
  name = name;
  sort_order = sort_order;
  is_active = is_active;
}

-- `UPDATE menu_categories SET … RETURNING …`
unfoldable pub update_category_row :
    String → String → String → ℤ → Bool → Database → Statement Category
update_category_row id venue name sort_order is_active db =
    elim (find (is_category id venue) db.categories) [
      | none ↦ no_row
      | some c ↦
          if exists (λ x. not (x.id == id) && is_named venue name x) db.categories
          then rejected PgCode.unique_violation
          else done
              (returned (set_category name sort_order is_active c)
                (count_where (is_shown_in id) db.menu_items))
              (record db {
                categories =
                    update_where (is_category id venue) (set_category name sort_order is_active)
                      db.categories;
              })
    ]

unfoldable pub update_category : String → String → String → CategoryInput → Op Category
update_category owner_id venue_id category_id input = do
  require_owner owner_id venue_id
  let name = trim_space input.name
  fail_if (bad_name name) (app AppFault.invalid_input)
  on_error
      (do
        venue ← uuid_arg venue_id
        id ← uuid_arg category_id
        sort_order ← int4_arg input.sort_order
        statement (λ n e db.
            storable_text e name
              (update_category_row id venue name sort_order (bool_value input.is_active true) db)))
      (λ x. map_write_error (no_rows_as (app AppFault.not_found) x))

-- `DELETE FROM menu_categories …` with its `RowsAffected`; menu_items.category_id refers to the
-- rows, and so do the items that are marked as deleted.
unfoldable pub delete_category_row : String → String → Database → Statement ℕ
delete_category_row id venue db =
    if exists (is_category id venue) db.categories
      && exists (λ i. i.category_id == id) db.menu_items
    then rejected PgCode.foreign_key_violation
    else done (count_where (is_category id venue) db.categories)
        (record db { categories = delete_where (is_category id venue) db.categories })

unfoldable pub delete_category : String → String → String → Op Unit
delete_category owner_id venue_id category_id = do
  require_owner owner_id venue_id
  rows_affected ←
      on_error
        (do
          venue ← uuid_arg venue_id
          id ← uuid_arg category_id
          statement (λ n e db. delete_category_row id venue db))
        map_write_error
  fail_if (nat_eq rows_affected 0) (app AppFault.not_found)
