-- ===== src/Catalog/Deletion.antt =====
-- Deleting a category, on every branch: items that are marked as deleted still refer to it.
use pocket_mvp_backend.Prelude.{
  ℕ, suc, ◌≡◌, ◌≤◌, refl, Bool, true, false, not, Bool-cases, some, inl, inr, String, List, [], ◌∷◌,
  exists, count_where, delete_where, arith, if◌then◌else◌, ◌==◌,
}
use pocket_mvp_backend.Faults.{app, AppFault, map_write_error}
use pocket_mvp_backend.Platform.{Env}
use pocket_mvp_backend.Schema.{Database}
use pocket_mvp_backend.Effects.{
  Result, State, ok, err, ◌>>=◌, fail_if, uuid_arg, statement, external, on_error, query,
}
use pocket_mvp_backend.Access.{owns, require_owner}
use pocket_mvp_backend.Catalog.Categories.{is_category, delete_category_row, delete_category}

-- What is asked of the deletion: the database without the category, or the refusal.
abbrev pub deletion_result : String → String → Database → Result (Unit {0}) × Database
deletion_result id venue db =
    if not (exists (is_category id venue) db.categories)
    then (err (app AppFault.not_found), db)
    else if exists (λ i. i.category_id == id) db.menu_items
    then (err (app AppFault.invalid_input), db)
    else (ok tt, record db { categories = delete_where (is_category id venue) db.categories })

module _ {A : Type 0} (p : A → Bool) where
  count-none : (rows : List A) → exists p rows ≡ false → count_where p rows ≡ 0
  count-none [] h = refl
  count-none (r ∷ rows) h = ground (arith, count-none rows)

  count-some : (rows : List A) → exists p rows ≡ true → 1 ≤ count_where p rows
  count-some [] h = cc
  count-some (r ∷ rows) h = ground (arith, count-some rows)

  delete-none : (rows : List A) → exists p rows ≡ false → delete_where p rows ≡ rows
  delete-none [] h = refl
  delete-none (r ∷ rows) h = ground (arith, delete-none rows)

-- The owner's deletion of a category, with well-formed ids and a database that answers: ErrNotFound
-- if the venue has no such category; ErrInvalidInput if any item row refers to it, the items
-- marked as deleted included; and else the category is gone. A refusal changes nothing.
pub delete_category_lem :
    (owner_id venue_id category_id owner venue id : String) (e : Env) (s : State)
    → e.parse_uuid owner_id ≡ some owner
    → e.parse_uuid venue_id ≡ some venue
    → e.parse_uuid category_id ≡ some id
    → owns owner venue s.db ≡ true
    → ((n : ℕ) → e.fault n ≡ false)
    → ((delete_category owner_id venue_id category_id e s).0 ≡ (deletion_result id venue s.db).0)
      × ((delete_category owner_id venue_id category_id e s).1.db
          ≡ (deletion_result id venue s.db).1)
unfolding delete_category require_owner ◌>>=◌ uuid_arg query external fail_if on_error statement
    delete_category_row map_write_error
delete_category_lem owner_id venue_id category_id owner venue id e s ho hv hc owned works =
    let w₀ = works s.calls in
    let w₁ = works (suc s.calls) in
    let rows = s.db.categories in
    elim (Bool-cases (exists (is_category id venue) rows)) [
      | inr missing ↦
          let none_there = count-none (is_category id venue) rows missing in
          let kept = delete-none (is_category id venue) rows missing in (ground arith, ground arith)
      | inl there ↦
          let some_there = count-some (is_category id venue) rows there in
          elim (Bool-cases (exists (λ i. i.category_id == id) s.db.menu_items)) [
            | inl used ↦ (ground arith, ground arith)
            | inr free ↦ (ground arith, ground arith)
          ]
    ]
