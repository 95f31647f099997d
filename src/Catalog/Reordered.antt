-- ===== src/Catalog/Reordered.antt =====
-- What a reordering does to the rows that its ids name.
use pocket_mvp_backend.Prelude.{
  ℕ, suc, ◌≡◌, ◌∙◌, ap, subst, Bool, true, ◌&&◌, Bool-cases, some, Option-cases, inl, inr, String,
  List, [], ◌∷◌, find, exists, length, arith, eq_iff, UniqueBy, ◌==◌,
}
use pocket_mvp_backend.Platform.{Env}
use pocket_mvp_backend.Schema.{CategoryRow}
use pocket_mvp_backend.Effects.{State, ok, ◌>>=◌, fail_if, uuid_arg, statement, transaction}
use pocket_mvp_backend.Effects.Rules.{Result-cases, transaction-eq-ok}
use pocket_mvp_backend.Access.{require_owner}
use pocket_mvp_backend.Access.Owner.{require_owner-ReadsOnly}
use pocket_mvp_backend.Catalog.Order.{
  valid_order, position_of, reordered, affected, in_venue, category_sort_order, reorder_rows,
  order_categories, place_categories, reorder_categories,
}
use pocket_mvp_backend.Catalog.Complete.{listed, distinct-valid_order, affected_all}

position_of-listed :
    (x : String) (ids : List String) → listed x ids ≡ true → (k : ℕ) × (position_of x ids ≡ some k)
unfolding position_of
position_of-listed x [] h = cc
position_of-listed x (y ∷ ys) h = elim (Bool-cases (y == x)) [
  | inl hit ↦ (0, ground arith)
  | inr miss ↦ let (k, at) = position_of-listed x ys (ground arith) in (suc k, ground arith)
]

find-exists :
    {A : Type 0} (p : A → Bool) (rows : List A)
    → exists p rows ≡ true
    → (r : A) × (find p rows ≡ some r)
find-exists p [] h = cc
find-exists p (x ∷ rows) h = elim (Bool-cases (p x)) [
  | inl hit ↦ (x, ground arith)
  | inr miss ↦ let (r, found) = find-exists p rows (ground arith) in (r, ground arith)
]

abbrev pub is_listed_in : String → String → CategoryRow → Bool
is_listed_in venue x c = in_venue venue c && c.id == x

find-reordered :
    (venue x : String) (ids : List String) (rows : List CategoryRow) (c : CategoryRow) (k : ℕ)
    → find (is_listed_in venue x) rows ≡ some c
    → position_of x ids ≡ some k
    → find
        (is_listed_in venue x)
        (reordered (in_venue venue) (λ c. c.id) category_sort_order ids rows)
      ≡ some (category_sort_order c k)
find-reordered venue x ids [] c k h at = cc
find-reordered venue x ids (r ∷ rows) c k h at = elim (Option-cases (position_of r.id ids)) [
  | inl absent ↦ ground (arith, eq_iff r.id x, find-reordered venue x ids rows c k)
  | inr (n, there) ↦ ground (arith, eq_iff r.id x, find-reordered venue x ids rows c k)
]

place_categories-eq-ok :
    (venue_id venue : String) (ids : List String) (e : Env) (s : State)
    → e.parse_uuid venue_id ≡ some venue
    → (place_categories venue_id ids e s).0 ≡ ok tt
    → (affected (in_venue venue) (λ c. c.id) ids s.db.categories ≡ length ids)
      × ((place_categories venue_id ids e s).1.db.categories
          ≡ reordered (in_venue venue) (λ c. c.id) category_sort_order ids s.db.categories)
unfolding place_categories ◌>>=◌ uuid_arg reorder_rows order_categories statement fail_if
place_categories-eq-ok venue_id venue ids e s parsed h = (ground arith, ground arith)

pub reorder_categories-eq-ok :
    (owner_id venue_id venue : String) (ids : List String) (e : Env) (s : State)
    → e.parse_uuid venue_id ≡ some venue
    → (reorder_categories owner_id venue_id ids e s).0 ≡ ok tt
    → (valid_order ids ≡ true)
      × (affected (in_venue venue) (λ c. c.id) ids s.db.categories ≡ length ids)
      × ((reorder_categories owner_id venue_id ids e s).1.db.categories
          ≡ reordered (in_venue venue) (λ c. c.id) category_sort_order ids s.db.categories)
unfolding reorder_categories ◌>>=◌ fail_if
reorder_categories-eq-ok owner_id venue_id venue ids e s parsed h =
    let s₁ = (require_owner owner_id venue_id e s).1 in
    let body = place_categories venue_id ids in
    let same = (require_owner-ReadsOnly owner_id venue_id).keeps e s in
    elim (Result-cases (require_owner owner_id venue_id e s).0) [
      | inr (x, refused) ↦ absurd (ground arith)
      | inl (u, owner) ↦
          let (ran, kept) = transaction-eq-ok body e s₁ tt (ground arith) in
          let (count, rows) =
            place_categories-eq-ok venue_id venue ids e (record s₁ { calls = suc s₁.calls }) parsed
              ran in
          let ended : (reorder_categories owner_id venue_id ids e s).1.db
              ≡ (transaction body e s₁).1.db =
            ground arith in
          (
            ground arith,
            subst (λ d. affected (in_venue venue) (λ c. c.id) ids d.categories ≡ length ids) same
                count,
            ap (λ d. d.categories) (ended ∙ kept)
                ∙ rows
                ∙ ap
                    (λ d.
                      reordered (in_venue venue) (λ c. c.id) category_sort_order ids d.categories)
                    same,
          )
    ]

-- A reordering of categories that succeeds was complete: ids being unique, each id of the list
-- names a category of the venue, and that category's sort order is now the id's place in the list.
pub reorder_categories-places_all :
    (owner_id venue_id venue x : String) (ids : List String) (e : Env) (s : State)
    → UniqueBy (λ c. c.id) s.db.categories
    → e.parse_uuid venue_id ≡ some venue
    → (reorder_categories owner_id venue_id ids e s).0 ≡ ok tt
    → listed x ids ≡ true
    → (c : CategoryRow) × (k : ℕ) × (position_of x ids ≡ some k)
      × (find (is_listed_in venue x) s.db.categories ≡ some c)
      × (find (is_listed_in venue x) (reorder_categories owner_id venue_id ids e s).1.db.categories
          ≡ some (category_sort_order c k))
reorder_categories-places_all owner_id venue_id venue x ids e s unique parsed h member =
    let (valid, count, rows) = reorder_categories-eq-ok owner_id venue_id venue ids e s parsed h in
    let there =
      affected_all (in_venue venue) (λ c. c.id) ids s.db.categories x unique
        (distinct-valid_order ids valid) count member in
    let (c, found) = find-exists (is_listed_in venue x) s.db.categories there in
    let (k, at) = position_of-listed x ids member in
    (
      c,
      k,
      at,
      found,
      ap (find (is_listed_in venue x)) rows
          ∙ find-reordered venue x ids s.db.categories c k found at,
    )
