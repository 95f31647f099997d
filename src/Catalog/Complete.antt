-- ===== src/Catalog/Complete.antt =====
-- What an accepted order says: its ids are distinct and not blank, and the rows that a reordering
-- moved are the rows that it names, one for each id.
use pocket_mvp_backend.Prelude.{
  ◌+◌, ◌≤◌, ◌≡◌, refl, Bool, true, false, ◌&&◌, not, Bool-cases, inl, inr, String, List, [], ◌∷◌,
  exists, count_where, length, arith, eq_iff, eq_refl, is_some, ap, subst, leb, UniqueBy, ◌==◌,
}
use pocket_mvp_backend.GoText.{trim_space}
use pocket_mvp_backend.Catalog.Order.{all_new, valid_order, position_of, affected}

-- The id is one of the list.
abbrev pub listed : String → List String → Bool
listed id ids = exists (λ x. x == id) ids

-- No id stands twice in the list.
abbrev pub distinct : List String → Bool
distinct [] = true
distinct (id ∷ ids) = not (listed id ids) && distinct ids

-- The trimmed ids, which the loop of `validOrder` compares.
abbrev pub trimmed_ids : List String → List String
trimmed_ids [] = []
trimmed_ids (id ∷ ids) = trim_space id ∷ trimmed_ids ids

abbrev pub no_blank : List String → Bool
no_blank [] = true
no_blank (id ∷ ids) = not (id == "") && no_blank ids

-- None of the ids is among the seen ones.
abbrev none_seen : List String → List String → Bool
none_seen seen [] = true
none_seen seen (id ∷ ids) = not (listed id seen) && none_seen seen ids

is_listed-position_of :
    (id : String) (ids : List String) → is_some (position_of id ids) ≡ listed id ids
unfolding position_of
is_listed-position_of id [] = refl
is_listed-position_of id (x ∷ xs) = ground (arith, is_listed-position_of id xs)

none_seen-cons :
    (s : String) (seen ids : List String)
    → none_seen (s ∷ seen) ids ≡ not (listed s ids) && none_seen seen ids
none_seen-cons s seen [] = refl
none_seen-cons s seen (id ∷ ids) = elim (Bool-cases (s == id)) [
  | inl same ↦ ground (arith, eq_iff s id, eq_refl id, none_seen-cons s seen ids)
  | inr apart ↦ ground (arith, eq_iff s id, eq_iff id s, none_seen-cons s seen ids)
]

all_new-eq :
    (seen ids : List String)
    → all_new seen ids
      ≡ no_blank (trimmed_ids ids) && distinct (trimmed_ids ids) && none_seen seen (trimmed_ids ids)
unfolding all_new
all_new-eq seen [] = refl
all_new-eq seen (id ∷ ids) = ground (
  arith,
  all_new-eq (trim_space id ∷ seen) ids,
  none_seen-cons (trim_space id) seen (trimmed_ids ids),
)

none_seen-nil : (ids : List String) → none_seen [] ids ≡ true
none_seen-nil [] = refl
none_seen-nil (id ∷ ids) = ground (arith, none_seen-nil ids)

-- `validOrder` accepts exactly the lists of 1 to 500 ids of which, spaces trimmed, none is empty
-- and no two are equal.
pub valid_order_lem :
    (ids : List String)
    → valid_order ids
      ≡ leb 1 (length ids)
        && leb (length ids) 500
        && no_blank (trimmed_ids ids)
        && distinct (trimmed_ids ids)
unfolding valid_order
valid_order_lem ids = ground (arith, all_new-eq [] ids, none_seen-nil (trimmed_ids ids))

listed-trimmed_ids :
    (id : String) (ids : List String)
    → listed id ids ≡ true
    → listed (trim_space id) (trimmed_ids ids) ≡ true
listed-trimmed_ids id [] h = cc
listed-trimmed_ids id (x ∷ xs) h = elim (Bool-cases (x == id)) [
  | inl same ↦
      let trims_alike = ap trim_space ((eq_iff x id).0 same) in
      ground (arith, eq_refl (trim_space id))
  | inr apart ↦ ground (arith, listed-trimmed_ids id xs)
]

distinct-trimmed_ids : (ids : List String) → distinct (trimmed_ids ids) ≡ true → distinct ids ≡ true
distinct-trimmed_ids [] h = refl
distinct-trimmed_ids (id ∷ ids) h = elim (Bool-cases (listed id ids)) [
  | inl twice ↦ absurd (ground (arith, listed-trimmed_ids id ids twice))
  | inr once ↦ ground (arith, distinct-trimmed_ids ids)
]

pub distinct-valid_order : (ids : List String) → valid_order ids ≡ true → distinct ids ≡ true
distinct-valid_order ids h = distinct-trimmed_ids ids (ground (arith, valid_order_lem ids))

-- The rows that one id names.
module _ {A : Type 0} (fits : A → Bool) (id : A → String) where
  abbrev pub names : String → A → Bool
  names x r = fits r && id r == x

  count_none :
      (x : String) (rows : List A)
      → exists (λ r. id r == x) rows ≡ false
      → count_where (names x) rows ≡ 0
  count_none x [] h = refl
  count_none x (r ∷ rows) h = ground (arith, count_none x rows)

  count_at_most_one :
      (x : String) (rows : List A) → UniqueBy id rows → count_where (names x) rows ≤ 1
  count_at_most_one x [] u = omega arith
  count_at_most_one x (r ∷ rows) (new, u) = elim (Bool-cases (id r == x)) [
    | inl hit ↦
        let none_left =
          subst (λ y. exists (λ z. id z == y) rows ≡ false) ((eq_iff (id r) x).0 hit) new in
        ground (arith, count_none x rows none_left)
    | inr miss ↦ ground (arith, count_at_most_one x rows u)
  ]

  count_absent :
      (x : String) (rows : List A) → exists (names x) rows ≡ false → count_where (names x) rows ≡ 0
  count_absent x [] h = refl
  count_absent x (r ∷ rows) h = ground (arith, count_absent x rows)

  affected-cons :
      (x : String) (xs : List String) (rows : List A)
      → listed x xs ≡ false
      → affected fits id (x ∷ xs) rows ≡ count_where (names x) rows + affected fits id xs rows
  unfolding position_of
  affected-cons x xs [] h = refl
  affected-cons x xs (r ∷ rows) h = elim (Bool-cases (x == id r)) [
    | inl hit ↦
        let same = (eq_iff x (id r)).0 hit in
        let unlisted = subst (λ y. listed y xs ≡ false) same h in
        ground (
          arith,
          affected-cons x xs rows h,
          is_listed-position_of (id r) xs,
          eq_refl (id r),
          eq_iff (id r) x,
        )
    | inr miss ↦ ground (
      arith,
      affected-cons x xs rows h,
      is_listed-position_of (id r) xs,
      eq_iff (id r) x,
      eq_refl x,
    )
  ]

  affected-nil : (rows : List A) → affected fits id [] rows ≡ 0
  unfolding position_of
  affected-nil [] = refl
  affected-nil (r ∷ rows) = ground (arith, affected-nil rows)

  affected-le :
      (xs : List String) (rows : List A)
      → UniqueBy id rows
      → distinct xs ≡ true
      → affected fits id xs rows ≤ length xs
  affected-le [] rows u h = ground (arith, affected-nil rows)
  affected-le (x ∷ xs) rows u h =
      ground (arith, affected-cons x xs rows, count_at_most_one x rows u, affected-le xs rows u)

  -- As many rows as ids: each id names one.
  pub affected_all :
      (xs : List String) (rows : List A) (x : String)
      → UniqueBy id rows
      → distinct xs ≡ true
      → affected fits id xs rows ≡ length xs
      → listed x xs ≡ true
      → exists (names x) rows ≡ true
  affected_all [] rows x u h k l = cc
  affected_all (y ∷ ys) rows x u h k l =
      let bound = affected-le ys rows u (ground arith) in
      let one = count_at_most_one y rows u in
      let total = affected-cons y ys rows (ground arith) in
      elim (Bool-cases (y == x)) [
        | inl hit ↦ elim (Bool-cases (exists (names y) rows)) [
          | inl there ↦ subst (λ z. exists (names z) rows ≡ true) ((eq_iff y x).0 hit) there
          | inr missing ↦ absurd (ground (arith, count_absent y rows missing))
        ]
        | inr miss ↦ affected_all ys rows x u (ground arith) (omega arith) (ground arith)
      ]
