-- ===== src/Access/Owner.antt =====
-- The ownership policy as the services rely on it.
use pocket_mvp_backend.Prelude.{
  ℕ, ◌≡◌, refl, ◌⊎◌, suc, true, false, ◌&&◌, Option, none, some, Option-cases, Bool-cases, inl, inr,
  String, List, ◌∷◌, ◌++◌, All, exists-split, exists-All, arith, ◌==◌, eq_iff,
}
use pocket_mvp_backend.Faults.{Error, app, other, AppFault}
use pocket_mvp_backend.Platform.{Env}
use pocket_mvp_backend.Schema.{VenueRow, is_null}
use pocket_mvp_backend.Effects.{State, ok, err, Op, ◌>>=◌, fail_if, query, external, pure, uuid_arg}
use pocket_mvp_backend.Effects.Rules.{ReadsOnly, reads_only}
use pocket_mvp_backend.Access.{owns, is_owned_by, list_capabilities, require_owner}

pub require_owner-ReadsOnly :
    (user_id venue_id : String) → ReadsOnly (require_owner user_id venue_id)
unfolding require_owner
require_owner-ReadsOnly user_id venue_id = search reads_only depth 12

pub list_capabilities-ReadsOnly : (user_id : String) → ReadsOnly (list_capabilities user_id)
unfolding list_capabilities
list_capabilities-ReadsOnly user_id = search reads_only depth 12

-- The capability reader has no errors that a handler tells apart.
pub list_capabilities-eq-err :
    (user_id : String) (e : Env) (s : State) (x : Error)
    → (list_capabilities user_id e s).0 ≡ err x
    → x ≡ other
unfolding list_capabilities ◌>>=◌ uuid_arg query external pure
list_capabilities-eq-err user_id e s x h = elim (Option-cases (e.parse_uuid user_id)) [
  | inl bad ↦ ground arith
  | inr (u, parsed) ↦ elim (Bool-cases (e.fault s.calls)) [
    | inl broken ↦ ground arith
    | inr works ↦ elim (Bool-cases (e.fault (suc s.calls))) [
      | inl broken ↦ ground arith
      | inr still ↦ absurd (ground arith)
    ]
  ]
]

-- A row of the venue, owned by the user and not deleted.
abbrev pub IsOwnedVenue : String → String → VenueRow → Type 0
IsOwnedVenue u v row = (row.id ≡ v) × (row.owner_user_id ≡ u) × (row.deleted_at ≡ none)

is_null-none : (t : Option ℕ) → is_null t ≡ true → t ≡ none
is_null-none none h = refl
is_null-none (some n) h = cc

owns_row :
    (u v : String) (row : VenueRow)
    → (row.id == v && is_owned_by u row) ≡ true
    → IsOwnedVenue u v row
owns_row u v row h = (
  (eq_iff row.id v).0 (ground arith),
  (eq_iff row.owner_user_id u).0 (ground arith),
  is_null-none row.deleted_at (ground arith),
)

owns_not_row :
    (u v : String) (row : VenueRow)
    → (row.id == v && is_owned_by u row) ≡ false
    → ¬ IsOwnedVenue u v row
owns_not_row u v row h (here, owned, kept) =
    let at_v = (eq_iff row.id v).1 here in
    let by_u = (eq_iff row.owner_user_id u).1 owned in ground arith

-- With well-formed ids and a database that answers, `RequireOwner` changes nothing, and it accepts
-- if the table has a row of this venue that this user owns and that is not deleted; if no row is
-- such a row, it answers ErrNotFound.
pub require_owner_decides :
    (user_id venue_id u v : String) (e : Env) (s : State)
    → e.parse_uuid user_id ≡ some u
    → e.parse_uuid venue_id ≡ some v
    → e.fault s.calls ≡ false
    → ((require_owner user_id venue_id e s).1.db ≡ s.db)
      × ((((require_owner user_id venue_id e s).0 ≡ ok tt)
            × (before after : List VenueRow) × (row : VenueRow) × (s.db.venues
                ≡ before ++ row ∷ after)
            × IsOwnedVenue u v row)
          ⊎ (((require_owner user_id venue_id e s).0 ≡ err (app AppFault.not_found))
              × All (λ row. ¬ IsOwnedVenue u v row) s.db.venues))
unfolding require_owner ◌>>=◌ uuid_arg query external fail_if
require_owner_decides user_id venue_id u v e s hu hv works = elim (Bool-cases (owns u v s.db)) [
  | inl owner ↦
      let (before, after, row, split, hit) =
        exists-split (λ (r : VenueRow). r.id == v && is_owned_by u r) s.db.venues owner in
      (ground arith, inl (ground arith, before, after, row, split, owns_row u v row hit))
  | inr stranger ↦ (
    ground arith,
    inr (
      ground arith,
      exists-All (λ (r : VenueRow). r.id == v && is_owned_by u r) (λ r. ¬ IsOwnedVenue u v r)
          (owns_not_row u v) s.db.venues stranger,
    ),
  )
]

-- The operation fails with this error and changes nothing.
abbrev pub Refused : {A : Type 0} → Op A → Env → State → Error → Type 0
Refused m e s x = ((m e s).0 ≡ err x) × ((m e s).1.db ≡ s.db)

pub Refused-bind :
    {A : Type 0} (user_id venue_id : String) (rest : Unit {0} → Op A) (e : Env) (s : State)
    (x : Error)
    → (require_owner user_id venue_id e s).0 ≡ err x
    → Refused (require_owner user_id venue_id >>= rest) e s x
unfolding ◌>>=◌
Refused-bind user_id venue_id rest e s x h =
    let same = (require_owner-ReadsOnly user_id venue_id).keeps e s in (ground arith, ground arith)
