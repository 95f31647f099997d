-- ===== src/FloorPlan/Kept.antt =====
-- `Get` of internal/modules/floorplan/service.go after `Save`, over the jsonb operators.
use pocket_mvp_backend.Prelude.{
  ◌≡◌, refl, sym, subst, ◌∙◌, false, Bool-cases, Option-cases, none, some, inl, inr, String, List,
  [], ◌∷◌, find, find-fits, exists, count_where, update_where, find-update_where,
  find-none_of_absent, UniqueBy, arith, if◌then◌else◌, ◌==◌, eq_iff,
}
use pocket_mvp_backend.Platform.{Env}
use pocket_mvp_backend.Platform.Laws.{IsPlanLawful}
use pocket_mvp_backend.Schema.{VenueRow, Database}
use pocket_mvp_backend.Effects.{
  State, ok, ◌>>=◌, pure, ask, fail_if, uuid_arg, statement, external, on_error, query_row,
}
use pocket_mvp_backend.Effects.Rules.{Result-cases}
use pocket_mvp_backend.Access.{require_owner, is_owned_by}
use pocket_mvp_backend.Access.Owner.{require_owner-ReadsOnly}
use pocket_mvp_backend.Venues.Changes.{is_venue}
use pocket_mvp_backend.FloorPlan.{select_plan, get_plan, set_plan, save_plan_row, save_plan}

-- Ids being unique, the venue that is found by id and owner is the one that is found by its id.
first_of_id :
    (id owner : String) (rows : List VenueRow) (v : VenueRow)
    → UniqueBy (λ x. x.id) rows
    → find (is_venue id owner) rows ≡ some v
    → find (λ x. x.id == id) rows ≡ some v
first_of_id id owner [] v u h = cc
first_of_id id owner (x ∷ rows) v (new, u) h = elim (Bool-cases (x.id == id)) [
  | inr other ↦ let rest = first_of_id id owner rows v u in ground arith
  | inl same ↦ elim (Bool-cases (is_owned_by owner x)) [
    | inl owned ↦ ground arith
    | inr foreign ↦
        let alone =
          subst (λ k. exists (λ y. y.id == k) rows ≡ false) ((eq_iff x.id id).0 same) new in
        let gone = find-none_of_absent (λ y. y.id) id (is_owned_by owner) rows alone in
        absurd (ground arith)
  ]
]

count_where-none :
    (id owner : String) (rows : List VenueRow)
    → find (is_venue id owner) rows ≡ none
    → count_where (is_venue id owner) rows ≡ 0
count_where-none id owner [] h = refl
count_where-none id owner (x ∷ rows) h = ground (arith, count_where-none id owner rows)

id-set_plan :
    (e : Env) (id owner plan k : String) (r : VenueRow)
    → ((if is_venue id owner r then set_plan e plan r else r).id == k) ≡ (r.id == k)
id-set_plan e id owner plan k r = elim (Option-cases (e.set_floor_plan r.settings plan)) [
  | inl failed ↦ ground arith
  | inr (settings, set) ↦ ground arith
]

-- The saved plan is what the row says afterwards.
select-save :
    (e : Env) (jsonb : String → String) (owner id plan : String) (d : Database) (v : VenueRow)
    (settings : String)
    → IsPlanLawful e jsonb
    → UniqueBy (λ x. x.id) d.venues
    → find (is_venue id owner) d.venues ≡ some v
    → e.set_floor_plan v.settings plan ≡ some settings
    → select_plan e id
        (record d { venues = update_where (is_venue id owner) (set_plan e plan) d.venues })
      ≡ some (jsonb plan)
unfolding select_plan
select-save e jsonb owner id plan d v settings law u found set =
    let first = first_of_id id owner d.venues v u found in
    let next =
      find-update_where (is_venue id owner) (λ x. x.id == id) (set_plan e plan)
        (id-set_plan e id owner plan id) d.venues v first in
    let fits = find-fits (is_venue id owner) d.venues v found in
    let read = law.get-set v.settings plan settings set in ground arith

save_plan-eq-ok :
    (owner venue plan answer u v : String) (e : Env) (s : State)
    → e.parse_uuid owner ≡ some u
    → e.parse_uuid venue ≡ some v
    → (save_plan owner venue plan e s).0 ≡ ok answer
    → (answer ≡ plan)
      × (row : VenueRow) × (settings : String) × (find (is_venue v u) s.db.venues ≡ some row)
      × (e.set_floor_plan row.settings plan ≡ some settings)
      × ((save_plan owner venue plan e s).1.db
          ≡ record s.db { venues = update_where (is_venue v u) (set_plan e plan) s.db.venues })
unfolding save_plan ◌>>=◌ pure ask fail_if uuid_arg statement external save_plan_row
save_plan-eq-ok owner venue plan answer u v e s hu hv saved =
    let s₁ = (require_owner owner venue e s).1 in
    let same = (require_owner-ReadsOnly owner venue).keeps e s in
    elim (Result-cases (require_owner owner venue e s).0) [
      | inr (x, refused) ↦ absurd (ground arith)
      | inl (o, owns) ↦ elim (Option-cases (find (is_venue v u) s₁.db.venues)) [
        | inl missing ↦
            let none_hit = count_where-none v u s₁.db.venues missing in absurd (ground arith)
        | inr (row, found) ↦ elim (Option-cases (e.set_floor_plan row.settings plan)) [
          | inl failed ↦ absurd (ground arith)
          | inr (settings, set) ↦ (
            ground arith,
            row,
            settings,
            subst (λ d. find (is_venue v u) d.venues ≡ some row) same found,
            set,
            subst
                (λ d.
                  (save_plan owner venue plan e s).1.db
                  ≡ record d { venues = update_where (is_venue v u) (set_plan e plan) d.venues })
                same (ground arith),
          )
        ]
      ]
    ]

get_plan-eq-ok :
    (reader venue got v : String) (e : Env) (s : State)
    → e.parse_uuid venue ≡ some v
    → (get_plan reader venue e s).0 ≡ ok got
    → select_plan e v s.db ≡ some got
unfolding get_plan ◌>>=◌ uuid_arg on_error query_row external
get_plan-eq-ok reader venue got v e s hv read =
    let s₁ = (require_owner reader venue e s).1 in
    let same = (require_owner-ReadsOnly reader venue).keeps e s in
    elim (Result-cases (require_owner reader venue e s).0) [
      | inr (x, refused) ↦ absurd (ground arith)
      | inl (o, owns) ↦ elim (Option-cases (select_plan e v s₁.db)) [
        | inl missing ↦ absurd (ground arith)
        | inr (plan, found) ↦ subst (λ d. select_plan e v d ≡ some got) same (ground arith)
      ]
    ]

-- A floor plan that `Save` accepted is what `Get` reads afterwards (as PostgreSQL writes it), on
-- that database, whoever reads it; `Save` itself answers with the text that it was given. (Venue
-- ids are unique, and the jsonb operators behave as documented.)
pub get_plan-save_plan :
    (jsonb : String → String) (owner venue plan answer u v : String) (e : Env) (s : State)
    (reader got : String) (e' : Env) (s' : State)
    → IsPlanLawful e jsonb
    → e.parse_uuid owner ≡ some u
    → e.parse_uuid venue ≡ some v
    → UniqueBy (λ (x : VenueRow). x.id) s.db.venues
    → (save_plan owner venue plan e s).0 ≡ ok answer
    → e'.platform ≡ e.platform
    → s'.db ≡ (save_plan owner venue plan e s).1.db
    → (get_plan reader venue e' s').0 ≡ ok got
    → (answer ≡ plan) × (got ≡ jsonb plan)
unfolding select_plan
get_plan-save_plan jsonb owner venue plan answer u v e s reader got e' s' law hu hv unique saved
      platforms next read =
    let (same_text, row, settings, found, set, changed) =
      save_plan-eq-ok owner venue plan answer u v e s hu hv saved in
    let stored = select-save e jsonb u v plan s.db row settings law unique found set in
    let parsed : e'.parse_uuid venue ≡ some v =
      subst (λ p. p.parse_uuid venue ≡ some v) (sym platforms) hv in
    let seen = get_plan-eq-ok reader venue got v e' s' parsed read in
    let moved = subst (λ d. select_plan e' v d ≡ some got) (next ∙ changed) seen in
    let at_e : select_plan e v
          (record s.db { venues = update_where (is_venue v u) (set_plan e plan) s.db.venues })
        ≡ some got =
      subst
        (λ p.
          select_plan (record e { platform = p }) v
            (record s.db { venues = update_where (is_venue v u) (set_plan e plan) s.db.venues })
          ≡ some got)
        platforms moved in
    (same_text, ground arith)
