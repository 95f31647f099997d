-- ===== src/FloorPlan/Updates.antt =====
-- `Update` of internal/modules/venues/service.go and the floor plan in the same settings.
use pocket_mvp_backend.Prelude.{
  ◌≡◌, refl, Bool, Bool-cases, Option-cases, inl, inr, String, List, [], ◌∷◌, find, update_where,
  arith, ◌==◌,
}
use pocket_mvp_backend.Platform.{Env}
use pocket_mvp_backend.Platform.Laws.{IsMergeLawful}
use pocket_mvp_backend.Schema.{VenueRow, VenueStatus}
use pocket_mvp_backend.Effects.{
  State, ◌>>=◌, ask, fail_if, or_fail, uuid_arg, statement, storable_text, external, on_error,
}
use pocket_mvp_backend.Venues.Model.{
  Input, settings_or_empty, normalize_input, valid_input, status_of,
}
use pocket_mvp_backend.Venues.Changes.{is_venue, set_venue, update_venue_row, update_venue}
use pocket_mvp_backend.Venues.Changes.Storable.{refused_venue}
use pocket_mvp_backend.FloorPlan.{select_plan, plan_of}

module _ (e : Env) (has_plan : String → Bool) (law : IsMergeLawful e has_plan) where
  plan-set_venue :
      (id owner v : String) (input : Input) (status : VenueStatus) (rows : List VenueRow)
      → plan_of e
          (find (λ x. x.id == v) (update_where (is_venue id owner) (set_venue e input status) rows))
        ≡ plan_of e (find (λ x. x.id == v) rows)
  plan-set_venue id owner v input status [] = refl
  plan-set_venue id owner v input status (x ∷ rows) =
      let rest = plan-set_venue id owner v input status rows in
      let changes = settings_or_empty input.settings in
      let merged =
        law.get-concat x.settings (e.remove_floor_plan changes) (law.has-remove changes) in
      elim (Bool-cases (is_venue id owner x)) [
        | inl hit ↦ elim (Bool-cases (x.id == v)) [
          | inl first ↦ ground arith
          | inr later ↦ ground arith
        ]
        | inr miss ↦ ground arith
      ]

-- Changing a venue's data, its settings included, keeps its floor plan and that of every other
-- venue, whoever asks for it, however it ends, and even if the new settings bring a floor plan.
-- (`-` gives a document without the key, and `||` keeps what its right side does not have.)
pub select_plan-update_venue :
    (has_plan : String → Bool) (owner venue v : String) (input : Input) (e : Env) (s : State)
    → IsMergeLawful e has_plan
    → select_plan e v (update_venue owner venue input e s).1.db ≡ select_plan e v s.db
unfolding update_venue ◌>>=◌ ask fail_if or_fail uuid_arg statement external on_error
    update_venue_row select_plan storable_text
select_plan-update_venue has_plan owner venue v raw e s law =
    let input = normalize_input e.platform raw in
    elim (Bool-cases (valid_input input)) [
      | inr invalid ↦ ground arith
      | inl valid ↦ elim (Option-cases (status_of input.status)) [
        | inl unknown ↦ ground arith
        | inr (status, known) ↦ elim (Option-cases (e.parse_uuid owner)) [
          | inl bad ↦ ground arith
          | inr (o, parsed) ↦ elim (Option-cases (e.parse_uuid venue)) [
            | inl bad ↦ ground arith
            | inr (i, named) ↦
                elim (refused_venue e input (update_venue_row e i o input status s.db)) [
                  | inr (code, refused) ↦ ground arith
                  | inl run ↦ elim (Option-cases (find (is_venue i o) s.db.venues)) [
                    | inl missing ↦ ground arith
                    | inr (row, found) ↦
                        let kept = plan-set_venue e has_plan law i o v input status s.db.venues in
                        ground arith
                  ]
                ]
          ]
        ]
      ]
    ]
