-- ===== src/Venues/Changes/Dashes.antt =====
-- What `Create` does with a slug that ends in a dash.
use pocket_mvp_backend.Prelude.{
  ◌≡◌, ◌∙◌, true, false, Option-cases, inl, inr, some, String, Bytes, arith, ℕ, suc, is_some,
}
use pocket_mvp_backend.Faults.{app, AppFault, map_write_error}
use pocket_mvp_backend.Platform.{Env}
use pocket_mvp_backend.Schema.{VenueStatus}
use pocket_mvp_backend.Effects.{
  State, Statement, ok, err, ◌>>=◌, ask, fail_if, or_fail, external, statement, storable_text,
  on_error, transaction, uuid_arg,
}
use pocket_mvp_backend.Effects.Rules.{ReadsOnly, reads_only}
use pocket_mvp_backend.Security.Session.{new_session_token}
use pocket_mvp_backend.Venues.Slug.{unique_slug, is_slug}
use pocket_mvp_backend.Venues.Slug.Pattern.{ends_clean, unique_slug-matches}
use pocket_mvp_backend.Venues.Model.{Input, normalize_input, valid_input, status_of}
use pocket_mvp_backend.Venues.Changes.{
  venue_creation, create_venue, insert_venue, new_venue, storable_venue,
}

module _ (e : Env) (storable : (b : Bytes) → e.accepts_text b ≡ true) where
  accepted : {A : Type 0} (t : String) (st : Statement A) → storable_text e t st ≡ st
  unfolding storable_text
  accepted t st = let yes = storable (e.bytes_of t) in ground arith

  all_accepted : {A : Type 0} (input : Input) (st : Statement A) → storable_venue e input st ≡ st
  all_accepted input st = simp (accepted)

  venue_creation-dashed :
      (owner_id owner slug : String) (input : Input) (status : VenueStatus) (s : State)
      → is_slug slug ≡ false
      → e.parse_uuid owner_id ≡ some owner
      → ((n : ℕ) → e.fault n ≡ false)
      → (venue_creation owner_id input status slug e s).0 ≡ err (app AppFault.invalid_input)
  unfolding venue_creation ◌>>=◌ uuid_arg on_error statement external insert_venue map_write_error
  venue_creation-dashed owner_id owner slug input status s dashed parsed works =
      let row = new_venue (e.fresh_id s.calls) owner slug e.db_now input status in
      let takes = all_accepted input (insert_venue row s.db) in
      let runs = works s.calls in ground arith

valid_input_status :
    (input : Input) → valid_input input ≡ true → is_some (status_of input.status) ≡ true
unfolding valid_input
valid_input_status input h = ground arith

unique_slug-ReadsOnly : (name : String) → ReadsOnly (unique_slug name)
unfolding unique_slug new_session_token
unique_slug-ReadsOnly name = search reads_only depth 12

-- A valid input is refused with ErrInvalidInput, and nothing is changed, if the slug that was made
-- for it ends in a dash, although every external call works and every text can be stored.
pub create_venue-dashed :
    (owner_id owner slug : String) (input : Input) (e : Env) (s : State)
    → valid_input (normalize_input e.platform input) ≡ true
    → (unique_slug (normalize_input e.platform input).name e s).0 ≡ ok slug
    → ends_clean false slug ≡ false
    → e.parse_uuid owner_id ≡ some owner
    → ((n : ℕ) → e.fault n ≡ false)
    → ((b : Bytes) → e.accepts_text b ≡ true)
    → ((create_venue owner_id input e s).0 ≡ err (app AppFault.invalid_input))
      × ((create_venue owner_id input e s).1.db ≡ s.db)
unfolding create_venue ◌>>=◌ ask fail_if or_fail transaction external
create_venue-dashed owner_id owner slug input e s valid drawn dashed parsed works storable =
    let normal = normalize_input e.platform input in
    let s₁ = (unique_slug normal.name e s).1 in
    let same = (unique_slug-ReadsOnly normal.name).keeps e s in
    let unfit = unique_slug-matches normal.name e s slug drawn ∙ dashed in
    let runs = works s₁.calls in
    elim (Option-cases (status_of normal.status)) [
      | inl unknown ↦ absurd (ground (arith, valid_input_status normal))
      | inr (status, known) ↦
          let refused =
            venue_creation-dashed e storable owner_id owner slug normal status
              (record s₁ { calls = suc s₁.calls }) unfit parsed works in
          (ground arith, ground arith)
    ]
