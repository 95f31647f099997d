-- ===== src/Venues/Changes/Storable.antt =====
-- What PostgreSQL's check of the texts makes of a statement on a venue.
use pocket_mvp_backend.Prelude.{◌≡◌, ◌⊎◌, refl, Bool-cases, inl, inr, String}
use pocket_mvp_backend.Faults.{PgCode}
use pocket_mvp_backend.Platform.{Env}
use pocket_mvp_backend.Effects.{Statement, rejected, storable_text}
use pocket_mvp_backend.Venues.Model.{Input}
use pocket_mvp_backend.Venues.Changes.{storable_venue}

-- The statement itself, or refused by PostgreSQL.
abbrev pub IsRefinedBy : {A : Type 0} → Statement A → Statement A → Type 0
IsRefinedBy st st' = (st' ≡ st) ⊎ ((code : PgCode) × (st' ≡ rejected code))

refused_text :
    {A : Type 0} (e : Env) (t : String) (st st' : Statement A)
    → IsRefinedBy st st'
    → IsRefinedBy st (storable_text e t st')
unfolding storable_text
refused_text e t st st' h = elim (Bool-cases (e.accepts_text (e.bytes_of t))) [
  | inl fine ↦ rw fine h
  | inr bad ↦ rw bad (inr (PgCode.other_code, refl))
]

pub refused_venue :
    {A : Type 0} (e : Env) (input : Input) (st : Statement A)
    → IsRefinedBy st (storable_venue e input st)
refused_venue e input st = refused_text e _ st _ (
    refused_text e _ st _ (
      refused_text e _ st _ (
        refused_text e _ st _ (
          refused_text e _ st _ (
            refused_text e _ st _ (
              refused_text e _ st _ (
                refused_text e _ st _ (
                  refused_text e _ st _ (
                    refused_text e _ st _
                      (refused_text e _ st _ (refused_text e _ st st (inl refl))))))))))))
