-- ===== src/Access/Listing.antt =====
-- What a listing of an owned venue answers: `RequireOwner`, and then one query.
use pocket_mvp_backend.Prelude.{◌≡◌, some, String, arith, subst}
use pocket_mvp_backend.Platform.{Env}
use pocket_mvp_backend.Schema.{Database}
use pocket_mvp_backend.Effects.{State, ok, Op, ◌>>=◌, ◌>>◌, query, external, uuid_arg}
use pocket_mvp_backend.Effects.Rules.{ReadsOnly, reads_only}
use pocket_mvp_backend.Access.{require_owner}
use pocket_mvp_backend.Access.Owner.{require_owner-ReadsOnly}

module _ {A : Type 0} (f : Env → String → Database → A) where
  abbrev listing : String → String → Op A
  listing owner_id venue_id = do
    require_owner owner_id venue_id
    venue ← uuid_arg venue_id
    query (λ e db. f e venue db)

  pub listing-ReadsOnly : (owner_id venue_id : String) → ReadsOnly (listing owner_id venue_id)
  listing-ReadsOnly owner_id venue_id = search (reads_only, require_owner-ReadsOnly) depth 12

  pub listing-eq-ok :
      (owner_id venue_id v : String) (e : Env) (s : State) (a : A)
      → e.parse_uuid venue_id ≡ some v
      → (listing owner_id venue_id e s).0 ≡ ok a
      → a ≡ f e v s.db
  unfolding ◌>>=◌ uuid_arg query external
  listing-eq-ok owner_id venue_id v e s a parsed h =
      let same = (require_owner-ReadsOnly owner_id venue_id).keeps e s in
      subst (λ d. a ≡ f e v d) same (ground arith)
