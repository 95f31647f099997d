-- ===== src/Http/Guards.antt =====
-- The handlers of internal/httpapi and requests without a live session.
use pocket_mvp_backend.Prelude.{◌≡◌, Option-cases, some, inl, inr, String, ◌++◌, All, arith}
use pocket_mvp_backend.Faults.{IdentityError, identity}
use pocket_mvp_backend.Platform.{Env}
use pocket_mvp_backend.Effects.{State, err}
use pocket_mvp_backend.Effects.Rules.{ReadsOnly}
use pocket_mvp_backend.Identity.Model.{User}
use pocket_mvp_backend.Http.Message.{Request, Response, Web, stop, call, or_respond, serve, ◌>>=◌}
use pocket_mvp_backend.Http.Contracts.{Api}
use pocket_mvp_backend.Http.Support.{current_user, require_cookie, session_token, write_auth_error}
use pocket_mvp_backend.Http.Auth.{me, update_profile, change_password, change_email}
use pocket_mvp_backend.Http.Avatar.{update_avatar, avatar}
use pocket_mvp_backend.Http.Owner.{
  owner_venues, owner_venue, owner_dashboard, owner_staff, owner_staff_member, owner_orders,
  owner_order, owner_reviews, owner_review, owner_payments, owner_subscription, owner_floor_plan,
}
use pocket_mvp_backend.Http.Menus.{
  owner_categories, owner_category, owner_category_order, owner_menu_items, owner_menu_item,
  owner_menu_item_order,
}
use pocket_mvp_backend.Http.Routes.{user_routes, venue_routes}

-- The answer of `writeAuthError(w, identity.ErrUnauthorized)`.
abbrev pub unauthorized : Response
unauthorized = write_auth_error (identity IdentityError.unauthorized)

-- The handler answers that a session is needed, and the database is as it was.
abbrev pub Unauthorized : Web Response → Env → State → Type 0
Unauthorized m e s = ((serve m e s).0 ≡ unauthorized) × ((serve m e s).1.db ≡ s.db)

module _ (api : Api) (r : Request) (e : Env) (s : State) where
  stopped :
      {A : Type 0} (m : Web A) (k : A → Web Response) (x : Response)
      → (m e s).0 ≡ stop x
      → (m e s).1.db ≡ s.db
      → ((serve (m >>= k) e s).0 ≡ x) × ((serve (m >>= k) e s).1.db ≡ s.db)
  unfolding ◌>>=◌ serve
  stopped m k x h kept = (ground arith, ground arith)

  pub current_user_keeps :
      ((token : String) → ReadsOnly (api.identity.authenticate token))
      → (current_user api r e s).1.db ≡ s.db
  unfolding current_user require_cookie or_respond ◌>>=◌ call
  current_user_keeps reads = elim (Option-cases (session_token api r)) [
    | inl missing ↦ ground arith
    | inr (token, sent) ↦ let same = (reads token).keeps e s in ground arith
  ]

  current_user_stops :
      ((token : String)
        → session_token api r ≡ some token
        → (api.identity.authenticate token e s).0 ≡ err (identity IdentityError.unauthorized))
      → (current_user api r e s).0 ≡ stop unauthorized
  unfolding current_user require_cookie or_respond ◌>>=◌ call
  current_user_stops none_live = elim (Option-cases (session_token api r)) [
    | inl missing ↦ ground arith
    | inr (token, sent) ↦ let dead = none_live token sent in ground arith
  ]

  me-Unauthorized :
      ((token : String) → ReadsOnly (api.identity.authenticate token))
      → ((token : String)
          → session_token api r ≡ some token
          → (api.identity.authenticate token e s).0 ≡ err (identity IdentityError.unauthorized))
      → Unauthorized (me api r) e s
  unfolding me require_cookie or_respond ◌>>=◌ call serve
  me-Unauthorized reads none_live = elim (Option-cases (session_token api r)) [
    | inl missing ↦ (ground arith, ground arith)
    | inr (token, sent) ↦
        let dead = none_live token sent in
        let same = (reads token).keeps e s in (ground arith, ground arith)
  ]

-- Without the cookie of a live session no route of a signed-in user does anything: each of them
-- answers 401 and leaves the database as it was. (`Authenticate` only reads.)
pub guarded_routes-Unauthorized :
    (api : Api) (r : Request) (e : Env) (s : State)
    → ((token : String) → ReadsOnly (api.identity.authenticate token))
    → ((token : String)
        → session_token api r ≡ some token
        → (api.identity.authenticate token e s).0 ≡ err (identity IdentityError.unauthorized))
    → All (λ route. Unauthorized (route.1 api r) e s) (user_routes ++ venue_routes)
unfolding update_profile change_password change_email update_avatar avatar owner_venues
    owner_subscription owner_venue owner_dashboard owner_categories owner_category_order
    owner_category owner_menu_items owner_menu_item_order owner_menu_item owner_staff
    owner_staff_member owner_orders owner_order owner_reviews owner_review owner_payments
    owner_floor_plan
guarded_routes-Unauthorized api r e s reads none_live =
    let refused : (k : User → Web Response) → Unauthorized (current_user api r >>= k) e s = λ k.
      stopped api r e s (current_user api r) k unauthorized (current_user_stops api r e s none_live)
        (current_user_keeps api r e s reads) in
    (
      me-Unauthorized api r e s reads none_live,
      (
        refused _,
        (
          refused _,
          (
            refused _,
            (
              refused _,
              (
                refused _,
                (
                  refused _,
                  (
                    refused _,
                    (
                      refused _,
                      (
                        refused _,
                        (
                          refused _,
                          (
                            refused _,
                            (
                              refused _,
                              (
                                refused _,
                                (
                                  refused _,
                                  (
                                    refused _,
                                    (
                                      refused _,
                                      (
                                        refused _,
                                        (
                                          refused _,
                                          (
                                            refused _,
                                            (refused _, (refused _, (refused _, (refused _, tt)))),
                                          ),
                                        ),
                                      ),
                                    ),
                                  ),
                                ),
                              ),
                            ),
                          ),
                        ),
                      ),
                    ),
                  ),
                ),
              ),
            ),
          ),
        ),
      ),
    )
