-- ===== src/Http/Strangers.antt =====
-- What the handlers of internal/httpapi answer to those who do not own the venue of the path.
use pocket_mvp_backend.Prelude.{◌≡◌, String, All}
use pocket_mvp_backend.Faults.{Error}
use pocket_mvp_backend.Platform.{Env}
use pocket_mvp_backend.Effects.{State, Op, err}
use pocket_mvp_backend.Identity.Model.{User}
use pocket_mvp_backend.Access.{require_owner}
use pocket_mvp_backend.Http.Message.{Request, Response, Web, next, ◌>>=◌}
use pocket_mvp_backend.Http.Contracts.{Api}
use pocket_mvp_backend.Http.Support.{current_user, path_value}
use pocket_mvp_backend.Http.Owner.{
  owner_venue, owner_dashboard, owner_staff, owner_staff_member, owner_orders, owner_order,
  owner_reviews, owner_review, owner_payments, owner_floor_plan,
}
use pocket_mvp_backend.Http.Menus.{
  owner_categories, owner_category, owner_category_order, owner_menu_items, owner_menu_item,
  owner_menu_item_order,
}
use pocket_mvp_backend.Http.Routes.{venue_routes}
use pocket_mvp_backend.Http.Denies.{Denies, Denies-bind, denies, Fails}
use pocket_mvp_backend.Http.Laws.{IsGuarded, IsOwnerOnly}
use pocket_mvp_backend.Http.Guards.{current_user_keeps}

-- The law of an operation, at a venue that is refused.
Fails-at :
    {A : Type 0} (owner venue : String) (e : Env) (s : State) (x : Error)
    → (require_owner owner venue e s).0 ≡ err x
    → (m : Op A) → IsOwnerOnly owner venue m
    → Fails m e s
Fails-at owner venue e s x refused m law = law.fails e s x refused

-- Whoever is signed in but does not own the venue of the path gets nowhere: each route of a venue
-- answers with a status of failure and leaves the
-- database as it was, whatever the method and the body.
pub venue_routes-Denies :
    (api : Api) (r : Request) (e : Env) (s : State) (user : User) (x : Error)
    → IsGuarded api
    → (current_user api r e s).0 ≡ next user
    → (require_owner user.id (path_value "venueID" r) e (current_user api r e s).1).0 ≡ err x
    → All (λ route. Denies (route.1 api r) e s) venue_routes
unfolding owner_venue owner_dashboard owner_categories owner_category_order owner_category
    owner_menu_items owner_menu_item_order owner_menu_item owner_staff owner_staff_member
    owner_orders owner_order owner_reviews owner_review owner_payments owner_floor_plan
venue_routes-Denies api r e s user x laws signed_in refused =
    let v = path_value "venueID" r in
    let t = (current_user api r e s).1 in
    let go : (k : User → Web Response)
        → Denies (k user) e t
        → Denies (current_user api r >>= k) e s =
      λ k h.
        Denies-bind e s (current_user api r) k user signed_in
          (current_user_keeps api r e s laws.authenticate) h in
    (
      go _ (
          search (denies, Fails-at user.id v e t x refused, laws.update_venue, laws.delete_venue)
            depth 12),
      (
        go _ (search (denies, Fails-at user.id v e t x refused, laws.dashboard) depth 12),
        (
          go _ (
              search
                (
                  denies,
                  Fails-at user.id v e t x refused,
                  laws.list_categories,
                  laws.create_category,
                )
                depth 12),
          (
            go _ (
                search (denies, Fails-at user.id v e t x refused, laws.reorder_categories) depth
                  12),
            (
              go _ (
                  search
                    (
                      denies,
                      Fails-at user.id v e t x refused,
                      laws.update_category,
                      laws.delete_category,
                    )
                    depth 12),
              (
                go _ (
                    search
                      (
                        denies,
                        Fails-at user.id v e t x refused,
                        laws.list_menu_items,
                        laws.create_menu_item,
                      )
                      depth 12),
                (
                  go _ (
                      search (denies, Fails-at user.id v e t x refused, laws.reorder_menu_items)
                        depth 12),
                  (
                    go _ (
                        search
                          (
                            denies,
                            Fails-at user.id v e t x refused,
                            laws.update_menu_item,
                            laws.delete_menu_item,
                          )
                          depth 12),
                    (
                      go _ (
                          search
                            (
                              denies,
                              Fails-at user.id v e t x refused,
                              laws.list_staff,
                              laws.create_staff,
                            )
                            depth 12),
                      (
                        go _ (
                            search
                              (
                                denies,
                                Fails-at user.id v e t x refused,
                                laws.update_staff,
                                laws.delete_staff,
                              )
                              depth 12),
                        (
                          go _ (
                              search (denies, Fails-at user.id v e t x refused, laws.list_orders)
                                depth 12),
                          (
                            go _ (
                                search
                                  (denies, Fails-at user.id v e t x refused, laws.update_status)
                                  depth 12),
                            (
                              go _ (
                                  search
                                    (denies, Fails-at user.id v e t x refused, laws.list_reviews)
                                    depth 12),
                              (
                                go _ (
                                    search (denies, Fails-at user.id v e t x refused, laws.reply)
                                      depth 12),
                                (
                                  go _ (
                                      search
                                        (
                                          denies,
                                          Fails-at user.id v e t x refused,
                                          laws.list_payments,
                                        )
                                        depth 12),
                                  (
                                    go _ (
                                        search
                                          (
                                            denies,
                                            Fails-at user.id v e t x refused,
                                            laws.get_plan,
                                            laws.save_plan,
                                          )
                                          depth 12),
                                    tt,
                                  ),
                                ),
                              ),
                            ),
                          ),
                        ),
                      ),
                    ),
                  ),
                ),
              ),
            ),
          ),
        ),
      ),
    )
