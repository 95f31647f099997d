-- ===== src/Start/Guarded.antt =====
-- The services that cmd/api/main.go wires keep the laws that the handlers rely on.
use pocket_mvp_backend.Prelude.{
  ℕ, ◌≡◌, refl, false, Bool-cases, Option-cases, none, inl, inr, String, List, [], ◌∷◌, find,
  exists, arith, ◌==◌, ◌&&◌, count_where, update_where, ◌≢◌,
}
use pocket_mvp_backend.Faults.{Error, AppFault, app, other}
use pocket_mvp_backend.Platform.{Env}
use pocket_mvp_backend.Schema.{VenueRow}
use pocket_mvp_backend.Effects.{
  State, Op, ok, err, ◌>>=◌, ask, fail_if, or_fail, uuid_arg, query, statement, external, on_error,
}
use pocket_mvp_backend.Effects.Rules.{ReadsOnly, IsAtomic, atomic, reads_only, Result-cases}
use pocket_mvp_backend.Access.{require_owner, owns, is_owned_by}
use pocket_mvp_backend.Access.Owner.{Refused-bind}
use pocket_mvp_backend.Identity.Model.{Service}
use pocket_mvp_backend.Identity.Sessions.{authenticate}
use pocket_mvp_backend.Identity.Persistence.{with_capabilities}
use pocket_mvp_backend.Identity.Admission.{decrypt_user-ReadsOnly}
use pocket_mvp_backend.Venues.Model.{Venue, Input, normalize_input, valid_input, status_of}
use pocket_mvp_backend.Venues.Changes.{
  is_venue, update_venue, update_venue_row, close_venue, delete_venue, delete_venue_row,
}
use pocket_mvp_backend.Venues.Changes.Storable.{refused_venue}
use pocket_mvp_backend.Catalog.Listings.{list_categories, list_menu_items}
use pocket_mvp_backend.Catalog.Categories.{create_category, update_category, delete_category}
use pocket_mvp_backend.Catalog.MenuItems.{create_menu_item, update_menu_item, delete_menu_item}
use pocket_mvp_backend.Catalog.Order.{reorder_categories, reorder_menu_items}
use pocket_mvp_backend.Workforce.{create_staff, update_staff, delete_staff}
use pocket_mvp_backend.Workforce.Listing.{list_staff}
use pocket_mvp_backend.Ordering.{list_orders, update_status}
use pocket_mvp_backend.Feedback.{list_reviews, reply_to_review}
use pocket_mvp_backend.Billing.Payments.{list_payments}
use pocket_mvp_backend.FloorPlan.{get_plan, save_plan}
use pocket_mvp_backend.Reporting.{dashboard}
use pocket_mvp_backend.Config.{Config}
use pocket_mvp_backend.Http.Contracts.{Codec}
use pocket_mvp_backend.Http.Denies.{Fails}
use pocket_mvp_backend.Http.Laws.{IsGuarded, IsOwnerOnly}
use pocket_mvp_backend.Start.{api_of}

pub authenticate-ReadsOnly :
    (svc : Service)
    → ((id : String) → ReadsOnly (svc.list_capabilities id))
    → (token : String) → ReadsOnly (authenticate svc token)
unfolding authenticate with_capabilities
authenticate-ReadsOnly svc reads token = search (reads_only, decrypt_user-ReadsOnly, reads) depth 14

asks_first :
    {A : Type 0} (o v : String) (rest : Unit {0} → Op A)
    → IsOwnerOnly o v (require_owner o v >>= rest)
asks_first o v rest = record {
  fails = λ e s x h. record { error = x; refused = Refused-bind o v rest e s x h };
}

none_owned :
    (u v : String) (f : VenueRow → VenueRow) (rows : List VenueRow)
    → exists (λ x. x.id == v && is_owned_by u x) rows ≡ false
    → (find (is_venue v u) rows ≡ none)
      × (count_where (is_venue v u) rows ≡ 0)
      × (update_where (is_venue v u) f rows ≡ rows)
none_owned u v f [] h = (refl, refl, refl)
none_owned u v f (x ∷ rows) h =
    let (a, b, c) = none_owned u v f rows (ground arith) in
    (ground arith, ground arith, ground arith)

update_venue-IsAtomic : (o v : String) (i : Input) → IsAtomic (update_venue o v i)
unfolding update_venue
update_venue-IsAtomic o v i = search atomic depth 14

-- An update that goes through was the owner's.
update_venue-owner :
    (o v : String) (i : Input) (e : Env) (s : State) (a : Venue) (x : Error)
    → (update_venue o v i e s).0 ≡ ok a
    → (require_owner o v e s).0 ≢ err x
unfolding update_venue require_owner ◌>>=◌ ask fail_if or_fail uuid_arg query statement external
    on_error update_venue_row
update_venue-owner o v raw e s a x done refused =
    let input = normalize_input e.platform raw in
    elim (Bool-cases (valid_input input)) [
      | inr invalid ↦ ground arith
      | inl valid ↦ elim (Option-cases (status_of input.status)) [
        | inl unknown ↦ ground arith
        | inr (status, known) ↦ elim (Option-cases (e.parse_uuid o)) [
          | inl bad ↦ ground arith
          | inr (owner, parsed) ↦ elim (Option-cases (e.parse_uuid v)) [
            | inl bad ↦ ground arith
            | inr (id, named) ↦
                elim (refused_venue e input (update_venue_row e id owner input status s.db)) [
                  | inr (code, rejected) ↦ ground arith
                  | inl run ↦ elim (Bool-cases (owns owner id s.db)) [
                    | inl own ↦ ground arith
                    | inr foreign ↦
                        let (missing, _, _) = none_owned owner id (λ r. r) s.db.venues foreign in
                        ground arith
                  ]
                ]
          ]
        ]
      ]
    ]

update_venue-IsOwnerOnly : (o v : String) (i : Input) → IsOwnerOnly o v (update_venue o v i)
update_venue-IsOwnerOnly o v i = record {
  fails = λ e s x h. elim (Result-cases (update_venue o v i e s).0) [
    | inr (y, bad) ↦ record {
      error = y;
      refused = (bad, (update_venue-IsAtomic o v i).on_err e s y bad);
    }
    | inl (a, done) ↦ absurd (update_venue-owner o v i e s a x done h)
  ];
}

delete_venue-Fails :
    (o v : String) (e : Env) (s : State) (x : Error)
    → (require_owner o v e s).0 ≡ err x
    → Fails (delete_venue o v) e s
unfolding delete_venue require_owner ◌>>=◌ fail_if uuid_arg query statement external
    delete_venue_row
delete_venue-Fails o v e s x refused = elim (Option-cases (e.parse_uuid o)) [
  | inl bad ↦ record { error = other; refused = (ground arith, ground arith) }
  | inr (owner, parsed) ↦ elim (Option-cases (e.parse_uuid v)) [
    | inl bad ↦ record { error = other; refused = (ground arith, ground arith) }
    | inr (id, named) ↦ elim (Bool-cases (e.fault s.calls)) [
      | inl broken ↦ record { error = other; refused = (ground arith, ground arith) }
      | inr works ↦ elim (Bool-cases (owns owner id s.db)) [
        | inl own ↦ absurd (ground arith)
        | inr foreign ↦
            let (_, zero_rows, same) =
              none_owned owner id (close_venue e.db_now) s.db.venues foreign in
            record { error = app AppFault.not_found; refused = (ground arith, ground arith) }
      ]
    ]
  ]
]

-- Every operation of the wired services on one venue is the owner's only.
pub api_of-IsGuarded :
    (codec : Codec) (cfg : Config) (now : ℕ) (svc : Service)
    → ((id : String) → ReadsOnly (svc.list_capabilities id))
    → IsGuarded (api_of codec cfg now svc)
unfolding api_of list_categories list_menu_items create_category update_category delete_category
    create_menu_item update_menu_item delete_menu_item reorder_categories reorder_menu_items
    create_staff update_staff delete_staff list_staff list_orders update_status list_reviews
    reply_to_review list_payments get_plan save_plan dashboard
api_of-IsGuarded codec cfg now svc reads = record {
  authenticate = authenticate-ReadsOnly svc reads;
  dashboard = λ o v. asks_first o v _;
  update_venue = update_venue-IsOwnerOnly;
  delete_venue = λ o v. record { fails = delete_venue-Fails o v };
  list_categories = λ o v. asks_first o v _;
  create_category = λ o v c. asks_first o v _;
  update_category = λ o v i c. asks_first o v _;
  delete_category = λ o v i. asks_first o v _;
  reorder_categories = λ o v ids. asks_first o v _;
  list_menu_items = λ o v. asks_first o v _;
  create_menu_item = λ o v i. asks_first o v _;
  update_menu_item = λ o v i m. asks_first o v _;
  delete_menu_item = λ o v i. asks_first o v _;
  reorder_menu_items = λ o v c ids. asks_first o v _;
  list_staff = λ o v. asks_first o v _;
  create_staff = λ o v i. asks_first o v _;
  update_staff = λ o v m i. asks_first o v _;
  delete_staff = λ o v m. asks_first o v _;
  list_orders = λ o v. asks_first o v _;
  update_status = λ o v i t. asks_first o v _;
  list_reviews = λ o v. asks_first o v _;
  reply = λ o v i t. asks_first o v _;
  list_payments = λ o v. asks_first o v _;
  get_plan = λ o v. asks_first o v _;
  save_plan = λ o v p. asks_first o v _;
}
