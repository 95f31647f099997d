-- ===== src/Ordering/Book.antt =====
-- `UpdateStatus` of internal/modules/ordering/service.go against an abstract order book, which
-- gives for a venue and an id the status and the time of completion.
use pocket_mvp_backend.Prelude.{
  ℕ, ◌≡◌, subst, ap, ◌∙◌, Bool, true, Bool-cases, Option, Option-cases, none, some, inl, inr, ◌&&◌,
  String, List, [], ◌∷◌, find, find-fits, update_where, arith, if◌then◌else◌, ◌==◌, eq_iff,
}
use pocket_mvp_backend.Platform.{Env}
use pocket_mvp_backend.Schema.{OrderStatus, OrderRow, Database}
use pocket_mvp_backend.Effects.{State, ok, ◌>>=◌, or_fail, uuid_arg, statement, external, on_error}
use pocket_mvp_backend.Effects.Rules.{
  Result-cases, IsAtomic, atomic, AllOrNothing, IsAtomic-AllOrNothing,
}
use pocket_mvp_backend.Access.{require_owner}
use pocket_mvp_backend.Access.Owner.{require_owner-ReadsOnly}
use pocket_mvp_backend.Ordering.{
  Order, order_status, is_finished, is_order, set_status, update_order_row, update_status,
}

-- What the book says of an order: its status, and when it was completed.
pub record Entry : Type 0 where
  pub status : OrderStatus
  pub completed_at : Option ℕ

abbrev entry : Option OrderRow → Option Entry
entry none = none
entry (some o) = some (record { status = o.status; completed_at = o.completed_at })

-- The entry of this order of this venue.
abbrev pub book : Database → String → String → Option Entry
book db venue id = entry (find (is_order id venue) db.orders)

-- The abstract change: a new status, with the time if it is final.
abbrev pub move : ℕ → OrderStatus → Option Entry → Option Entry
move now status none = none
move now status (some a) = some (record {
  status = status;
  completed_at = if is_finished status then some now else a.completed_at;
})

module _ (now : ℕ) (status : OrderStatus) (venue id : String) where
  abbrev here : String → String → Bool
  here w j = j == id && w == venue

  -- A row is found for both keys only if they are the same.
  same_key : (w j : String) (o : OrderRow) → is_order j w o ≡ true → is_order id venue o ≡ here w j
  same_key w j o h =
      let id_eq = (eq_iff o.id j).0 (ground arith) in
      let venue_eq = (eq_iff o.venue_id w).0 (ground arith) in
      ap (λ k. k == id && o.venue_id == venue) id_eq ∙ ap (λ k. j == id && k == venue) venue_eq

  abbrev moved_if : Bool → Option Entry → Option Entry
  moved_if b a = if b then move now status a else a

  find-moved :
      (w j : String) (rows : List OrderRow)
      → entry (find (is_order j w) (update_where (is_order id venue) (set_status now status) rows))
        ≡ moved_if (here w j) (entry (find (is_order j w) rows))
  find-moved w j [] = ground arith
  find-moved w j (o ∷ rows) = elim (Bool-cases (is_order j w o)) [
    | inl hit ↦ let key = same_key w j o hit in ground arith
    | inr miss ↦ let rest = find-moved w j rows in ground arith
  ]

-- A status change that succeeds was to one of the seven statuses of the pattern, and is that change
-- of the order book at this order of this venue and none at any other; the returned order has the
-- new status.
pub update_status-moves :
    (owner venue order text v i : String) (e : Env) (s : State) (result : Order)
    → e.parse_uuid venue ≡ some v
    → e.parse_uuid order ≡ some i
    → (update_status owner venue order text e s).0 ≡ ok result
    → (status : OrderStatus) × (order_status text ≡ some status)
      × (result.status ≡ status)
      × (result.id ≡ i)
      × ((w j : String)
          → book (update_status owner venue order text e s).1.db w j
            ≡ (if j == i && w == v then move e.db_now status (book s.db w j) else book s.db w j))
unfolding update_status ◌>>=◌ or_fail uuid_arg statement external on_error update_order_row
update_status-moves owner venue order text v i e s result hv hi h =
    let s₁ = (require_owner owner venue e s).1 in
    let same = (require_owner-ReadsOnly owner venue).keeps e s in
    elim (Result-cases (require_owner owner venue e s).0) [
      | inr (x, refused) ↦ ground arith
      | inl (u, owns) ↦ elim (Option-cases (order_status text)) [
        | inl bad ↦ ground arith
        | inr (status, good) ↦ elim (Option-cases (find (is_order i v) s₁.db.orders)) [
          | inl missing ↦ ground arith
          | inr (o, found) ↦
              let fits = find-fits (is_order i v) s₁.db.orders o found in
              let id_eq = (eq_iff o.id i).0 (ground arith) in
              (
                status,
                good,
                ground arith,
                ground (arith, id_eq),
                λ w j.
                    let step = find-moved e.db_now status v i w j s₁.db.orders in
                    subst
                      (λ d. book (update_status owner venue order text e s).1.db w j ≡ (
                        if j == i && w == v then move e.db_now status (book d w j) else book d w j))
                      same (ground arith),
              )
        ]
      ]
    ]

update_status-IsAtomic :
    (owner venue order text : String) → IsAtomic (update_status owner venue order text)
unfolding update_status
update_status-IsAtomic owner venue order text = search (atomic, require_owner-ReadsOnly) depth 12

-- A status change that fails leaves the database as it was.
pub update_status-AllOrNothing :
    (owner venue order text : String) (e : Env) (s : State)
    → AllOrNothing (update_status owner venue order text) e s
update_status-AllOrNothing owner venue order text e s =
    IsAtomic-AllOrNothing (update_status-IsAtomic owner venue order text) e s
