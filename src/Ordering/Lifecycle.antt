-- ===== src/Ordering/Lifecycle.antt =====
-- The orders of the database over any sequence of status changes, by whomever and however they end.
use pocket_mvp_backend.Prelude.{
  ℕ, ◌≡◌, ◌⊎◌, refl, sym, subst, Bool, true, not, ◌||◌, Bool-cases, Option-cases, some, inl, inr,
  String, List, find, update_where, find-update_where, All, All-update_where_keeps, is_some, arith,
  if◌then◌else◌, ◌==◌,
}
use pocket_mvp_backend.Platform.{Env}
use pocket_mvp_backend.Schema.{OrderStatus, OrderRow}
use pocket_mvp_backend.Effects.{State, ◌>>=◌, or_fail, uuid_arg, statement, external, on_error}
use pocket_mvp_backend.Effects.Rules.{Result-cases}
use pocket_mvp_backend.Access.{require_owner}
use pocket_mvp_backend.Access.Owner.{require_owner-ReadsOnly}
use pocket_mvp_backend.Ordering.{
  order_status, is_finished, is_order, set_status, update_order_row, update_status,
}

-- Calls of `UpdateStatus`, each in its own environment.
pub data StatusSteps : State → State → Type 0 where
  start : {s : State} → StatusSteps s s
  step :
      {s t : State}
      → StatusSteps s t
      → (owner venue order text : String) (e : Env)
      → StatusSteps s (update_status owner venue order text e t).1

-- What one call does to the table of orders: nothing, or one update of one order.
abbrev Changed : List OrderRow → List OrderRow → Type 0
Changed before after =
    (after ≡ before)
    ⊎ ((now : ℕ) × (id : String) × (venue : String) × (status : OrderStatus) × (after
          ≡ update_where (is_order id venue) (set_status now status) before))

update_status_changes :
    (owner venue order text : String) (e : Env) (s : State)
    → Changed s.db.orders (update_status owner venue order text e s).1.db.orders
unfolding update_status ◌>>=◌ or_fail uuid_arg statement external on_error update_order_row
update_status_changes owner venue order text e s =
    let s₁ = (require_owner owner venue e s).1 in
    let same = (require_owner-ReadsOnly owner venue).keeps e s in
    elim (Result-cases (require_owner owner venue e s).0) [
      | inr (x, refused) ↦ inl (ground arith)
      | inl (u, owns) ↦ elim (Option-cases (order_status text)) [
        | inl bad ↦ inl (ground arith)
        | inr (status, good) ↦ elim (Option-cases (e.parse_uuid venue)) [
          | inl bad ↦ inl (ground arith)
          | inr (v, parsed) ↦ elim (Option-cases (e.parse_uuid order)) [
            | inl bad ↦ inl (ground arith)
            | inr (i, known) ↦ elim (Bool-cases (e.fault s₁.calls)) [
              | inl broken ↦ inl (ground arith)
              | inr works ↦ elim (Option-cases (find (is_order i v) s₁.db.orders)) [
                | inl missing ↦ inl (ground arith)
                | inr (o, found) ↦ inr (e.db_now, i, v, status, ground arith)
              ]
            ]
          ]
        ]
      ]
    ]

pub StatusSteps-keep :
    (P : List OrderRow → Type 0)
    → ((now : ℕ) (id venue : String) (status : OrderStatus) (rows : List OrderRow)
        → P rows
        → P (update_where (is_order id venue) (set_status now status) rows))
    → {s t : State} → StatusSteps s t
    → P s.db.orders
    → P t.db.orders
StatusSteps-keep P h start before = before
StatusSteps-keep P h (step {t} steps owner venue order text e) before =
    let here = StatusSteps-keep P h steps before in
    elim (update_status_changes owner venue order text e t) [
      | inl same ↦ subst P (sym same) here
      | inr (now, i, v, status, changed) ↦ subst P (sym changed) (h now i v status t.db.orders here)
    ]

-- A finished order has a time of completion.
abbrev pub is_timed : OrderRow → Bool
is_timed o = not (is_finished o.status) || is_some o.completed_at

abbrev pub AllTimed : List OrderRow → Type 0
AllTimed rows = All (λ o. is_timed o ≡ true) rows

set_status_timed :
    (now : ℕ) (status : OrderStatus) (o : OrderRow)
    → is_timed o ≡ true
    → is_timed (set_status now status o) ≡ true
set_status_timed now status o h = elim (Bool-cases (is_finished status)) [
  | inl final ↦ ground arith
  | inr live ↦ ground arith
]

set_status_time :
    (now : ℕ) (status : OrderStatus) (o : OrderRow)
    → is_some o.completed_at ≡ true
    → is_some (set_status now status o).completed_at ≡ true
set_status_time now status o h = elim (Bool-cases (is_finished status)) [
  | inl final ↦ ground arith
  | inr live ↦ ground arith
]

-- If every completed or cancelled order has a time of completion, so it is after any sequence of
-- status changes, by whomever and however they end.
pub finished_orders-timed :
    (s t : State) → StatusSteps s t → AllTimed s.db.orders → AllTimed t.db.orders
finished_orders-timed s t steps before =
    StatusSteps-keep AllTimed
      (λ now id venue status rows k.
        All-update_where_keeps (λ o. is_timed o ≡ true) (is_order id venue) (set_status now status)
          (set_status_timed now status) rows k)
      steps before

-- The row of an id, with a time of completion and what no status change touches.
abbrev pub Kept : String → OrderRow → List OrderRow → Type 0
Kept id o rows =
    (p : OrderRow) × (find (λ r. r.id == id) rows ≡ some p)
    × (is_some p.completed_at ≡ true)
    × (record p { status = o.status; completed_at = o.completed_at } ≡ o)

-- An order that was ever completed or cancelled keeps a time of completion: if an id finds an order
-- with one, it finds after any sequence of status changes (back to "new" ones included) the same
-- order in all but its status, and with a time of completion.
pub completed_at-Kept :
    (s t : State) (id : String) (o : OrderRow)
    → StatusSteps s t
    → find (λ r. r.id == id) s.db.orders ≡ some o
    → is_some o.completed_at ≡ true
    → Kept id o t.db.orders
completed_at-Kept s t id o steps found timed =
    StatusSteps-keep (Kept id o) keep steps (o, found, timed, refl)
  where
    unmoved :
        (now : ℕ) (i venue : String) (status : OrderStatus) (r : OrderRow)
        → ((if is_order i venue r then set_status now status r else r).id == id) ≡ (r.id == id)
    unmoved now i venue status r = ground arith

    keep :
        (now : ℕ) (i venue : String) (status : OrderStatus) (rows : List OrderRow)
        → Kept id o rows
        → Kept id o (update_where (is_order i venue) (set_status now status) rows)
    keep now i venue status rows (p, here, time, same) =
        let next =
          find-update_where (is_order i venue) (λ r. r.id == id) (set_status now status)
            (unmoved now i venue status) rows p here in
        elim (Bool-cases (is_order i venue p)) [
          | inl hit ↦
              (set_status now status p, ground arith, set_status_time now status p time, same)
          | inr miss ↦ (p, ground arith, time, same)
        ]
