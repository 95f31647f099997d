-- ===== src/Billing/OneLive.antt =====
-- What an upserted subscription leaves: one current subscription for the owner, within the plan.
use pocket_mvp_backend.Prelude.{
  ℕ, suc, ◌≡◌, ◌≢◌, refl, ◌∙◌, ap, true, false, Bool-cases, some, sym, eq_refl, inl, inr, String,
  List, [], ◌∷◌, ◌++◌, find, count_where, update_where, arith, eq_iff, ◌==◌,
}
use pocket_mvp_backend.Platform.{Env}
use pocket_mvp_backend.Schema.{SubscriptionRow}
use pocket_mvp_backend.Effects.{
  State, ok, ◌>>=◌, exec, on_error, statement, fail_if, query, transaction, uuid_arg,
}
use pocket_mvp_backend.Effects.Rules.{transaction-eq-ok}
use pocket_mvp_backend.Access.{is_owned_by}
use pocket_mvp_backend.Billing.{
  Subscription, SubscriptionInput, is_current_of, shown, exceeds, limit_for_plan, cancel,
  new_subscription, insert_subscription, replace_subscription, upsert_subscription,
}

-- The rows after an upsert: the owner's current ones cancelled, and the new one.
abbrev pub replaced : ℕ → String → SubscriptionRow → List SubscriptionRow → List SubscriptionRow
replaced now owner r rows = update_where (is_current_of owner) (cancel now) rows ++ r ∷ []

count-replaced :
    (now : ℕ) (owner : String) (r : SubscriptionRow) (rows : List SubscriptionRow)
    → is_current_of owner r ≡ true
    → count_where (is_current_of owner) (replaced now owner r rows) ≡ 1
count-replaced now owner r [] h = ground arith
count-replaced now owner r (x ∷ rows) h = ground (arith, count-replaced now owner r rows h)

find-replaced :
    (now : ℕ) (owner : String) (r : SubscriptionRow) (rows : List SubscriptionRow)
    → is_current_of owner r ≡ true
    → find (is_current_of owner) (replaced now owner r rows) ≡ some r
find-replaced now owner r [] h = ground arith
find-replaced now owner r (x ∷ rows) h = ground (arith, find-replaced now owner r rows h)

other_owner :
    (owner other : String) (r : SubscriptionRow)
    → owner ≢ other
    → is_current_of owner r ≡ true
    → is_current_of other r ≡ false
other_owner owner other r h k =
    ground (arith, eq_iff r.owner_user_id owner, eq_iff r.owner_user_id other)

find-replaced_other :
    (now : ℕ) (owner other : String) (r : SubscriptionRow) (rows : List SubscriptionRow)
    → owner ≢ other
    → is_current_of owner r ≡ true
    → find (is_current_of other) (replaced now owner r rows) ≡ find (is_current_of other) rows
find-replaced_other now owner other r [] h k = ground (arith, other_owner owner other r h k)
find-replaced_other now owner other r (x ∷ rows) h k = elim (Bool-cases (is_current_of owner x)) [
  | inl hit ↦
      ground
        (arith, other_owner owner other x h hit, find-replaced_other now owner other r rows h k)
  | inr miss ↦ ground (arith, find-replaced_other now owner other r rows h k)
]

module _ (owner : String) (input : SubscriptionInput) (e : Env) (n : ℕ) where
  abbrev pub opened : SubscriptionRow
  opened =
      new_subscription (e.fresh_id n) owner input e.db_now
        (e.add_period (input.billing_cycle == "yearly") e.db_now)

  replace_subscription-eq-ok :
      (s : State) (sub : Subscription)
      → n ≡ suc s.calls
      → (replace_subscription owner input e s).0 ≡ ok sub
      → (sub ≡ shown opened)
        × ((replace_subscription owner input e s).1.db
            ≡ record s.db { subscriptions = replaced e.db_now owner opened s.db.subscriptions })
  unfolding replace_subscription ◌>>=◌ exec on_error statement insert_subscription
  replace_subscription-eq-ok s sub k h = ground arith

upsert_subscription-eq-ok :
    (owner_id owner : String) (input : SubscriptionInput) (e : Env) (s : State) (sub : Subscription)
    → e.parse_uuid owner_id ≡ some owner
    → (upsert_subscription owner_id input e s).0 ≡ ok sub
    → (r : SubscriptionRow) × (exceeds
          (count_where (is_owned_by owner) s.db.venues)
          (limit_for_plan input.plan)
        ≡ false)
      × (is_current_of owner r ≡ true)
      × (shown r ≡ sub)
      × (r.plan ≡ input.plan)
      × ((upsert_subscription owner_id input e s).1.db.subscriptions
          ≡ replaced e.db_now owner r s.db.subscriptions)
unfolding upsert_subscription ◌>>=◌ fail_if uuid_arg query
upsert_subscription-eq-ok owner_id owner input e s sub parsed h =
    let s₁ = record s { calls = suc s.calls } in
    let body = replace_subscription owner input in
    let (ran, kept) = transaction-eq-ok body e s₁ sub (ground arith) in
    let n = suc (suc s₁.calls) in
    let (result, effect) =
      replace_subscription-eq-ok owner input e n (record s₁ { calls = suc s₁.calls }) sub refl
        ran in
    let ended : (upsert_subscription owner_id input e s).1.db ≡ (transaction body e s₁).1.db =
      ground arith in
    (
      opened owner input e n,
      ground arith,
      ground (arith, eq_refl owner),
      sym result,
      refl,
      ap (λ d. d.subscriptions) (ended ∙ kept ∙ effect),
    )

-- An upsert that succeeds leaves the owner exactly one current subscription, which is the returned
-- one and has the input's plan; the owner's venues are within the limit of that plan; and the
-- current subscription of anyone else is what it was.
pub upsert_subscription-one_current :
    (owner_id owner other : String) (input : SubscriptionInput) (e : Env) (s : State)
    (sub : Subscription)
    → e.parse_uuid owner_id ≡ some owner
    → owner ≢ other
    → (upsert_subscription owner_id input e s).0 ≡ ok sub
    → let rows = (upsert_subscription owner_id input e s).1.db.subscriptions in
      (r : SubscriptionRow) × (count_where (is_current_of owner) rows ≡ 1)
      × (find (is_current_of owner) rows ≡ some r)
      × (shown r ≡ sub)
      × (r.plan ≡ input.plan)
      × (exceeds (count_where (is_owned_by owner) s.db.venues) (limit_for_plan input.plan) ≡ false)
      × (find (is_current_of other) rows ≡ find (is_current_of other) s.db.subscriptions)
upsert_subscription-one_current owner_id owner other input e s sub parsed distinct h =
    let (r, fits, current, result, plan, rows) =
      upsert_subscription-eq-ok owner_id owner input e s sub parsed h in
    let old = s.db.subscriptions in
    (
      r,
      ap (count_where (is_current_of owner)) rows ∙ count-replaced e.db_now owner r old current,
      ap (find (is_current_of owner)) rows ∙ find-replaced e.db_now owner r old current,
      result,
      plan,
      fits,
      ap (find (is_current_of other)) rows
          ∙ find-replaced_other e.db_now owner other r old distinct current,
    )
