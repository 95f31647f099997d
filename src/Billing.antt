-- ===== src/Billing.antt =====
-- internal/modules/billing/subscriptions.go, and the subscription types of model.go.
pub mod OneLive
pub mod Payments
use pocket_mvp_backend.Prelude.{
  ℕ, Bool, true, false, ◌&&◌, ◌||◌, ◌+◌, ◌*◌, not, Option, none, some, String, List, [], ◌∷◌, ◌++◌,
  find, exists, count_where, update_where, ltb, if◌then◌else◌, ◌==◌,
}
use pocket_mvp_backend.Faults.{PgCode, app, AppFault, map_write_error, Error, no_rows}
use pocket_mvp_backend.Platform.{Env}
use pocket_mvp_backend.Schema.{SubscriptionRow, SubscriptionStatus, Database}
use pocket_mvp_backend.Effects.{
  Op, pure, fail_if, query, exec, statement, Statement, rejected, done, on_error, uuid_arg,
  transaction, ◌>>=◌, ◌>>◌,
}
use pocket_mvp_backend.Access.{is_owned_by}

pub record Subscription : Type 0 where
  pub id : String
  pub plan : String
  pub billing_cycle : String
  pub status : SubscriptionStatus
  pub venue_limit : Option ℕ
  pub trial_ends_at : ℕ
  pub current_period_ends_at : ℕ

pub record SubscriptionInput : Type 0 where
  pub plan : String
  pub billing_cycle : String

-- `^(start|business|pro)$` and `^(monthly|yearly)$`
abbrev pub is_plan : String → Bool
is_plan plan = plan == "start" || plan == "business" || plan == "pro"

abbrev pub is_billing_cycle : String → Bool
is_billing_cycle cycle = cycle == "monthly" || cycle == "yearly"

unfoldable pub limit_for_plan : String → Option ℕ
limit_for_plan plan =
    if plan == "start" then some 1 else if plan == "business" then some 3 else none

-- `status IN ('trialing', 'active', 'past_due')`
abbrev pub is_current : SubscriptionStatus → Bool
is_current SubscriptionStatus.trialing = true
is_current SubscriptionStatus.active = true
is_current SubscriptionStatus.past_due = true
is_current SubscriptionStatus.cancelled = false
is_current SubscriptionStatus.expired = false

abbrev pub is_current_of : String → SubscriptionRow → Bool
is_current_of owner r = r.owner_user_id == owner && is_current r.status

abbrev pub shown : SubscriptionRow → Subscription
shown r = record {
  id = r.id;
  plan = r.plan;
  billing_cycle = r.billing_cycle;
  status = r.status;
  venue_limit = r.venue_limit;
  trial_ends_at = r.trial_ends_at;
  current_period_ends_at = r.current_period_ends_at;
}

abbrev pub shown_option : Option SubscriptionRow → Option Subscription
shown_option none = none
shown_option (some r) = some (shown r)

-- At most one row of an owner is current, so that the order of the statement picks no other.
unfoldable pub get_subscription : String → Op (Option Subscription)
get_subscription owner_id = do
  owner ← uuid_arg owner_id
  query (λ e db. shown_option (find (is_current_of owner) db.subscriptions))

-- `venueLimit != nil && venueCount > *venueLimit`
abbrev pub exceeds : ℕ → Option ℕ → Bool
exceeds count none = false
exceeds count (some limit) = ltb limit count

abbrev pub cancel : ℕ → SubscriptionRow → SubscriptionRow
cancel now r = record r { status = SubscriptionStatus.cancelled; cancelled_at = some now }

-- interval '14 days' in microseconds
abbrev pub trial_period : ℕ
trial_period = 14 * 86400 * 1000000

-- The inserted row; `period_end` is `now() + interval '1 year'` or `… '1 month'`.
abbrev pub new_subscription : String → String → SubscriptionInput → ℕ → ℕ → SubscriptionRow
new_subscription id owner input now period_end = record {
  id = id;
  owner_user_id = owner;
  plan = input.plan;
  billing_cycle = input.billing_cycle;
  status = SubscriptionStatus.trialing;
  venue_limit = limit_for_plan input.plan;
  trial_ends_at = now + trial_period;
  current_period_ends_at = period_end;
  cancelled_at = none;
}

-- The insertion, with the primary key, workspace_subscriptions_one_current_idx and the owner's row.
unfoldable pub insert_subscription : SubscriptionRow → Database → Statement Subscription
insert_subscription r db =
    if exists (λ x. x.id == r.id || is_current_of r.owner_user_id x) db.subscriptions
    then rejected PgCode.unique_violation
    else if not (exists (λ u. u.id == r.owner_user_id) db.users)
    then rejected PgCode.foreign_key_violation
    else done (shown r) (record db { subscriptions = db.subscriptions ++ r ∷ [] })

-- The transaction of `UpsertSubscription`.
unfoldable pub replace_subscription : String → SubscriptionInput → Op Subscription
replace_subscription owner input = do
  exec (λ e db. record db {
    subscriptions = update_where (is_current_of owner) (cancel e.db_now) db.subscriptions;
  })
  on_error
      (statement (λ n e db.
        insert_subscription
          (new_subscription (e.fresh_id n) owner input e.db_now
            (e.add_period (input.billing_cycle == "yearly") e.db_now))
          db))
      map_write_error

unfoldable pub upsert_subscription : String → SubscriptionInput → Op Subscription
upsert_subscription owner_id input = do
  fail_if (not (is_plan input.plan) || not (is_billing_cycle input.billing_cycle))
      (app AppFault.invalid_input)
  owner ← uuid_arg owner_id
  venue_count ← query (λ e db. count_where (is_owned_by owner) db.venues)
  fail_if (exceeds venue_count (limit_for_plan input.plan)) (app AppFault.conflict)
  transaction (replace_subscription owner input)
