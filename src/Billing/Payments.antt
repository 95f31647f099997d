-- ===== src/Billing/Payments.antt =====
-- internal/modules/billing/payments.go, and `Payment` of model.go.
use pocket_mvp_backend.Prelude.{
  ℕ, Bool, Option, String, List, map, take, select_where, sort_by, leb, ◌==◌,
}
use pocket_mvp_backend.Schema.{PaymentRow, PaymentStatus, Database}
use pocket_mvp_backend.Effects.{Op, query, uuid_arg, ◌>>=◌, ◌>>◌}
use pocket_mvp_backend.Access.{require_owner}

pub record Payment : Type 0 where
  pub id : String
  pub provider : String
  pub status : PaymentStatus
  pub amount_minor : ℕ
  pub refunded_minor : ℕ
  pub currency : String
  pub paid_at : Option ℕ
  pub created_at : ℕ

-- The scanned columns.
abbrev pub scan_payment : PaymentRow → Payment
scan_payment p = record {
  id = p.id;
  provider = p.provider;
  status = p.status;
  amount_minor = p.amount_minor;
  refunded_minor = p.refunded_minor;
  currency = p.currency;
  paid_at = p.paid_at;
  created_at = p.created_at;
}

abbrev pub payment_in : String → PaymentRow → Bool
payment_in venue p = p.venue_id == venue

-- `ORDER BY created_at DESC`
abbrev pub newer_payment : PaymentRow → PaymentRow → Bool
newer_payment a b = leb b.created_at a.created_at

-- `LIMIT 200`
abbrev pub payment_limit : ℕ
payment_limit = 200

unfoldable pub select_payments : String → Database → List Payment
select_payments venue db =
    map scan_payment
      (take payment_limit (sort_by newer_payment (select_where (payment_in venue) db.payments)))

unfoldable pub list_payments : String → String → Op (List Payment)
list_payments owner_id venue_id = do
  require_owner owner_id venue_id
  venue ← uuid_arg venue_id
  query (λ e db. select_payments venue db)
