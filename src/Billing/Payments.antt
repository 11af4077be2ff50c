-- ===== src/Billing/Payments.antt =====
-- app/services/billing.py: payment records and the webhook that settles them.
pub mod Webhooks
pub mod Ledger
use Prim.Native.String.{◌++◌}
use recall_select.Prelude.{
  ℕ, not, ◌&&◌, Bool, Option, none, some, List, String, ◌==◌, get_or, if◌then◌else◌,
}
use recall_select.Mongo.{Driver, find_one, insert_one, find_one_and_update}
use recall_select.Documents.{
  Payment, Database, aware, Result, ok, err, duplicate_key, payments_index,
}
use recall_select.Billing.Plans.{Plan}
use recall_select.Billing.Tiers.{subscription_days}
use recall_select.Billing.Grants.{grant_tier}

abbrev pub paid_status : String
paid_status = "success"

abbrev pub new_payment : (invoice_id user_id : String) → Plan → ℕ → Payment
new_payment invoice_id user_id plan now = record {
  id = invoice_id;
  user_id = user_id;
  plan = plan.id;
  tier = plan.tier;
  amount = plan.amount_minor;
  ccy = plan.currency;
  status = "created";
  paid_at = none;
  created_at = aware now;
  updated_at = aware now;
}

abbrev pub stored_payment : Payment → Database → Option (List Payment) → Result (Payment × Database)
stored_payment p db none = err duplicate_key
stored_payment p db (some payments') = ok (p, record db { payments = payments' })

-- The filters of the queries.
abbrev pub has_invoice : String → Payment → Bool
has_invoice invoice_id p = p.id == invoice_id

abbrev pub is_unpaid : String → Payment → Bool
is_unpaid invoice_id p = p.id == invoice_id && not (p.status == paid_status)

-- The writes.
abbrev pub paid : ℕ → Payment → Payment
paid now p = record p { status = paid_status; paid_at = some (aware now); updated_at = aware now }

abbrev pub noted : String → ℕ → Payment → Payment
noted status now p = record p { status = status; updated_at = aware now }

-- The text that a paid grant carries.
abbrev pub invoice_reason : String → String
invoice_reason invoice_id = "invoice " ++ invoice_id

abbrev pub webhook_source : String
webhook_source = "monobank"

module _ ⦃mongo : Driver⦄ where
  unfoldable pub record_pending :
      (invoice_id user_id : String) → Plan → ℕ → Database → Result (Payment × Database)
  record_pending invoice_id user_id plan now db =
      let p = new_payment invoice_id user_id plan now in
      stored_payment p db (insert_one payments_index p db.payments)

  abbrev pub get_payment : String → Database → Option Payment
  get_payment invoice_id db = find_one (has_invoice invoice_id) db.payments

  -- The delivery that flips the status to success wins the update and grants; a later one finds
  -- nothing to update.
  unfoldable pub settle : String → Payment → ℕ → Database → Option Payment × Database
  settle invoice_id payment now db =
      let (updated, payments') =
        find_one_and_update (is_unpaid invoice_id) (paid now) db.payments in
      let db' : Database = record db { payments = payments' } in
      elim updated [
        | none ↦ (some payment, db')
        | some p ↦ (
          some p,
          (grant_tier payment.user_id payment.tier (some subscription_days)
              (invoice_reason invoice_id) webhook_source now db').1,
        )
      ]

  -- A status that does not pay is recorded, on a payment that is not paid.
  unfoldable pub note_status : String → String → Payment → ℕ → Database → Option Payment × Database
  note_status invoice_id status payment now db =
      let (updated, payments') =
        find_one_and_update (is_unpaid invoice_id) (noted status now) db.payments in
      (some (get_or updated payment), record db { payments = payments' })

  unfoldable pub apply_webhook :
      (invoice_id status : String) → ℕ → Database → Option Payment × Database
  unfolding settle note_status
  apply_webhook invoice_id status now db = elim (find_one (has_invoice invoice_id) db.payments) [
    | none ↦ (none, db)
    | some payment ↦
        if status == paid_status
        then settle invoice_id payment now db
        else note_status invoice_id status payment now db
  ]
