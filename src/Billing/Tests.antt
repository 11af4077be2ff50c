-- ===== src/Billing/Tests.antt =====
-- Runs of billing.py on the driver that keeps its documents in memory, and the theorems at concrete
-- inputs.
use recall_select.Prelude.{
  ℕ, ◌+◌, ◌*◌, ◌≤◌, ◌<◌, ◌≡◌, ◌≢◌, ◌↔◌, ◌⊎◌, refl, false, none, some, [], ◌∷◌, String, ◌==◌, arith,
  eq_iff, count, All, length, ltb, if◌then◌else◌, IsAscending, get_or, Bool, List, ◌++◌, ◌&&◌,
}
use recall_select.Mongo.InMemory.{in_memory}
use recall_select.Mongo.Query.{update_first, first}
use recall_select.Documents.{User, Payment, Database, aware, naive, ok, instant}
use recall_select.Users.{get_or_create_google_user, new_user, default_tier, has_id}
use recall_select.Users.Laws.{sign_in_again}
use recall_select.Billing.Plans.{plan_2x, free_tier, call_allowance, project_allowance, tier_name}
use recall_select.Billing.Plans.Allowances.{plan_allowances}
use recall_select.Billing.Tiers.{
  day, second, renewal_warning_days, effective_tier, as_aware, renewal_state, subscription_days,
}
use recall_select.Billing.Tiers.Renewals.{free_forever, expiring_iff}
use recall_select.Billing.Grants.{grant_tier, downgrade_expired}
use recall_select.Billing.Grants.Extension.{
  grant_in_force, buying_early_keeps_days, open_ended_is_truncated,
}
use recall_select.Billing.Grants.Downgrade.{entitlement, downgrade_keeps_entitlement}
use recall_select.Billing.Payments.{
  paid_status, is_unpaid, paid, invoice_reason, webhook_source, new_payment, record_pending,
  apply_webhook, settle,
}
use recall_select.Billing.Payments.Webhooks.{success_settles_once}
use recall_select.Billing.Payments.Ledger.{IsBalanced, is_invoice_grant, is_paid}
use recall_select.Billing.Reconcile.{
  Answer, answered, is_terminal, list_unsettled, reconcile, sweep, check_payment,
}
use recall_select.Billing.Reconcile.Sweeps.{is_due, reconcile_report, list_unsettled_lem}
use recall_select.Billing.Reconcile.Recovery.{IsPaidIn, reconcile_settles_paid, paid_stays_paid}
use recall_select.Billing.History.{
  sign_in, checkout, webhook, Reach, start, next, empty_database, Reach-IsBalanced,
  empty-IsBalanced, one_grant_per_paid_invoice,
}

-- A user who signs in at time 0, and the payment that a checkout opens.
abbrev ann : User
ann = new_user "u1" "ann@mail" (some "Ann") default_tier (some "g1") 0

abbrev signed_in : Database
signed_in = record empty_database { users = ann ∷ [] }

abbrev invoice : Payment
invoice = new_payment "inv1" "u1" plan_2x 100

abbrev pending : Database
pending = record signed_in { payments = invoice ∷ [] }

abbrev settled : Database
settled = (apply_webhook "inv1" "success" 200 pending).1

first_sign_in :
    get_or_create_google_user "u1" "g1" "ann@mail" (some "Ann") 0 empty_database
    ≡ ok (ann, signed_in)
unfolding get_or_create_google_user
first_sign_in = refl

first_checkout : record_pending "inv1" "u1" plan_2x 100 signed_in ≡ ok (invoice, pending)
unfolding record_pending
first_checkout = refl

-- One success grants a month; a second changes nothing.
month_granted :
    (effective_tier (first (has_id "u1") settled.users) (200 + 30 * day) ≡ "free")
    × (effective_tier (first (has_id "u1") settled.users) (199 + 30 * day) ≡ "paid_2x")
    × (length settled.tier_grants ≡ 1)
unfolding apply_webhook grant_tier effective_tier
month_granted = (refl, refl, refl)

history : Reach empty_database settled
history =
    next
      (next (next start (sign_in "u1" "g1" "ann@mail" (some "Ann") 0 ann first_sign_in))
        (checkout "inv1" "u1" plan_2x 100 invoice refl first_checkout))
      (webhook "inv1" "success" 200 refl)

one_grant_per_paid_invoice_example :
    (count (is_invoice_grant "inv1") settled.tier_grants ≡ count (is_paid "inv1") settled.payments)
    × (count (is_invoice_grant "inv1") settled.tier_grants ≤ 1)
one_grant_per_paid_invoice_example = one_grant_per_paid_invoice "inv1" history

pending_keyed : (i : String) → count (λ (p : Payment). p.id == i) pending.payments ≤ 1
pending_keyed i = ground arith

success_settles_once_example :
    let (r, db') = apply_webhook "inv1" paid_status 200 pending in
    (r ≡ some (paid 200 invoice))
    × (db'
        ≡ (grant_tier "u1" "paid_2x"
            (some subscription_days)
            (invoice_reason "inv1")
            webhook_source
            200
            (record pending {
              payments = update_first (is_unpaid "inv1") (paid 200) pending.payments;
            })).1)
    × ((status : String) (later : ℕ)
        → apply_webhook "inv1" status later db' ≡ (some (paid 200 invoice), db'))
success_settles_once_example =
    success_settles_once "inv1" 200 pending pending_keyed refl
      (ground (arith, eq_iff "created" "success"))

pending-IsBalanced : IsBalanced pending
pending-IsBalanced = record { keyed = pending_keyed; buyers = (refl, tt); once = λ i. ground arith }

-- Monobank says that the invoice was paid.
abbrev says_paid : String → Answer
says_paid i = answered (some "success") 900000000

reconcile_settles_paid_example :
    All
      (λ p.
        (t : ℕ)
        → says_paid p.id ≡ answered (some paid_status) t
        → IsPaidIn p.id (reconcile says_paid 300 100 800000000 pending).1.payments)
      (list_unsettled 300 100 800000000 pending)
reconcile_settles_paid_example =
    reconcile_settles_paid says_paid 300 100 800000000 pending pending-IsBalanced

reconcile_report_example :
    let r = (reconcile says_paid 300 100 800000000 pending).0 in
    (r.checked + r.errors ≡ length (list_unsettled 300 100 800000000 pending))
    × (r.granted ≤ r.settled)
    × (r.settled ≤ r.checked)
reconcile_report_example = reconcile_report says_paid 300 100 800000000 pending

-- The sweep finds the payment and settles it.
sweep_settles_one :
    (reconcile says_paid 300 100 800000000 pending).0
    ≡ record { checked = 1; settled = 1; granted = 1; errors = 0 }
unfolding reconcile list_unsettled sweep check_payment apply_webhook settle grant_tier
sweep_settles_one = refl

list_unsettled_lem_example :
    let ps = list_unsettled 300 100 800000000 pending in
    All (λ p. (is_terminal p.status ≡ false) × (instant p.created_at + 300 * second ≤ 800000000)) ps
    × ((left : List Payment) × ((f : Payment → Bool)
          → count f (ps ++ left) ≡ count (λ p. f p && is_due 300 800000000 p) pending.payments)
        × IsAscending (λ p. instant p.created_at) (ps ++ left)
        × ((◌≡◌ {A = ℕ} 100 0) ⊎ (length ps ≤ 100))
        × ((left ≡ []) ⊎ (length ps ≡ 100)))
list_unsettled_lem_example = list_unsettled_lem 300 100 800000000 pending

settled-IsPaidIn : IsPaidIn "inv1" settled.payments
unfolding apply_webhook grant_tier
settled-IsPaidIn = (paid 200 invoice, refl, refl)

settled-IsBalanced : IsBalanced settled
settled-IsBalanced = Reach-IsBalanced empty-IsBalanced history

paid_stays_paid_example : IsPaidIn "inv1" (apply_webhook "inv1" "reversed" 500 settled).1.payments
paid_stays_paid_example =
    paid_stays_paid "inv1" "inv1" "reversed" 500 settled settled-IsBalanced settled-IsPaidIn

-- A user whose month ends at 50 days, and one whose tier has no end.
abbrev bob : User
bob = record ann { tier = "paid_2x"; tier_expires_at = some (naive (50 * day)) }

abbrev cat : User
cat = record ann { tier = "paid_2x" }

abbrev with_bob : Database
with_bob = record empty_database { users = bob ∷ [] }

abbrev with_cat : Database
with_cat = record empty_database { users = cat ∷ [] }

paid_is_not_free : ◌≢◌ {A = String} "paid_2x" "free"
paid_is_not_free = ground (arith, eq_iff "paid_2x" "free")

downgrade_keeps_entitlement_example :
    entitlement "u1" (downgrade_expired (60 * day) with_bob).1.users (61 * day)
    ≡ entitlement "u1" with_bob.users (61 * day)
downgrade_keeps_entitlement_example =
    downgrade_keeps_entitlement (60 * day) with_bob (λ i. ground arith) "u1" (61 * day)
      (omega arith)

-- What each of them has after a month that is bought on day 40.
abbrev after_purchase : User → ℕ → User
after_purchase u ends = record u {
  tier = "paid_2x";
  tier_expires_at = some (aware ends);
  updated_at = aware (40 * day);
}

bob_buys :
    (grant_tier "u1" "paid_2x" (some 30) "r" "s" (40 * day) with_bob).0
    ≡ some (after_purchase bob (80 * day))
unfolding grant_tier
bob_buys = refl

cat_buys :
    (grant_tier "u1" "paid_2x" (some 30) "r" "s" (40 * day) with_cat).0
    ≡ some (after_purchase cat (70 * day))
unfolding grant_tier
cat_buys = refl

grant_in_force_example :
    let start : ℕ =
      (if effective_tier (some bob) (40 * day) == "paid_2x"
        then get_or (as_aware bob.tier_expires_at) (40 * day)
        else 40 * day) in
    effective_tier (some (after_purchase bob (80 * day))) (79 * day)
    ≡ (if ltb (79 * day) (start + 30 * day) then "paid_2x" else free_tier)
grant_in_force_example =
    grant_in_force "u1" "paid_2x" 30 "r" "s" (40 * day) (79 * day) with_bob paid_is_not_free refl
      bob_buys

bob_runs : effective_tier (some bob) (49 * day) ≡ "paid_2x"
unfolding effective_tier
bob_runs = refl

buying_early_keeps_days_example :
    effective_tier (some (after_purchase bob (80 * day))) (49 * day) ≡ "paid_2x"
buying_early_keeps_days_example =
    buying_early_keeps_days "u1" "paid_2x" 30 "r" "s" (40 * day) (49 * day) (50 * day) with_bob
      paid_is_not_free refl bob_buys refl (omega arith) bob_runs

open_ended_is_truncated_example :
    (effective_tier (some cat) (70 * day) ≡ "paid_2x")
    × (effective_tier (some (after_purchase cat (70 * day))) (70 * day) ≡ free_tier)
open_ended_is_truncated_example =
    open_ended_is_truncated "u1" "paid_2x" 30 "r" "s" (40 * day) (70 * day) with_cat
      paid_is_not_free refl cat_buys refl refl (omega arith)

bob_is_over : effective_tier (some bob) (50 * day) ≡ free_tier
unfolding effective_tier
bob_is_over = refl

free_forever_example : effective_tier (some bob) (51 * day) ≡ free_tier
free_forever_example = free_forever (some bob) (50 * day) (51 * day) (omega arith) bob_is_over

expiring_iff_example :
    (((renewal_state (some bob) (40 * day)).status ≡ "expiring")
      ↔ (50 * day < 40 * day + renewal_warning_days * day + second))
    × ((renewal_state (some bob) (40 * day)).expires_at ≡ some (50 * day))
expiring_iff_example = expiring_iff bob (40 * day) (50 * day) paid_is_not_free refl (omega arith)

plan_allowances_example :
    (call_allowance "paid_5x" ≡ some 30000)
    × (project_allowance "paid_5x" ≡ some 20)
    × (tier_name "paid_5x" ≡ "Paid 5x")
plan_allowances_example = plan_allowances "5x" refl

-- Signing in again.
sign_in_again_example :
    get_or_create_google_user "u2" "g1" "new@mail" none 9 signed_in ≡ ok (ann, signed_in)
sign_in_again_example =
    sign_in_again "u1" "g1" "ann@mail" (some "Ann") 0 empty_database "u2" "new@mail" none 9
      first_sign_in
