-- ===== src/Billing/Reconcile.antt =====
-- app/services/billing.py: the sweep that pulls the status of payments still in flight.
pub mod Sweeps
pub mod Recovery
use recall_select.Prelude.{
  ℕ, ◌+◌, ◌*◌, not, ◌&&◌, ◌||◌, Bool, true, false, Option, none, some, List, [], ◌∷◌, String, ◌==◌,
  leb, if◌then◌else◌,
}
use recall_select.Mongo.{Driver, find, sort_ascending, limit}
use recall_select.Documents.{Payment, Database, instant}
use recall_select.Billing.Tiers.{second}
use recall_select.Billing.Payments.{paid_status, apply_webhook}

abbrev pub reconcile_after_seconds : ℕ
reconcile_after_seconds = 300

-- Membership in `TERMINAL_STATUSES`.
abbrev pub is_terminal : String → Bool
is_terminal s = s == paid_status || s == "failure" || s == "reversed" || s == "expired"

-- `created_at <= now - older_than`, with the span on the other side since `-` stops at 0.
abbrev pub is_unsettled : ℕ → ℕ → Payment → Bool
is_unsettled older_than now p =
    not (is_terminal p.status) && leb (instant p.created_at + older_than * second) now

-- What the injected `fetch_status` did for an invoice, and the time at which the sweep went on.
pub data Answer : Type 0 where
  raised : Answer
  answered : Option String → ℕ → Answer

pub record Report : Type 0 where
  pub checked : ℕ
  pub settled : ℕ
  pub granted : ℕ
  pub errors : ℕ

abbrev pub empty_report : Report
empty_report = record { checked = 0; settled = 0; granted = 0; errors = 0 }

abbrev one_if : Bool → ℕ
one_if b = if b then 1 else 0

-- `not current or current == payment["status"]`, with the status that is left to apply.
abbrev pub news : Option String → Payment → Option String
news none p = none
news (some current) p = if current == "" || current == p.status then none else some current

module _ ⦃mongo : Driver⦄ where
  unfoldable pub list_unsettled : (older_than n : ℕ) → ℕ → Database → List Payment
  list_unsettled older_than n now db =
      limit n (
        sort_ascending (λ p. instant p.created_at) (find (is_unsettled older_than now) db.payments))

  -- The report after an applied status, by what `apply_webhook` returned.
  abbrev pub tally : String → Option Payment → Report → Report
  tally current none r = r
  tally current (some updated) r = record r {
    settled = r.settled + one_if (is_terminal updated.status);
    granted = r.granted + one_if (current == paid_status);
  }

  -- One payment of the sweep.
  unfoldable pub check_payment : Payment → Answer → Report × Database → Report × Database
  check_payment p raised (r, db) = (record r { errors = r.errors + 1 }, db)
  check_payment p (answered current now) (r, db) =
      let r' : Report = record r { checked = r.checked + 1 } in
      elim (news current p) [
        | none ↦ (r', db)
        | some status ↦
            let (updated, db') = apply_webhook p.id status now db in (tally status updated r', db')
      ]

  unfoldable pub sweep : (String → Answer) → List Payment → Report × Database → Report × Database
  unfolding check_payment
  sweep fetch_status [] s = s
  sweep fetch_status (p ∷ ps) s = sweep fetch_status ps (check_payment p (fetch_status p.id) s)

  unfoldable pub reconcile :
      (String → Answer) → (older_than n : ℕ) → ℕ → Database → Report × Database
  unfolding sweep list_unsettled
  reconcile fetch_status older_than n now db =
      sweep fetch_status (list_unsettled older_than n now db) (empty_report, db)

  -- `none` is the report with `skipped`, where no merchant token is configured.
  unfoldable pub reconcile_with_monobank :
      (configured : Bool)
      → (String → Answer)
      → (older_than n : ℕ) → ℕ
      → Database
      → Option Report × Database
  reconcile_with_monobank false fetch older_than n now db = (none, db)
  reconcile_with_monobank true fetch older_than n now db =
      let (r, db') = reconcile fetch older_than n now db in (some r, db')
