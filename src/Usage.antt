-- ===== src/Usage.antt =====
-- app/services/usage.py: the monthly meter of calls and the gate on it.
pub mod Calendar
pub mod Meter
pub use Calendar.*
use recall_select.Prelude.{ℕ, ◌+◌, ◌&&◌, Bool, Option, none, some, String, ◌==◌, leb, if◌then◌else◌}
use recall_select.Mongo.{Driver, find_one, find_one_and_upsert}
use recall_select.Documents.{
  Period, UsageRow, Database, aware, Result, ok, err, quota_exceeded, same_period,
}
use recall_select.Users.{get_user}
use recall_select.Billing.Tiers.{effective_tier}
use recall_select.Billing.Plans.{call_allowance}

-- The filter of a user's row for a month.
abbrev pub is_row : String → Period → UsageRow → Bool
is_row user_id period r = r.user_id == user_id && same_period r.period period

abbrev pub new_row : String → Period → ℕ → ℕ → UsageRow
new_row user_id period n now = record {
  user_id = user_id;
  period = period;
  calls = n;
  created_at = aware now;
  updated_at = aware now;
}

-- `$inc` and `$set`.
abbrev pub counted : ℕ → ℕ → UsageRow → UsageRow
counted n now r = record r { calls = r.calls + n; updated_at = aware now }

module _ ⦃mongo : Driver⦄ where
  unfoldable pub calls_this_period : String → Period → Database → ℕ
  calls_this_period user_id period db = elim (find_one (is_row user_id period) db.usage) [
    | some r ↦ r.calls
    | none ↦ 0
  ]

  -- The new total, and the database.
  unfoldable pub record_call : String → (n : ℕ) → Period → ℕ → Database → ℕ × Database
  record_call user_id n period now db =
      let (row, usage') =
        find_one_and_upsert (is_row user_id period) (counted n now) (new_row user_id period n now)
          db.usage in
      (row.calls, record db { usage = usage' })

  -- Raises once the month's allowance is spent.
  unfoldable pub check_call_allowed : String → ℕ → Database → Result (Unit {0})
  check_call_allowed user_id now db =
      let tier = effective_tier (get_user user_id db) now in
      let period = current_period now in
      elim (call_allowance tier) [
        | none ↦ ok tt
        | some allowance ↦
            if leb allowance (calls_this_period user_id period db)
            then err (quota_exceeded user_id tier allowance period)
            else ok tt
      ]
