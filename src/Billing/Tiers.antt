-- ===== src/Billing/Tiers.antt =====
-- app/services/billing.py: which tier is in force, and what to say about renewing it.
pub mod Renewals
use recall_select.Prelude.{
  ℕ, ◌+◌, ◌*◌, ◌-◌, ◌/◌, ◌%◌, not, ◌&&◌, Option, none, some, String, ◌==◌, ltb, leb, eqb, lookup,
  if◌then◌else◌,
}
use recall_select.Documents.{User, DateTime, instant}
use recall_select.Billing.Plans.{Plan, free_tier, plans_by_tier, tier_name}
use mathlib.Core.Option

-- Times and spans are in microseconds.
abbrev pub second : ℕ
second = 1000000

abbrev pub day : ℕ
day = 86400 * second

abbrev pub subscription_days : ℕ
subscription_days = 30

abbrev pub renewal_warning_days : ℕ
renewal_warning_days = 7

abbrev pub lapsed_prompt_days : ℕ
lapsed_prompt_days = 30

-- An aware time in UTC stands for its instant.
abbrev pub as_aware : Option DateTime → Option ℕ
as_aware none = none
as_aware (some value) = some (instant value)

abbrev pub tier_expiry : Option User → Option ℕ
tier_expiry none = none
tier_expiry (some user) = as_aware user.tier_expires_at

unfoldable pub effective_tier : Option User → ℕ → String
effective_tier none now = free_tier
effective_tier (some user) now =
    if user.tier == free_tier then free_tier else elim (as_aware user.tier_expires_at) [
      | none ↦ user.tier
      | some expires ↦ if ltb now expires then user.tier else free_tier
    ]

pub record Renewal : Type 0 where
  pub status : String
  pub plan_id : Option String
  pub plan_name : Option String
  pub expires_at : Option ℕ
  pub days_left : Option ℕ

abbrev pub quiet : Renewal
quiet = record {
  status = "none";
  plan_id = none;
  plan_name = none;
  expires_at = none;
  days_left = none;
}

-- `plan.id if plan else None`
abbrev pub plan_id_of : String → Option String
plan_id_of tier = Option.map (λ (p : Plan). p.id) (lookup tier plans_by_tier)

-- `remaining.days + (1 if remaining.seconds else 0)`: a timedelta holds whole days, whole seconds
-- of the rest, and microseconds.
unfoldable pub days_left : ℕ → ℕ
days_left remaining = remaining / day + (if eqb (remaining % day / second) 0 then 0 else 1)

-- The branch of a paid tier that is in force.
unfoldable pub paid_renewal : String → Option ℕ → ℕ → Renewal
paid_renewal tier none now = quiet
paid_renewal tier (some expires) now =
    let left = days_left (expires - now) in
    record {
      status = if leb left renewal_warning_days then "expiring" else "active";
      plan_id = plan_id_of tier;
      plan_name = some (tier_name tier);
      expires_at = some expires;
      days_left = some left;
    }

-- The branch of an account that is free now. A lapse in the future is as recent as can be, as in
-- the source, where the difference is negative.
unfoldable pub lapsed_renewal : Option ℕ → Option String → ℕ → Renewal
lapsed_renewal (some lapsed_at) (some tier) now =
    if not (tier == "") && leb (now - lapsed_at) (lapsed_prompt_days * day)
    then record {
      status = "lapsed";
      plan_id = plan_id_of tier;
      plan_name = some (tier_name tier);
      expires_at = some lapsed_at;
      days_left = some 0;
    }
    else quiet
lapsed_renewal _ _ now = quiet

unfoldable pub renewal_state : Option User → ℕ → Renewal
renewal_state none now = quiet
renewal_state (some user) now =
    let tier = effective_tier (some user) now in
    if tier == free_tier
    then lapsed_renewal (as_aware user.tier_lapsed_at) user.lapsed_tier now
    else paid_renewal tier (as_aware user.tier_expires_at) now
