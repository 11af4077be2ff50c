-- ===== src/Billing/Plans.antt =====
-- app/services/billing.py: the plan catalogue and what each tier allows.
pub mod Allowances
pub mod Page
use recall_select.Prelude.{
  ℕ, String, Option, none, some, List, [], ◌∷◌, ◌==◌, if◌then◌else◌, Dict, lookup, insert,
}

abbrev pub free_tier : String
free_tier = "free"

abbrev pub free_calls : ℕ
free_calls = 3000

abbrev pub free_projects : ℕ
free_projects = 1

-- `calls` and `projects` are `none` where the plan is unmetered.
pub record Plan : Type 0 where
  pub id : String
  pub name : String
  pub tier : String
  pub calls : Option ℕ
  pub projects : Option ℕ
  pub amount_minor : ℕ
  pub currency : String

abbrev plan : String → String → String → Option ℕ → Option ℕ → ℕ → String → Plan
plan id name tier calls projects amount_minor currency = record {
  id = id;
  name = name;
  tier = tier;
  calls = calls;
  projects = projects;
  amount_minor = amount_minor;
  currency = currency;
}

abbrev pub plan_2x : Plan
plan_2x = plan "2x" "Paid 2x" "paid_2x" (some 6000) (some 2) 1700 "USD"

abbrev pub plan_5x : Plan
plan_5x = plan "5x" "Paid 5x" "paid_5x" (some 30000) (some 20) 6700 "USD"

abbrev pub plan_unlim : Plan
plan_unlim = plan "unlim" "Unlim" "unlim" none none 22700 "USD"

abbrev pub plans : Dict Plan
plans = ("2x", plan_2x) ∷ ("5x", plan_5x) ∷ ("unlim", plan_unlim) ∷ []

abbrev pub get_plan : String → Option Plan
get_plan plan_id = lookup plan_id plans

-- The catalogue keyed by tier.
abbrev keyed_by_tier : Dict Plan → Dict Plan → Dict Plan
keyed_by_tier acc [] = acc
keyed_by_tier acc ((_, p) ∷ rest) = keyed_by_tier (insert p.tier p acc) rest

abbrev pub plans_by_tier : Dict Plan
plans_by_tier = keyed_by_tier [] plans

unfoldable pub tier_name : String → String
tier_name tier =
    if tier == free_tier
    then "Free"
    else elim (lookup tier plans_by_tier) [ some p ↦ p.name | none ↦ "Free" ]

unfoldable pub call_allowance : String → Option ℕ
call_allowance tier =
    if tier == free_tier
    then some free_calls
    else elim (lookup tier plans_by_tier) [ some p ↦ p.calls | none ↦ some free_calls ]

unfoldable pub project_allowance : String → Option ℕ
project_allowance tier =
    if tier == free_tier
    then some free_projects
    else elim (lookup tier plans_by_tier) [ some p ↦ p.projects | none ↦ some free_projects ]
