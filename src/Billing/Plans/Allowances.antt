-- ===== src/Billing/Plans/Allowances.antt =====
-- What a tier allows is what the catalogue says of its plan.
use recall_select.Prelude.{
  ◌≡◌, refl, ◌⊎◌, inl, inr, String, some, ◌==◌, arith, eq_of_==, Bool-cases,
}
use mathlib.Core.Path.{subst}
use recall_select.Billing.Plans.{
  Plan, plan_2x, plan_5x, plan_unlim, free_calls, free_projects, get_plan, tier_name,
  call_allowance, project_allowance,
}

-- Every count and the name are those of the plan.
abbrev MatchesPlan : Plan → Type 0
MatchesPlan p =
    (call_allowance p.tier ≡ p.calls)
    × (project_allowance p.tier ≡ p.projects)
    × (tier_name p.tier ≡ p.name)

-- The tier that a plan of the catalogue buys has that plan's allowances and name.
pub plan_allowances :
    (plan_id : String) {p : Plan}
    → get_plan plan_id ≡ some p
    → (call_allowance p.tier ≡ p.calls)
      × (project_allowance p.tier ≡ p.projects)
      × (tier_name p.tier ≡ p.name)
unfolding call_allowance project_allowance tier_name
plan_allowances plan_id {p = p} e = elim (Bool-cases ("2x" == plan_id)) [
  | inl a ↦ let same : plan_2x ≡ p = ground arith in subst MatchesPlan same (refl, refl, refl)
  | inr a ↦ elim (Bool-cases ("5x" == plan_id)) [
    | inl b ↦ let same : plan_5x ≡ p = ground arith in subst MatchesPlan same (refl, refl, refl)
    | inr b ↦ elim (Bool-cases ("unlim" == plan_id)) [
      | inl c ↦
          let same : plan_unlim ≡ p = ground arith in subst MatchesPlan same (refl, refl, refl)
      | inr c ↦ absurd (ground arith)
    ]
  ]
]

-- A tier is bought by a plan of the catalogue, or it has the free allowances and name.
unknown_tier_is_free :
    (tier : String)
    → ((plan_id : String) × (p : Plan) × (get_plan plan_id ≡ some p) × (p.tier ≡ tier))
      ⊎ ((call_allowance tier ≡ some free_calls)
          × (project_allowance tier ≡ some free_projects)
          × (tier_name tier ≡ "Free"))
unfolding call_allowance project_allowance tier_name
unknown_tier_is_free tier = elim (Bool-cases ("paid_2x" == tier)) [
  | inl a ↦ inl ("2x", _, refl, eq_of_== _ _ a)
  | inr a ↦ elim (Bool-cases ("paid_5x" == tier)) [
    | inl b ↦ inl ("5x", _, refl, eq_of_== _ _ b)
    | inr b ↦ elim (Bool-cases ("unlim" == tier)) [
      | inl c ↦ inl ("unlim", _, refl, eq_of_== _ _ c)
      | inr c ↦ inr (ground arith, ground arith, ground arith)
    ]
  ]
]
