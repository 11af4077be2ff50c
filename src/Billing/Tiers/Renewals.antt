-- ===== src/Billing/Tiers/Renewals.antt =====
-- When a tier is in force, and when the account page prompts for a renewal.
use recall_select.Prelude.{
  ℕ, ◌+◌, ◌*◌, ◌-◌, ◌≤◌, ◌<◌, ◌≡◌, ◌≢◌, ◌↔◌, refl, Option, none, some, String, arith, eq_iff,
  ==-false_of_ne, leb, Bool-cases, Option-cases, inl, inr,
}
use recall_select.Documents.{User}
use recall_select.Billing.Plans.{free_tier}
use recall_select.Billing.Tiers.{
  second, day, renewal_warning_days, as_aware, effective_tier, days_left, paid_renewal,
  lapsed_renewal, renewal_state,
}

-- A tier that has run out does not come back by waiting.
pub free_forever :
    (u : Option User) (now later : ℕ)
    → now ≤ later
    → effective_tier u now ≡ free_tier
    → effective_tier u later ≡ free_tier
unfolding effective_tier
free_forever none now later h e = refl
free_forever (some u) now later h e = elim (Option-cases (as_aware u.tier_expires_at)) [
  | inl n ↦ ground arith
  | inr (t, s) ↦ ground arith
]

-- The days shown are the least number of whole days that is within a second of the time left.
pub days_left_bounds :
    (remaining : ℕ)
    → (remaining < days_left remaining * day + second)
      × (days_left remaining * day + second ≤ remaining + day)
unfolding days_left
days_left_bounds remaining = ground arith

-- A text is not another that is written out.
active_ne_expiring : ◌≢◌ {A = String} "active" "expiring"
active_ne_expiring = ground (arith, eq_iff "active" "expiring")

module _ (u : User) (now expires : ℕ) (named : u.tier ≢ free_tier)
    (ends : as_aware u.tier_expires_at ≡ some expires) where
  -- A paid tier is in force until its expiry, and not from then on.
  pub effective_tier_running : now < expires → effective_tier (some u) now ≡ u.tier
  unfolding effective_tier
  effective_tier_running h = ground (arith, eq_iff u.tier free_tier)

  pub effective_tier_over : expires ≤ now → effective_tier (some u) now ≡ free_tier
  unfolding effective_tier
  effective_tier_over h = ground (arith, eq_iff u.tier free_tier)

  renewal_state_running :
      now < expires → renewal_state (some u) now ≡ paid_renewal u.tier (some expires) now
  unfolding renewal_state
  renewal_state_running h =
      rw (effective_tier_running h, ==-false_of_ne u.tier free_tier named, ends) refl

  renewal_state_over :
      expires ≤ now
      → renewal_state (some u) now ≡ lapsed_renewal (as_aware u.tier_lapsed_at) u.lapsed_tier now
  unfolding renewal_state
  renewal_state_over h = rw (effective_tier_over h) refl

  -- While a paid tier runs, the page says that it is expiring just when less than a second more
  -- than the warning days is left, and it shows the tier's end.
  pub expiring_iff :
      now < expires
      → (((renewal_state (some u) now).status ≡ "expiring")
          ↔ (expires < now + renewal_warning_days * day + second))
        × ((renewal_state (some u) now).expires_at ≡ some expires)
  unfolding paid_renewal
  expiring_iff h =
      rw (renewal_state_running h)
        (elim (Bool-cases (leb (days_left (expires - now)) renewal_warning_days)) [
          | inl t ↦
              (rw t ((λ _. ground (arith, days_left_bounds (expires - now))), (λ _. refl)), refl)
          | inr t ↦ (
            rw t (
              (λ e. absurd (active_ne_expiring e)),
              (λ k. absurd (ground (arith, days_left_bounds (expires - now)))),
            ),
            refl,
          )
        ])
