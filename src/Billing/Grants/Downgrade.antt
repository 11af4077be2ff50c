-- ===== src/Billing/Grants/Downgrade.antt =====
-- Dropping the tiers that have run out changes nobody's entitlement.
use recall_select.Prelude.{
  ℕ, ◌≤◌, ◌≡◌, refl, true, some, List, [], ◌∷◌, String, ◌==◌, arith, eq_iff, eq_of_==, All, All-map,
  Bool-cases, Option-cases, inl, inr, sym, ◌∙◌,
}
use native.Mathlib.Nat.{le_refl}
use recall_select.Mongo.{Driver, find_lem, find_one_and_update_lem}
use recall_select.Mongo.Query.{
  first, update_first, filter, first-update_first_same, first-update_first_self, update_first-none,
}
use recall_select.Mongo.Unique.{HasUniqueKeys, first_of_own_key, filter-All}
use recall_select.Documents.{User, Database}
use recall_select.Users.{has_id, patched}
use recall_select.Billing.Plans.{free_tier}
use recall_select.Billing.Tiers.{effective_tier}
use recall_select.Billing.Tiers.Renewals.{free_forever}
use recall_select.Billing.Grants.{has_expired, lapsed, downgrade_each, downgrade_expired}

-- The entitlement of the user that an id names.
abbrev pub entitlement : String → List User → ℕ → String
entitlement user_id users t = effective_tier (first (has_id user_id) users) t

lapsed_is_free :
    (tier : String) (now t : ℕ) (u : User)
    → effective_tier (some (patched (lapsed tier now) now u)) t ≡ free_tier
unfolding effective_tier
lapsed_is_free tier now t u = refl

expired_is_free :
    (now : ℕ) (u : User) → has_expired now u ≡ true → effective_tier (some u) now ≡ free_tier
unfolding effective_tier
expired_is_free now u e = ground arith

-- The write on an account that is free now leaves every entitlement as it is.
lapse_keeps :
    (i j tier : String) (now t : ℕ) (users : List User)
    → now ≤ t
    → entitlement j users now ≡ free_tier
    → entitlement i (update_first (has_id j) (patched (lapsed tier now) now) users) t
      ≡ entitlement i users t
lapse_keeps i j tier now t users le e = elim (Bool-cases (i == j)) [
  | inl same ↦ elim (Option-cases (first (has_id j) users)) [
    | inl miss ↦ rw (update_first-none (has_id j) (patched (lapsed tier now) now) users miss) refl
    | inr (a, found) ↦
        let write : User → User = patched (lapsed tier now) now in
        let left : first (has_id i) (update_first (has_id j) write users) ≡ some (write a) =
          first-update_first_self (has_id i) (has_id j) write users
            (λ b. rw (eq_of_== i j same) refl) (λ b p. rw (eq_of_== i j same) p) a found in
        rw left
          (lapsed_is_free tier now t a ∙ sym (rw (eq_of_== i j same) (free_forever _ now t le e)))
  ]
  | inr other ↦
      rw
        (first-update_first_same (has_id i) (has_id j) (patched (lapsed tier now) now) users
          (λ a p. ground (arith, eq_iff a.id j, eq_iff a.id i, eq_iff i j))
          (λ a p. ground (arith, eq_iff a.id j, eq_iff a.id i, eq_iff i j)))
        refl
]

module _ ⦃mongo : Driver⦄ where
  each_keeps :
      (rest : List User) (now : ℕ) (db : Database)
      → All (λ u. entitlement u.id db.users now ≡ free_tier) rest
      → (i : String) (t : ℕ) → now ≤ t
      → entitlement i (downgrade_each rest now db).users t ≡ entitlement i db.users t
  unfolding downgrade_each
  each_keeps [] now db h i t le = refl
  each_keeps (u ∷ rest) now db h i t le =
      let write : User → User = patched (lapsed u.tier now) now in
      let step : (j : String) (s : ℕ)
          → now ≤ s
          → entitlement j (update_first (has_id u.id) write db.users) s ≡ entitlement j db.users s =
        λ j s ls. lapse_keeps j u.id u.tier now s db.users ls h.0 in
      rw (find_one_and_update_lem (has_id u.id) write db.users, downgrade_each)
        (each_keeps rest now (record db { users = update_first (has_id u.id) write db.users })
            (All-map (λ v e. step v.id now (le_refl now) ∙ e) rest h.1) i t le
          ∙ step i t le)

  -- After the sweep every id has, now and later, the tier that it had without it.
  pub downgrade_keeps_entitlement :
      (now : ℕ) (db : Database)
      → HasUniqueKeys (λ (u : User). u.id) db.users
      → (user_id : String) (t : ℕ) → now ≤ t
      → entitlement user_id (downgrade_expired now db).1.users t ≡ entitlement user_id db.users t
  unfolding downgrade_expired
  downgrade_keeps_entitlement now db h user_id t le = rw (find_lem (has_expired now) db.users) (
      each_keeps (filter (has_expired now) db.users) now db
        (All-map (λ u e. rw e.1 (expired_is_free now u e.0)) (filter (has_expired now) db.users)
          (filter-All _ (has_expired now) db.users (first_of_own_key (λ u. u.id) db.users h)))
        user_id t le)
