-- ===== src/Billing/Grants/Extension.antt =====
-- What a grant does to the user, to the log and to everything else.
use recall_select.Prelude.{
  ℕ, ◌+◌, ◌*◌, ◌≤◌, ◌<◌, ◌≡◌, ◌≢◌, refl, false, Option, none, some, String, arith, eq_iff,
  ==-false_of_ne, ◌==◌, get_or, Option-cases, inl, inr, any, List, [], ◌∷◌, ltb, if◌then◌else◌,
}
use recall_select.Mongo.{Driver, find_one_lem, find_one_and_update_lem, insert_one_lem, placed}
use recall_select.Mongo.Query.{first, update_first}
use recall_select.Documents.{User, Database, tier_grants_index}
use recall_select.Users.{has_id, patched}
use recall_select.Billing.Plans.{free_tier}
use recall_select.Billing.Tiers.{day, as_aware, effective_tier}
use recall_select.Billing.Grants.{grant_start, grant_expiry, granted, grant_row, grant_tier}
use mathlib.Core.Path.{subst}

-- No row clashes with another.
any_no_index {ℓ} : {A : Type ℓ} (xs : List A) → any (λ _. false) xs ≡ false
any_no_index [] = refl
any_no_index (x ∷ xs) = any_no_index xs

-- What an entitlement says of the user's document.
running_of_effective :
    (u : User) (tier : String) (t ends : ℕ)
    → tier ≢ free_tier
    → as_aware u.tier_expires_at ≡ some ends
    → effective_tier (some u) t ≡ tier
    → (u.tier ≡ tier) × (t < ends)
unfolding effective_tier
running_of_effective u tier t ends h k f = ground arith

-- The start of a grant, told by the tier that is in force.
start_where_running :
    (tier : String) (u : User) (now : ℕ)
    → tier ≢ free_tier
    → (if effective_tier (some u) now == tier then get_or (as_aware u.tier_expires_at) now else now)
      ≡ grant_start tier u now
unfolding effective_tier
start_where_running tier u now h = elim (Option-cases (as_aware u.tier_expires_at)) [
  | inl e ↦
      rw (e, effective_tier)
        (ground (arith, eq_iff u.tier tier, eq_iff u.tier free_tier, ==-false_of_ne free_tier tier))
  | inr (ends, e) ↦
      rw (e, effective_tier)
        (ground (arith, eq_iff u.tier tier, eq_iff u.tier free_tier, ==-false_of_ne free_tier tier))
]

module _ ⦃mongo : Driver⦄ where
  -- A grant to a user that there is not changes nothing.
  pub grant_tier_unknown :
      (user_id tier : String) (days : Option ℕ) (reason source : String) (now : ℕ) (db : Database)
      → first (has_id user_id) db.users ≡ none
      → grant_tier user_id tier days reason source now db ≡ (none, db)
  unfolding grant_tier
  grant_tier_unknown user_id tier days reason source now db e =
      ground (arith, find_one_lem (has_id user_id) db.users)

  -- A grant writes the user that has the id, adds one row to the log that says what was granted,
  -- and leaves the other collections as they are.
  pub grant_tier_lem :
      (user_id tier : String) (days : Option ℕ) (reason source : String) (now : ℕ) (db : Database)
      {u : User}
      → first (has_id user_id) db.users ≡ some u
      → let write = patched (granted tier (grant_expiry tier days u now)) now in
        grant_tier user_id tier days reason source now db ≡ (
          some (write u),
          record db {
            users = update_first (has_id user_id) write db.users;
            tier_grants = placed (grant_row user_id u tier days reason source now) db.tier_grants;
          },
        )
  unfolding grant_tier
  grant_tier_lem user_id tier days reason source now db {u = u} e =
      let row = grant_row user_id u tier days reason source now in
      ground (
        arith,
        find_one_lem (has_id user_id) db.users,
        find_one_and_update_lem (has_id user_id)
            (patched (granted tier (grant_expiry tier days u now)) now) db.users,
        insert_one_lem tier_grants_index row db.tier_grants,
        any_no_index {0} db.tier_grants,
      )

  grant_in_force_from :
      (user_id tier : String) (n : ℕ) (reason source : String) (now t : ℕ) (db : Database)
      {u u' : User}
      → tier ≢ free_tier
      → first (has_id user_id) db.users ≡ some u
      → (grant_tier user_id tier (some n) reason source now db).0 ≡ some u'
      → effective_tier (some u') t
        ≡ (if ltb t (grant_start tier u now + n * day) then tier else free_tier)
  unfolding effective_tier
  grant_in_force_from user_id tier n reason source now t db {u = u} {u' = u'} h e g =
      let write = patched (granted tier (grant_expiry tier (some n) u now)) now in
      let same : write u ≡ u' =
        ground (arith, grant_tier_lem user_id tier (some n) reason source now db e) in
      subst
        (λ x.
          effective_tier (some x) t
          ≡ (if ltb t (grant_start tier u now + n * day) then tier else free_tier))
        same (rw (==-false_of_ne tier free_tier h) refl)

  -- After a grant of `n` days of a paid tier the tier is in force exactly until `n` days past its
  -- start: the end of the same tier where it runs at the time of the grant and has an end, and now
  -- otherwise.
  pub grant_in_force :
      (user_id tier : String) (n : ℕ) (reason source : String) (now t : ℕ) (db : Database)
      {u u' : User}
      → tier ≢ free_tier
      → first (has_id user_id) db.users ≡ some u
      → (grant_tier user_id tier (some n) reason source now db).0 ≡ some u'
      → let start : ℕ =
          (if effective_tier (some u) now == tier
            then get_or (as_aware u.tier_expires_at) now
            else now) in
        effective_tier (some u') t ≡ (if ltb t (start + n * day) then tier else free_tier)
  grant_in_force user_id tier n reason source now t db {u = u} h e g =
      rw (start_where_running tier u now h)
        (grant_in_force_from user_id tier n reason source now t db h e g)

  -- Buying again the paid tier that runs, where it has an end, never takes a moment of it away.
  pub buying_early_keeps_days :
      (user_id tier : String) (n : ℕ) (reason source : String) (now t ends : ℕ) (db : Database)
      {u u' : User}
      → tier ≢ free_tier
      → first (has_id user_id) db.users ≡ some u
      → (grant_tier user_id tier (some n) reason source now db).0 ≡ some u'
      → as_aware u.tier_expires_at ≡ some ends
      → now ≤ t
      → effective_tier (some u) t ≡ tier
      → effective_tier (some u') t ≡ tier
  buying_early_keeps_days user_id tier n reason source now t ends db {u = u} h e g k le f =
      let (same, running) = running_of_effective u tier t ends h k f in
      rw (grant_in_force_from user_id tier n reason source now t db h e g)
        (ground (arith, eq_iff u.tier tier))

  -- A tier with no end that is bought again has one: from then on the account is free, where it was
  -- not before.
  pub open_ended_is_truncated :
      (user_id tier : String) (n : ℕ) (reason source : String) (now t : ℕ) (db : Database)
      {u u' : User}
      → tier ≢ free_tier
      → first (has_id user_id) db.users ≡ some u
      → (grant_tier user_id tier (some n) reason source now db).0 ≡ some u'
      → u.tier ≡ tier
      → u.tier_expires_at ≡ none
      → now + n * day ≤ t
      → (effective_tier (some u) t ≡ tier) × (effective_tier (some u') t ≡ free_tier)
  open_ended_is_truncated user_id tier n reason source now t db {u = u} h e g k x le = (
    unfold effective_tier in ground (arith, eq_iff u.tier free_tier),
    rw (grant_in_force_from user_id tier n reason source now t db h e g) (ground arith),
  )
