-- ===== src/Billing/Grants.antt =====
-- app/services/billing.py: granting a tier, the log of grants, and dropping what has run out.
pub mod Extension
pub mod Downgrade
use recall_select.Prelude.{
  ℕ, ◌+◌, ◌*◌, Bool, true, false, not, ◌&&◌, ◌||◌, Option, none, some, List, [], ◌∷◌, String, ◌==◌,
  ltb, leb, length, get_or, if◌then◌else◌,
}
use mathlib.Core.Option
use recall_select.Mongo.{Driver, find, insert_one, sort_descending}
use recall_select.Documents.{User, Database, TierGrant, DateTime, aware, instant, tier_grants_index}
use recall_select.Users.{get_user, write_user}
use recall_select.Billing.Plans.{free_tier}
use recall_select.Billing.Tiers.{day, as_aware}

-- A grant of the tier that is in force starts where that one ends.
abbrev pub extending : String → User → ℕ → Bool
extending tier user now =
    user.tier == tier
    && elim (as_aware user.tier_expires_at) [ none ↦ false | some current ↦ ltb now current ]

abbrev pub grant_start : String → User → ℕ → ℕ
grant_start tier user now =
    if extending tier user now then get_or (as_aware user.tier_expires_at) now else now

-- `days` is `none` for an open-ended grant.
abbrev pub grant_expiry : String → Option ℕ → User → ℕ → Option DateTime
grant_expiry tier days user now =
    Option.map (λ (n : ℕ). aware (grant_start tier user now + n * day)) days

-- The fields that a grant writes on the user.
abbrev pub granted : String → Option DateTime → User → User
granted tier expires u = record u {
  tier = tier;
  tier_expires_at = expires;
  lapsed_tier = none;
  tier_lapsed_at = none;
}

abbrev pub grant_row :
    (user_id : String) (user : User) (tier : String) (days : Option ℕ) (reason source : String)
    → ℕ
    → TierGrant
grant_row user_id user tier days reason source now = record {
  user_id = user_id;
  tier = tier;
  days = days;
  expires_at = grant_expiry tier days user now;
  previous_tier = user.tier;
  reason = reason;
  source = source;
  granted_at = aware now;
}

module _ ⦃mongo : Driver⦄ where
  -- No index of `tier_grants` can refuse a row.
  abbrev pub log_grant : TierGrant → Database → Database
  log_grant g db = record db {
    tier_grants = get_or (insert_one tier_grants_index g db.tier_grants) db.tier_grants;
  }

  unfoldable pub grant_tier :
      (user_id tier : String) (days : Option ℕ) (reason source : String)
      → ℕ
      → Database
      → Option User × Database
  grant_tier user_id tier days reason source now db = elim (get_user user_id db) [
    | none ↦ (none, db)
    | some user ↦
        let expires = grant_expiry tier days user now in
        let (updated, db') = write_user user_id (granted tier expires) now db in
        (updated, log_grant (grant_row user_id user tier days reason source now) db')
  ]

  unfoldable pub list_grants : String → Database → List TierGrant
  list_grants user_id db =
      sort_descending (λ g. instant g.granted_at) (find (λ g. g.user_id == user_id) db.tier_grants)

-- The filter of the sweep: a paid tier with an expiry that has come.
abbrev pub has_expired : ℕ → User → Bool
has_expired now u =
    not (u.tier == free_tier)
    && elim u.tier_expires_at [ none ↦ false | some expires ↦ leb (instant expires) now ]

-- What the sweep writes on a user, with the tier that the query returned.
abbrev pub lapsed : String → ℕ → User → User
lapsed tier now u = record u {
  tier = free_tier;
  tier_expires_at = none;
  lapsed_tier = some tier;
  tier_lapsed_at = some (aware now);
}

module _ ⦃mongo : Driver⦄ where
  unfoldable pub downgrade_each : List User → ℕ → Database → Database
  downgrade_each [] now db = db
  downgrade_each (user ∷ rest) now db =
      downgrade_each rest now (write_user user.id (lapsed user.tier now) now db).1

  unfoldable pub downgrade_expired : ℕ → Database → ℕ × Database
  unfolding downgrade_each
  downgrade_expired now db =
      let expired = find (has_expired now) db.users in
      (length expired, downgrade_each expired now db)
