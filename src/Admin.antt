-- ===== src/Admin.antt =====
-- The owner's admin area: app/services/admin.py. It reads any user's account, and writes nothing. The
-- pages' gate is in Gate, and the viewer of memories in Memories.
pub mod Gate
pub mod Memories
pub mod Pages
pub mod Tests
use recall_select.Prelude.{
  ℕ, zero, suc, ◌+◌, ◌≤◌, Bool, true, false, not, ◌||◌, if◌then◌else◌, Option, none, some, get_or,
  is_some, List, [], ◌∷◌, String, ◌==◌, Dict, lookup, insert, map, length, ltb, leb, eqb, any,
}
use recall_select.Mongo.{Driver, find, find_one, sort_descending, limit}
use recall_select.Documents.{
  User, Payment, TierGrant, CollectionRecord, Database, DateTime, ApiKey, instant,
}
use recall_select.Users.{get_user}
use recall_select.Billing.Tiers.{effective_tier, tier_expiry}
use recall_select.Billing.Grants.{list_grants}
use recall_select.Billing.Payments.{paid_status}
use recall_select.Billing.Reconcile.{is_terminal}
use recall_select.ApiKeys.{list_api_keys}
use recall_select.Account.{Overview, overview}
use recall_select.Qdrant.{contains}
use recall_select.Semantics.Numbers.{Numbers}

abbrev pub list_limit : ℕ
list_limit = 200

-- `min`
abbrev pub at_most : ℕ → ℕ → ℕ
at_most a b = if leb a b then a else b

pub record UserRow : Type 0 where
  pub id : String
  pub email : String
  pub name : Option String
  pub tier : String
  pub tier_expires_at : Option ℕ
  pub created_at : DateTime
  pub memories : ℕ
  pub projects_with_data : ℕ

-- The query's criteria: the exact id, or a part of the email or the name, whatever the letters' case.
-- `strip` is the method of `str`, and `matches` MongoDB's search for an escaped text.
abbrev pub is_found :
    (strip : String → String) (matches : String → String → Bool) → Option String → User → Bool
is_found strip matches none u = true
is_found strip matches (some query) u =
    let term = strip query in
    if term == ""
    then true
    else u.id == term
      || matches term u.email
      || elim u.name [ none ↦ false | some n ↦ matches term n ]

-- The aggregation: for each user the sum of the points, and the number of collections.
abbrev pub add_total : CollectionRecord → Dict (ℕ × ℕ) → Dict (ℕ × ℕ)
add_total c totals =
    let (memories, projects) = get_or (lookup c.user_id totals) (0, 0) in
    insert c.user_id (memories + c.points_count, projects + 1) totals

unfoldable pub totals_of : List CollectionRecord → Dict (ℕ × ℕ) → Dict (ℕ × ℕ)
totals_of [] totals = totals
totals_of (c ∷ cs) totals = totals_of cs (add_total c totals)

abbrev pub user_row : ℕ → Dict (ℕ × ℕ) → User → UserRow
user_row now totals u =
    let (memories, projects) = get_or (lookup u.id totals) (0, 0) in
    record {
      id = u.id;
      email = u.email;
      name = u.name;
      tier = effective_tier (some u) now;
      tier_expires_at = tier_expiry (some u);
      created_at = u.created_at;
      memories = memories;
      projects_with_data = projects;
    }

-- The amount is in whole units of the currency.
pub record PaymentRow (F : Type 0) : Type 0 where
  pub invoice_id : String
  pub user_id : String
  pub email : Option String
  pub plan : String
  pub tier : String
  pub amount : F
  pub currency : String
  pub status : String
  pub is_paid : Bool
  pub is_settled : Bool
  pub created_at : DateTime
  pub paid_at : Option DateTime

abbrev pub emails_of : List User → Dict String → Dict String
emails_of [] emails = emails
emails_of (u ∷ us) emails = emails_of us (insert u.id u.email emails)

abbrev pub payment_row : {F : Type 0} ⦃numbers : Numbers F⦄ → Dict String → Payment → PaymentRow F
payment_row ⦃numbers⦄ emails p = record {
  invoice_id = p.id;
  user_id = p.user_id;
  email = lookup p.user_id emails;
  plan = p.plan;
  tier = p.tier;
  amount = numbers.ratio p.amount 100;
  currency = p.ccy;
  status = p.status;
  is_paid = p.status == paid_status;
  is_settled = is_terminal p.status;
  created_at = p.created_at;
  paid_at = p.paid_at;
}

pub record Identity : Type 0 where
  pub id : String
  pub email : String
  pub name : Option String
  pub tier : String
  pub tier_expires_at : Option ℕ
  pub created_at : DateTime
  pub updated_at : DateTime
  pub has_google_identity : Bool

pub record UserSpace : Type 0 where
  pub user : Identity
  pub summary : Overview
  pub grants : List TierGrant
  pub last_link_use : Option ℕ

abbrev pub identity : ℕ → User → Identity
identity now u = record {
  id = u.id;
  email = u.email;
  name = u.name;
  tier = effective_tier (some u) now;
  tier_expires_at = tier_expiry (some u);
  created_at = u.created_at;
  updated_at = u.updated_at;
  has_google_identity = elim u.google_sub [ none ↦ false | some sub ↦ not (sub == "") ];
}

-- `max(used) if used else None`
abbrev pub last_use : List ApiKey → Option ℕ
last_use [] = none
last_use (k ∷ ks) = elim k.last_used_at [
  | none ↦ last_use ks
  | some at ↦ elim (last_use ks) [
    | none ↦ some (instant at)
    | some later ↦ some (if ltb later (instant at) then instant at else later)
  ]
]

module _ ⦃mongo : Driver⦄ where
  unfoldable pub list_users :
      (strip : String → String) (matches : String → String → Bool) (query : Option String) (n : ℕ)
      → ℕ
      → Database
      → List UserRow
  list_users strip matches query n now db =
      let newest : List User =
        sort_descending (λ (u : User). instant u.created_at)
          (find (is_found strip matches query) db.users) in
      map (user_row now (totals_of db.collections [])) (limit (at_most n list_limit) newest)

  unfoldable pub list_payments :
      {F : Type 0} ⦃numbers : Numbers F⦄ (n : ℕ) → Database → List (PaymentRow F)
  list_payments n db =
      let payments : List Payment =
        limit n (
          sort_descending (λ (p : Payment). instant p.created_at) (find (λ p. true) db.payments)) in
      let payers =
        find (λ (u : User). contains u.id (map (λ (p : Payment). p.user_id) payments)) db.users in
      map (payment_row (emails_of payers [])) payments

  abbrev pub user_count : Database → ℕ
  user_count db = length (find (λ u. true) db.users)

  unfoldable pub user_space : String → ℕ → Database → Option UserSpace
  user_space user_id now db = elim (get_user user_id db) [
    | none ↦ none
    | some u ↦ some (record {
      user = identity now u;
      summary = overview u now db;
      grants = list_grants user_id db;
      last_link_use = last_use (list_api_keys user_id db);
    })
  ]
