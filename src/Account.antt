-- ===== src/Account.antt =====
-- app/services/account.py: the snapshot that the personal area shows.
use recall_select.Prelude.{
  ℕ, ◌+◌, ◌-◌, Bool, Option, none, some, String, ◌==◌, List, [], ◌∷◌, map, is_some, length,
  if◌then◌else◌,
}
use recall_select.Mongo.{Driver}
use recall_select.Documents.{User, Project, ApiKey, Database, DateTime, Period, is_text}
use recall_select.Billing.Plans.{call_allowance, project_allowance, tier_name, free_tier}
use recall_select.Billing.Tiers.{effective_tier, tier_expiry, Renewal, renewal_state}
use recall_select.Usage.{current_period, calls_this_period}
use recall_select.Projects.{list_projects}
use recall_select.Collections.{get_collection}
use recall_select.ApiKeys.{list_api_keys, masked}

pub record ProjectRow : Type 0 where
  pub id : String
  pub name : String
  pub is_default : Bool
  pub points_count : ℕ
  pub has_data : Bool

pub record KeyRow : Type 0 where
  pub id : String
  pub masked : String
  pub label : Option String
  pub is_default : Bool
  pub created_at : DateTime
  pub last_used_at : Option DateTime

pub record Overview : Type 0 where
  pub tier : String
  pub plan_name : String
  pub tier_expires_at : Option ℕ
  pub renewal : Renewal
  pub period : Period
  pub calls_used : ℕ
  pub calls_allowance : Option ℕ
  pub calls_remaining : Option ℕ
  pub project_allowance : Option ℕ
  pub projects_used : ℕ
  pub projects : List ProjectRow
  pub memories_total : ℕ
  pub api_keys : List KeyRow

abbrev pub key_row : ApiKey → KeyRow
key_row k = record {
  id = k.id;
  masked = masked k;
  label = k.label;
  is_default = is_text "default" k.label;
  created_at = k.created_at;
  last_used_at = k.last_used_at;
}

module _ ⦃mongo : Driver⦄ where
  abbrev pub project_row : String → Database → Project → ProjectRow
  project_row user_id db p =
      let found = get_collection user_id p.id db in
      record {
        id = p.id;
        name = p.name;
        is_default = p.is_default;
        points_count = elim found [ some c ↦ c.points_count | none ↦ 0 ];
        has_data = is_some found;
      }

  -- The loop over the projects: the rows, and the total of their memories.
  unfoldable pub project_rows : String → Database → ℕ → List Project → List ProjectRow × ℕ
  project_rows user_id db total [] = ([], total)
  project_rows user_id db total (p ∷ ps) =
      let row : ProjectRow = project_row user_id db p in
      let (rows, total') = project_rows user_id db (total + row.points_count) ps in
      (row ∷ rows, total')

  unfoldable pub overview : User → ℕ → Database → Overview
  overview user now db =
      let tier = effective_tier (some user) now in
      let calls_used = calls_this_period user.id (current_period now) db in
      let (rows, total) = project_rows user.id db 0 (list_projects user.id db) in
      record {
        tier = tier;
        plan_name = tier_name tier;
        tier_expires_at = if tier == free_tier then none else tier_expiry (some user);
        renewal = renewal_state (some user) now;
        period = current_period now;
        calls_used = calls_used;
        calls_allowance = call_allowance tier;
        calls_remaining = elim (call_allowance tier) [
          | none ↦ none
          | some a ↦ some (a - calls_used)
        ];
        project_allowance = project_allowance tier;
        projects_used = length rows;
        projects = rows;
        memories_total = total;
        api_keys = map key_row (list_api_keys user.id db);
      }
