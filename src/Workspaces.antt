-- ===== src/Workspaces.antt =====
-- app/services/workspaces.py: what the user gets behind a memory link.
pub mod Provision
use recall_select.Prelude.{ℕ, ◌&&◌, Bool, true, Option, none, some, String, ◌==◌}
use recall_select.Mongo.{Driver, find_one, find_one_and_update}
use recall_select.Documents.{Project, CollectionRecord, ApiKey, Database, Result, ok, err}
use recall_select.Projects.{add_project, has_id}
use recall_select.Collections.{register_collection}
use recall_select.ApiKeys.{Draw, delete_user_keys, add_api_key}

abbrev pub default_project_name : String
default_project_name = "default"

abbrev pub is_default_of : String → Project → Bool
is_default_of user_id p = p.user_id == user_id && p.is_default

abbrev pub flagged : Project → Project
flagged p = record p { is_default = true }

pub record Workspace : Type 0 where
  pub project : Project
  pub collection : CollectionRecord
  pub api_key : ApiKey
  pub plaintext : String

module _ ⦃mongo : Driver⦄ where
  unfoldable pub ensure_default_project :
      (new_id user_id : String) → ℕ → Database → Result (Project × Database)
  ensure_default_project new_id user_id now db =
      elim (find_one (is_default_of user_id) db.projects) [
        | some existing ↦ ok (existing, db)
        | none ↦ elim (add_project new_id user_id default_project_name now db) [
          | err e ↦ err e
          | ok (p, db') ↦ ok (
            flagged p,
            record db' { projects = (find_one_and_update (has_id p.id) flagged db'.projects).1 },
          )
        ]
      ]

module _ ⦃mongo : Driver⦄ (hash : String → String) where
  unfoldable pub issue_default_key :
      (draws : ℕ → Draw) (user_id : String) → ℕ → Database → Result ((ApiKey × String) × Database)
  issue_default_key draws user_id now db =
      add_api_key hash draws user_id (some "default") now
        (delete_user_keys user_id (some "default") db).1

  unfoldable pub provision_default_workspace :
      (new_id : String) (draws : ℕ → Draw) (user_id : String)
      → ℕ
      → Database
      → Result (Workspace × Database)
  provision_default_workspace new_id draws user_id now db =
      elim (ensure_default_project new_id user_id now db) [
        | err e ↦ err e
        | ok (p, db₁) ↦ elim (register_collection user_id p.id now db₁) [
          | err e ↦ err e
          | ok (c, db₂) ↦ elim (issue_default_key draws user_id now db₂) [
            | err e ↦ err e
            | ok ((k, token), db₃) ↦
                ok (record { project = p; collection = c; api_key = k; plaintext = token }, db₃)
          ]
        ]
      ]
