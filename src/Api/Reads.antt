-- ===== src/Api/Reads.antt =====
-- The routes of app/api/users.py, projects.py, api_keys.py, collections.py and me.py that only read. An
-- answer is the document; which of its fields a schema leaves out is not modelled.
use recall_select.Prelude.{Option, none, some, List, String}
use recall_select.Mongo.{Driver}
use recall_select.Documents.{User, Project, ApiKey, CollectionRecord, Database}
use recall_select.Projects.{list_projects}
use recall_select.ApiKeys.{list_api_keys}
use recall_select.Collections.{get_collection}
use recall_select.Api.{
  Reply, reply, refused, not_found, then_reply, account_owner, get_current_user,
  require_own_project,
}

module _ ⦃mongo : Driver⦄ (session : Option String) (db : Database) where
  abbrev pub read_me : Reply User
  read_me = get_current_user session db

  abbrev pub read_user : (user_id : String) → Reply User
  read_user user_id = account_owner session user_id db

  abbrev pub projects_of : (user_id : String) → Reply (List Project)
  projects_of user_id =
      then_reply (account_owner session user_id db) (λ owner. reply (list_projects user_id db))

  abbrev pub read_project : (project_id : String) → Reply Project
  read_project project_id =
      then_reply (get_current_user session db)
        (λ current. require_own_project project_id current db)

  abbrev pub api_keys_of : (user_id : String) → Reply (List ApiKey)
  api_keys_of user_id =
      then_reply (account_owner session user_id db) (λ owner. reply (list_api_keys user_id db))

  abbrev pub read_collection : (user_id project_id : String) → Reply CollectionRecord
  read_collection user_id project_id = then_reply (account_owner session user_id db) (λ owner.
      elim (get_collection user_id project_id db) [ none ↦ refused not_found | some c ↦ reply c ])
