-- ===== src/Api/Routes.antt =====
-- The routes of app/api/memory.py, collections.py, projects.py, users.py, api_keys.py and me.py that
-- change state: each is its guards and the call of a service.
use recall_select.Prelude.{
  ℕ, Bool, true, false, Option, none, some, List, String, Dict, if◌then◌else◌, get_or,
}
use Prim.Native.String.{◌++◌}
use recall_select.Mongo.{Driver}
use recall_select.Documents.{
  User, Project, ApiKey, CollectionRecord, Database, DateTime, Result, ok, err,
}
use recall_select.Users.{update_user}
use recall_select.Projects.{add_project, update_project, delete_project}
use recall_select.ApiKeys.{Draw, add_api_key, delete_api_key, get_labeled_key, masked}
use recall_select.Workspaces.{provision_default_workspace}
use recall_select.Collections.{register_collection}
use recall_select.Collections.Provisioning.{destroy_collection}
use recall_select.Qdrant.{Client}
use recall_select.Qdrant.Points.{Json, Hit, Server}
use recall_select.Memory.{Stored}
use recall_select.Memory
use recall_select.Api.{
  Reply, reply, refused, raised, not_found, then_reply, account_owner, get_current_user,
  require_project, require_own_project, require_own_api_key,
}

-- What a service returns, or the error that it raises.
abbrev pub of_result {ℓ} : {A : Type ℓ} → Result A → Reply A
of_result (ok a) = reply a
of_result (err e) = raised e

-- The fields of a patch: `none` is a field that the request leaves unset. `tier` is dropped. An
-- `email` that is `null` is not modelled.
pub record UserPatch : Type 0 where
  pub email : Option String
  pub name : Option (Option String)
  pub tier : Option String

abbrev pub is_empty_patch : UserPatch → Bool
is_empty_patch patch = elim patch.email [
  | some e ↦ false
  | none ↦ elim patch.name [ none ↦ true | some n ↦ false ]
]

abbrev pub patch_user : UserPatch → User → User
patch_user patch u = record u {
  email = get_or patch.email u.email;
  name = get_or patch.name u.name;
}

-- The state of an existing link, in masked form.
pub record LinkStatus : Type 0 where
  pub exists_link : Bool
  pub masked_link : Option String
  pub created_at : Option DateTime
  pub last_used_at : Option DateTime

pub record MemoryLink : Type 0 where
  pub link : String
  pub api_key : String
  pub project_id : String
  pub collection : String

abbrev pub memory_link : (public_base_url key : String) → String
memory_link public_base_url key = public_base_url ++ ("/m/" ++ (key ++ ".md"))

module _ ⦃mongo : Driver⦄ (session : Option String) where
  unfoldable pub patch_account :
      (user_id : String) → UserPatch → ℕ → Database → Reply (Option User × Database)
  patch_account user_id patch now db = then_reply (account_owner session user_id db) (λ owner.
      if is_empty_patch patch
      then reply (some owner, db)
      else of_result (update_user user_id (patch_user patch) now db))

  unfoldable pub create_project :
      (new_id user_id name : String) → ℕ → Database → Reply (Project × Database)
  create_project new_id user_id name now db =
      then_reply (account_owner session user_id db)
        (λ owner. of_result (add_project new_id user_id name now db))

  -- The name is the only field of a patch; a `null` is not modelled.
  unfoldable pub patch_project :
      (project_id : String) → Option String → ℕ → Database → Reply (Option Project × Database)
  patch_project project_id name now db = then_reply (get_current_user session db) (λ current.
      then_reply (require_own_project project_id current db) (λ p. elim name [
        | none ↦ reply (some p, db)
        | some new_name ↦
            reply (update_project project_id (λ q. record q { name = new_name }) now db)
      ]))

  unfoldable pub remove_project : (project_id : String) → Database → Reply Database
  remove_project project_id db = then_reply (get_current_user session db) (λ current.
      then_reply (require_own_project project_id current db)
        (λ p. reply (delete_project p.id db).1))

  unfoldable pub create_api_key :
      (hash : String → String) (draws : ℕ → Draw) (user_id : String) (label : Option String)
      → ℕ
      → Database
      → Reply ((ApiKey × String) × Database)
  create_api_key hash draws user_id label now db =
      then_reply (account_owner session user_id db)
        (λ owner. of_result (add_api_key hash draws user_id label now db))

  unfoldable pub remove_api_key : (key_id : String) → Database → Reply Database
  remove_api_key key_id db = then_reply (get_current_user session db) (λ current.
      then_reply (require_own_api_key key_id current db) (λ k. reply (delete_api_key k.id db).1))

  unfoldable pub link_status : (public_base_url : String) → Database → Reply LinkStatus
  link_status public_base_url db = then_reply (get_current_user session db) (λ user.
      elim (get_labeled_key user.id "default" db) [
        | none ↦ reply (record {
          exists_link = false;
          masked_link = none;
          created_at = none;
          last_used_at = none;
        })
        | some k ↦ reply (record {
          exists_link = true;
          masked_link = some (memory_link public_base_url (masked k));
          created_at = some k.created_at;
          last_used_at = k.last_used_at;
        })
      ])

  unfoldable pub generate_link :
      (hash : String → String) (public_base_url new_id : String) (draws : ℕ → Draw)
      → ℕ
      → Database
      → Reply (MemoryLink × Database)
  generate_link hash public_base_url new_id draws now db =
      then_reply (get_current_user session db) (λ user.
        elim (provision_default_workspace hash new_id draws user.id now db) [
          | err e ↦ raised e
          | ok (ws, db') ↦ reply (
            record {
              link = memory_link public_base_url ws.plaintext;
              api_key = ws.plaintext;
              project_id = ws.project.id;
              collection = ws.collection.name;
            },
            db',
          )
        ])

  unfoldable pub create_collection_row :
      (user_id project_id : String) → ℕ → Database → Reply (CollectionRecord × Database)
  create_collection_row user_id project_id now db =
      then_reply (account_owner session user_id db) (λ owner.
        then_reply (require_project user_id project_id db)
          (λ p. of_result (register_collection user_id project_id now db)))

module _ {F : Type 0} ⦃mongo : Driver⦄ ⦃qdrant : Client F⦄ (session : Option String) where
  unfoldable pub remove_collection :
      (user_id project_id : String) → Database → Server F → Reply (Database × Server F)
  remove_collection user_id project_id db q =
      then_reply (account_owner session user_id db) (λ owner.
        let (removed, stores) = destroy_collection user_id project_id db q in
        if removed then reply stores else refused not_found)

  unfoldable pub store_memory :
      (embed : String → List F) (point_id user_id project_id content : String)
      → Dict Json
      → ℕ
      → Database
      → Server F
      → Reply (Stored × (Database × Server F))
  store_memory embed point_id user_id project_id content metadata now db q =
      then_reply (account_owner session user_id db) (λ owner.
        then_reply (require_project user_id project_id db) (λ p.
          of_result
            (Memory.store_memory embed point_id user_id project_id content metadata now db q)))

  unfoldable pub recall_memory :
      (embed : String → List F) (user_id project_id query : String) (limit : ℕ)
      → ℕ
      → Database
      → Server F
      → Reply (List (Hit F) × Database)
  recall_memory embed user_id project_id query limit now db q =
      then_reply (account_owner session user_id db) (λ owner.
        then_reply (require_project user_id project_id db)
          (λ p. of_result (Memory.recall_memory embed user_id project_id query limit now db q)))

  -- The route answers with the stores too: a call is metered where nothing was deleted.
  unfoldable pub delete_memory :
      (user_id project_id memory_id : String)
      → ℕ
      → Database
      → Server F
      → Reply (Unit {0}) × (Database × Server F)
  delete_memory user_id project_id memory_id now db q =
      elim (then_reply (account_owner session user_id db) (λ owner.
        then_reply (require_project user_id project_id db)
          (λ p. of_result (Memory.delete_memory user_id project_id memory_id now db q)))) [
            | refused code ↦ (refused code, (db, q))
            | raised e ↦ (raised e, (db, q))
            | reply (deleted, stores) ↦ ((if deleted then reply tt else refused not_found), stores)
          ]
