-- ===== src/Api.antt =====
-- The routes under app/api: what a handler answers, and the guards of app/api/deps.py. The session is
-- the `user_id` of the signed cookie, if it has one.
pub mod Routes
pub mod Reads
pub mod Checkout
pub mod Ownership
use recall_select.Prelude.{ℕ, Bool, Option, none, some, String, ◌==◌, if◌then◌else◌, not}
use recall_select.Mongo.{Driver}
use recall_select.Documents.{User, Project, ApiKey, Database, Error}
use recall_select.Users.{get_user}
use recall_select.Projects.{get_project}
use recall_select.ApiKeys.{get_api_key}

-- The answer of a handler, the status of an HTTPException, or the error of a service.
pub data Reply {ℓ} (A : Type ℓ) : Type ℓ where
  reply : A → Reply A
  refused : ℕ → Reply A
  raised : Error → Reply A

abbrev pub unauthorized : ℕ
unauthorized = 401

abbrev pub forbidden : ℕ
forbidden = 403

abbrev pub not_found : ℕ
not_found = 404

-- What follows a guard that lets the request through.
abbrev pub then_reply {ℓ} : {A B : Type ℓ} → Reply A → (A → Reply B) → Reply B
then_reply (reply a) f = f a
then_reply (refused code) f = refused code
then_reply (raised e) f = raised e

module _ ⦃mongo : Driver⦄ where
  -- An empty identifier counts as none.
  unfoldable pub get_optional_user : Option String → Database → Option User
  get_optional_user none db = none
  get_optional_user (some user_id) db = if user_id == "" then none else get_user user_id db

  unfoldable pub get_current_user : Option String → Database → Reply User
  get_current_user session db = elim (get_optional_user session db) [
    | none ↦ refused unauthorized
    | some user ↦ reply user
  ]

  unfoldable pub require_account_owner : String → User → Reply User
  require_account_owner user_id current =
      if current.id == user_id then reply current else refused forbidden

  unfoldable pub require_own_project : String → User → Database → Reply Project
  require_own_project project_id current db = elim (get_project project_id db) [
    | none ↦ refused not_found
    | some p ↦ if p.user_id == current.id then reply p else refused not_found
  ]

  unfoldable pub require_own_api_key : String → User → Database → Reply ApiKey
  require_own_api_key key_id current db = elim (get_api_key key_id db) [
    | none ↦ refused not_found
    | some k ↦ if k.user_id == current.id then reply k else refused not_found
  ]

  -- `_require_project` of the memory and collection routes.
  unfoldable pub require_project : (user_id project_id : String) → Database → Reply Project
  require_project user_id project_id db = elim (get_project project_id db) [
    | none ↦ refused not_found
    | some p ↦ if p.user_id == user_id then reply p else refused not_found
  ]

  -- The guard of a `{user_id}`-scoped route.
  abbrev pub account_owner : Option String → String → Database → Reply User
  account_owner session user_id db =
      then_reply (get_current_user session db) (require_account_owner user_id)
