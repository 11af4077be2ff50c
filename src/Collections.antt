-- ===== src/Collections.antt =====
-- app/services/collections.py: the registry of collections, one for each user and project.
pub mod Registry
pub mod Provisioning
use recall_select.Prelude.{ℕ, ◌+◌, ◌&&◌, Bool, Option, none, some, List, String, ◌==◌, ltb}
use Prim.Native.String.{◌++◌}
use recall_select.Mongo.{Driver, find_one, insert_one, find_one_and_update, delete_one}
use recall_select.Documents.{
  CollectionRecord, Database, aware, Result, ok, err, duplicate_key, collections_index,
}

abbrev pub collection_prefix : String
collection_prefix = "rs"

abbrev pub collection_name : (user_id project_id : String) → String
collection_name user_id project_id = collection_prefix ++ ("_" ++ (user_id ++ ("_" ++ project_id)))

-- The filter of the queries.
abbrev pub is_of : (user_id project_id : String) → CollectionRecord → Bool
is_of user_id project_id c = c.user_id == user_id && c.project_id == project_id

abbrev pub new_collection : (user_id project_id : String) → ℕ → CollectionRecord
new_collection user_id project_id now = record {
  id = collection_name user_id project_id;
  name = collection_name user_id project_id;
  user_id = user_id;
  project_id = project_id;
  points_count = 0;
  calls_count = 0;
  created_at = aware now;
  updated_at = aware now;
}

abbrev pub registered :
    CollectionRecord
    → Database
    → Option (List CollectionRecord)
    → Result (CollectionRecord × Database)
registered c db none = err duplicate_key
registered c db (some collections') = ok (c, record db { collections = collections' })

-- `$inc` of `calls_count`, and `$set` of `points_count`.
abbrev pub called : ℕ → ℕ → CollectionRecord → CollectionRecord
called n now c = record c { calls_count = c.calls_count + n; updated_at = aware now }

abbrev pub sized : ℕ → ℕ → CollectionRecord → CollectionRecord
sized points now c = record c { points_count = points; updated_at = aware now }

module _ ⦃mongo : Driver⦄ where
  abbrev pub get_collection : (user_id project_id : String) → Database → Option CollectionRecord
  get_collection user_id project_id db = find_one (is_of user_id project_id) db.collections

  unfoldable pub register_collection :
      (user_id project_id : String) → ℕ → Database → Result (CollectionRecord × Database)
  register_collection user_id project_id now db =
      elim (find_one (is_of user_id project_id) db.collections) [
        | some existing ↦ ok (existing, db)
        | none ↦
            let fresh : CollectionRecord = new_collection user_id project_id now in
            registered fresh db (insert_one collections_index fresh db.collections)
      ]

  -- Whether one was removed, and the database.
  unfoldable pub delete_collection : (user_id project_id : String) → Database → Bool × Database
  delete_collection user_id project_id db =
      let (deleted, collections') = delete_one (is_of user_id project_id) db.collections in
      (ltb 0 deleted, record db { collections = collections' })

  -- `_bump`, with the increment of `calls_count` that is its only use.
  abbrev pub bump :
      (user_id project_id : String) → ℕ → ℕ → Database → Option CollectionRecord × Database
  bump user_id project_id n now db =
      let (updated, collections') =
        find_one_and_update (is_of user_id project_id) (called n now) db.collections in
      (updated, record db { collections = collections' })

  abbrev pub record_call :
      (user_id project_id : String) → ℕ → ℕ → Database → Option CollectionRecord × Database
  record_call user_id project_id n now db = bump user_id project_id n now db

  abbrev pub set_points_count :
      (user_id project_id : String) → ℕ → ℕ → Database → Option CollectionRecord × Database
  set_points_count user_id project_id points now db =
      let (updated, collections') =
        find_one_and_update (is_of user_id project_id) (sized points now) db.collections in
      (updated, record db { collections = collections' })
