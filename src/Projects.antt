-- ===== src/Projects.antt =====
-- app/services/projects.py.
use recall_select.Prelude.{ℕ, Bool, false, Option, none, some, List, String, ◌==◌, ltb}
use recall_select.Mongo.{
  Driver, find, find_one, sort_ascending, insert_one, find_one_and_update, delete_one,
}
use recall_select.Documents.{
  Project, Database, aware, instant, Result, ok, err, duplicate_key, projects_index,
}

-- A project that is not flagged as the default: the flag is absent, which the queries read as false.
abbrev pub new_project : (new_id user_id name : String) → ℕ → Project
new_project new_id user_id name now = record {
  id = new_id;
  user_id = user_id;
  name = name;
  is_default = false;
  created_at = aware now;
  updated_at = aware now;
}

abbrev pub opened : Project → Database → Option (List Project) → Result (Project × Database)
opened p db none = err duplicate_key
opened p db (some projects') = ok (p, record db { projects = projects' })

abbrev pub has_id : String → Project → Bool
has_id project_id p = p.id == project_id

abbrev pub is_owned : String → Project → Bool
is_owned user_id p = p.user_id == user_id

-- The fields given are written, but never `_id` and the owner; the time of the write is.
abbrev pub patched : (Project → Project) → ℕ → Project → Project
patched fields now p = record (fields p) { id = p.id; user_id = p.user_id; updated_at = aware now }

module _ ⦃mongo : Driver⦄ where
  unfoldable pub add_project :
      (new_id user_id name : String) → ℕ → Database → Result (Project × Database)
  add_project new_id user_id name now db =
      let p : Project = new_project new_id user_id name now in
      opened p db (insert_one projects_index p db.projects)

  abbrev pub get_project : String → Database → Option Project
  get_project project_id db = find_one (has_id project_id) db.projects

  unfoldable pub list_projects : String → Database → List Project
  list_projects user_id db =
      sort_ascending (λ p. instant p.created_at) (find (is_owned user_id) db.projects)

  abbrev pub update_project :
      String → (Project → Project) → ℕ → Database → Option Project × Database
  update_project project_id fields now db =
      let (updated, projects') =
        find_one_and_update (has_id project_id) (patched fields now) db.projects in
      (updated, record db { projects = projects' })

  abbrev pub delete_project : String → Database → Bool × Database
  delete_project project_id db =
      let (deleted, projects') = delete_one (has_id project_id) db.projects in
      (ltb 0 deleted, record db { projects = projects' })
