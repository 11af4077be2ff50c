-- ===== src/Users.antt =====
-- app/services/users.py.
pub mod Laws
use recall_select.Prelude.{
  ℕ, ◌≡◌, refl, Bool, true, false, Option, none, some, List, String, ◌==◌, get_or, arith, any, not,
  ◌&&◌, if◌then◌else◌, ◌⊎◌, inl, inr, Bool-cases,
}
use recall_select.Mongo.{Driver, find_one, insert_one, find_one_and_update}
use recall_select.Mongo.Query.{first}
use recall_select.Documents.{
  User, Database, aware, Result, ok, err, duplicate_key, users_index, is_text,
}

abbrev pub default_tier : String
default_tier = "free"

-- The document of a new user; `new_id` is what `uuid4().hex` returned.
abbrev pub new_user :
    (new_id email : String) (name : Option String) (tier : String) (google_sub : Option String)
    → ℕ
    → User
new_user new_id email name tier google_sub now = record {
  id = new_id;
  email = email;
  name = name;
  tier = tier;
  google_sub = google_sub;
  tier_expires_at = none;
  lapsed_tier = none;
  tier_lapsed_at = none;
  created_at = aware now;
  updated_at = aware now;
}

-- What the service returns: the document and the database that holds it, or the driver's error.
abbrev pub stored : User → Database → Option (List User) → Result (User × Database)
stored u db none = err duplicate_key
stored u db (some users') = ok (u, record db { users = users' })

-- The filters of the queries.
abbrev pub has_id : String → User → Bool
has_id user_id u = u.id == user_id

abbrev pub has_email : String → User → Bool
has_email email u = u.email == email

abbrev pub has_google_sub : String → User → Bool
has_google_sub sub u = is_text sub u.google_sub

-- The fields given are written, but never `_id`; the time of the write is.
abbrev pub patched : (User → User) → ℕ → User → User
patched fields now u = record (fields u) { id = u.id; updated_at = aware now }

module _ ⦃mongo : Driver⦄ where
  unfoldable pub add_user :
      (new_id email : String) (name : Option String) (tier : String) (google_sub : Option String)
      → ℕ
      → Database
      → Result (User × Database)
  add_user new_id email name tier google_sub now db =
      let u : User = new_user new_id email name tier google_sub now in
      stored u db (insert_one users_index u db.users)

  abbrev pub get_user : String → Database → Option User
  get_user user_id db = find_one (has_id user_id) db.users

  abbrev pub get_user_by_email : String → Database → Option User
  get_user_by_email email db = find_one (has_email email) db.users

  abbrev pub get_user_by_google_sub : String → Database → Option User
  get_user_by_google_sub sub db = find_one (has_google_sub sub) db.users

  -- The write of an update. It stands for the call where no unique index covers the fields, which
  -- cannot be refused.
  abbrev pub write_user : String → (User → User) → ℕ → Database → Option User × Database
  write_user user_id fields now db =
      let (updated, users') = find_one_and_update (has_id user_id) (patched fields now) db.users in
      (updated, record db { users = users' })

  -- A unique index refuses the fields: another user has one of them.
  abbrev pub is_refused : String → (User → User) → ℕ → Database → Bool
  is_refused user_id fields now db = elim (first (has_id user_id) db.users) [
    | none ↦ false
    | some u ↦ any (λ v. not (has_id user_id v) && users_index (patched fields now u) v) db.users
  ]

  unfoldable pub update_user :
      String → (User → User) → ℕ → Database → Result (Option User × Database)
  update_user user_id fields now db =
      if is_refused user_id fields now db
      then err duplicate_key
      else ok (write_user user_id fields now db)

  pub update_user-cases :
      (user_id : String) (fields : User → User) (now : ℕ) (db : Database)
      → (update_user user_id fields now db ≡ err duplicate_key)
        ⊎ (update_user user_id fields now db ≡ ok (write_user user_id fields now db))
  unfolding update_user
  update_user-cases user_id fields now db = elim (Bool-cases (is_refused user_id fields now db)) [
    | inl t ↦ inl (rw (t, update_user) refl)
    | inr t ↦ inr (rw (t, update_user) refl)
  ]

  unfoldable pub get_or_create_google_user :
      (new_id google_sub email : String) (name : Option String)
      → ℕ
      → Database
      → Result (User × Database)
  unfolding add_user update_user
  get_or_create_google_user new_id sub email name now db = elim (get_user_by_google_sub sub db) [
    | some existing ↦ ok (existing, db)
    | none ↦ elim (get_user_by_email email db) [
      | some by_email ↦
          elim (update_user by_email.id (λ u. record u { google_sub = some sub; name = name }) now
            db) [ err e ↦ err e | ok (updated, db') ↦ ok (get_or updated by_email, db') ]
      | none ↦ add_user new_id email name default_tier (some sub) now db
    ]
  ]
