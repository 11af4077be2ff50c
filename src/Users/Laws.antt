-- ===== src/Users/Laws.antt =====
-- What the operations of `Users` do to the users.
use recall_select.Prelude.{ℕ, ◌≡◌, Option, some, String, arith, eq_refl, Option-cases, inl, inr}
use recall_select.Mongo.{Driver, find_one_lem, insert_one_lem, placed_lem, find_one_and_update_lem}
use recall_select.Mongo.Query.{first, first-insertion_hit, first-update_first_new, first-ne-none}
use recall_select.Documents.{User, Database, ok, users_index}
use recall_select.Users.{
  get_or_create_google_user, has_google_sub, has_email, has_id, patched, update_user-cases,
  new_user, default_tier,
}

module _ ⦃mongo : Driver⦄ where
  sign_in_known :
      (new_id sub email : String) (name : Option String) (now : ℕ) (db : Database) {u : User}
      → first (has_google_sub sub) db.users ≡ some u
      → get_or_create_google_user new_id sub email name now db ≡ ok (u, db)
  unfolding get_or_create_google_user
  sign_in_known new_id sub email name now db e =
      ground (arith, find_one_lem (has_google_sub sub) db.users)

  sign_in_leaves_known :
      (new_id sub email : String) (name : Option String) (now : ℕ) (db : Database) {u : User}
      {db' : Database}
      → get_or_create_google_user new_id sub email name now db ≡ ok (u, db')
      → first (has_google_sub sub) db'.users ≡ some u
  unfolding get_or_create_google_user
  sign_in_leaves_known new_id sub email name now db e =
      elim (Option-cases (first (has_google_sub sub) db.users)) [
        | inr (x, f) ↦ ground (arith, find_one_lem (has_google_sub sub) db.users)
        | inl n ↦ elim (Option-cases (first (has_email email) db.users)) [
          | inr (x, f) ↦
              let claim : User → User =
                patched (λ u. record u { google_sub = some sub; name = name }) now in
              let (y, found) =
                first-ne-none (has_email email) (has_id x.id) db.users x f (eq_refl x.id) in
              let fields : User → User = λ u. record u { google_sub = some sub; name = name } in
              elim (update_user-cases x.id fields now db) [
                | inl r ↦ absurd (
                    ground (
                      arith,
                      r,
                      find_one_lem (has_google_sub sub) db.users,
                      find_one_lem (has_email email) db.users,
                    ))
                | inr r ↦ ground (
                  arith,
                  r,
                  find_one_lem (has_google_sub sub) db.users,
                  find_one_lem (has_email email) db.users,
                  find_one_and_update_lem (has_id x.id) claim db.users,
                  first-update_first_new (has_google_sub sub) (has_id x.id) claim db.users y n found
                      (eq_refl sub),
                )
              ]
          | inl m ↦
              let fresh : User = new_user new_id email name default_tier (some sub) now in
              ground (
                arith,
                find_one_lem (has_google_sub sub) db.users,
                find_one_lem (has_email email) db.users,
                insert_one_lem users_index fresh db.users,
                first-insertion_hit (has_google_sub sub) (placed_lem fresh db.users) n
                    (eq_refl sub),
              )
        ]
      ]

  -- Signing in a second time with the same Google identity returns the same user and changes
  -- nothing.
  pub sign_in_again :
      (new_id sub email : String) (name : Option String) (now : ℕ) (db : Database) {u : User}
      {db' : Database} (new_id' email' : String) (name' : Option String) (now' : ℕ)
      → get_or_create_google_user new_id sub email name now db ≡ ok (u, db')
      → get_or_create_google_user new_id' sub email' name' now' db' ≡ ok (u, db')
  sign_in_again new_id sub email name now db {u = u} {db' = db'} new_id' email' name' now' e =
      sign_in_known new_id' sub email' name' now' db'
        (sign_in_leaves_known new_id sub email name now db e)
