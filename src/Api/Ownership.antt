-- ===== src/Api/Ownership.antt =====
-- The guards let a caller reach what is the caller's own, and nothing else.
use recall_select.Prelude.{
  ◌≡◌, refl, sym, ap, ◌∙◌, Option, none, some, String, ◌==◌, arith, eq_of_==, inl, inr,
  Option-cases, Bool-cases,
}
use mathlib.Core.Path.{subst}
use recall_select.Mongo.{Driver, find_one_lem}
use recall_select.Mongo.Query.{first_matches}
use recall_select.Documents.{User, Project, Database}
use recall_select.Projects.{get_project}
use recall_select.Users.{get_user}
use recall_select.Projects
use recall_select.Users
use recall_select.Api.{
  reply, refused, get_optional_user, get_current_user, require_account_owner, account_owner,
  require_own_project,
}

module _ ⦃mongo : Driver⦄ (db : Database) where
  -- A project that the guard hands over has the identifier asked for and is the caller's own.
  pub own_project_only :
      (project_id : String) (current : User) (p : Project)
      → require_own_project project_id current db ≡ reply p
      → (p.id ≡ project_id) × (p.user_id ≡ current.id)
  unfolding require_own_project
  own_project_only project_id current p h = elim (Option-cases (get_project project_id db)) [
    | inl e ↦ let h' : refused 404 ≡ reply p = rw (← h, e, require_own_project) refl in cc
    | inr (r, e) ↦
        let found =
          first_matches (Projects.has_id project_id) db.projects r
            (rw (← find_one_lem (Projects.has_id project_id) db.projects) e) in
        elim (Bool-cases (r.user_id == current.id)) [
          | inr t ↦ let h' : refused 404 ≡ reply p = rw (← h, e, t, require_own_project) refl in cc
          | inl t ↦
              let h' : reply r ≡ reply p = rw (← h, e, t, require_own_project) refl in
              let same : r ≡ p = ground (arith, h') in
              subst (λ x. (x.id ≡ project_id) × (x.user_id ≡ current.id)) same
                (eq_of_== r.id project_id found, eq_of_== r.user_id current.id t)
        ]
  ]

  session_user :
      (session : Option String) (u : User)
      → get_optional_user session db ≡ some u
      → session ≡ some u.id
  unfolding get_optional_user
  session_user none u h = cc
  session_user (some user_id) u h = elim (Bool-cases (user_id == "")) [
    | inl t ↦ let h' : none ≡ some u = rw (← h, t, get_optional_user) refl in cc
    | inr t ↦
        let e : get_user user_id db ≡ some u = rw (← h, t, get_optional_user) refl in
        let found =
          first_matches (Users.has_id user_id) db.users u
            (rw (← find_one_lem (Users.has_id user_id) db.users) e) in
        ap some (sym (eq_of_== u.id user_id found))
  ]

  -- The guard of an account's routes lets through only the user of the session, who must be the
  -- account that the route names.
  pub account_owner_only :
      (session : Option String) (user_id : String) (owner : User)
      → account_owner session user_id db ≡ reply owner
      → (owner.id ≡ user_id) × (session ≡ some user_id)
  unfolding get_current_user require_account_owner
  account_owner_only session user_id owner h = elim (Option-cases (get_optional_user session db)) [
    | inl e ↦ let h' : refused 401 ≡ reply owner = rw (← h, e, get_current_user) refl in cc
    | inr (u, e) ↦ elim (Bool-cases (u.id == user_id)) [
      | inr t ↦
          let h' : refused 403 ≡ reply owner =
            rw (← h, e, get_current_user, require_account_owner, t) refl in
          cc
      | inl t ↦
          let h' : reply u ≡ reply owner =
            rw (← h, e, get_current_user, require_account_owner, t) refl in
          let same : u ≡ owner = ground (arith, h') in
          let id : u.id ≡ user_id = eq_of_== u.id user_id t in
          (ap (λ x. x.id) (sym same) ∙ id, session_user session u e ∙ ap some id)
    ]
  ]
