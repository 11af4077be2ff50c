-- ===== src/Billing/History.antt =====
-- Every way in which the services change users, payments and grants, in any order: the books
-- balance at all times.
use recall_select.Prelude.{
  ℕ, ◌≤◌, ◌≡◌, ◌≢◌, refl, true, Option, some, List, [], ◌∷◌, String, arith, count, any, All-map,
  Option-cases, inl, inr,
}
use mathlib.Core.Path.{subst}
use recall_select.Mongo.{
  Driver, find, find_one_and_update_lem, find_one_lem, insert_one_lem, placed, placed_lem,
}
use recall_select.Mongo.Query.{first}
use recall_select.Mongo.Counts.{any-insertion, count_mono}
use recall_select.Documents.{User, Payment, Database, ok, users_index}
use recall_select.Users.{
  has_id, has_email, has_google_sub, patched, update_user, write_user, update_user-cases,
  get_or_create_google_user, new_user, default_tier,
}
use recall_select.Billing.Plans.{Plan}
use recall_select.Billing.Grants.{
  grant_tier, lapsed, downgrade_each, downgrade_expired, has_expired,
}
use recall_select.Billing.Payments.{has_invoice, webhook_source, record_pending, apply_webhook}
use recall_select.Billing.Payments.Ledger.{
  IsBalanced, HasBuyer, is_invoice_grant, is_paid, update-buyers, record_pending-IsBalanced,
  grant_tier-IsBalanced, apply_webhook-IsBalanced,
}
use recall_select.Billing.Reconcile.{Answer, reconcile}
use recall_select.Billing.Reconcile.Recovery.{reconcile-IsBalanced}

module _ ⦃mongo : Driver⦄ where
  -- One call of a service; the caller of a checkout is signed in, so the user is there.
  pub data Step (db : Database) (db' : Database) : Type 0 where
    sign_in :
        (new_id sub email : String) (name : Option String) (now : ℕ) (u : User)
        → get_or_create_google_user new_id sub email name now db ≡ ok (u, db')
        → Step db db'
    patch :
        (user_id : String) (fields : User → User) (now : ℕ)
        → (updated : Option User) → update_user user_id fields now db ≡ ok (updated, db')
        → Step db db'
    checkout :
        (invoice_id user_id : String) (plan : Plan) (now : ℕ) (p : Payment)
        → any (has_id user_id) db.users ≡ true
        → record_pending invoice_id user_id plan now db ≡ ok (p, db')
        → Step db db'
    webhook :
        (invoice_id status : String) (now : ℕ)
        → db' ≡ (apply_webhook invoice_id status now db).1
        → Step db db'
    reconciliation :
        (fetch : String → Answer) (older_than n now : ℕ)
        → db' ≡ (reconcile fetch older_than n now db).1
        → Step db db'
    goodwill :
        (user_id tier : String) (days : Option ℕ) (reason source : String) (now : ℕ)
        → source ≢ webhook_source
        → db' ≡ (grant_tier user_id tier days reason source now db).1
        → Step db db'
    downgrade : (now : ℕ) → db' ≡ (downgrade_expired now db).1 → Step db db'

  pub data Reach (db : Database) : Database → Type 0 where
    start : Reach db db
    next : {mid last : Database} → Reach db mid → Step mid last → Reach db last

  write_user-IsBalanced :
      (user_id : String) (fields : User → User) (now : ℕ) (db : Database)
      → IsBalanced db
      → IsBalanced (write_user user_id fields now db).1
  write_user-IsBalanced user_id fields now db v =
      let users_after = find_one_and_update_lem (has_id user_id) (patched fields now) db.users in
      record {
        keyed = v.keyed;
        buyers = rw users_after (
            update-buyers (has_id user_id) (patched fields now) db.users db.payments (λ a. refl)
              v.buyers);
        once = v.once;
      }

  update_user-IsBalanced :
      (user_id : String) (fields : User → User) (now : ℕ) {updated : Option User} (db : Database)
      {db' : Database}
      → update_user user_id fields now db ≡ ok (updated, db')
      → IsBalanced db
      → IsBalanced db'
  update_user-IsBalanced user_id fields now db {db' = db'} e v =
      elim (update_user-cases user_id fields now db) [
        | inl r ↦ absurd (ground (arith, r, e))
        | inr r ↦
            let same : (write_user user_id fields now db).1 ≡ db' = ground (arith, r, e) in
            subst IsBalanced same (write_user-IsBalanced user_id fields now db v)
      ]

  downgrade_each-IsBalanced :
      (rest : List User) (now : ℕ) (db : Database)
      → IsBalanced db
      → IsBalanced (downgrade_each rest now db)
  unfolding downgrade_each
  downgrade_each-IsBalanced [] now db v = v
  downgrade_each-IsBalanced (u ∷ rest) now db v =
      downgrade_each-IsBalanced rest now _ (write_user-IsBalanced u.id (lapsed u.tier now) now db v)

  downgrade_expired-IsBalanced :
      (now : ℕ) (db : Database) → IsBalanced db → IsBalanced (downgrade_expired now db).1
  unfolding downgrade_expired
  downgrade_expired-IsBalanced now db v =
      downgrade_each-IsBalanced (find (has_expired now) db.users) now db v

  new_user-IsBalanced :
      (fresh : User) (db : Database)
      → IsBalanced db
      → IsBalanced (record db { users = placed fresh db.users })
  new_user-IsBalanced fresh db v = record {
    keyed = v.keyed;
    buyers =
        All-map {P = HasBuyer db.users}
          (λ p e. any-insertion (has_id p.user_id) (placed_lem fresh db.users) e) db.payments
          v.buyers;
    once = v.once;
  }

  sign_in-IsBalanced :
      (new_id sub email : String) (name : Option String) (now : ℕ) {u : User} (db : Database)
      {db' : Database}
      → get_or_create_google_user new_id sub email name now db ≡ ok (u, db')
      → IsBalanced db
      → IsBalanced db'
  unfolding get_or_create_google_user
  sign_in-IsBalanced new_id sub email name now db {db' = db'} e v =
      elim (Option-cases (first (has_google_sub sub) db.users)) [
        | inr (x, f) ↦
            let same : db ≡ db' = ground (arith, find_one_lem (has_google_sub sub) db.users) in
            subst IsBalanced same v
        | inl n ↦ elim (Option-cases (first (has_email email) db.users)) [
          | inr (x, f) ↦
              let fields : User → User = λ u. record u { google_sub = some sub; name = name } in
              elim (update_user-cases x.id fields now db) [
                | inl r ↦ absurd (
                    ground (
                      arith,
                      r,
                      find_one_lem (has_google_sub sub) db.users,
                      find_one_lem (has_email email) db.users,
                    ))
                | inr r ↦
                    let same : (write_user x.id fields now db).1 ≡ db' = ground (
                      arith,
                      r,
                      find_one_lem (has_google_sub sub) db.users,
                      find_one_lem (has_email email) db.users,
                    ) in
                    subst IsBalanced same (write_user-IsBalanced x.id fields now db v)
              ]
          | inl m ↦
              let fresh : User = new_user new_id email name default_tier (some sub) now in
              let same : record db { users = placed fresh db.users } ≡ db' = ground (
                arith,
                find_one_lem (has_google_sub sub) db.users,
                find_one_lem (has_email email) db.users,
                insert_one_lem users_index fresh db.users,
              ) in
              subst IsBalanced same (new_user-IsBalanced fresh db v)
        ]
      ]

  Step-IsBalanced : {db db' : Database} → Step db db' → IsBalanced db → IsBalanced db'
  Step-IsBalanced {db} (sign_in new_id sub email name now u e) v =
      sign_in-IsBalanced new_id sub email name now db e v
  Step-IsBalanced {db} (patch user_id fields now updated e) v =
      update_user-IsBalanced user_id fields now db e v
  Step-IsBalanced {db} (checkout invoice_id user_id plan now p b e) v =
      record_pending-IsBalanced invoice_id user_id plan now db b e v
  Step-IsBalanced {db} (webhook invoice_id status now e) v =
      rw e (apply_webhook-IsBalanced invoice_id status now db v)
  Step-IsBalanced {db} (reconciliation fetch older_than n now e) v =
      rw e (reconcile-IsBalanced fetch older_than n now db v)
  Step-IsBalanced {db} (goodwill user_id tier days reason source now ne e) v =
      rw e (grant_tier-IsBalanced user_id tier days reason source now db ne v)
  Step-IsBalanced {db} (downgrade now e) v = rw e (downgrade_expired-IsBalanced now db v)

  pub Reach-IsBalanced : {db db' : Database} → IsBalanced db → Reach db db' → IsBalanced db'
  Reach-IsBalanced v start = v
  Reach-IsBalanced v (next r s) = Step-IsBalanced s (Reach-IsBalanced v r)

abbrev pub empty_database : Database
empty_database = record {
  users = [];
  payments = [];
  tier_grants = [];
  usage = [];
  collections = [];
  projects = [];
  api_keys = [];
}

pub empty-IsBalanced : IsBalanced empty_database
empty-IsBalanced = record { keyed = λ i. omega arith; buyers = tt; once = λ i. refl }

-- However the services are called from an empty database on, an invoice has one row in the log of
-- grants if it is paid and none if it is not.
pub one_grant_per_paid_invoice :
    ⦃mongo : Driver⦄
    → {db : Database} (invoice_id : String) → Reach empty_database db
    → (count (is_invoice_grant invoice_id) db.tier_grants ≡ count (is_paid invoice_id) db.payments)
      × (count (is_invoice_grant invoice_id) db.tier_grants ≤ 1)
one_grant_per_paid_invoice {db = db} invoice_id r =
    let v = Reach-IsBalanced empty-IsBalanced r in
    let mono =
      count_mono (is_paid invoice_id) (has_invoice invoice_id) db.payments (λ p k. ground arith) in
    (v.once invoice_id, omega (arith, v.once invoice_id, v.keyed invoice_id))
