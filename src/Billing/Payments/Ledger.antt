-- ===== src/Billing/Payments/Ledger.antt =====
-- The books: every paid invoice has one row in the log of grants, and no other invoice has any.
use text.Mathlib.TextLemmas.{append_cancel_left}
use mathlib.Core.Path.{subst}
use recall_select.Prelude.{
  ℕ, ◌+◌, ◌≡◌, ◌≢◌, refl, Bool, true, false, ◌&&◌, Option, some, String, ◌==◌, arith, eq_iff,
  eq_of_==, All, All-map, count, any, Bool-cases, Option-cases, inl, inr, ap, List,
}
use recall_select.Mongo.{Driver, insert_one_lem, placed, placed_lem}
use recall_select.Mongo.Query.{
  first, update_first, All-first, All-insertion, count-insertion, first_matches,
}
use recall_select.Mongo.Unique.{HasUniqueKeys, update_first-HasUniqueKeys, insertion-HasUniqueKeys}
use recall_select.Mongo.Counts.{
  one_if, count-update_first, any-update_first_same, first_of_any, All-update_first,
  count-zero_of_any,
}
use recall_select.Documents.{User, Payment, TierGrant, Database, ok, payments_index}
use recall_select.Users.{has_id, patched}
use recall_select.Billing.Plans.{Plan}
use recall_select.Billing.Tiers.{subscription_days}
use recall_select.Billing.Grants.{grant_tier, granted, grant_expiry, grant_row}
use recall_select.Billing.Grants.Extension.{grant_tier_lem, grant_tier_unknown}
use recall_select.Billing.Payments.{
  paid_status, has_invoice, is_unpaid, paid, noted, invoice_reason, webhook_source, new_payment,
  record_pending, apply_webhook,
}
use recall_select.Billing.Payments.Webhooks.{
  grant_tier-payments, apply_webhook_unknown, apply_webhook_unpaid, paid_is_final, first_unpaid,
}

abbrev pub is_invoice_grant : String → TierGrant → Bool
is_invoice_grant invoice_id g = g.source == webhook_source && g.reason == invoice_reason invoice_id

abbrev pub is_paid : String → Payment → Bool
is_paid invoice_id p = p.id == invoice_id && p.status == paid_status

abbrev pub HasBuyer : List User → Payment → Type 0
HasBuyer users p = any (has_id p.user_id) users ≡ true

pub record IsBalanced (db : Database) : Type 0 where
  pub keyed : HasUniqueKeys (λ (p : Payment). p.id) db.payments
  pub buyers : All (HasBuyer db.users) db.payments
  pub once :
      (invoice_id : String)
      → count (is_invoice_grant invoice_id) db.tier_grants ≡ count (is_paid invoice_id) db.payments

-- The reasons of two invoices are the same text only if the invoices are the same.
reason_eq : (i j : String) → (invoice_reason i == invoice_reason j) ≡ (i == j)
reason_eq i j = ground (
  arith,
  eq_iff i j,
  eq_iff (invoice_reason i) (invoice_reason j),
  append_cancel_left "invoice " i j,
)

-- An update of users that keeps their ids keeps every buyer.
pub update-buyers :
    (f : User → Bool) (u : User → User) (users : List User) (ps : List Payment)
    → ((a : User) → (u a).id ≡ a.id)
    → All (HasBuyer users) ps
    → All (HasBuyer (update_first f u users)) ps
update-buyers f u users ps k h =
    All-map {P = HasBuyer users}
      (λ p e.
        rw
          (any-update_first_same (has_id p.user_id) f u users
            (λ a. ap (λ (t : String). t == p.user_id) (k a)))
          e)
      ps h

module _ ⦃mongo : Driver⦄ where
  -- Opening a checkout of a user that there is keeps the books.
  pub record_pending-IsBalanced :
      (invoice_id user_id : String) (plan : Plan) (now : ℕ) (db : Database) {p : Payment}
      {db' : Database}
      → any (has_id user_id) db.users ≡ true
      → record_pending invoice_id user_id plan now db ≡ ok (p, db')
      → IsBalanced db
      → IsBalanced db'
  unfolding record_pending
  record_pending-IsBalanced invoice_id user_id plan now db {db' = db'} b e v =
      let fresh : Payment = new_payment invoice_id user_id plan now in
      elim (Bool-cases (any (payments_index fresh) db.payments)) [
        | inl clash ↦ absurd (ground (arith, insert_one_lem payments_index fresh db.payments))
        | inr free ↦
            let same : record db { payments = placed fresh db.payments } ≡ db' =
              ground (arith, insert_one_lem payments_index fresh db.payments) in
            let into = placed_lem fresh db.payments in
            subst IsBalanced same (record {
              keyed =
                  insertion-HasUniqueKeys (λ (p : Payment). p.id) into
                    (count-zero_of_any (has_invoice invoice_id) (payments_index fresh) db.payments
                      (λ a k. ground (arith, eq_iff a.id invoice_id, eq_iff invoice_id a.id)) free)
                    v.keyed;
              buyers = All-insertion (HasBuyer db.users) into v.buyers b;
              once = λ i. ground (arith, v.once i, count-insertion (is_paid i) into);
            })
      ]

  -- A grant by hand keeps the books.
  pub grant_tier-IsBalanced :
      (user_id tier : String) (days : Option ℕ) (reason source : String) (now : ℕ) (db : Database)
      → source ≢ webhook_source
      → IsBalanced db
      → IsBalanced (grant_tier user_id tier days reason source now db).1
  grant_tier-IsBalanced user_id tier days reason source now db ne v =
      elim (Option-cases (first (has_id user_id) db.users)) [
        | inl e ↦ rw (grant_tier_unknown user_id tier days reason source now db e) v
        | inr (u, e) ↦
            let row : TierGrant = grant_row user_id u tier days reason source now in
            rw (grant_tier_lem user_id tier days reason source now db e) (record {
              keyed = v.keyed;
              buyers =
                  update-buyers (has_id user_id)
                    (patched (granted tier (grant_expiry tier days u now)) now) db.users db.payments
                    (λ a. refl) v.buyers;
              once = λ i. ground (
                arith,
                v.once i,
                eq_iff source webhook_source,
                count-insertion (is_invoice_grant i) (placed_lem row db.tier_grants),
              );
            })
      ]

  -- The rows of an invoice after its grant to a buyer that there is.
  webhook_rows :
      (i invoice_id user_id tier : String) (days : Option ℕ) (now : ℕ) (db : Database)
      → any (has_id user_id) db.users ≡ true
      → count
          (is_invoice_grant i)
          (grant_tier user_id tier days
            (invoice_reason invoice_id)
            webhook_source
            now
            db).1.tier_grants
        ≡ one_if (invoice_id == i) + count (is_invoice_grant i) db.tier_grants
  webhook_rows i invoice_id user_id tier days now db b =
      let (u, e) = first_of_any (has_id user_id) db.users b in
      let row : TierGrant =
        grant_row user_id u tier days (invoice_reason invoice_id) webhook_source now in
      rw (grant_tier_lem user_id tier days (invoice_reason invoice_id) webhook_source now db e) (
        ground (
          arith,
          reason_eq invoice_id i,
          count-insertion (is_invoice_grant i) (placed_lem row db.tier_grants),
        ))

  grant_tier-buyers :
      (user_id tier : String) (days : Option ℕ) (reason source : String) (now : ℕ) (db : Database)
      (ps : List Payment)
      → All (HasBuyer db.users) ps
      → All (HasBuyer (grant_tier user_id tier days reason source now db).1.users) ps
  grant_tier-buyers user_id tier days reason source now db ps h =
      elim (Option-cases (first (has_id user_id) db.users)) [
        | inl e ↦ rw (grant_tier_unknown user_id tier days reason source now db e) h
        | inr (u, e) ↦ rw (grant_tier_lem user_id tier days reason source now db e) (
            update-buyers (has_id user_id)
              (patched (granted tier (grant_expiry tier days u now)) now) db.users ps (λ a. refl) h)
      ]

  -- A payment that a success settles, and its grant.
  settled-IsBalanced :
      (invoice_id : String) (now : ℕ) (db : Database) (p : Payment)
      → IsBalanced db
      → first (is_unpaid invoice_id) db.payments ≡ some p
      → IsBalanced
          (grant_tier p.user_id p.tier
            (some subscription_days)
            (invoice_reason invoice_id)
            webhook_source
            now
            (record db { payments = update_first (is_unpaid invoice_id) (paid now) db.payments })).1
  settled-IsBalanced invoice_id now db p v e =
      let open_now = first_matches (is_unpaid invoice_id) db.payments p e in
      let ps : List Payment = update_first (is_unpaid invoice_id) (paid now) db.payments in
      let marked : Database = record db { payments = ps } in
      let reason : String = invoice_reason invoice_id in
      let kept =
        grant_tier-payments p.user_id p.tier (some subscription_days) reason webhook_source now
          marked in
      let buyer = All-first (HasBuyer db.users) (is_unpaid invoice_id) db.payments p v.buyers e in
      record {
        keyed = rw kept (
            update_first-HasUniqueKeys (λ (p : Payment). p.id) (is_unpaid invoice_id) (paid now)
              db.payments (λ a. refl) v.keyed);
        buyers = rw kept (
            grant_tier-buyers p.user_id p.tier (some subscription_days) reason webhook_source now
              marked ps
              (All-update_first (HasBuyer db.users) (is_unpaid invoice_id) (paid now) db.payments
                (λ a k. k) v.buyers));
        once = λ i.
            rw
              (
                kept,
                webhook_rows i invoice_id p.user_id p.tier (some subscription_days) now marked
                    buyer,
              )
              (ground (
                arith,
                v.once i,
                eq_iff p.id invoice_id,
                eq_iff p.id i,
                eq_iff invoice_id i,
                count-update_first (is_paid i) (is_unpaid invoice_id) (paid now) db.payments p e,
              ));
      }

  -- A payment on which another status is recorded.
  noted-IsBalanced :
      (invoice_id status : String) (now : ℕ) (db : Database) (p : Payment)
      → IsBalanced db
      → (status == paid_status) ≡ false
      → first (is_unpaid invoice_id) db.payments ≡ some p
      → IsBalanced (record db {
        payments = update_first (is_unpaid invoice_id) (noted status now) db.payments;
      })
  noted-IsBalanced invoice_id status now db p v s e =
      let open_now = first_matches (is_unpaid invoice_id) db.payments p e in
      record {
        keyed =
            update_first-HasUniqueKeys (λ (p : Payment). p.id) (is_unpaid invoice_id)
              (noted status now) db.payments (λ a. refl) v.keyed;
        buyers =
            All-update_first (HasBuyer db.users) (is_unpaid invoice_id) (noted status now)
              db.payments (λ a k. k) v.buyers;
        once = λ i. ground (
          arith,
          v.once i,
          count-update_first (is_paid i) (is_unpaid invoice_id) (noted status now) db.payments p e,
        );
      }

  unpaid-IsBalanced :
      (invoice_id status : String) (now : ℕ) (db : Database) (p : Payment)
      → IsBalanced db
      → first (has_invoice invoice_id) db.payments ≡ some p
      → (p.status == paid_status) ≡ false
      → IsBalanced (apply_webhook invoice_id status now db).1
  unpaid-IsBalanced invoice_id status now db p v e new =
      let unpaid : first (is_unpaid invoice_id) db.payments ≡ some p =
        first_unpaid invoice_id db.payments p e new in
      rw (apply_webhook_unpaid invoice_id status now db p p e unpaid)
        (elim (Bool-cases (status == paid_status)) [
          | inl t ↦ rw t (settled-IsBalanced invoice_id now db p v unpaid)
          | inr t ↦ rw t (noted-IsBalanced invoice_id status now db p v t unpaid)
        ])

  -- A delivery keeps the books, whatever it says of whichever invoice.
  pub apply_webhook-IsBalanced :
      (invoice_id status : String) (now : ℕ) (db : Database)
      → IsBalanced db
      → IsBalanced (apply_webhook invoice_id status now db).1
  apply_webhook-IsBalanced invoice_id status now db v =
      elim (Option-cases (first (has_invoice invoice_id) db.payments)) [
        | inl e ↦ rw (apply_webhook_unknown invoice_id status now db e) v
        | inr (p, e) ↦ elim (Bool-cases (p.status == paid_status)) [
          | inl done ↦ rw (paid_is_final invoice_id status now db v.keyed e (eq_of_== _ _ done)) v
          | inr new ↦ unpaid-IsBalanced invoice_id status now db p v e new
        ]
      ]
