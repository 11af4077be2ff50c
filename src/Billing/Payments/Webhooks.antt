-- ===== src/Billing/Payments/Webhooks.antt =====
-- What one webhook delivery does, and that a payment settles once.
use recall_select.Prelude.{
  ℕ, ◌≡◌, ◌≢◌, refl, false, Option, none, some, String, List, ◌==◌, arith, eq_iff, eq_of_==,
  ==-false_of_ne, Bool-cases, Option-cases, inl, inr, if◌then◌else◌,
}
use recall_select.Mongo.{Driver, find_one_lem, find_one_and_update_lem}
use recall_select.Mongo.Query.{first, update_first, update_first-none, first_matches}
use recall_select.Mongo.Unique.{
  HasUniqueKeys, first-finer_none, first-finer_some, first-update_first_finer,
  update_first-HasUniqueKeys,
}
use recall_select.Documents.{Payment, Database}
use recall_select.Users.{has_id}
use recall_select.Billing.Tiers.{subscription_days}
use recall_select.Billing.Grants.{grant_tier}
use recall_select.Billing.Grants.Extension.{grant_tier_lem, grant_tier_unknown}
use recall_select.Billing.Payments.{
  paid_status, has_invoice, is_unpaid, paid, noted, invoice_reason, webhook_source, apply_webhook,
}

abbrev payment_key : Payment → String
payment_key p = p.id

module _ ⦃mongo : Driver⦄ where
  -- A grant leaves the payments alone.
  pub grant_tier-payments :
      (user_id tier : String) (days : Option ℕ) (reason source : String) (now : ℕ) (db : Database)
      → (grant_tier user_id tier days reason source now db).1.payments ≡ db.payments
  grant_tier-payments user_id tier days reason source now db =
      elim (Option-cases (first (has_id user_id) db.users)) [
        | inl e ↦ rw (grant_tier_unknown user_id tier days reason source now db e) refl
        | inr (u, e) ↦ rw (grant_tier_lem user_id tier days reason source now db e) refl
      ]

  -- A delivery for an invoice that was never created is ignored.
  pub apply_webhook_unknown :
      (invoice_id status : String) (now : ℕ) (db : Database)
      → first (has_invoice invoice_id) db.payments ≡ none
      → apply_webhook invoice_id status now db ≡ (none, db)
  unfolding apply_webhook
  apply_webhook_unknown invoice_id status now db e =
      ground (arith, find_one_lem (has_invoice invoice_id) db.payments)

  -- What a delivery does to a payment that nothing has paid yet.
  pub apply_webhook_unpaid :
      (invoice_id status : String) (now : ℕ) (db : Database) (p q : Payment)
      → first (has_invoice invoice_id) db.payments ≡ some p
      → first (is_unpaid invoice_id) db.payments ≡ some q
      → apply_webhook invoice_id status now db ≡ (
          if status == paid_status
          then (
            some (paid now q),
            (grant_tier p.user_id p.tier
                (some subscription_days)
                (invoice_reason invoice_id)
                webhook_source
                now
                (record db {
                  payments = update_first (is_unpaid invoice_id) (paid now) db.payments;
                })).1,
          )
          else (
            some (noted status now q),
            record db {
              payments = update_first (is_unpaid invoice_id) (noted status now) db.payments;
            },
          ))
  unfolding apply_webhook
  apply_webhook_unpaid invoice_id status now db p q e f =
      rw (find_one_lem (has_invoice invoice_id) db.payments, e, apply_webhook)
        (elim (Bool-cases (status == paid_status)) [
          | inl t ↦ rw t (
              ground (arith, find_one_and_update_lem (is_unpaid invoice_id) (paid now) db.payments))
          | inr t ↦ rw t (
              ground (
                arith,
                find_one_and_update_lem (is_unpaid invoice_id) (noted status now) db.payments,
              ))
        ])

  -- Where no payment of the invoice is unpaid, a delivery finds nothing to do.
  pub apply_webhook_paid :
      (invoice_id status : String) (now : ℕ) (db : Database) (p : Payment)
      → first (has_invoice invoice_id) db.payments ≡ some p
      → first (is_unpaid invoice_id) db.payments ≡ none
      → apply_webhook invoice_id status now db ≡ (some p, db)
  unfolding apply_webhook
  apply_webhook_paid invoice_id status now db p e miss =
      rw (find_one_lem (has_invoice invoice_id) db.payments, e, apply_webhook)
        (elim (Bool-cases (status == paid_status)) [
          | inl t ↦ rw t (
              ground (
                arith,
                find_one_and_update_lem (is_unpaid invoice_id) (paid now) db.payments,
                update_first-none (is_unpaid invoice_id) (paid now) db.payments,
              ))
          | inr t ↦ rw t (
              ground (
                arith,
                find_one_and_update_lem (is_unpaid invoice_id) (noted status now) db.payments,
                update_first-none (is_unpaid invoice_id) (noted status now) db.payments,
              ))
        ])

  -- Nothing that is delivered after the payment succeeded changes anything.
  pub paid_is_final :
      (invoice_id status : String) (now : ℕ) (db : Database) {p : Payment}
      → HasUniqueKeys (λ (p : Payment). p.id) db.payments
      → first (has_invoice invoice_id) db.payments ≡ some p
      → p.status ≡ paid_status
      → apply_webhook invoice_id status now db ≡ (some p, db)
  paid_is_final invoice_id status now db {p = p} h e s =
      apply_webhook_paid invoice_id status now db p e (
        first-finer_none (has_invoice invoice_id) (is_unpaid invoice_id) db.payments p
          (λ b k. ground arith) (h invoice_id) e (ground (arith, eq_iff p.status paid_status)))

  -- A payment that is not paid is what the update of its invoice finds.
  pub first_unpaid :
      (invoice_id : String) (ps : List Payment) (p : Payment)
      → first (has_invoice invoice_id) ps ≡ some p
      → (p.status == paid_status) ≡ false
      → first (is_unpaid invoice_id) ps ≡ some p
  first_unpaid invoice_id ps p e s =
      let mine = first_matches (has_invoice invoice_id) ps p e in
      first-finer_some (has_invoice invoice_id) (is_unpaid invoice_id) ps p (λ b k. ground arith) e
        (ground arith)

  -- A success that reaches a payment not yet paid marks it, grants the tier that was bought for the
  -- subscription days, and is the last delivery that changes anything: of a later one the result is
  -- that payment, and the database stays as it is.
  pub success_settles_once :
      (invoice_id : String) (now : ℕ) (db : Database) {p : Payment}
      → HasUniqueKeys (λ (p : Payment). p.id) db.payments
      → first (has_invoice invoice_id) db.payments ≡ some p
      → p.status ≢ paid_status
      → let (r, db') = apply_webhook invoice_id paid_status now db in
        (r ≡ some (paid now p))
        × (db'
            ≡ (grant_tier p.user_id p.tier
                (some subscription_days)
                (invoice_reason invoice_id)
                webhook_source
                now
                (record db {
                  payments = update_first (is_unpaid invoice_id) (paid now) db.payments;
                })).1)
        × ((status : String) (later : ℕ)
            → apply_webhook invoice_id status later db' ≡ (some (paid now p), db'))
  success_settles_once invoice_id now db {p = p} h e s =
      let write : Payment → Payment = paid now in
      let mine : p.id ≡ invoice_id =
        eq_of_== _ _ (first_matches (has_invoice invoice_id) db.payments p e) in
      let unpaid : first (is_unpaid invoice_id) db.payments ≡ some p =
        first_unpaid invoice_id db.payments p e (==-false_of_ne p.status paid_status s) in
      let marked : Database = record db {
        payments = update_first (is_unpaid invoice_id) (paid now) db.payments;
      } in
      let kept : (grant_tier p.user_id p.tier (some subscription_days) (invoice_reason invoice_id)
            webhook_source now marked).1.payments
          ≡ marked.payments =
        grant_tier-payments p.user_id p.tier (some subscription_days) (invoice_reason invoice_id)
          webhook_source now marked in
      rw (apply_webhook_unpaid invoice_id paid_status now db p p e unpaid) (
        refl,
        refl,
        λ status later.
            paid_is_final invoice_id status later _
              (rw kept (
                update_first-HasUniqueKeys (λ (p : Payment). p.id) (is_unpaid invoice_id) write
                  db.payments (λ a. refl) h))
              (rw kept (
                first-update_first_finer (has_invoice invoice_id) (is_unpaid invoice_id) write
                  db.payments p (λ b k. ground arith) e
                  (ground (arith, eq_iff p.id invoice_id, eq_iff p.status paid_status))
                  (ground (arith, eq_iff p.id invoice_id))))
              refl,
      )
