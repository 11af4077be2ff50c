-- ===== src/Billing/Reconcile/Recovery.antt =====
-- The sweep recovers what a lost webhook would have done.
use recall_select.Prelude.{
  ℕ, ◌≡◌, refl, Bool, true, false, not, ◌&&◌, some, List, [], ◌∷◌, String, ◌==◌, arith, eq_iff,
  eq_of_==, any, All, All-map, Bool-cases, Option-cases, inl, inr, if◌then◌else◌, ◌⊎◌,
}
use recall_select.Mongo.{Driver}
use recall_select.Mongo.Query.{
  first, filter, update_first, update_first-none, first-update_first_same, first_matches,
}
use recall_select.Mongo.Unique.{filter-All, first_of_own_key, first-update_first_finer, finer_none}
use recall_select.Mongo.Counts.{any_of_first, first_of_any, any-update_first_same}
use recall_select.Mongo.Query.{first-none-count}
use recall_select.Documents.{Payment, Database}
use recall_select.Billing.Payments.{
  paid_status, has_invoice, is_unpaid, paid, noted, apply_webhook, invoice_reason, webhook_source,
}
use recall_select.Billing.Tiers.{subscription_days}
use recall_select.Billing.Payments.Webhooks.{
  apply_webhook_unknown, apply_webhook_unpaid, apply_webhook_paid, paid_is_final,
  grant_tier-payments,
}
use recall_select.Billing.Payments.Ledger.{IsBalanced, apply_webhook-IsBalanced}
use recall_select.Billing.Reconcile.{
  is_unsettled, Answer, raised, answered, Report, empty_report, news, list_unsettled, check_payment,
  sweep, reconcile,
}
use recall_select.Billing.Reconcile.Sweeps.{list_unsettled-All}

-- The payment of the invoice has succeeded.
abbrev pub IsPaidIn : String → List Payment → Type 0
IsPaidIn invoice_id ps =
    (p : Payment) × (first (has_invoice invoice_id) ps ≡ some p) × (p.status ≡ paid_status)

abbrev written : String → ℕ → Payment → Payment
written status now = if status == paid_status then paid now else noted status now

module _ ⦃mongo : Driver⦄ where
  -- What a delivery writes to the payments, whatever it finds.
  apply_webhook-payments :
      (invoice_id status : String) (now : ℕ) (db : Database)
      → (apply_webhook invoice_id status now db).1.payments
        ≡ update_first (is_unpaid invoice_id) (written status now) db.payments
  apply_webhook-payments invoice_id status now db =
      elim (Option-cases (first (is_unpaid invoice_id) db.payments)) [
        | inl miss ↦
            rw (update_first-none (is_unpaid invoice_id) (written status now) db.payments miss)
              (elim (Option-cases (first (has_invoice invoice_id) db.payments)) [
                | inl e ↦ rw (apply_webhook_unknown invoice_id status now db e) refl
                | inr (p, e) ↦ rw (apply_webhook_paid invoice_id status now db p e miss) refl
              ])
        | inr (q, f) ↦ elim (Option-cases (first (has_invoice invoice_id) db.payments)) [
          | inl e ↦ absurd (
              cc (
                f,
                finer_none (has_invoice invoice_id) (is_unpaid invoice_id) db.payments
                    (λ b k. ground arith) (first-none-count (has_invoice invoice_id) db.payments e),
              ))
          | inr (p, e) ↦
              rw (apply_webhook_unpaid invoice_id status now db p q e f)
                (elim (Bool-cases (status == paid_status)) [
                  | inl t ↦ rw t (
                      grant_tier-payments p.user_id p.tier (some subscription_days)
                        (invoice_reason invoice_id) webhook_source now _)
                  | inr t ↦ rw t refl
                ])
        ]
      ]

  -- A delivery removes no payment.
  delivery_keeps_invoices :
      (i invoice_id status : String) (now : ℕ) (db : Database)
      → any (has_invoice i) (apply_webhook invoice_id status now db).1.payments
        ≡ any (has_invoice i) db.payments
  delivery_keeps_invoices i invoice_id status now db =
      rw (apply_webhook-payments invoice_id status now db) (
        any-update_first_same (has_invoice i) (is_unpaid invoice_id) (written status now)
          db.payments
          (λ a. elim (Bool-cases (status == paid_status)) [
            | inl t ↦ rw t refl
            | inr t ↦ rw t refl
          ]))

  -- What has been paid stays paid, whatever is delivered.
  pub paid_stays_paid :
      (i invoice_id status : String) (now : ℕ) (db : Database)
      → IsBalanced db
      → IsPaidIn i db.payments
      → IsPaidIn i (apply_webhook invoice_id status now db).1.payments
  paid_stays_paid i invoice_id status now db v (p, e, s) = elim (Bool-cases (invoice_id == i)) [
    | inl same ↦
        let e' : first (has_invoice invoice_id) db.payments ≡ some p =
          rw (eq_of_== invoice_id i same) e in
        rw (paid_is_final invoice_id status now db v.keyed e' s) (p, e, s)
    | inr other ↦ rw (apply_webhook-payments invoice_id status now db) (
      p,
      rw
          (first-update_first_same (has_invoice i) (is_unpaid invoice_id) (written status now)
            db.payments
            (λ a k. ground (arith, eq_iff a.id i, eq_iff a.id invoice_id, eq_iff invoice_id i))
            (λ a k. elim (Bool-cases (status == paid_status)) [
              | inl t ↦
                  rw t (ground (arith, eq_iff a.id i, eq_iff a.id invoice_id, eq_iff invoice_id i))
              | inr t ↦
                  rw t (ground (arith, eq_iff a.id i, eq_iff a.id invoice_id, eq_iff invoice_id i))
            ]))
          e,
      s,
    )
  ]

  -- A success that is delivered for an invoice that there is makes it paid.
  pub success_is_recorded :
      (i : String) (now : ℕ) (db : Database)
      → IsBalanced db
      → any (has_invoice i) db.payments ≡ true
      → IsPaidIn i (apply_webhook i paid_status now db).1.payments
  success_is_recorded i now db v h =
      let (p, e) = first_of_any (has_invoice i) db.payments h in
      elim (Bool-cases (p.status == paid_status)) [
        | inl t ↦ paid_stays_paid i i paid_status now db v (p, e, eq_of_== p.status paid_status t)
        | inr t ↦
            let mine = first_matches (has_invoice i) db.payments p e in
            rw (apply_webhook-payments i paid_status now db) (
              paid now p,
              first-update_first_finer (has_invoice i) (is_unpaid i) (paid now) db.payments p
                  (λ b k. ground arith) e (ground arith) mine,
              refl,
            )
      ]

  -- A step of the sweep applies a delivery or leaves the database as it is.
  check_cases :
      (p : Payment) (a : Answer) (r : Report) (db : Database)
      → ((check_payment p a (r, db)).1 ≡ db)
        ⊎ ((status : String) × (now : ℕ) × ((check_payment p a (r, db)).1
              ≡ (apply_webhook p.id status now db).1))
  unfolding check_payment
  check_cases p raised r db = inl refl
  check_cases p (answered current now) r db = elim (Option-cases (news current p)) [
    | inl e ↦ inl (rw (e, check_payment) refl)
    | inr (status, e) ↦ inr (status, now, rw (e, check_payment) refl)
  ]

  -- What every delivery keeps, the sweep keeps.
  module _ {κ} (P : Database → Type κ)
      (keep : (i status : String) (now : ℕ) (db : Database)
        → P db
        → P (apply_webhook i status now db).1) where
    check_keeps :
        (p : Payment) (a : Answer) (r : Report) (db : Database)
        → P db
        → P (check_payment p a (r, db)).1
    check_keeps p a r db h = elim (check_cases p a r db) [
      | inl e ↦ rw e h
      | inr (status, now, e) ↦ rw e (keep p.id status now db h)
    ]

    pub sweep_keeps :
        (fetch : String → Answer) (ps : List Payment) (r : Report) (db : Database)
        → P db
        → P (sweep fetch ps (r, db)).1
    unfolding sweep
    sweep_keeps fetch [] r db h = h
    sweep_keeps fetch (p ∷ ps) r db h = sweep_keeps fetch ps _ _ (check_keeps p (fetch p.id) r db h)

  -- The sweep keeps the books.
  pub reconcile-IsBalanced :
      (fetch : String → Answer) (older_than n now : ℕ) (db : Database)
      → IsBalanced db
      → IsBalanced (reconcile fetch older_than n now db).1
  unfolding reconcile
  reconcile-IsBalanced fetch older_than n now db h =
      sweep_keeps IsBalanced apply_webhook-IsBalanced fetch (list_unsettled older_than n now db)
        empty_report db h

  -- In balance, and with this invoice paid.
  abbrev Settled : String → Database → Type 0
  Settled i db = IsBalanced db × IsPaidIn i db.payments

  -- An unpaid payment whose invoice is there.
  abbrev is_open : Database → Payment → Bool
  is_open db p = not (p.status == paid_status) && any (has_invoice p.id) db.payments

  keeps_Settled :
      (j i status : String) (now : ℕ) (db : Database)
      → Settled j db
      → Settled j (apply_webhook i status now db).1
  keeps_Settled j i status now db h =
      (apply_webhook-IsBalanced i status now db h.0, paid_stays_paid j i status now db h.0 h.1)

  open_is_unpaid :
      (db : Database) (p : Payment) → is_open db p ≡ true → (p.status == paid_status) ≡ false
  open_is_unpaid db p h = ground arith

  open_is_there :
      (db : Database) (p : Payment)
      → is_open db p ≡ true
      → any (has_invoice p.id) db.payments ≡ true
  open_is_there db p h = ground arith

  check_success :
      (p : Payment) (t : ℕ) (r : Report) (db : Database)
      → (p.status == paid_status) ≡ false
      → (check_payment p (answered (some paid_status) t) (r, db)).1
        ≡ (apply_webhook p.id paid_status t db).1
  check_success p t r db h =
      let fresh : news (some paid_status) p ≡ some paid_status =
        ground (arith, eq_iff paid_status p.status, eq_iff p.status paid_status) in
      unfold check_payment in rw (fresh, check_payment) refl

  -- A payment of the rest of the sweep is still open as it was picked up.
  open_kept :
      (q p : Payment) (a : Answer) (r : Report) (db : Database)
      → is_open db q ≡ true
      → is_open (check_payment p a (r, db)).1 q ≡ true
  open_kept q p a r db h =
      let there =
        check_keeps (λ d. any (has_invoice q.id) d.payments ≡ true)
          (λ i s n d k. rw (delivery_keeps_invoices q.id i s n d) k) p a r db
          (open_is_there db q h) in
      ground arith

  sweep_settles :
      (fetch : String → Answer) (ps : List Payment) (r : Report) (db : Database)
      → IsBalanced db
      → All (λ p. is_open db p ≡ true) ps
      → All
          (λ p.
            (t : ℕ)
            → fetch p.id ≡ answered (some paid_status) t
            → IsPaidIn p.id (sweep fetch ps (r, db)).1.payments)
          ps
  unfolding sweep
  sweep_settles fetch [] r db v h = tt
  sweep_settles fetch (p ∷ ps) r db v h =
      let next = (check_payment p (fetch p.id) (r, db)).1 in
      (
        λ t e.
            (sweep_keeps (Settled p.id) (keeps_Settled p.id) fetch ps _ _ (
              rw (e, check_success p t r db (open_is_unpaid db p h.0))
                (
                  apply_webhook-IsBalanced p.id paid_status t db v,
                  success_is_recorded p.id t db v (open_is_there db p h.0),
                ))).1,
        sweep_settles fetch ps _ _
            (check_keeps IsBalanced apply_webhook-IsBalanced p (fetch p.id) r db v)
            (All-map (λ q k. open_kept q p (fetch p.id) r db k) ps h.1),
      )

  unsettled_is_open :
      (older_than now : ℕ) (db : Database) (p : Payment)
      → is_unsettled older_than now p ≡ true
      → any (has_invoice p.id) db.payments ≡ true
      → is_open db p ≡ true
  unsettled_is_open older_than now db p k h = ground arith

  -- The sweep settles every payment that it picks up and that Monobank says is paid.
  pub reconcile_settles_paid :
      (fetch : String → Answer) (older_than n now : ℕ) (db : Database)
      → IsBalanced db
      → All
          (λ p.
            (t : ℕ)
            → fetch p.id ≡ answered (some paid_status) t
            → IsPaidIn p.id (reconcile fetch older_than n now db).1.payments)
          (list_unsettled older_than n now db)
  unfolding reconcile
  reconcile_settles_paid fetch older_than n now db v =
      sweep_settles fetch (list_unsettled older_than n now db) empty_report db v (
        list_unsettled-All (is_open db) older_than n now db (
          All-map (λ p k. unsettled_is_open older_than now db p k.0 k.1)
            (filter (is_unsettled older_than now) db.payments)
            (filter-All (λ p. any (has_invoice p.id) db.payments ≡ true)
              (is_unsettled older_than now) db.payments
              (All-map (λ p e. any_of_first (has_invoice p.id) db.payments p e) db.payments
                (first_of_own_key (λ (p : Payment). p.id) db.payments v.keyed)))))
