-- ===== src/Billing/Reconcile/Sweeps.antt =====
-- What the reconciliation sweep picks up, reports and settles.
use recall_select.Prelude.{
  ℕ, ◌+◌, ◌*◌, ◌≤◌, ◌≡◌, Bool, true, false, not, some, List, [], ◌∷◌, String, ◌==◌, arith, eq_iff,
  eqb, length, All, All-map, All-of_count, count_of_All, take-All, length-take-le, IsAscending,
  zero, suc, refl, sym, ap, ◌∙◌, ◌++◌, ◌&&◌, ◌||◌, leb, take, drop, count, Bool-cases, Option-cases,
  inl, inr, ◌⊎◌,
}
use mathlib.Core.Path.{subst}
use recall_select.Mongo.{
  Driver, find_lem, sort_ascending, count-sort_ascending, sort_ascending-IsAscending, limit_lem,
}
use recall_select.Mongo.Query.{first, filter}
use recall_select.Mongo.Unique.{filter_passes}
use recall_select.Documents.{Payment, Database, instant}
use recall_select.Billing.Tiers.{second}
use recall_select.Billing.Payments.{paid_status, has_invoice, is_unpaid, apply_webhook}
use recall_select.Billing.Payments.Webhooks.{
  apply_webhook_paid, first_unpaid, apply_webhook_unknown, apply_webhook_unpaid,
}
use recall_select.Billing.Reconcile.{
  is_terminal, is_unsettled, Answer, raised, answered, Report, empty_report, news, list_unsettled,
  tally, check_payment, sweep, reconcile,
}

-- A payment that a sweep at `now` is for: none of the final statuses, and old enough.
abbrev pub is_due : ℕ → ℕ → Payment → Bool
is_due older_than now p =
    not (
      p.status == "success"
      || p.status == "failure"
      || p.status == "reversed"
      || p.status == "expired")
    && leb (instant p.created_at + older_than * second) now

module _ {A : Type 0} where
  append_nil : (xs : List A) → xs ++ [] ≡ xs
  append_nil [] = refl
  append_nil (x ∷ xs) = ap (λ r. x ∷ r) (append_nil xs)

  take-drop : (n : ℕ) (xs : List A) → take n xs ++ drop n xs ≡ xs
  take-drop zero xs = refl
  take-drop (suc n) [] = refl
  take-drop (suc n) (x ∷ xs) = ap (λ r. x ∷ r) (take-drop n xs)

  -- Something is left over only by a full list.
  drop_or_full : (n : ℕ) (xs : List A) → (drop n xs ≡ []) ⊎ (length (take n xs) ≡ n)
  drop_or_full zero xs = inr refl
  drop_or_full (suc n) [] = inl refl
  drop_or_full (suc n) (x ∷ xs) = elim (drop_or_full n xs) [
    | inl e ↦ inl e
    | inr e ↦ inr (omega (arith, e))
  ]

  count-filter : (f g : A → Bool) (xs : List A) → count f (filter g xs) ≡ count (λ x. f x && g x) xs
  count-filter f g [] = refl
  count-filter f g (x ∷ xs) = ground (arith, count-filter f g xs)

module _ ⦃mongo : Driver⦄ where
  -- What holds of the documents that the query finds holds of the list that the sweep goes through.
  pub list_unsettled-All :
      (q : Payment → Bool) (older_than n now : ℕ) (db : Database)
      → All (λ p. q p ≡ true) (filter (is_unsettled older_than now) db.payments)
      → All (λ p. q p ≡ true) (list_unsettled older_than n now db)
  unfolding list_unsettled
  list_unsettled-All q older_than n now db h =
      let created : Payment → ℕ = λ p. instant p.created_at in
      let found : List Payment = filter (is_unsettled older_than now) db.payments in
      let sorted : List Payment = sort_ascending created found in
      let all : All (λ p. q p ≡ true) sorted =
        All-of_count q sorted
          (rw (count-sort_ascending created (λ a. not (q a)) found) (count_of_All q found h)) in
      rw (find_lem (is_unsettled older_than now) db.payments, limit_lem n sorted)
        (elim (Bool-cases (eqb n 0)) [
          | inl t ↦ rw t all
          | inr t ↦ rw t (take-All (λ p. q p ≡ true) n sorted all)
        ])

  -- The sweep goes through payments that are in flight and old enough: those of no final status that
  -- were created long enough ago. Each such payment of the collection is in its list or in the list
  -- of those left for another sweep, as often as in the collection. Both lists, one after the other,
  -- are in the order of creation, so the oldest are taken; the sweep takes at most as many as its
  -- limit, where that is not 0, and leaves some only where it takes as many as its limit.
  pub list_unsettled_lem :
      (older_than n now : ℕ) (db : Database)
      → let ps = list_unsettled older_than n now db in
        All
          (λ p. (is_terminal p.status ≡ false) × (instant p.created_at + older_than * second ≤ now))
          ps
        × ((left : List Payment) × ((f : Payment → Bool)
              → count f (ps ++ left) ≡ count (λ p. f p && is_due older_than now p) db.payments)
            × IsAscending (λ p. instant p.created_at) (ps ++ left)
            × ((n ≡ 0) ⊎ (length ps ≤ n))
            × ((left ≡ []) ⊎ (length ps ≡ n)))
  unfolding list_unsettled
  list_unsettled_lem older_than n now db =
      let created : Payment → ℕ = λ p. instant p.created_at in
      let found : List Payment = filter (is_unsettled older_than now) db.payments in
      let sorted : List Payment = sort_ascending created found in
      let same : (f : Payment → Bool)
          → count f sorted ≡ count (λ p. f p && is_due older_than now p) db.payments =
        λ f.
          count-sort_ascending created f found
          ∙ count-filter f (is_unsettled older_than now) db.payments in
      let ordered = sort_ascending-IsAscending created found in
      (
        All-map (λ p e. (ground arith, ground arith)) (list_unsettled older_than n now db)
            (list_unsettled-All (is_unsettled older_than now) older_than n now db
              (filter_passes (is_unsettled older_than now) db.payments)),
        rw (find_lem (is_unsettled older_than now) db.payments, limit_lem n sorted, list_unsettled)
            (elim (Bool-cases (eqb n 0)) [
              | inl t ↦ rw t (
                [],
                λ f. ap (count f) (append_nil sorted) ∙ same f,
                subst (IsAscending created) (sym (append_nil sorted)) ordered,
                inl (ground arith),
                inl refl,
              )
              | inr t ↦ rw t (
                drop n sorted,
                λ f. ap (count f) (take-drop n sorted) ∙ same f,
                subst (IsAscending created) (sym (take-drop n sorted)) ordered,
                inr (length-take-le n sorted),
                drop_or_full n sorted,
              )
            ]),
      )

  -- The payment that a delivery of success returns has succeeded.
  success_returned :
      (invoice_id status : String) (now : ℕ) (db : Database) (p q : Payment)
      → first (has_invoice invoice_id) db.payments ≡ some p
      → (status == paid_status) ≡ true
      → (apply_webhook invoice_id status now db).0 ≡ some q
      → q.status ≡ paid_status
  success_returned invoice_id status now db p q e s r =
      elim (Option-cases (first (is_unpaid invoice_id) db.payments)) [
        | inr (x, f) ↦ ground (arith, apply_webhook_unpaid invoice_id status now db p x e f)
        | inl miss ↦ elim (Bool-cases (p.status == paid_status)) [
          | inl t ↦ ground (
            arith,
            apply_webhook_paid invoice_id status now db p e miss,
            eq_iff p.status paid_status,
          )
          | inr t ↦ absurd (cc (miss, first_unpaid invoice_id db.payments p e t))
        ]
      ]

  -- After `n` payments.
  abbrev HasCounts : ℕ → Report → Type 0
  HasCounts n r = (r.checked + r.errors ≡ n) × (r.granted ≤ r.settled) × (r.settled ≤ r.checked)

  tally-HasCounts :
      (n now : ℕ) (invoice_id status : String) (r : Report) (db : Database)
      → HasCounts n r
      → HasCounts (n + 1) (
          tally status
            (apply_webhook invoice_id status now db).0
            (record r { checked = r.checked + 1 }))
  tally-HasCounts n now invoice_id status r db h =
      elim (Option-cases (first (has_invoice invoice_id) db.payments)) [
        | inl e ↦ rw (apply_webhook_unknown invoice_id status now db e) (ground arith)
        | inr (p, e) ↦ elim (Option-cases (apply_webhook invoice_id status now db).0) [
          | inl none_updated ↦ rw none_updated (ground arith)
          | inr (q, f) ↦ rw f (elim (Bool-cases (status == paid_status)) [
            | inl t ↦ ground (
              arith,
              eq_iff q.status paid_status,
              success_returned invoice_id status now db p q e t f,
            )
            | inr t ↦ ground arith
          ])
        ]
      ]

  check_payment-HasCounts :
      (n : ℕ) (p : Payment) (a : Answer) (r : Report) (db : Database)
      → HasCounts n r
      → HasCounts (n + 1) (check_payment p a (r, db)).0
  unfolding check_payment
  check_payment-HasCounts n p raised r db h = ground arith
  check_payment-HasCounts n p (answered current now) r db h = elim (Option-cases (news current p)) [
    | inl e ↦ rw (e, check_payment) (ground arith)
    | inr (status, e) ↦ rw (e, check_payment) (tally-HasCounts n now p.id status r db h)
  ]

  sweep-HasCounts :
      (fetch : String → Answer) (n : ℕ) (ps : List Payment) (r : Report) (db : Database)
      → HasCounts n r
      → HasCounts (n + length ps) (sweep fetch ps (r, db)).0
  unfolding sweep
  sweep-HasCounts fetch n [] r db h = ground arith
  sweep-HasCounts fetch n (p ∷ ps) r db h =
      let (r', db') = check_payment p (fetch p.id) (r, db) in
      let rest =
        sweep-HasCounts fetch (n + 1) ps r' db' (check_payment-HasCounts n p (fetch p.id) r db h) in
      ground arith

  -- Every payment picked up is checked or counted as an error; of the checked ones no more are
  -- reported as settled, and of those no more as granted.
  pub reconcile_report :
      (fetch : String → Answer) (older_than n now : ℕ) (db : Database)
      → let r = (reconcile fetch older_than n now db).0 in
        (r.checked + r.errors ≡ length (list_unsettled older_than n now db))
        × (r.granted ≤ r.settled)
        × (r.settled ≤ r.checked)
  unfolding reconcile
  reconcile_report fetch older_than n now db =
      let c =
        sweep-HasCounts fetch 0 (list_unsettled older_than n now db) empty_report db
          (omega arith) in
      ground arith
