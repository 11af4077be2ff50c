-- ===== src/Usage/Meter.antt =====
-- The meter counts every call, and the gate keeps a metered user within the month's allowance.
use recall_select.Prelude.{
  ℕ, ◌+◌, ◌≤◌, ◌<◌, ◌≡◌, refl, true, false, none, some, String, ◌==◌, leb, leb→le, arith, eq_iff,
  eq_refl, Bool-cases, Option-cases, inl, inr, ◌&&◌, ◌⊎◌, List, [], ◌∷◌, All, length,
}
use recall_select.Mongo.{Driver, find_one_lem, find_one_and_upsert_lem, placed_lem, placed}
use recall_select.Mongo.Query.{
  first, update_first, first-insertion_hit, first-insertion_miss, first-update_first_self,
  first-update_first_same,
}
use recall_select.Documents.{UsageRow, Period, Database, ok, err, same_period, quota_exceeded}
use Prim.Native.Nat.{min}
use recall_select.Users.{get_user}
use recall_select.Billing.Tiers.{effective_tier}
use recall_select.Billing.Plans.{call_allowance}
use recall_select.Usage.{
  current_period, is_row, new_row, counted, calls_this_period, record_call, check_call_allowed,
}

module _ (user_id : String) (n : ℕ) (period : Period) (now : ℕ) where
  new_row_matches : is_row user_id period (new_row user_id period n now) ≡ true
  new_row_matches = ground (arith, eq_refl user_id)

  -- The row of one user and month is not that of another.
  is_row-other :
      (other_user : String) (other : Period) (r : UsageRow)
      → (other_user == user_id && same_period other period) ≡ false
      → is_row user_id period r ≡ true
      → is_row other_user other r ≡ false
  is_row-other other_user other r h e =
      ground
        (arith, eq_iff r.user_id user_id, eq_iff r.user_id other_user, eq_iff other_user user_id)

module _ ⦃mongo : Driver⦄ (user_id : String) (n : ℕ) (period : Period) (now : ℕ)
    (db : Database) where
  -- A call adds to the month's tally of its user and returns the new total.
  pub record_call_adds :
      (calls_this_period user_id period (record_call user_id n period now db).1
        ≡ calls_this_period user_id period db + n)
      × ((record_call user_id n period now db).0 ≡ calls_this_period user_id period db + n)
  unfolding calls_this_period record_call
  record_call_adds =
      let mine = is_row user_id period in
      let fresh : UsageRow = new_row user_id period n now in
      let upsert = find_one_and_upsert_lem mine (counted n now) fresh db.usage in
      elim (Option-cases (first mine db.usage)) [
        | inr (r, e) ↦
            let found =
              first-update_first_self mine mine (counted n now) db.usage (λ a. refl) (λ a p. p) r
                e in
            (
              ground (
                arith,
                upsert,
                find_one_lem mine db.usage,
                find_one_lem mine (update_first mine (counted n now) db.usage),
                found,
              ),
              ground (arith, upsert, find_one_lem mine db.usage),
            )
        | inl e ↦
            let found =
              first-insertion_hit mine (placed_lem fresh db.usage) e
                (new_row_matches user_id n period now) in
            (
              ground (
                arith,
                upsert,
                find_one_lem mine db.usage,
                find_one_lem mine (placed fresh db.usage),
                found,
              ),
              ground (arith, upsert, find_one_lem mine db.usage),
            )
      ]

  -- It leaves the tally of every other user and month as it is.
  pub record_call_others :
      (other_user : String) (other : Period)
      → (other_user == user_id && same_period other period) ≡ false
      → calls_this_period other_user other (record_call user_id n period now db).1
        ≡ calls_this_period other_user other db
  unfolding calls_this_period record_call
  record_call_others other_user other h =
      let mine = is_row user_id period in
      let theirs = is_row other_user other in
      let fresh : UsageRow = new_row user_id period n now in
      let upsert = find_one_and_upsert_lem mine (counted n now) fresh db.usage in
      elim (Option-cases (first mine db.usage)) [
        | inr (r, e) ↦
            let same =
              first-update_first_same theirs mine (counted n now) db.usage
                (λ a p. is_row-other user_id n period now other_user other a h p)
                (λ a p. is_row-other user_id n period now other_user other a h p) in
            ground (
              arith,
              upsert,
              find_one_lem theirs db.usage,
              find_one_lem theirs (update_first mine (counted n now) db.usage),
              same,
            )
        | inl e ↦
            let same = first-insertion_miss theirs (placed_lem fresh db.usage) (
              is_row-other user_id n period now other_user other fresh h
                (new_row_matches user_id n period now)) in
            ground (
              arith,
              upsert,
              find_one_lem theirs db.usage,
              find_one_lem theirs (placed fresh db.usage),
              same,
            )
      ]

  pub users-record_call : (record_call user_id n period now db).1.users ≡ db.users
  unfolding record_call
  users-record_call = refl

module _ ⦃mongo : Driver⦄ (user_id : String) (now : ℕ) (db : Database) where
  -- A call is refused exactly when the tier of the moment is metered and the month's tally has
  -- reached its allowance; the error names the tier, the allowance and the month.
  pub check_call_allowed_lem :
      let tier = effective_tier (get_user user_id db) now in
      let calls = calls_this_period user_id (current_period now) db in
      ((call_allowance tier ≡ none) × (check_call_allowed user_id now db ≡ ok tt))
      ⊎ ((a : ℕ) × (call_allowance tier ≡ some a)
          × (((calls < a) × (check_call_allowed user_id now db ≡ ok tt))
              ⊎ ((a ≤ calls)
                  × (check_call_allowed user_id now db
                      ≡ err (quota_exceeded user_id tier a (current_period now))))))
  unfolding check_call_allowed
  check_call_allowed_lem =
      let tier = effective_tier (get_user user_id db) now in
      let calls = calls_this_period user_id (current_period now) db in
      elim (Option-cases (call_allowance tier)) [
        | inl e ↦ inl (e, rw (e, check_call_allowed) refl)
        | inr (a, e) ↦ inr (
          a,
          e,
          elim (Bool-cases (leb a calls)) [
            | inl t ↦ inr (ground arith, rw (e, t, check_call_allowed) refl)
            | inr t ↦ inl (ground arith, rw (e, t, check_call_allowed) refl)
          ],
        )
      ]

-- A call that the services make: the gate, and the meter where it lets the call through.
module _ ⦃mongo : Driver⦄ where
  unfoldable pub gated_call : String → ℕ → Database → Database
  gated_call user_id now db = elim (check_call_allowed user_id now db) [
    | err _ ↦ db
    | ok _ ↦ (record_call user_id 1 (current_period now) now db).1
  ]

  unfoldable pub gated_calls : String → List ℕ → Database → Database
  gated_calls user_id [] db = db
  gated_calls user_id (now ∷ times) db = gated_calls user_id times (gated_call user_id now db)

  gate_open :
      (user_id : String) (a now : ℕ) (db : Database)
      → call_allowance (effective_tier (get_user user_id db) now) ≡ some a
      → calls_this_period user_id (current_period now) db < a
      → gated_call user_id now db ≡ (record_call user_id 1 (current_period now) now db).1
  unfolding gated_call check_call_allowed
  gate_open user_id a now db h lt = rw (h, gated_call, check_call_allowed) (ground arith)

  gate_shut :
      (user_id : String) (a now : ℕ) (db : Database)
      → call_allowance (effective_tier (get_user user_id db) now) ≡ some a
      → a ≤ calls_this_period user_id (current_period now) db
      → gated_call user_id now db ≡ db
  unfolding gated_call check_call_allowed
  gate_shut user_id a now db h le = rw (h, gated_call, check_call_allowed) (ground arith)

  -- However many calls a metered user makes in a month, as many are let through as the allowance
  -- leaves, and the tally never passes it.
  pub quota_holds :
      (user_id tier : String) (a : ℕ) (period : Period) (times : List ℕ) (db : Database)
      → call_allowance tier ≡ some a
      → All
          (λ t. (current_period t ≡ period) × (effective_tier (get_user user_id db) t ≡ tier))
          times
      → calls_this_period user_id period db ≤ a
      → calls_this_period user_id period (gated_calls user_id times db)
        ≡ min a (calls_this_period user_id period db + length times)
  unfolding gated_calls
  quota_holds user_id tier a period [] db h k le = ground arith
  quota_holds user_id tier a period (t ∷ times) db h k le =
      let calls = calls_this_period user_id period db in
      let allowed : call_allowance (effective_tier (get_user user_id db) t) ≡ some a = rw k.0.1 h in
      elim (Bool-cases (leb a calls)) [
        | inl full ↦
            let same : gated_call user_id t db ≡ db =
              gate_shut user_id a t db allowed (rw k.0.0 (leb→le a calls full)) in
            rw same (
              omega
                (arith, quota_holds user_id tier a period times db h k.1 le, leb→le a calls full))
        | inr room ↦
            let next : Database = (record_call user_id 1 period t db).1 in
            let same : gated_call user_id t db ≡ next =
              rw (← k.0.0) (gate_open user_id a t db allowed (rw k.0.0 (ground arith))) in
            let added : calls_this_period user_id period next ≡ calls + 1 =
              (record_call_adds user_id 1 period t db).0 in
            let below : calls < a = ground arith in
            rw same (
              omega (
                arith,
                below,
                added,
                quota_holds user_id tier a period times next h
                    (rw (users-record_call user_id 1 period t db) k.1) (omega arith),
              ))
      ]
