-- ===== src/Memory/Budget.antt =====
-- What the calls of memory.py do to the meters and to the stores.
use recall_select.Prelude.{ℕ, ◌+◌, ◌≡◌, refl, ◌∙◌, ap, String, ◌⊎◌, inl, inr}
use recall_select.Mongo.{Driver}
use recall_select.Documents.{Database, Result, ok, err, Error}
use recall_select.Usage.{calls_this_period, current_period}
use recall_select.Usage.Meter.{record_call_adds}
use recall_select.Collections
use recall_select.Memory.{metered}

module _ ⦃mongo : Driver⦄ (user_id project_id : String) (now : ℕ) where
  pub calls-of_usage :
      (d e : Database)
      → d.usage ≡ e.usage
      → calls_this_period user_id (current_period now) d
        ≡ calls_this_period user_id (current_period now) e
  unfolding calls_this_period
  calls-of_usage d e h = rw (h, calls_this_period) refl

  -- The month's tally after both meters.
  pub calls-metered :
      (db : Database)
      → calls_this_period user_id (current_period now) (metered user_id project_id now db)
        ≡ calls_this_period user_id (current_period now) db + 1
  calls-metered db =
      let db' : Database = (Collections.record_call user_id project_id 1 now db).1 in
      (record_call_adds user_id 1 (current_period now) now db').0
      ∙ ap (λ n. n + 1) (calls-of_usage db' db refl)

-- What a gate answers.
pub Result-cases : (r : Result (Unit {0})) → (r ≡ ok tt) ⊎ ((e : Error) × (r ≡ err e))
Result-cases (ok tt) = inl refl
Result-cases (err e) = inr (e, refl)
