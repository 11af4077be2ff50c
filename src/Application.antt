-- ===== src/Application.antt =====
-- app/main.py: the background sweep, and which page or redirection a visitor gets. Templates are not
-- modelled; the language of a page is in Locale. The database does not fail here, so the branches for
-- a failing one are left out.
use recall_select.Prelude.{ℕ, Bool, Option, none, some, String}
use recall_select.Mongo.{Driver}
use recall_select.Documents.{User, Database}
use recall_select.Billing.Grants.{downgrade_expired}
use recall_select.Billing.Reconcile.{Answer, Report, reconcile_with_monobank}
use recall_select.Account.{Overview, overview}
use recall_select.Api.{get_optional_user}

pub record AccountPage : Type 0 where
  pub user : User
  pub user_id : String
  pub summary : Overview

pub data PageReply (A : Type 0) : Type 0 where
  to_url : String → PageReply A
  shown : A → PageReply A

module _ ⦃mongo : Driver⦄ where
  -- One round of the loop: first the payments, then the tiers whose time is up. The report of the
  -- sweep, the number of accounts that returned to free, and the database.
  unfoldable pub sweep_round :
      (configured : Bool) (fetch : String → Answer) (older_than n now later : ℕ)
      → Database
      → (Option Report × ℕ) × Database
  sweep_round configured fetch older_than n now later db =
      let (report, db') = reconcile_with_monobank configured fetch older_than n now db in
      let (expired, db'') = downgrade_expired later db' in ((report, expired), db'')

  abbrev pub account_page : (session : Option String) → ℕ → Database → PageReply AccountPage
  account_page session now db = elim (get_optional_user session db) [
    | none ↦ to_url "/auth/login"
    | some user ↦ shown (record { user = user; user_id = user.id; summary = overview user now db })
  ]
