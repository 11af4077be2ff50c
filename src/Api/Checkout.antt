-- ===== src/Api/Checkout.antt =====
-- app/api/payments.py: the checkout and the callback of Monobank. Monobank itself, the verification
-- of a signature and the parsing of a body are parameters.
use recall_select.Prelude.{
  ℕ, Bool, false, ◌||◌, not, Option, none, some, String, ◌==◌, if◌then◌else◌,
}
use Prim.Native.String.{◌++◌}
use recall_select.Mongo.{Driver}
use recall_select.Documents.{Database, ok, err, attribute_error}
use recall_select.Billing.Plans.{Plan, get_plan}
use recall_select.Billing.Payments.{record_pending, apply_webhook}
use recall_select.Api.{Reply, reply, refused, raised, not_found, then_reply, get_current_user}

abbrev pub bad_request : ℕ
bad_request = 400

abbrev pub bad_gateway : ℕ
bad_gateway = 502

abbrev pub service_unavailable : ℕ
service_unavailable = 503

-- What Monobank is asked for, but for the texts and addresses of the pages.
pub record Order : Type 0 where
  pub amount_minor : ℕ
  pub currency : String
  pub reference : String

-- The keys of its answer that the code reads.
pub record Invoice : Type 0 where
  pub invoice_id : Option String
  pub page_url : Option String

pub record CheckoutOut : Type 0 where
  pub pay_url : String
  pub invoice_id : String
  pub plan : String
  pub tier : String

-- A missing or empty text is falsy.
abbrev pub truthy : Option String → Option String
truthy none = none
truthy (some t) = if t == "" then none else some t

abbrev pub order_of : String → Plan → Order
order_of user_id plan = record {
  amount_minor = plan.amount_minor;
  currency = plan.currency;
  reference = "recall_select:" ++ (user_id ++ (":" ++ plan.id));
}

-- A body, its signature header, and what the JSON object has.
pub record Callback : Type 0 where
  pub body : String
  pub x_sign : String

pub record Notice : Type 0 where
  pub invoice_id : Option String
  pub status : Option String

-- What `json.loads` makes of a body.
pub data Parsed : Type 0 where
  object : Notice → Parsed
  not_object : Parsed
  no_json : Parsed

module _ ⦃mongo : Driver⦄ where
  -- `create_invoice` is `none` where the call raises.
  unfoldable pub checkout :
      (configured : Bool) (create_invoice : Order → Option Invoice) (session : Option String)
      (plan_id : String)
      → ℕ
      → Database
      → Reply (CheckoutOut × Database)
  checkout configured create_invoice session plan_id now db =
      then_reply (get_current_user session db) (λ user. elim (get_plan plan_id) [
        | none ↦ refused not_found
        | some plan ↦
            if not configured
            then refused service_unavailable
            else elim (create_invoice (order_of user.id plan)) [
              | none ↦ refused bad_gateway
              | some invoice ↦ elim (truthy invoice.invoice_id) [
                | none ↦ refused bad_gateway
                | some invoice_id ↦ elim (truthy invoice.page_url) [
                  | none ↦ refused bad_gateway
                  | some pay_url ↦ elim (record_pending invoice_id user.id plan now db) [
                    | err e ↦ raised e
                    | ok (payment, db') ↦ reply (
                      record {
                        pay_url = pay_url;
                        invoice_id = invoice_id;
                        plan = plan.id;
                        tier = plan.tier;
                      },
                      db',
                    )
                  ]
                ]
              ]
            ]
      ])

  -- Whether a callback is believed: `pubkey` is `none` where it could not be fetched.
  abbrev pub is_believed :
      (verify : Bool) (pubkey : Option String) (verify_signature : String → String → String → Bool)
      → Callback
      → Bool
  is_believed verify pubkey verify_signature request =
      not verify
      || elim pubkey [ none ↦ false | some k ↦ verify_signature k request.body request.x_sign ]

  -- What a notice does: nothing where it lacks an invoice or a status.
  abbrev pub apply_notice : Notice → ℕ → Database → Database
  apply_notice notice now db = elim (truthy notice.invoice_id) [
    | none ↦ db
    | some invoice_id ↦ elim (truthy notice.status) [
      | none ↦ db
      | some status ↦ (apply_webhook invoice_id status now db).1
    ]
  ]

  -- A body that is not JSON counts as an object without keys; JSON that is not an object has no
  -- method `get`, so the handler raises.
  unfoldable pub monobank_webhook :
      (verify : Bool) (pubkey : Option String) (verify_signature : String → String → String → Bool)
      (parse : String → Parsed)
      → Callback
      → ℕ
      → Database
      → Reply (Unit {0}) × Database
  monobank_webhook verify pubkey verify_signature parse request now db =
      if is_believed verify pubkey verify_signature request
      then elim (parse request.body) [
        | no_json ↦ (reply tt, db)
        | not_object ↦ (raised attribute_error, db)
        | object notice ↦ (reply tt, apply_notice notice now db)
      ]
      else (refused bad_request, db)
