-- ===== src/Monobank.antt =====
-- The client of Monobank: app/services/monobank.py. What it sends, what it refuses, and what it makes
-- of the answers. HTTP, base64, the percent-encoding of `quote`, `upper` and the check of a signature
-- are parameters; `post` and `get` take the path and give a RuntimeError on an HTTP error.
use recall_select.Prelude.{ℕ, Bool, false, not, if◌then◌else◌, Option, none, some, String, ◌==◌}
use Prim.Native.String.{◌++◌}
use recall_select.Documents.{Result, ok, err, runtime_error, value_error}

abbrev pub invoice_create_path : String
invoice_create_path = "/api/merchant/invoice/create"

abbrev pub invoice_status_path : String
invoice_status_path = "/api/merchant/invoice/status"

abbrev pub pubkey_path : String
pubkey_path = "/api/merchant/pubkey"

-- ISO 4217.
abbrev pub ccy : (currency : String) → Option ℕ
ccy currency =
    if currency == "UAH"
    then some 980
    else if currency == "USD"
    then some 840
    else if currency == "EUR"
    then some 978
    else none

pub record MonobankConfig : Type 0 where
  pub api_key : String
  pub webhook_url : String
  pub redirect_url : String

abbrev pub is_configured : MonobankConfig → Bool
is_configured cfg = not (cfg.api_key == "")

-- An unset variable of the environment reads as the empty text.
abbrev pub load_config : (getenv : String → Option String) → MonobankConfig
load_config getenv =
    let value : String → String = λ name. elim (getenv name) [ none ↦ "" | some text ↦ text ] in
    record {
      api_key = value "MONOBANK_API_KEY";
      webhook_url = value "MONOBANK_WEBHOOK_URL";
      redirect_url = value "MONOBANK_REDIRECT_URL";
    }

-- The body of the request; a key that is left out is none.
pub record InvoicePayload : Type 0 where
  pub amount : ℕ
  pub currency_code : ℕ
  pub reference : String
  pub destination : String
  pub payment_type : String
  pub redirect_url : Option String
  pub web_hook_url : Option String

-- `given or configured`, left out if empty.
abbrev pub link_or : Option String → String → Option String
link_or none configured = if configured == "" then none else some configured
link_or (some given) configured =
    if given == "" then (if configured == "" then none else some configured) else some given

module _ {Json : Type 0} (cfg : MonobankConfig) where
  unfoldable pub create_invoice :
      (upper : String → String) (post : String → InvoicePayload → Result Json) (amount_minor : ℕ)
      (currency reference destination : String) (redirect_url webhook_url : Option String)
      → Result Json
  create_invoice upper post amount_minor currency reference destination redirect_url webhook_url =
      if not (is_configured cfg) then err runtime_error else elim (ccy (upper currency)) [
        | none ↦ err value_error
        | some code ↦ post invoice_create_path (record {
          amount = amount_minor;
          currency_code = code;
          reference = reference;
          destination = destination;
          payment_type = "debit";
          redirect_url = link_or redirect_url cfg.redirect_url;
          web_hook_url = link_or webhook_url cfg.webhook_url;
        })
      ]

  unfoldable pub fetch_invoice_status :
      (quote : String → String) (get : String → Result Json) (invoice_id : String) → Result Json
  fetch_invoice_status quote get invoice_id =
      if not (is_configured cfg)
      then err runtime_error
      else get (invoice_status_path ++ ("?invoiceId=" ++ quote invoice_id))

  -- `key_of` reads the answer's `key`; `decode` is that of base64, whose error is a ValueError.
  unfoldable pub fetch_pubkey :
      {Bytes : Type 0} (get : String → Result Json) (key_of : Json → Option String)
      (decode : String → Result Bytes)
      → Result Bytes
  fetch_pubkey get key_of decode =
      if not (is_configured cfg) then err runtime_error else elim (get pubkey_path) [
        | err e ↦ err e
        | ok response ↦ elim (key_of response) [
          | none ↦ err runtime_error
          | some key ↦ if key == "" then err runtime_error else decode key
        ]
      ]

-- The steps of the check, each of which may raise, for which it is none: then the answer is false.
unfoldable pub verify_signature :
    {Bytes Key : Type 0} (load_pem : Bytes → Option Key) (decode : String → Option Bytes)
    (verify : Key → Bytes → Bytes → Bool) (pub_key_pem body : Bytes) (x_sign_b64 : String)
    → Bool
verify_signature load_pem decode verify pub_key_pem body x_sign_b64 =
    if x_sign_b64 == "" then false else elim (load_pem pub_key_pem) [
      | none ↦ false
      | some key ↦ elim (decode x_sign_b64) [
        | none ↦ false
        | some signature ↦ verify key signature body
      ]
    ]
