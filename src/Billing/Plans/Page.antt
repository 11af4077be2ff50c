-- ===== src/Billing/Plans/Page.antt =====
-- The table of the plans page: `plans_table` of app/services/billing.py. The grouping of digits by
-- commas, with so many decimal places of a number of hundredths, is a parameter.
use recall_select.Prelude.{
  ℕ, ◌%◌, Bool, true, false, Option, none, some, String, ◌==◌, if◌then◌else◌, eqb, List, [], ◌∷◌,
  Dict,
}
use Prim.Native.String.{◌++◌}
use recall_select.Billing.Plans.{Plan, plans, free_tier, free_calls, free_projects}

abbrev pub currency_symbol : String → String
currency_symbol currency =
    if currency == "USD"
    then "$"
    else if currency == "EUR"
    then "€"
    else if currency == "UAH"
    then "₴"
    else ""

-- A row of the table; the free one has no `id`.
pub record PlanRow : Type 0 where
  pub id : Option String
  pub name : String
  pub tier : String
  pub calls : String
  pub projects : String
  pub price : String
  pub is_purchasable : Bool

abbrev pub checkout_label : Plan → String
checkout_label p = "recall.select " ++ p.name

module _ (grouped : ℕ → String) (decimal : (places hundredths : ℕ) → String) where
  abbrev pub allowance : Option ℕ → String
  allowance none = "Unlimited"
  allowance (some value) = grouped value

  abbrev pub price : Plan → String
  price p =
      currency_symbol p.currency
      ++ (if eqb (p.amount_minor % 100) 0
          then decimal 0 p.amount_minor
          else decimal 2 p.amount_minor)

  abbrev pub plan_row : Plan → PlanRow
  plan_row p = record {
    id = some p.id;
    name = p.name;
    tier = p.tier;
    calls = allowance p.calls;
    projects = allowance p.projects;
    price = price p;
    is_purchasable = true;
  }

  abbrev pub plan_rows : Dict Plan → List PlanRow
  plan_rows [] = []
  plan_rows ((_, p) ∷ rest) = plan_row p ∷ plan_rows rest

  abbrev pub free_row : PlanRow
  free_row = record {
    id = none;
    name = "Free";
    tier = free_tier;
    calls = allowance (some free_calls);
    projects = allowance (some free_projects);
    price = "$0";
    is_purchasable = false;
  }

  abbrev pub plans_table : List PlanRow
  plans_table = free_row ∷ plan_rows plans
