-- ===== src/Payments/Rows.antt =====
-- apps/payments/models.py: the receipt. A UUID is a number.
use democrance_insurance_api.Prelude.{
  ℕ, ℤ, Bool, true, false, Option, none, some, String, str_eq, if◌then◌else◌,
}
use democrance_insurance_api.Policies.Rows.{Metadata}

-- `Payment.Method`
pub data Method : Type 0 where
  card invoice : Method

abbrev pub method_value : Method → String
method_value card = "simulated_card"
method_value invoice = "invoice"

abbrev pub method_eqb : Method → Method → Bool
method_eqb card card = true
method_eqb invoice invoice = true
method_eqb _ _ = false

-- `method in Payment.Method.values`, with the member that has this value.
unfoldable pub parse_method : String → Option Method
parse_method value =
    if str_eq value "simulated_card"
    then some card
    else if str_eq value "invoice"
    then some invoice
    else none

-- `Payment.Status`
pub data Status : Type 0 where
  pending succeeded failed : Status

abbrev pub status_value : Status → String
status_value pending = "pending"
status_value succeeded = "succeeded"
status_value failed = "failed"

pub record Payment : Type 0 where
  pub id : ℕ
  pub reference : ℕ
  pub policy_id : ℕ
  pub amount : ℤ
  pub currency : String
  pub method : Method
  pub status : Status
  pub idempotency_key : Option String
  pub provider_payload : Metadata
  pub settled_at : Option ℕ
  pub created_at : ℕ
