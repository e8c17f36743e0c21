-- ===== src/Payments/Services.antt =====
-- apps/payments/services.py: `simulate_payment`, the single entry point of a payment.
use democrance_insurance_api.Prelude.{
  ℕ, ℤ, eqb_ℤ, Bool, true, false, not, ◌&&◌, Option, none, some, String, [], ◌∷◌, any, find, ◌==◌,
  str_eq, if◌then◌else◌,
}
use democrance_insurance_api.Policies.StateMachine.{accepted, state_eqb}
use democrance_insurance_api.Policies.Rows.{Policy, Metadata, uuid, text, flag}
use democrance_insurance_api.Policies.Services.{By, activate_policy}
use democrance_insurance_api.Payments.Rows.{
  Method, card, method_value, method_eqb, parse_method, Status, pending, succeeded, status_value,
  Payment,
}
use democrance_insurance_api.Common.Errors.{
  payment_not_allowed, duplicate, integrity_error, invalid, unsupported_method,
}
use democrance_insurance_api.Database.{
  Db, Env, Action, ◌>>=◌, ◌>>◌, pure, raise, gets, or_raise, atomic, raise_if, modify, ask,
  lock_policy, insert_payment,
}

-- `column = value` on a nullable text.
abbrev pub key_is : String → Option String → Bool
key_is key none = false
key_is key (some k) = str_eq k key

-- `if idempotency_key`, `idempotency_key or None`: an empty text counts as no key.
unfoldable pub usable_key : Option String → Option String
usable_key none = none
usable_key (some key) = if str_eq key "" then none else some key

-- `Payment.objects.filter(idempotency_key=key).first()`
abbrev pub payment_by_key : String → Db → Option Payment
payment_by_key key db = find (λ p. key_is key p.idempotency_key) db.payments

-- `existing.amount == amount`, where the policy's premium may be NULL.
abbrev pub amount_is : ℤ → Option ℤ → Bool
amount_is a none = false
amount_is a (some b) = eqb_ℤ a b

unfoldable pub same_request : Payment → Policy → Method → Bool
same_request existing policy method =
    existing.policy_id == policy.id
    && method_eqb existing.method method
    && amount_is existing.amount policy.premium

-- `Payment.Status.SUCCEEDED if succeeded else Payment.Status.PENDING`
abbrev pub status_of : Method → Status
status_of method = if method_eqb method card then succeeded else pending

-- `timezone.now() if succeeded else None`
abbrev pub settled_at_of : Method → ℕ → Option ℕ
settled_at_of method now = if method_eqb method card then some now else none

abbrev pub found_by : Option String → Db → Option Payment
found_by none db = none
found_by (some key) db = payment_by_key key db

abbrev pub is_found : Option Payment → Bool
is_found none = false
is_found (some payment) = true

-- `Payment.objects.create(…)`: NOT NULL on the amount, UNIQUE on the reference and the key.
unfoldable pub create_payment : Env → Policy → Method → Option String → Action Payment
create_payment env policy method key = do
  settled ← ask env.now
  reference ← ask env.uuid
  created ← ask env.now
  id ← gets (λ db. db.next_payment)
  amount ← or_raise policy.premium integrity_error
  taken ← gets (λ db. any (λ p. p.reference == reference) db.payments)
  raise_if taken integrity_error
  holder ← gets (found_by key)
  raise_if (is_found holder) integrity_error
  let payment : Payment = record {
    id = id;
    reference = reference;
    policy_id = policy.id;
    amount = amount;
    currency = policy.currency;
    method = method;
    status = status_of method;
    idempotency_key = key;
    provider_payload = ("simulated", flag true) ∷ ("method", text (method_value method)) ∷ [];
    settled_at = settled_at_of method settled;
    created_at = created;
  }
  modify (insert_payment payment)
  pure payment

-- The metadata of the activation.
abbrev pub activation_metadata : Payment → Metadata
activation_metadata payment =
    ("payment_reference", uuid payment.reference)
    ∷ ("method", text (method_value payment.method))
    ∷ ("payment_status", text (status_value payment.status))
    ∷ []

-- From the state check on: charge and bind.
unfoldable pub charge : Env → Policy → Method → Option String → By → Action Payment
unfolding create_payment activate_policy
charge env policy method key by = do
  raise_if (not (state_eqb policy.state accepted)) payment_not_allowed
  payment ← create_payment env policy method key
  activate_policy env policy.id by (activation_metadata payment)
  pure payment

-- What an earlier payment with the same key means.
abbrev pub replay : Policy → Method → Payment → Action Payment
replay policy method existing =
    if same_request existing policy method then pure existing else raise duplicate

abbrev pub keyed : Env → Policy → Method → Option String → By → Option Payment → Action Payment
keyed env policy method key by (some existing) = replay policy method existing
keyed env policy method key by none = charge env policy method key by

-- `simulate_payment`
unfoldable pub simulate_payment : Env → ℕ → String → Option String → By → Action Payment
unfolding charge
simulate_payment env id method_text idempotency_key by = atomic do
  method ← or_raise (parse_method method_text) (invalid unsupported_method)
  policy ← lock_policy id
  let key = usable_key idempotency_key
  existing ← gets (found_by key)
  keyed env policy method key by existing
