-- ===== src/Payments/Racing.antt =====
-- A key that another payment took between the lookup and the insert of `simulate_payment` of
-- apps/payments/services.py: two requests with one key for two policies lock different rows.
use democrance_insurance_api.Prelude.{
  none, some, ℕ, ◌≡◌, inl, inr, if◌then◌else◌, Bool-cases, Option-cases, Option, some, String,
  arith,
}
use democrance_insurance_api.Policies.StateMachine.{accepted, state_eqb}
use democrance_insurance_api.Policies.Rows.{Policy}
use democrance_insurance_api.Policies.Services.{By}
use democrance_insurance_api.Payments.Rows.{Method, Payment, parse_method}
use democrance_insurance_api.Payments.Services.{
  found_by, usable_key, keyed, charge, simulate_payment,
}
use democrance_insurance_api.Common.Errors.{
  payment_not_allowed, integrity_error, invalid, unsupported_method,
}
use democrance_insurance_api.Database.{
  Env, World, Action, ◌>>=◌, or_raise, lock_policy, policy_by_id, err, atomic,
}

-- `simulate_payment` with the answer that its lookup of the key gave, whenever that was. The row of
-- the policy is locked from before the lookup to the end.
unfoldable pub pay_with : Env → ℕ → String → Option String → By → Option Payment → Action Payment
unfolding charge
pay_with env id method_text idempotency_key by existing = atomic do
  method ← or_raise (parse_method method_text) (invalid unsupported_method)
  policy ← lock_policy id
  keyed env policy method (usable_key idempotency_key) by existing

-- The lookup at the time of the rest is the payment as it stands.
pub pay_with-simulate_payment :
    (env : Env) (id : ℕ) (value : String) (key : Option String) (by : By) (w : World)
    → pay_with env id value key by (found_by (usable_key key) w.db) w
      ≡ simulate_payment env id value key by w
unfolding pay_with simulate_payment
pay_with-simulate_payment env id value key by w = elim (Option-cases (parse_method value)) [
  | inl bad ↦ ground arith
  | inr (m, good) ↦ elim (Option-cases (policy_by_id id w.db)) [
    | inl gone ↦ ground arith
    | inr (p, found) ↦ ground arith
  ]
]

-- A charge whose key is taken writes nothing and raises.
pub charge-raced :
    (env : Env) (policy : Policy) (method : Method) (key : Option String) (by : By) (w : World)
    (other : Payment)
    → found_by key w.db ≡ some other
    → ((atomic (charge env policy method key by) w).1.db ≡ w.db)
      × ((atomic (charge env policy method key by) w).0 ≡ (
          if state_eqb policy.state accepted then err integrity_error else err payment_not_allowed))
unfolding charge
charge-raced env policy method key by w other taken =
    elim (Bool-cases (state_eqb policy.state accepted)) [
      | inr early ↦ ground arith
      | inl ready ↦ elim (Option-cases policy.premium) [
        | inl free ↦ ground arith
        | inr (amount, price) ↦ ground arith
      ]
    ]

pay_with-charge :
    (env : Env) (id : ℕ) (value : String) (key : Option String) (by : By) (w : World) (m : Method)
    (p : Policy)
    → parse_method value ≡ some m
    → policy_by_id id w.db ≡ some p
    → pay_with env id value key by none w ≡ atomic (charge env p m (usable_key key) by) w
unfolding pay_with
pay_with-charge env id value key by w m p good found = ground arith

pub pay_with-raced :
    (env : Env) (id : ℕ) (value : String) (key : Option String) (by : By) (w : World) (m : Method)
    (p : Policy) (other : Payment)
    → parse_method value ≡ some m
    → policy_by_id id w.db ≡ some p
    → found_by (usable_key key) w.db ≡ some other
    → ((pay_with env id value key by none w).1.db ≡ w.db)
      × ((pay_with env id value key by none w).0
          ≡ (if state_eqb p.state accepted then err integrity_error else err payment_not_allowed))
pay_with-raced env id value key by w m p other good found taken =
    rw (pay_with-charge env id value key by w m p good found)
      (charge-raced env p m (usable_key key) by w other taken)

-- Before the lookup counts, the two fail alike.
pub pay_with-unparsed :
    (env : Env) (id : ℕ) (value : String) (key : Option String) (by : By) (w : World)
    (existing : Option Payment)
    → parse_method value ≡ none
    → pay_with env id value key by existing w ≡ simulate_payment env id value key by w
unfolding pay_with simulate_payment
pay_with-unparsed env id value key by w existing bad = ground arith

pub pay_with-unlocked :
    (env : Env) (id : ℕ) (value : String) (key : Option String) (by : By) (w : World)
    (existing : Option Payment) (m : Method)
    → parse_method value ≡ some m
    → policy_by_id id w.db ≡ none
    → pay_with env id value key by existing w ≡ simulate_payment env id value key by w
unfolding pay_with simulate_payment
pay_with-unlocked env id value key by w existing m good gone = ground arith
