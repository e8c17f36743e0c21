-- ===== src/Payments/Charging.antt =====
-- The branches of `simulate_payment` of apps/payments/services.py, as equations on the result.
use democrance_insurance_api.Prelude.{
  ℕ, suc, ◌+◌, ◌≡◌, ℤ, any, ◌==◌, Bool, true, false, Option, none, some, String, [], ◌∷◌, arith,
}
use democrance_insurance_api.Policies.StateMachine.{accepted, active, state_eqb, can_transition}
use democrance_insurance_api.Policies.Rows.{Policy, text, flag}
use democrance_insurance_api.Policies.Services.{By}
use democrance_insurance_api.Policies.Branches.{move_row, activate_columns}
use democrance_insurance_api.Payments.Rows.{Method, Payment, method_value, parse_method}
use democrance_insurance_api.Payments.Services.{
  usable_key, found_by, same_request, status_of, settled_at_of, activation_metadata,
  simulate_payment,
}
use democrance_insurance_api.Common.Errors.{
  payment_not_allowed, duplicate, integrity_error, does_not_exist, invalid, unsupported_method,
}
use democrance_insurance_api.Database.{
  Env, World, ok, err, policy_by_id, set_policy, insert_transition, insert_payment,
}

-- The receipt of a first payment.
abbrev pub new_payment : Env → World → Policy → Method → Option String → ℤ → Payment
new_payment env w p m key amount = record {
  id = w.db.next_payment;
  reference = env.uuid (w.asked + 1);
  policy_id = p.id;
  amount = amount;
  currency = p.currency;
  method = m;
  status = status_of m;
  idempotency_key = usable_key key;
  provider_payload = ("simulated", flag true) ∷ ("method", text (method_value m)) ∷ [];
  settled_at = settled_at_of m (env.now w.asked);
  created_at = env.now (w.asked + 2);
}

-- The reference that the payment would draw is in the table already.
abbrev pub is_reused : Env → World → Bool
is_reused env w = any (λ q. q.reference == env.uuid (w.asked + 1)) w.db.payments

module _ (env : Env) (id : ℕ) (value : String) (key : Option String) (by : By) (w : World) where
  pub simulate_payment-bad_method :
      parse_method value ≡ none
      → simulate_payment env id value key by w ≡ (err (invalid unsupported_method), w)
  unfolding simulate_payment
  simulate_payment-bad_method bad = ground arith

  pub simulate_payment-missing :
      (m : Method)
      → parse_method value ≡ some m
      → policy_by_id id w.db ≡ none
      → simulate_payment env id value key by w ≡ (err does_not_exist, w)
  unfolding simulate_payment
  simulate_payment-missing m good gone = ground arith

module _ (env : Env) (id : ℕ) (value : String) (key : Option String) (by : By) (w : World)
    (m : Method) (p : Policy) (good : parse_method value ≡ some m)
    (found : policy_by_id id w.db ≡ some p) where
  -- A retry of the same request gets the payment that it made, and writes nothing.
  pub simulate_payment-replays :
      (old : Payment)
      → found_by (usable_key key) w.db ≡ some old
      → same_request old p m ≡ true
      → simulate_payment env id value key by w ≡ (ok old, w)
  unfolding simulate_payment
  simulate_payment-replays old used same = ground arith

  pub simulate_payment-conflicts :
      (old : Payment)
      → found_by (usable_key key) w.db ≡ some old
      → same_request old p m ≡ false
      → simulate_payment env id value key by w ≡ (err duplicate, w)
  unfolding simulate_payment
  simulate_payment-conflicts old used other = ground arith

  pub simulate_payment-refused :
      found_by (usable_key key) w.db ≡ none
      → state_eqb p.state accepted ≡ false
      → simulate_payment env id value key by w ≡ (err payment_not_allowed, w)
  unfolding simulate_payment
  simulate_payment-refused unused other = ground arith

  module _ (unused : found_by (usable_key key) w.db ≡ none)
      (ready : state_eqb p.state accepted ≡ true) where
    pub simulate_payment-no_price :
        p.premium ≡ none
        → simulate_payment env id value key by w
          ≡ (err integrity_error, record w { asked = w.asked + 3 })
    unfolding simulate_payment
    simulate_payment-no_price free = ground arith

    pub simulate_payment-collides :
        (amount : ℤ)
        → p.premium ≡ some amount
        → is_reused env w ≡ true
        → simulate_payment env id value key by w
          ≡ (err integrity_error, record w { asked = w.asked + 3 })
    unfolding simulate_payment
    simulate_payment-collides amount price reused =
        let one : suc w.asked ≡ w.asked + 1 = omega arith in ground arith

    pub simulate_payment-charges :
        (amount : ℤ)
        → p.premium ≡ some amount
        → is_reused env w ≡ false
        → p.id ≡ id
        → simulate_payment env id value key by w ≡ (
          ok (new_payment env w p m key amount),
          record {
            db = set_policy id (activate_columns env (w.asked + 4) (w.asked + 5)) (
                insert_transition
                  (move_row env by p active "policy activated"
                    (activation_metadata (new_payment env w p m key amount))
                    w.db.next_transition
                    (w.asked + 3))
                  (insert_payment (new_payment env w p m key amount) w.db));
            asked = w.asked + 6;
          },
        )
    unfolding simulate_payment can_transition
    simulate_payment-charges amount price fresh key_is =
        let one : suc w.asked ≡ w.asked + 1 = omega arith in
        let two : suc (suc w.asked) ≡ w.asked + 2 = omega arith in
        let three : suc (suc (suc w.asked)) ≡ w.asked + 3 = omega arith in
        let four : suc (suc (suc (suc w.asked))) ≡ w.asked + 4 = omega arith in
        let five : suc (suc (suc (suc (suc w.asked)))) ≡ w.asked + 5 = omega arith in ground arith
