-- ===== src/Lifecycle/Retry.antt =====
-- What a second call of `simulate_payment` of apps/payments/services.py meets.
use mathlib.Core.Path.{subst}
use democrance_insurance_api.Prelude.{
  ℕ, ◌+◌, ◌≡◌, ◌⊎◌, inl, inr, refl, sym, ◌∙◌, ap, ℤ, Option-cases, Bool-cases, true, Option, none,
  some, String, find-update, arith, ◌==◌, eq_refl,
}
use democrance_insurance_api.Policies.StateMachine.{accepted, active, state_eqb}
use democrance_insurance_api.Policies.Rows.{Policy}
use democrance_insurance_api.Policies.Services.{By}
use democrance_insurance_api.Policies.Branches.{move_row, activate_columns}
use democrance_insurance_api.Policies.History.{policy_by_id-In}
use democrance_insurance_api.Payments.Rows.{Method, Payment, parse_method}
use democrance_insurance_api.Payments.Services.{
  usable_key, found_by, same_request, simulate_payment, activation_metadata,
}
use democrance_insurance_api.Payments.Charging
use democrance_insurance_api.Common.Errors.{payment_not_allowed}
use democrance_insurance_api.Database.{
  Env, World, ok, err, policy_by_id, set_policy, insert_transition, insert_payment,
}

-- The world that a first payment leaves.
abbrev pub charged : Env → ℕ → By → World → Method → Policy → Option String → ℤ → World
charged env id by w m p key amount = record {
  db = set_policy id (activate_columns env (w.asked + 4) (w.asked + 5)) (
      insert_transition
        (move_row env by p active "policy activated"
          (activation_metadata (Charging.new_payment env w p m key amount)) w.db.next_transition
          (w.asked + 3))
        (insert_payment (Charging.new_payment env w p m key amount) w.db));
  asked = w.asked + 6;
}

module _ (env : Env) (id : ℕ) (by : By) (w : World) (m : Method) (p : Policy) (key : Option String)
    (amount : ℤ) (found : policy_by_id id w.db ≡ some p) (price : p.premium ≡ some amount) where
  -- The policy as the payment leaves it.
  abbrev pub bound_row : Policy
  bound_row = activate_columns env (w.asked + 4) (w.asked + 5) p

  pub charged-found : policy_by_id id (charged env id by w m p key amount).db ≡ some bound_row
  charged-found =
      find-update (λ (q : Policy). q.id == id) (activate_columns env (w.asked + 4) (w.asked + 5)) p
        w.db.policies (λ q. refl) found

  charged-used :
      (k : String)
      → usable_key key ≡ some k
      → found_by (usable_key key) (charged env id by w m p key amount).db
        ≡ some (Charging.new_payment env w p m key amount)
  charged-used k e = ground (arith, eq_refl k)

  charged-same : same_request (Charging.new_payment env w p m key amount) bound_row m ≡ true
  unfolding same_request
  charged-same = ground arith

-- How a payment that returned came about: its key was used by the same request before, or it was
-- charged now.
pub record IsReplay (env : Env) (id : ℕ) (value : String) (key : Option String) (by : By)
    (w : World) (payment : Payment) : Type 0 where
  pub method : Method
  pub policy : Policy
  pub good : parse_method value ≡ some method
  pub found : policy_by_id id w.db ≡ some policy
  pub used : found_by (usable_key key) w.db ≡ some payment
  pub same : same_request payment policy method ≡ true
  pub world : (simulate_payment env id value key by w).1 ≡ w

pub record IsCharged (env : Env) (id : ℕ) (value : String) (key : Option String) (by : By)
    (w : World) (payment : Payment) : Type 0 where
  pub method : Method
  pub policy : Policy
  pub amount : ℤ
  pub good : parse_method value ≡ some method
  pub found : policy_by_id id w.db ≡ some policy
  pub unused : found_by (usable_key key) w.db ≡ none
  pub price : policy.premium ≡ some amount
  pub receipt : payment ≡ Charging.new_payment env w policy method key amount
  pub world :
      (simulate_payment env id value key by w).1 ≡ charged env id by w method policy key amount

module _ (env : Env) (id : ℕ) (value : String) (key : Option String) (by : By) (w : World)
    (payment : Payment) (done : (simulate_payment env id value key by w).0 ≡ ok payment) where
  charge-cases :
      (m : Method) (p : Policy)
      → parse_method value ≡ some m
      → policy_by_id id w.db ≡ some p
      → found_by (usable_key key) w.db ≡ none
      → state_eqb p.state accepted ≡ true
      → IsCharged env id value key by w payment
  charge-cases m p good found unused ready = elim (Option-cases p.premium) [
    | inl free ↦
        let run =
          Charging.simulate_payment-no_price env id value key by w m p good found unused ready
            free in
        cc (ap (λ z. z.0) run, done)
    | inr (amount, price) ↦ elim (Bool-cases (Charging.is_reused env w)) [
      | inl reused ↦
          let run =
            Charging.simulate_payment-collides env id value key by w m p good found unused ready
              amount price reused in
          cc (ap (λ z. z.0) run, done)
      | inr fresh ↦
          let run =
            Charging.simulate_payment-charges env id value key by w m p good found unused ready
              amount price fresh (policy_by_id-In id w.db p found).1 in
          record {
            method = m;
            policy = p;
            amount = amount;
            good = good;
            found = found;
            unused = unused;
            price = price;
            receipt = cc (ap (λ z. z.0) run, done);
            world = ap (λ z. z.1) run;
          }
    ]
  ]

  found-cases :
      (m : Method) (p : Policy)
      → parse_method value ≡ some m
      → policy_by_id id w.db ≡ some p
      → IsReplay env id value key by w payment ⊎ IsCharged env id value key by w payment
  found-cases m p good found = elim (Option-cases (found_by (usable_key key) w.db)) [
    | inl unused ↦ elim (Bool-cases (state_eqb p.state accepted)) [
      | inl ready ↦ inr (charge-cases m p good found unused ready)
      | inr other ↦
          let run =
            Charging.simulate_payment-refused env id value key by w m p good found unused other in
          cc (ap (λ z. z.0) run, done)
    ]
    | inr (old, used) ↦ elim (Bool-cases (same_request old p m)) [
      | inl same ↦
          let run =
            Charging.simulate_payment-replays env id value key by w m p good found old used same in
          let it : old ≡ payment = cc (ap (λ z. z.0) run, done) in
          inl (record {
            method = m;
            policy = p;
            good = good;
            found = found;
            used = used ∙ ap some it;
            same = subst (λ z. same_request z p m ≡ true) it same;
            world = ap (λ z. z.1) run;
          })
      | inr other ↦
          let run =
            Charging.simulate_payment-conflicts env id value key by w m p good found old used
              other in
          cc (ap (λ z. z.0) run, done)
    ]
  ]

  pub paid-cases : IsReplay env id value key by w payment ⊎ IsCharged env id value key by w payment
  paid-cases = elim (Option-cases (parse_method value)) [
    | inl bad ↦
        let run = Charging.simulate_payment-bad_method env id value key by w bad in
        cc (ap (λ z. z.0) run, done)
    | inr (m, good) ↦ elim (Option-cases (policy_by_id id w.db)) [
      | inl gone ↦
          let run = Charging.simulate_payment-missing env id value key by w m good gone in
          cc (ap (λ z. z.0) run, done)
      | inr (p, found) ↦ found-cases m p good found
    ]
  ]

-- A payment that succeeded under a key, asked for again at once with the same arguments by anyone,
-- returns the same receipt and changes nothing.
pub simulate_payment_retry :
    (env : Env) (id : ℕ) (value : String) (key : Option String) (by by' : By) (w : World)
    (payment : Payment) (k : String)
    → usable_key key ≡ some k
    → (simulate_payment env id value key by w).0 ≡ ok payment
    → let w' = (simulate_payment env id value key by w).1 in
      simulate_payment env id value key by' w' ≡ (ok payment, w')
simulate_payment_retry env id value key by by' w payment k e done =
    elim (paid-cases env id value key by w payment done) [
      | inl r ↦
          subst (λ z. simulate_payment env id value key by' z ≡ (ok payment, z)) (sym r.world)
            (Charging.simulate_payment-replays env id value key by' w r.method r.policy r.good
              r.found payment r.used r.same)
      | inr c ↦
          subst (λ z. simulate_payment env id value key by' z ≡ (ok payment, z)) (sym c.world)
            (subst
              (λ z.
                let w' = charged env id by w c.method c.policy key c.amount in
                simulate_payment env id value key by' w' ≡ (ok z, w'))
              (sym c.receipt)
              (Charging.simulate_payment-replays env id value key by'
                (charged env id by w c.method c.policy key c.amount) c.method
                (bound_row env id by w c.method c.policy key c.amount c.found c.price) c.good
                (charged-found env id by w c.method c.policy key c.amount c.found c.price)
                (Charging.new_payment env w c.policy c.method key c.amount)
                (charged-used env id by w c.method c.policy key c.amount c.found c.price k e)
                (charged-same env id by w c.method c.policy key c.amount c.found c.price)))
    ]

-- When a payment has charged (no payment had its key before), a second payment for the policy
-- without a key and with a supported method is refused with PaymentNotAllowed and changes nothing.
pub simulate_payment_twice :
    (env : Env) (id : ℕ) (value value' : String) (key key' : Option String) (by by' : By)
    (w : World) (payment : Payment) (m : Method)
    → found_by (usable_key key) w.db ≡ none
    → usable_key key' ≡ none
    → parse_method value' ≡ some m
    → (simulate_payment env id value key by w).0 ≡ ok payment
    → let w' = (simulate_payment env id value key by w).1 in
      simulate_payment env id value' key' by' w' ≡ (err payment_not_allowed, w')
simulate_payment_twice env id value value' key key' by by' w payment m unused keyless good done =
    elim (paid-cases env id value key by w payment done) [
      | inl r ↦ cc (unused, r.used)
      | inr c ↦
          subst (λ z. simulate_payment env id value' key' by' z ≡ (err payment_not_allowed, z))
            (sym c.world)
            (Charging.simulate_payment-refused env id value' key' by'
              (charged env id by w c.method c.policy key c.amount) m
              (bound_row env id by w c.method c.policy key c.amount c.found c.price) good
              (charged-found env id by w c.method c.policy key c.amount c.found c.price)
              (subst
                (λ z. found_by z (charged env id by w c.method c.policy key c.amount).db ≡ none)
                (sym keyless) refl)
              refl)
    ]
