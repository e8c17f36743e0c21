-- ===== src/Lifecycle/Settling.antt =====
-- `simulate_payment` of apps/payments/services.py against the steps of the lifecycle.
use mathlib.Core.Path.{subst}
use democrance_insurance_api.Prelude.{
  ℕ, ◌+◌, ◌≡◌, ◌⊎◌, inl, inr, refl, sym, ap, ℤ, Option-cases, Bool-cases, true, false, Option, none,
  some, String, ◌==◌, ==_iff, ◌∙◌, arith,
}
use democrance_insurance_api.Policies.StateMachine.{State, accepted, active, state_eqb}
use democrance_insurance_api.Policies.Rows.{Policy}
use democrance_insurance_api.Policies.Services.{By}
use democrance_insurance_api.Policies.Branches.{move_row, activate_columns}
use democrance_insurance_api.Policies.History.{policy_by_id-In}
use democrance_insurance_api.Payments.Rows.{Method, Payment, parse_method}
use democrance_insurance_api.Payments.Services.{
  usable_key, found_by, activation_metadata, payment_by_key, same_request, simulate_payment,
}
use democrance_insurance_api.Payments.Charging
use democrance_insurance_api.Database
use democrance_insurance_api.Database.{
  Db, Env, World, Result, ok, err, policy_by_id, insert_payment,
}
use democrance_insurance_api.Lifecycle.Steps.{Advance, Charge}

key_unused :
    (key : Option String) (db : Db) (k : String)
    → found_by (usable_key key) db ≡ none
    → usable_key key ≡ some k
    → payment_by_key k db ≡ none
key_unused key db k unused e = subst (λ z. found_by z db ≡ none) e unused

-- A first payment: a receipt for the policy with key `id`, at its price, by the method and under
-- the key that were given, and the move of that policy to active.
pub record Paid (id : ℕ) (value : String) (key : Option String) (db db' : Db) (payment : Payment)
    : Type 0 where
  pub policy : Policy
  pub for_policy : payment.policy_id ≡ id
  pub by_method : parse_method value ≡ some payment.method
  pub under_key : payment.idempotency_key ≡ usable_key key
  pub charge : Charge db policy payment
  pub advance : Advance (insert_payment payment db) db' payment.policy_id accepted active

-- How a payment that began on `db` ended: it returned the earlier payment for the policy with its
-- key and wrote nothing, or it made a first payment, or it raised and left `db`.
abbrev pub Settles : ℕ → String → Option String → Db → Result Payment × World → Type 0
Settles id value key db (ok payment, w') =
    ((found_by (usable_key key) db ≡ some payment) × (payment.policy_id ≡ id) × (w'.db ≡ db))
    ⊎ Paid id value key db w'.db payment
Settles id value key db (err _, w') = w'.db ≡ db

accepted_of_eqb : (s : State) → state_eqb s accepted ≡ true → s ≡ accepted
accepted_of_eqb s e = ground arith

module _ (env : Env) (id : ℕ) (value : String) (key : Option String) (by : By) (w : World)
    (m : Method) (p : Policy) (good : parse_method value ≡ some m)
    (found : policy_by_id id w.db ≡ some p) where
  charge-Settles :
      (amount : ℤ)
      → found_by (usable_key key) w.db ≡ none
      → state_eqb p.state accepted ≡ true
      → p.premium ≡ some amount
      → Charging.is_reused env w ≡ false
      → Settles id value key w.db (simulate_payment env id value key by w)
  charge-Settles amount unused ready price fresh =
      let key_of = (policy_by_id-In id w.db p found).1 in
      let receipt = Charging.new_payment env w p m key amount in
      rw
        (Charging.simulate_payment-charges env id value key by w m p good found unused ready amount
          price fresh key_of)
        (inr (record {
          policy = p;
          for_policy = key_of;
          by_method = good;
          under_key = refl;
          charge = record {
            key = refl;
            reference_free = fresh;
            found = subst (λ k. policy_by_id k w.db ≡ some p) (sym key_of) found;
            amount = price;
            currency = refl;
            key_free = λ k e. key_unused key w.db k unused e;
          };
          advance = record {
            policy = p;
            found = subst (λ k. policy_by_id k w.db ≡ some p) (sym key_of) found;
            at_start = accepted_of_eqb p.state ready;
            row =
                move_row env by p active "policy activated" (activation_metadata receipt)
                  w.db.next_transition (w.asked + 3);
            row_key = refl;
            owner = refl;
            row_from = refl;
            row_to = refl;
            write = activate_columns env (w.asked + 4) (w.asked + 5);
            writes = λ q. (refl, refl, refl, refl, refl);
            result =
                ap
                  (λ k. Database.set_policy k (activate_columns env (w.asked + 4) (w.asked + 5)) (
                    Database.insert_transition
                      (move_row env by p active "policy activated" (activation_metadata receipt)
                        w.db.next_transition (w.asked + 3))
                      (Database.insert_payment receipt w.db)))
                  (sym key_of);
          };
        }))

  first-Settles :
      found_by (usable_key key) w.db ≡ none
      → state_eqb p.state accepted ≡ true
      → Settles id value key w.db (simulate_payment env id value key by w)
  first-Settles unused ready = elim (Option-cases p.premium) [
    | inl free ↦
        rw
          (Charging.simulate_payment-no_price env id value key by w m p good found unused ready
            free)
          refl
    | inr (amount, price) ↦ elim (Bool-cases (Charging.is_reused env w)) [
      | inl reused ↦
          rw
            (Charging.simulate_payment-collides env id value key by w m p good found unused ready
              amount price reused)
            refl
      | inr fresh ↦ charge-Settles amount unused ready price fresh
    ]
  ]

  replay-owner : (old : Payment) → same_request old p m ≡ true → old.policy_id ≡ id
  unfolding same_request
  replay-owner old same =
      let key_of = (policy_by_id-In id w.db p found).1 in
      let owner : (old.policy_id == p.id) ≡ true = ground arith in
      (==_iff old.policy_id p.id).0 owner ∙ key_of

  found-Settles : Settles id value key w.db (simulate_payment env id value key by w)
  found-Settles = elim (Option-cases (found_by (usable_key key) w.db)) [
    | inl unused ↦ elim (Bool-cases (state_eqb p.state accepted)) [
      | inl ready ↦ first-Settles unused ready
      | inr other ↦
          rw (Charging.simulate_payment-refused env id value key by w m p good found unused other)
            refl
    ]
    | inr (old, used) ↦ elim (Bool-cases (same_request old p m)) [
      | inl same ↦
          rw (Charging.simulate_payment-replays env id value key by w m p good found old used same)
            (inl (used, replay-owner old same, refl))
      | inr other ↦
          rw
            (Charging.simulate_payment-conflicts env id value key by w m p good found old used
              other)
            refl
    ]
  ]

-- A payment that returns is either a replay of the payment for the same policy found under its
-- key, with the tables unchanged, or it adds one receipt, for that policy, at the policy's price
-- and in its currency, by the given method and under the given key, and moves that policy from
-- accepted to active with its history row; a call that raises leaves the tables as they were.
pub simulate_payment-Settles :
    (env : Env) (id : ℕ) (value : String) (key : Option String) (by : By) (w : World)
    → Settles id value key w.db (simulate_payment env id value key by w)
simulate_payment-Settles env id value key by w = elim (Option-cases (parse_method value)) [
  | inl bad ↦ rw (Charging.simulate_payment-bad_method env id value key by w bad) refl
  | inr (m, good) ↦ elim (Option-cases (policy_by_id id w.db)) [
    | inl gone ↦ rw (Charging.simulate_payment-missing env id value key by w m good gone) refl
    | inr (p, found) ↦ found-Settles env id value key by w m p good found
  ]
]
