-- ===== src/Policies/Branches.antt =====
-- The branches of `accept_quote` and `activate_policy` of apps/policies/services.py, as equations.
use democrance_insurance_api.Prelude.{ℕ, suc, ◌+◌, ◌≡◌, true, false, none, some, String, [], arith}
use democrance_insurance_api.Policies.StateMachine.{State, accepted, active, can_transition}
use democrance_insurance_api.Policies.Rows.{Policy, PolicyStateTransition, Metadata, is_expired}
use democrance_insurance_api.Policies.Services.{By, accept_quote, activate_policy}
use democrance_insurance_api.Common.Errors.{invalid_transition, quote_expired, does_not_exist}
use democrance_insurance_api.Database.{
  Env, World, ok, err, policy_by_id, set_policy, insert_transition,
}

-- The history row of a move of the policy `p`.
abbrev pub move_row : Env → By → Policy → State → String → Metadata → ℕ → ℕ → PolicyStateTransition
move_row env by p to reason metadata id tick = record {
  id = id;
  policy_id = p.id;
  from_state = some p.state;
  to_state = to;
  actor = by.actor;
  source = by.source;
  reason = reason;
  metadata = metadata;
  created_at = env.now tick;
}

-- The columns that acceptance writes, with the two clock readings that it takes.
abbrev pub accept_columns : Env → ℕ → ℕ → Policy → Policy
accept_columns env tick stamp row = record row {
  state = accepted;
  accepted_at = some (env.now tick);
  updated_at = env.now stamp;
}

abbrev pub activate_columns : Env → ℕ → ℕ → Policy → Policy
activate_columns env tick stamp row = record row {
  state = active;
  activated_at = some (env.now tick);
  updated_at = env.now stamp;
}

module _ (env : Env) (id : ℕ) (by : By) (w : World) where
  pub accept_quote-missing :
      policy_by_id id w.db ≡ none → accept_quote env id by w ≡ (err does_not_exist, w)
  unfolding accept_quote
  accept_quote-missing h = ground arith

  pub accept_quote-late :
      (p : Policy)
      → policy_by_id id w.db ≡ some p
      → is_expired (env.now w.asked) p ≡ true
      → accept_quote env id by w ≡ (err quote_expired, record w { asked = w.asked + 1 })
  unfolding accept_quote
  accept_quote-late p h late = ground arith

  pub accept_quote-refused :
      (p : Policy)
      → policy_by_id id w.db ≡ some p
      → is_expired (env.now w.asked) p ≡ false
      → can_transition (some p.state) accepted ≡ false
      → accept_quote env id by w
        ≡ (err (invalid_transition (some p.state) accepted), record w { asked = w.asked + 1 })
  unfolding accept_quote
  accept_quote-refused p h live no_move = ground arith

  pub accept_quote-moves :
      (p : Policy)
      → policy_by_id id w.db ≡ some p
      → is_expired (env.now w.asked) p ≡ false
      → can_transition (some p.state) accepted ≡ true
      → accept_quote env id by w ≡ (
        ok (record p { state = accepted; accepted_at = some (env.now (w.asked + 2)) }),
        record {
          db = set_policy id (accept_columns env (w.asked + 2) (w.asked + 3)) (
              insert_transition
                (move_row env by p accepted "quote accepted" [] w.db.next_transition (w.asked + 1))
                w.db);
          asked = w.asked + 4;
        },
      )
  unfolding accept_quote
  accept_quote-moves p h live move =
      let one : suc w.asked ≡ w.asked + 1 = omega arith in
      let two : suc (suc w.asked) ≡ w.asked + 2 = omega arith in
      let three : suc (suc (suc w.asked)) ≡ w.asked + 3 = omega arith in ground arith

  pub activate_policy-missing :
      (metadata : Metadata)
      → policy_by_id id w.db ≡ none
      → activate_policy env id by metadata w ≡ (err does_not_exist, w)
  unfolding activate_policy
  activate_policy-missing metadata h = ground arith

  pub activate_policy-refused :
      (metadata : Metadata) (p : Policy)
      → policy_by_id id w.db ≡ some p
      → can_transition (some p.state) active ≡ false
      → activate_policy env id by metadata w ≡ (err (invalid_transition (some p.state) active), w)
  unfolding activate_policy
  activate_policy-refused metadata p h no_move = ground arith

  pub activate_policy-moves :
      (metadata : Metadata) (p : Policy)
      → policy_by_id id w.db ≡ some p
      → can_transition (some p.state) active ≡ true
      → activate_policy env id by metadata w ≡ (
        ok (record p { state = active; activated_at = some (env.now (w.asked + 1)) }),
        record {
          db = set_policy id (activate_columns env (w.asked + 1) (w.asked + 2)) (
              insert_transition
                (move_row env by p active "policy activated" metadata w.db.next_transition w.asked)
                w.db);
          asked = w.asked + 3;
        },
      )
  unfolding activate_policy
  activate_policy-moves metadata p h move =
      let one : suc w.asked ≡ w.asked + 1 = omega arith in
      let two : suc (suc w.asked) ≡ w.asked + 2 = omega arith in ground arith
