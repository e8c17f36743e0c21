-- ===== src/Lifecycle/Moves.antt =====
-- What the move of one policy of apps/policies does to the tables and to their invariant.
use mathlib.Core.Path.{subst}
use democrance_insurance_api.Prelude.{
  ℕ, ◌≤◌, ◌≡◌, ◌≢◌, ◌⊎◌, inl, inr, sym, ◌∙◌, ap, Bool-cases, true, false, some, String, In,
  In-update, update-In, filter, length, arith, ◌==◌, ==_iff,
}
use democrance_insurance_api.Policies.StateMachine.{State, active, can_transition}
use democrance_insurance_api.Policies.Rows.{Policy}
use democrance_insurance_api.Policies.History.{
  IsAudited, advance-IsAudited, state_by_key, policy_by_id-In,
}
use democrance_insurance_api.Payments.Rows.{Payment}
use democrance_insurance_api.Payments.Services.{key_is}
use democrance_insurance_api.Database.{Db, set_policy}
use democrance_insurance_api.Lifecycle.Steps.{Advance}
use democrance_insurance_api.Lifecycle.Invariant.{
  IsOffered, Receipt, receipts_of, payments_by_key, IsSound,
}

module _ (db db' : Db) (id : ℕ) (from to : State) (a : Advance db db' id from to) where
  pub Advance-payments : db'.payments ≡ db.payments
  Advance-payments = ap (λ (d : Db). d.payments) a.result

  pub Advance-policies : db'.policies ≡ (set_policy id a.write db).policies
  Advance-policies = ap (λ (d : Db). d.policies) a.result

  pub Advance-IsAudited : IsAudited db → can_transition (some from) to ≡ true → IsAudited db'
  Advance-IsAudited audit move = subst IsAudited (sym a.result) (
      advance-IsAudited db id a.policy to a.row a.write audit a.found
        (ap (λ s. can_transition (some s) to) a.at_start ∙ move) a.owner a.row_from a.row_to
        a.writes)

  -- The state of a row after the move.
  pub Advance-states :
      (q : Policy)
      → In q db'.policies
      → (q.state ≡ to) ⊎ ((x : Policy) × In x db.policies × (x.id ≢ id) × (q.state ≡ x.state))
  Advance-states q m =
      let (x, at, e) =
        In-update (λ (r : Policy). r.id == id) a.write q db.policies
          (subst (In q) Advance-policies m) in
      elim (Bool-cases (x.id == id)) [
        | inl same ↦ inl (ap (λ (z : Policy). z.state) (rw same at e) ∙ (a.writes x).0)
        | inr other ↦
            inr (x, at, λ same. ground arith, ap (λ (z : Policy). z.state) (rw other at e))
      ]

  -- A row that was in another state stays as it was.
  pub Advance-keeps :
      (x : Policy) → IsAudited db → x.state ≢ from → In x db.policies → In x db'.policies
  Advance-keeps x audit ne at =
      let (in_table, key) = policy_by_id-In id db a.policy a.found in
      let other : (x.id == id) ≡ false = elim (Bool-cases (x.id == id)) [
        | inl same ↦ absurd (
            ne (
              state_by_key db x a.policy audit at in_table ((==_iff x.id id).0 same ∙ sym key)
              ∙ a.at_start))
        | inr other ↦ other
      ] in
      let kept = update-In (λ (r : Policy). r.id == id) a.write x db.policies at in
      subst (In x) (sym Advance-policies) (rw other at kept)

  -- A row that was active stays active, and keeps its receipt, under any move from elsewhere.
  pub Advance-Receipt :
      (payment : Payment) → IsAudited db → from ≢ active → Receipt db payment → Receipt db' payment
  Advance-Receipt payment audit ne r = record {
    policy = r.policy;
    listed = Advance-keeps r.policy audit (λ e. ne (sym e ∙ r.bound)) r.listed;
    owner = r.owner;
    bound = r.bound;
    amount = r.amount;
    currency = r.currency;
  }

  -- The moved row itself.
  pub Advance-moved : In (a.write a.policy) db'.policies
  Advance-moved =
      let (in_table, key) = policy_by_id-In id db a.policy a.found in
      let same = (==_iff a.policy.id id).1 key in
      let kept = update-In (λ (r : Policy). r.id == id) a.write a.policy db.policies in_table in
      subst (In (a.write a.policy)) (sym Advance-policies) (rw same at kept)

  -- The invariant after a move, from what held before it of all but the moved row.
  pub Advance-IsSound :
      IsAudited db
      → can_transition (some from) to ≡ true
      → IsOffered to
      → ((x : Policy) → In x db.policies → x.id ≢ id → IsOffered x.state)
      → ((payment : Payment) → In payment db.payments → Receipt db' payment)
      → ((k : ℕ) → length (receipts_of k db) ≤ 1)
      → ((k : String) → length (payments_by_key k db) ≤ 1)
      → IsSound db'
  Advance-IsSound audit move offered others receipts charged keyed = record {
    audited = Advance-IsAudited audit move;
    offered = λ q m. elim (Advance-states q m) [
      | inl e ↦ subst IsOffered (sym e) offered
      | inr (x, at, ne, e) ↦ subst IsOffered (sym e) (others x at ne)
    ];
    receipts = λ payment m. receipts payment (subst (In payment) Advance-payments m);
    charged_once = λ k.
        subst (λ payments. length (filter (λ (p : Payment). p.policy_id == k) payments) ≤ 1)
          (sym Advance-payments) (charged k);
    key_once = λ k.
        subst
          (λ payments. length (filter (λ (p : Payment). key_is k p.idempotency_key) payments) ≤ 1)
          (sym Advance-payments) (keyed k);
  }

  -- A move of a policy of a sound table, from a state other than active.
  pub move-IsSound :
      IsSound db → can_transition (some from) to ≡ true → from ≢ active → IsOffered to → IsSound db'
  move-IsSound sound move ne offered =
      Advance-IsSound sound.audited move offered (λ x at _. sound.offered x at)
        (λ payment m. Advance-Receipt payment sound.audited ne (sound.receipts payment m))
        sound.charged_once sound.key_once
