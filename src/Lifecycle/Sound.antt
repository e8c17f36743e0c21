-- ===== src/Lifecycle/Sound.antt =====
-- The invariant of the tables of apps/policies and apps/payments under the steps of the lifecycle.
use mathlib.Core.Path.{subst}
use democrance_insurance_api.Prelude.{
  ℕ, ◌≤◌, ◌≡◌, inl, inr, refl, sym, ◌∙◌, ap, Bool-cases, true, false, Option, none, some, String,
  [], In, filter_of_find-none, filter-eq-nil, eq_iff, length, arith, ◌==◌, ==_iff,
}
use democrance_insurance_api.Policies.StateMachine.{new, quoted, accepted, active, can_transition}
use democrance_insurance_api.Policies.Rows.{Policy, PolicyStateTransition}
use democrance_insurance_api.Policies.History.{
  IsAudited, open-IsAudited, state_by_key, policy_by_id-In,
}
use democrance_insurance_api.Payments.Rows.{Payment}
use democrance_insurance_api.Payments.Services.{key_is}
use democrance_insurance_api.Database.{Db, insert_transition, insert_policy, insert_payment}
use democrance_insurance_api.Lifecycle.Steps.{
  Advance, Opening, Charge, Step, quote, accept, bind, pay, Reach, here, next,
}
use democrance_insurance_api.Lifecycle.Invariant.{Receipt, receipts_of, payments_by_key, IsSound}
use democrance_insurance_api.Lifecycle.Moves.{
  Advance-IsSound, move-IsSound, Advance-Receipt, Advance-moved,
}

module _ (db db' : Db) (policy : Policy) (row : PolicyStateTransition) (o : Opening db policy row)
    (a : Advance (insert_transition row (insert_policy policy db)) db' policy.id new quoted) where
  opened-Receipt :
      (payment : Payment)
      → Receipt db payment
      → Receipt (insert_transition row (insert_policy policy db)) payment
  opened-Receipt payment r = record {
    policy = r.policy;
    listed = inr r.listed;
    owner = r.owner;
    bound = r.bound;
    amount = r.amount;
    currency = r.currency;
  }

  quote-IsSound : IsSound db → IsSound db'
  unfolding can_transition
  quote-IsSound sound =
      let opened = insert_transition row (insert_policy policy db) in
      let audit =
        open-IsAudited db policy row sound.audited o.key o.state o.owner o.row_from o.row_to in
      Advance-IsSound opened db' policy.id new quoted a audit refl (inl refl)
        (λ x m ne. elim m [
          | inl e ↦ absurd (ne (ap (λ (z : Policy). z.id) e))
          | inr at ↦ sound.offered x at
        ])
        (λ payment m.
          Advance-Receipt opened db' policy.id new quoted a payment audit (cc)
            (opened-Receipt payment (sound.receipts payment m)))
        sound.charged_once sound.key_once

module _ (db db' : Db) (policy : Policy) (payment : Payment) (c : Charge db policy payment)
    (a : Advance (insert_payment payment db) db' payment.policy_id accepted active) where
  -- Nothing of the audit or of the other receipts depends on the table of payments.
  pub charged-IsAudited : IsAudited db → IsAudited (insert_payment payment db)
  charged-IsAudited audit = record {
    recorded = audit.recorded;
    policy_keys = audit.policy_keys;
    row_keys = audit.row_keys;
  }

  charged-Receipt : (old : Payment) → Receipt db old → Receipt (insert_payment payment db) old
  charged-Receipt old r = record {
    policy = r.policy;
    listed = r.listed;
    owner = r.owner;
    bound = r.bound;
    amount = r.amount;
    currency = r.currency;
  }

  -- An accepted policy has no receipt yet: one would have bound it.
  not_of_policy :
      IsSound db
      → (old : Payment) → In old db.payments
      → (old.policy_id == payment.policy_id) ≡ false
  not_of_policy sound old m = elim (Bool-cases (old.policy_id == payment.policy_id)) [
    | inl same ↦
        let r = sound.receipts old m in
        let (in_table, key) = policy_by_id-In payment.policy_id db a.policy a.found in
        let states =
          state_by_key db r.policy a.policy sound.audited r.listed in_table
            (r.owner ∙ (==_iff old.policy_id payment.policy_id).0 same ∙ sym key) in
        cc (states, r.bound, a.at_start)
    | inr other ↦ other
  ]

  no_receipt_yet : IsSound db → receipts_of payment.policy_id db ≡ []
  no_receipt_yet sound =
      filter-eq-nil (λ (p : Payment). p.policy_id == payment.policy_id) db.payments
        (not_of_policy sound)

  once_charged : IsSound db → (k : ℕ) → length (receipts_of k (insert_payment payment db)) ≤ 1
  once_charged sound k = elim (Bool-cases (payment.policy_id == k)) [
    | inl same ↦
        let none_yet =
          subst (λ z. receipts_of z db ≡ []) ((==_iff payment.policy_id k).0 same)
            (no_receipt_yet sound) in
        ground (arith, ap length none_yet)
    | inr other ↦ ground (arith, sound.charged_once k)
  ]

  key_is-eq : (k : String) (key : Option String) → key_is k key ≡ true → key ≡ some k
  key_is-eq k none e = cc
  key_is-eq k (some j) e = ap some ((eq_iff j k).0 e)

  once_keyed :
      IsSound db → (k : String) → length (payments_by_key k (insert_payment payment db)) ≤ 1
  once_keyed sound k = elim (Bool-cases (key_is k payment.idempotency_key)) [
    | inl same ↦
        let none_yet =
          filter_of_find-none (λ (p : Payment). key_is k p.idempotency_key) db.payments
            (c.key_free k (key_is-eq k payment.idempotency_key same)) in
        ground (arith, ap length none_yet)
    | inr other ↦ ground (arith, sound.key_once k)
  ]

  new-Receipt : Receipt db' payment
  new-Receipt =
      let (in_table, key) = policy_by_id-In payment.policy_id db a.policy a.found in
      let same : policy ≡ a.policy = cc (c.found, a.found) in
      record {
        policy = a.write a.policy;
        listed = Advance-moved (insert_payment payment db) db' payment.policy_id accepted active a;
        owner = (a.writes a.policy).1 ∙ key;
        bound = (a.writes a.policy).0;
        amount = (a.writes a.policy).2 ∙ ap (λ (z : Policy). z.premium) (sym same) ∙ c.amount;
        currency = (a.writes a.policy).3 ∙ ap (λ (z : Policy). z.currency) (sym same) ∙ c.currency;
      }

  all-Receipt :
      IsSound db → (p : Payment) → In p (insert_payment payment db).payments → Receipt db' p
  all-Receipt sound p (inl e) = subst (Receipt db') (sym e) new-Receipt
  all-Receipt sound p (inr m) =
      Advance-Receipt (insert_payment payment db) db' payment.policy_id accepted active a p
        (charged-IsAudited sound.audited) (cc) (charged-Receipt p (sound.receipts p m))

  pay-IsSound : IsSound db → IsSound db'
  unfolding can_transition
  pay-IsSound sound =
      Advance-IsSound (insert_payment payment db) db' payment.policy_id accepted active a
        (charged-IsAudited sound.audited) refl (inr (inr refl)) (λ x at _. sound.offered x at)
        (all-Receipt sound) (once_charged sound) (once_keyed sound)

-- Every step keeps the invariant.
pub Step-IsSound : {db db' : Db} → Step db db' → IsSound db → IsSound db'
unfolding can_transition
Step-IsSound {db} {db'} (quote policy row o a) sound = quote-IsSound db db' policy row o a sound
Step-IsSound {db} {db'} (accept id a) sound =
    move-IsSound db db' id quoted accepted a sound refl (cc) (inr (inl refl))
Step-IsSound {db} {db'} (bind id a) sound =
    move-IsSound db db' id accepted active a sound refl (cc) (inr (inr refl))
Step-IsSound {db} {db'} (pay policy payment c a) sound = pay-IsSound db db' policy payment c a sound

-- So does any number of steps.
pub Reach-IsSound : {db db' : Db} → Reach db db' → IsSound db → IsSound db'
Reach-IsSound here sound = sound
Reach-IsSound (next r s) sound = Step-IsSound s (Reach-IsSound r sound)
