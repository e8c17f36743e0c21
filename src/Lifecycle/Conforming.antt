-- ===== src/Lifecycle/Conforming.antt =====
-- The tables of apps/policies and apps/payments, against their migrations.
use mathlib.Core.Path.{subst}
use democrance_insurance_api.Prelude.{
  ℕ, ◌<◌, ◌≡◌, refl, sym, ap, ◌∙◌, inl, inr, false, Option, none, some, String, List, All,
  All-intro, In, In-update, Bool-cases, find-none, str_eq, arith, ◌==◌,
}
use democrance_insurance_api.Policies.Rows.{Policy, PolicyStateTransition}
use democrance_insurance_api.Policies.StateMachine.{State}
use democrance_insurance_api.Payments.Rows.{Payment}
use democrance_insurance_api.Payments.Services.{key_is, payment_by_key}
use democrance_insurance_api.Schema.{
  null, number, word, same, IsDistinct, IsConforming, unique_columns, Column,
}
use democrance_insurance_api.Schema.Tables.{
  policy_table, policy_state_transition_table, payment_table,
}
use democrance_insurance_api.Schema.Cells.{policy_cell, transition_cell, payment_cell, word?}
use democrance_insurance_api.Schema.Distinct.{numbers-fresh, any-fresh, update-IsDistinct}
use democrance_insurance_api.Customers.{Customer}
use democrance_insurance_api.Products.{ProductType, RatingRule}
use democrance_insurance_api.Lifecycle.Reachable.{Call, untouched, served, serve-Reach}
use democrance_insurance_api.Database.{Db, Env, insert_transition, insert_policy, insert_payment}
use democrance_insurance_api.Lifecycle.Steps.{
  Advance, Opening, Charge, Step, quote, accept, bind, pay, Reach, here, next,
}

-- The three tables as their migrations ask, with keys that were given out.
pub record IsNumbered (db : Db) : Type 0 where
  pub policy_keys : (p : Policy) → In p db.policies → p.id < db.next_policy
  pub transition_keys :
      (t : PolicyStateTransition) → In t db.transitions → t.id < db.next_transition
  pub payment_keys : (q : Payment) → In q db.payments → q.id < db.next_payment
  pub policies :
      All
        (λ (c : Column). IsDistinct (λ (p : Policy). policy_cell p c.name) db.policies)
        (unique_columns policy_table)
  pub transitions :
      All
        (λ (c : Column).
          IsDistinct (λ (t : PolicyStateTransition). transition_cell t c.name) db.transitions)
        (unique_columns policy_state_transition_table)
  pub payments :
      All
        (λ (c : Column). IsDistinct (λ (q : Payment). payment_cell q c.name) db.payments)
        (unique_columns payment_table)

-- A history row under the next key.
told-IsNumbered :
    (t : PolicyStateTransition) (db : Db)
    → t.id ≡ db.next_transition
    → IsNumbered db
    → IsNumbered (insert_transition t db)
told-IsNumbered t db key h = record {
  policy_keys = h.policy_keys;
  transition_keys = λ u m. elim m [
    | inl e ↦ let same_key = ap (λ (z : PolicyStateTransition). z.id) e in omega arith
    | inr at ↦ let low = h.transition_keys u at in omega arith
  ];
  payment_keys = h.payment_keys;
  policies = h.policies;
  transitions = (
    (
      numbers-fresh (λ (u : PolicyStateTransition). u.id) t.id db.transitions
          (λ u m. let low = h.transition_keys u m in omega arith),
      h.transitions.0,
    ),
    tt,
  );
  payments = h.payments;
}

opened-IsNumbered :
    (policy : Policy) (row : PolicyStateTransition) (db : Db)
    → Opening db policy row
    → IsNumbered db
    → IsNumbered (insert_policy policy db)
opened-IsNumbered policy row db o h = record {
  policy_keys = λ p m. elim m [
    | inl e ↦ let same_key = ap (λ (z : Policy). z.id) e in let key = o.key in omega arith
    | inr at ↦ let low = h.policy_keys p at in omega arith
  ];
  transition_keys = h.transition_keys;
  payment_keys = h.payment_keys;
  policies = (
    (
      numbers-fresh (λ (p : Policy). p.id) policy.id db.policies
          (λ p m. let low = h.policy_keys p m in let key = o.key in omega arith),
      h.policies.0,
    ),
    (
      (
        any-fresh (λ (q : Policy). str_eq q.quote_reference policy.quote_reference) db.policies
            o.reference_free,
        h.policies.1.0,
      ),
      tt,
    ),
  );
  transitions = h.transitions;
  payments = h.payments;
}

null_apart : (c : Option String) → same (word? c) null ≡ false
null_apart none = refl
null_apart (some k) = refl

word_apart : (c : Option String) (k : String) → key_is k c ≡ false → same (word? c) (word k) ≡ false
word_apart none k e = refl
word_apart (some j) k e = e

-- A key that no payment has is free, and NULL always is.
key-fresh :
    (key : Option String) (db : Db)
    → ((k : String) → key ≡ some k → payment_by_key k db ≡ none)
    → (q : Payment) → In q db.payments
    → same (word? q.idempotency_key) (word? key) ≡ false
key-fresh none db free q m = null_apart q.idempotency_key
key-fresh (some k) db free q m =
    word_apart q.idempotency_key k
      (find-none (λ (p : Payment). key_is k p.idempotency_key) q db.payments (free k refl) m)

charged-IsNumbered :
    (policy : Policy) (payment : Payment) (db : Db)
    → Charge db policy payment
    → IsNumbered db
    → IsNumbered (insert_payment payment db)
charged-IsNumbered policy payment db c h = record {
  policy_keys = h.policy_keys;
  transition_keys = h.transition_keys;
  payment_keys = λ q m. elim m [
    | inl e ↦ let same_key = ap (λ (z : Payment). z.id) e in let key = c.key in omega arith
    | inr at ↦ let low = h.payment_keys q at in omega arith
  ];
  policies = h.policies;
  transitions = h.transitions;
  payments = (
    (
      numbers-fresh (λ (q : Payment). q.id) payment.id db.payments
          (λ q m. let low = h.payment_keys q m in let key = c.key in omega arith),
      h.payments.0,
    ),
    (
      (
        any-fresh (λ (q : Payment). q.reference == payment.reference) db.payments c.reference_free,
        h.payments.1.0,
      ),
      (
        (
          All-intro
              (λ (q : Payment).
                same (word? q.idempotency_key) (word? payment.idempotency_key) ≡ false)
              db.payments (key-fresh payment.idempotency_key db c.key_free),
          h.payments.1.1.0,
        ),
        tt,
      ),
    ),
  );
}

moved-IsNumbered :
    (db db' : Db) (id : ℕ) (from to : State)
    → Advance db db' id from to
    → IsNumbered db
    → IsNumbered db'
moved-IsNumbered db db' id from to a h =
    let told = told-IsNumbered a.row db a.row_key h in
    subst IsNumbered (sym a.result) (record {
      policy_keys = λ p m.
          let (x, at, e) = In-update (λ (r : Policy). r.id == id) a.write p db.policies m in
          let low = h.policy_keys x at in
          let same_key : p.id ≡ x.id = elim (Bool-cases (x.id == id)) [
            | inl hit ↦ ap (λ (z : Policy). z.id) (rw hit at e) ∙ (a.writes x).1
            | inr miss ↦ ap (λ (z : Policy). z.id) (rw miss at e)
          ] in
          omega arith;
      transition_keys = told.transition_keys;
      payment_keys = told.payment_keys;
      policies = (
        update-IsDistinct (λ (p : Policy). number p.id) (λ (r : Policy). r.id == id) a.write
            (λ p. ap number (a.writes p).1) db.policies h.policies.0,
        (
          update-IsDistinct (λ (p : Policy). word p.quote_reference) (λ (r : Policy). r.id == id)
              a.write (λ p. ap (λ z. word z.quote_reference) (a.writes p).4) db.policies
              h.policies.1.0,
          tt,
        ),
      );
      transitions = told.transitions;
      payments = told.payments;
    })

Step-IsNumbered : {db db' : Db} → Step db db' → IsNumbered db → IsNumbered db'
Step-IsNumbered {db} {db'} (quote policy row o a) h =
    moved-IsNumbered (insert_transition row (insert_policy policy db)) db' policy.id _ _ a (
      told-IsNumbered row (insert_policy policy db) o.row_key (opened-IsNumbered policy row db o h))
Step-IsNumbered {db} {db'} (accept id a) h = moved-IsNumbered db db' id _ _ a h
Step-IsNumbered {db} {db'} (bind id a) h = moved-IsNumbered db db' id _ _ a h
Step-IsNumbered {db} {db'} (pay policy payment c a) h =
    moved-IsNumbered (insert_payment payment db) db' payment.policy_id _ _ a
      (charged-IsNumbered policy payment db c h)

Reach-IsNumbered : {db db' : Db} → Reach db db' → IsNumbered db → IsNumbered db'
Reach-IsNumbered here h = h
Reach-IsNumbered (next run step) h = Step-IsNumbered step (Reach-IsNumbered run h)

-- The three tables of a database take their rows.
pub record IsStorable (db : Db) : Type 0 where
  pub policies : IsConforming policy_table policy_cell db.policies
  pub transitions : IsConforming policy_state_transition_table transition_cell db.transitions
  pub payments : IsConforming payment_table payment_cell db.payments

IsNumbered-IsStorable : {db : Db} → IsNumbered db → IsStorable db
IsNumbered-IsStorable h = record {
  policies = record { filled = λ p m. ground arith; distinct = h.policies };
  transitions = record { filled = λ t m. ground arith; distinct = h.transitions };
  payments = record { filled = λ q m. ground arith; distinct = h.payments };
}

-- After any sequence of calls of the four services on a database with a catalogue and customers
-- only, the policies, history rows and payments break no NOT NULL and no UNIQUE of the columns
-- that the migrations create.
pub served-IsStorable :
    (env : Env) (calls : List Call) (customers : List Customer) (products : List ProductType)
    (rules : List RatingRule)
    → IsStorable (served env calls customers products rules)
served-IsStorable env calls customers products rules = IsNumbered-IsStorable (
    Reach-IsNumbered (serve-Reach env calls (untouched customers products rules)) (record {
      policy_keys = λ p m. absurd m;
      transition_keys = λ t m. absurd m;
      payment_keys = λ q m. absurd m;
      policies = (tt, (tt, tt));
      transitions = (tt, tt);
      payments = (tt, (tt, (tt, tt)));
    }))
