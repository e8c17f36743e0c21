-- ===== src/Lifecycle/Kept.antt =====
-- What no service of apps/policies and apps/payments takes back: log rows, receipts, and the terms
-- of a policy.
use mathlib.Core.Path.{subst}
use mathlib.Core.List.{append_assoc}
use democrance_insurance_api.Prelude.{
  ℕ, ◌≡◌, refl, sym, ap, ◌∙◌, inl, inr, Bool-cases, true, some, List, [], ◌∷◌, ◌++◌, In, update-In,
  ◌==◌, ==_iff,
}
use democrance_insurance_api.Policies.StateMachine.{
  State, new, quoted, accepted, active, can_transition,
}
use democrance_insurance_api.Policies.Rows.{Policy, PolicyStateTransition}
use democrance_insurance_api.Policies.History.{
  IsAudited, open-IsAudited, state_by_key, policy_by_id-In, terms,
}
use democrance_insurance_api.Payments.Rows.{Payment}
use democrance_insurance_api.Database.{Db, insert_transition, insert_policy, insert_payment}
use democrance_insurance_api.Lifecycle.Steps.{
  Advance, Step, quote, accept, bind, pay, Reach, here, next,
}
use democrance_insurance_api.Lifecycle.Invariant.{IsSound}
use democrance_insurance_api.Lifecycle.Moves.{Advance-policies, Advance-payments}
use democrance_insurance_api.Lifecycle.Sound.{Reach-IsSound, charged-IsAudited}

-- From one state to another by moves that the table allows.
pub data Later (from : State) : State → Type 0 where
  stay : Later from from
  move : {s t : State} → Later from s → can_transition (some s) t ≡ true → Later from t

Later-trans : {a b c : State} → Later a b → Later b c → Later a c
Later-trans first stay = first
Later-trans first (move more e) = move (Later-trans first more) e

-- The row that a policy has become.
pub record Successor (db' : Db) (p : Policy) : Type 0 where
  pub row : Policy
  pub listed : In row db'.policies
  pub same_id : row.id ≡ p.id
  pub same_terms : terms row ≡ terms p
  pub onward : Later p.state row.state

stayed-Successor : (db' : Db) (p : Policy) → In p db'.policies → Successor db' p
stayed-Successor db' p m = record {
  row = p;
  listed = m;
  same_id = refl;
  same_terms = refl;
  onward = stay;
}

pub record IsKept (db db' : Db) : Type 0 where
  pub log : List PolicyStateTransition
  pub log_grows : db'.transitions ≡ log ++ db.transitions
  pub receipts : List Payment
  pub receipts_grow : db'.payments ≡ receipts ++ db.payments
  pub successor : (p : Policy) → In p db.policies → Successor db' p
  pub same_customers : db'.customers ≡ db.customers
  pub same_catalogue : (db'.products ≡ db.products) × (db'.rules ≡ db.rules)

pub IsKept-refl : (db : Db) → IsKept db db
IsKept-refl db = record {
  log = [];
  log_grows = refl;
  receipts = [];
  receipts_grow = refl;
  successor = stayed-Successor db;
  same_customers = refl;
  same_catalogue = (refl, refl);
}

pub IsKept-trans : (a b c : Db) → IsKept a b → IsKept b c → IsKept a c
IsKept-trans a b c h k = record {
  log = k.log ++ h.log;
  log_grows =
      k.log_grows
      ∙ ap (λ rows. k.log ++ rows) h.log_grows
      ∙ sym (append_assoc k.log h.log a.transitions);
  receipts = k.receipts ++ h.receipts;
  receipts_grow =
      k.receipts_grow
      ∙ ap (λ rows. k.receipts ++ rows) h.receipts_grow
      ∙ sym (append_assoc k.receipts h.receipts a.payments);
  successor = λ p m.
      let first = h.successor p m in
      let second = k.successor first.row first.listed in
      record {
        row = second.row;
        listed = second.listed;
        same_id = second.same_id ∙ first.same_id;
        same_terms = second.same_terms ∙ first.same_terms;
        onward = Later-trans first.onward second.onward;
      };
  same_customers = k.same_customers ∙ h.same_customers;
  same_catalogue =
      (k.same_catalogue.0 ∙ h.same_catalogue.0, k.same_catalogue.1 ∙ h.same_catalogue.1);
}

-- One move.
module _ (db db' : Db) (id : ℕ) (from to : State) (a : Advance db db' id from to)
    (audit : IsAudited db) (allowed : can_transition (some from) to ≡ true) where
  moved-Successor : (x : Policy) → In x db.policies → Successor db' x
  moved-Successor x at =
      let kept = update-In (λ (r : Policy). r.id == id) a.write x db.policies at in
      elim (Bool-cases (x.id == id)) [
        | inl same ↦
            let (in_table, key) = policy_by_id-In id db a.policy a.found in
            let states =
              state_by_key db x a.policy audit at in_table ((==_iff x.id id).0 same ∙ sym key)
              ∙ a.at_start in
            record {
              row = a.write x;
              listed =
                  subst (In (a.write x)) (sym (Advance-policies db db' id from to a))
                    (rw same at kept);
              same_id = (a.writes x).1;
              same_terms = (a.writes x).4;
              onward =
                  move (subst (λ s. Later x.state s) states stay)
                    (ap (λ s. can_transition (some from) s) (a.writes x).0 ∙ allowed);
            }
        | inr other ↦
            stayed-Successor db' x
              (subst (In x) (sym (Advance-policies db db' id from to a)) (rw other at kept))
      ]

  Advance-IsKept : IsKept db db'
  Advance-IsKept = record {
    log = a.row ∷ [];
    log_grows = ap (λ (d : Db). d.transitions) a.result;
    receipts = [];
    receipts_grow = Advance-payments db db' id from to a;
    successor = moved-Successor;
    same_customers = ap (λ (d : Db). d.customers) a.result;
    same_catalogue = (ap (λ (d : Db). d.products) a.result, ap (λ (d : Db). d.rules) a.result);
  }

-- The tables with more rows.
opened-IsKept :
    (db : Db) (policy : Policy) (row : PolicyStateTransition)
    → IsKept db (insert_transition row (insert_policy policy db))
opened-IsKept db policy row = record {
  log = row ∷ [];
  log_grows = refl;
  receipts = [];
  receipts_grow = refl;
  successor = λ p m. stayed-Successor (insert_transition row (insert_policy policy db)) p (inr m);
  same_customers = refl;
  same_catalogue = (refl, refl);
}

paid-IsKept : (db : Db) (payment : Payment) → IsKept db (insert_payment payment db)
paid-IsKept db payment = record {
  log = [];
  log_grows = refl;
  receipts = payment ∷ [];
  receipts_grow = refl;
  successor = stayed-Successor (insert_payment payment db);
  same_customers = refl;
  same_catalogue = (refl, refl);
}

Step-IsKept : {db db' : Db} → IsSound db → Step db db' → IsKept db db'
unfolding can_transition
Step-IsKept {db} {db'} sound (quote policy row o a) =
    let opened = insert_transition row (insert_policy policy db) in
    let audit =
      open-IsAudited db policy row sound.audited o.key o.state o.owner o.row_from o.row_to in
    IsKept-trans db opened db' (opened-IsKept db policy row)
      (Advance-IsKept opened db' policy.id new quoted a audit refl)
Step-IsKept {db} {db'} sound (accept id a) =
    Advance-IsKept db db' id quoted accepted a sound.audited refl
Step-IsKept {db} {db'} sound (bind id a) =
    Advance-IsKept db db' id accepted active a sound.audited refl
Step-IsKept {db} {db'} sound (pay policy payment c a) =
    IsKept-trans db (insert_payment payment db) db' (paid-IsKept db payment) (
      Advance-IsKept (insert_payment payment db) db' payment.policy_id accepted active a
        (charged-IsAudited db db' policy payment c a sound.audited) refl)

pub Reach-IsKept : {db db' : Db} → IsSound db → Reach db db' → IsKept db db'
Reach-IsKept {db} sound here = IsKept-refl db
Reach-IsKept {db} {db' = db''} sound (next {db'} run step) =
    IsKept-trans db db' db'' (Reach-IsKept sound run) (Step-IsKept (Reach-IsSound run sound) step)
