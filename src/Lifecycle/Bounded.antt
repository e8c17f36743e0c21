-- ===== src/Lifecycle/Bounded.antt =====
-- How long the services of apps/policies/services.py and apps/payments/services.py can go on: each
-- policy has a number of moves left, and every move but a new quote uses one up.
use mathlib.Core.Path.{subst₂}
use democrance_insurance_api.Prelude.{
  ℕ, suc, Bool, ltb, false, ◌<◌, if◌then◌else◌, ◌+◌, ◌*◌, ◌≤◌, ◌≡◌, inl, inr, refl, sym, ap, ◌∙◌,
  Bool-cases, true, List, [], ◌∷◌, length, In, update, arith, ◌==◌, ==_iff,
}
use democrance_insurance_api.Policies.StateMachine.{State, new, quoted, accepted, active}
use democrance_insurance_api.Policies.Rows.{Policy, PolicyStateTransition}
use democrance_insurance_api.Policies.History.{
  IsAudited, open-IsAudited, state_by_key, policy_by_id-In,
}
use democrance_insurance_api.Database.{
  Env, World, Db, insert_transition, insert_policy, insert_payment,
}
use democrance_insurance_api.Lifecycle.Steps.{
  Opening, Advance, Step, quote, accept, bind, pay, Reach, here, next,
}
use democrance_insurance_api.Lifecycle.Reachable.{
  Call, after_call, serve, after_call-cases, served, untouched, untouched-IsSound, serve-Reach,
}
use democrance_insurance_api.Customers.{Customer}
use democrance_insurance_api.Products.{ProductType, RatingRule}
use democrance_insurance_api.Lifecycle.Invariant.{IsSound}
use democrance_insurance_api.Lifecycle.Moves.{Advance-policies}
use democrance_insurance_api.Lifecycle.Sound.{charged-IsAudited, Reach-IsSound}

-- The moves that a policy in this state has left.
abbrev pub left : State → ℕ
left State.new = 2
left State.quoted = 2
left State.accepted = 1
left State.active = 0
left State.expired = 0
left State.cancelled = 0
left State.declined = 0

unfoldable pub total_left : List Policy → ℕ
total_left [] = 0
total_left (p ∷ policies) = left p.state + total_left policies

module _ (id : ℕ) (write : Policy → Policy) (cost : ℕ) where
  -- A rewrite by which no row gains a move.
  total_left-le :
      (policies : List Policy)
      → ((x : Policy) → In x policies → x.id ≡ id → left (write x).state + cost ≤ left x.state)
      → total_left (update (λ x. x.id == id) write policies) ≤ total_left policies
  unfolding total_left
  total_left-le [] spends = omega arith
  total_left-le (x ∷ policies) spends =
      let ih = total_left-le policies (λ y h. spends y (inr h)) in
      elim (Bool-cases (x.id == id)) [
        | inl same ↦
            let one = spends x (inl refl) ((==_iff x.id id).0 same) in rw same (omega arith)
        | inr other ↦ rw other (omega arith)
      ]

  -- One by which a listed row loses some.
  total_left-lt :
      (policies : List Policy) (p : Policy)
      → In p policies
      → p.id ≡ id
      → ((x : Policy) → In x policies → x.id ≡ id → left (write x).state + cost ≤ left x.state)
      → total_left (update (λ x. x.id == id) write policies) + cost ≤ total_left policies
  unfolding total_left
  total_left-lt [] p h key spends = absurd h
  total_left-lt (x ∷ policies) p (inl e) key spends =
      let below = total_left-le policies (λ y h. spends y (inr h)) in
      let same : (x.id == id) ≡ true =
        (==_iff x.id id).1 (ap (λ (z : Policy). z.id) (sym e) ∙ key) in
      let one = spends x (inl refl) ((==_iff x.id id).0 same) in rw same (omega arith)
  total_left-lt (x ∷ policies) p (inr h) key spends =
      let ih = total_left-lt policies p h key (λ y k. spends y (inr k)) in
      elim (Bool-cases (x.id == id)) [
        | inl same ↦
            let one = spends x (inl refl) ((==_iff x.id id).0 same) in rw same (omega arith)
        | inr other ↦ rw other (omega arith)
      ]

-- A move of one policy costs what lies between its two states.
Advance-total_left :
    (db db' : Db) (id : ℕ) (from to : State) (cost : ℕ)
    → Advance db db' id from to
    → IsAudited db
    → left to + cost ≤ left from
    → total_left db'.policies + cost ≤ total_left db.policies
Advance-total_left db db' id from to cost a audit pays =
    let (listed, key) = policy_by_id-In id db a.policy a.found in
    let spends : (x : Policy)
        → In x db.policies
        → x.id ≡ id
        → left (a.write x).state + cost ≤ left x.state =
      (λ x h same.
        let start : x.state ≡ from =
          state_by_key db x a.policy audit h listed (same ∙ sym key) ∙ a.at_start in
        subst₂ (λ (s t : State). left t + cost ≤ left s) (sym start) (sym (a.writes x).0) pays) in
    rw (Advance-policies db db' id from to a)
      (total_left-lt id a.write cost db.policies a.policy listed key spends)

opened_left :
    (db : Db) (policy : Policy) (row : PolicyStateTransition)
    → policy.state ≡ new
    → total_left (insert_transition row (insert_policy policy db)).policies
      ≡ 2 + total_left db.policies
unfolding total_left
opened_left db policy row e = ap (λ s. left s + total_left db.policies) e

-- Four rows in the log for each policy, of which some are still to come.
abbrev pub IsPaced : Db → Type 0
IsPaced db = length db.transitions + total_left db.policies ≤ 4 * length db.policies

length-update :
    (p : Policy → Bool) (write : Policy → Policy) (policies : List Policy)
    → length (update p write policies) ≡ length policies
length-update p write [] = refl
length-update p write (x ∷ policies) = ap suc (length-update p write policies)

-- A move of one policy: one row more, one move less.
Advance-IsPaced :
    (db db' : Db) (id : ℕ) (from to : State)
    → Advance db db' id from to
    → IsAudited db
    → left to + 1 ≤ left from
    → IsPaced db
    → IsPaced db'
Advance-IsPaced db db' id from to a audit pays paced =
    let moved = Advance-total_left db db' id from to 1 a audit pays in
    let rows = ap (λ (d : Db). length d.transitions) a.result in
    let kept =
      ap length (Advance-policies db db' id from to a)
      ∙ length-update (λ x. x.id == id) a.write db.policies in
    omega arith

quote-IsPaced :
    (db db' : Db) (policy : Policy) (row : PolicyStateTransition)
    → Opening db policy row
    → Advance (insert_transition row (insert_policy policy db)) db' policy.id new quoted
    → IsAudited db
    → IsPaced db
    → IsPaced db'
quote-IsPaced db db' policy row o a sound paced =
    let opened = insert_transition row (insert_policy policy db) in
    let audit = open-IsAudited db policy row sound o.key o.state o.owner o.row_from o.row_to in
    let moved = Advance-total_left opened db' policy.id new quoted 0 a audit (omega arith) in
    let rows = ap (λ (d : Db). length d.transitions) a.result in
    let kept =
      ap length (Advance-policies opened db' policy.id new quoted a)
      ∙ length-update (λ x. x.id == policy.id) a.write opened.policies in
    omega (arith, opened_left db policy row o.state)

Step-IsPaced : {db db' : Db} → Step db db' → IsSound db → IsPaced db → IsPaced db'
Step-IsPaced {db} {db'} (quote policy row o a) sound paced =
    quote-IsPaced db db' policy row o a sound.audited paced
Step-IsPaced {db} {db'} (accept id a) sound paced =
    Advance-IsPaced db db' id quoted accepted a sound.audited (omega arith) paced
Step-IsPaced {db} {db'} (bind id a) sound paced =
    Advance-IsPaced db db' id accepted active a sound.audited (omega arith) paced
Step-IsPaced {db} {db'} (pay policy payment c a) sound paced =
    Advance-IsPaced (insert_payment payment db) db' payment.policy_id accepted active a
      (charged-IsAudited db db' policy payment c a sound.audited) (omega arith) paced

Reach-IsPaced : {db db' : Db} → Reach db db' → IsSound db → IsPaced db → IsPaced db'
Reach-IsPaced here sound paced = paced
Reach-IsPaced (next r s) sound paced =
    Step-IsPaced s (Reach-IsSound r sound) (Reach-IsPaced r sound paced)

served-transitions_bounded :
    (env : Env) (calls : List Call) (customers : List Customer) (products : List ProductType)
    (rules : List RatingRule)
    → length (served env calls customers products rules).transitions
      ≤ 4 * length (served env calls customers products rules).policies
unfolding total_left
served-transitions_bounded env calls customers products rules =
    let start = untouched customers products rules in
    let paced =
      Reach-IsPaced (serve-Reach env calls start) (untouched-IsSound customers products rules)
        (omega arith) in
    omega arith

-- Each step writes to the log.
Step-grows : {db db' : Db} → Step db db' → length db.transitions < length db'.transitions
Step-grows (quote policy row o a) =
    let rows = ap (λ (d : Db). length d.transitions) a.result in omega arith
Step-grows (accept id a) = let rows = ap (λ (d : Db). length d.transitions) a.result in omega arith
Step-grows (bind id a) = let rows = ap (λ (d : Db). length d.transitions) a.result in omega arith
Step-grows (pay policy payment c a) =
    let rows = ap (λ (d : Db). length d.transitions) a.result in omega arith

-- A call that writes to the log, and the number of such calls.
abbrev pub is_effective : Env → Call → World → Bool
is_effective env call w =
    ltb (length w.db.transitions) (length (after_call env call w).db.transitions)

unfoldable pub effective_calls : Env → List Call → World → ℕ
effective_calls env [] w = 0
effective_calls env (call ∷ calls) w =
    (if is_effective env call w then 1 else 0) + effective_calls env calls (after_call env call w)

log_grows :
    (env : Env) (call : Call) (w : World)
    → length w.db.transitions ≤ length (after_call env call w).db.transitions
log_grows env call w = elim (after_call-cases env call w) [
  | inl step ↦ omega (arith, Step-grows step)
  | inr same ↦ let rows = ap (λ (d : Db). length d.transitions) same in omega arith
]

effective_calls-le :
    (env : Env) (calls : List Call) (w : World)
    → effective_calls env calls w + length w.db.transitions
      ≤ length (serve env calls w).db.transitions
unfolding effective_calls serve
effective_calls-le env [] w = omega arith
effective_calls-le env (call ∷ calls) w =
    ground (arith, log_grows env call w, effective_calls-le env calls (after_call env call w))

ineffective :
    (env : Env) (call : Call) (w : World)
    → is_effective env call w ≡ false
    → (after_call env call w).db ≡ w.db
ineffective env call w idle = elim (after_call-cases env call w) [
  | inl step ↦ absurd (let grows = Step-grows step in ground arith)
  | inr same ↦ same
]

-- In any sequence of calls of the four services on a database with a catalogue and customers only,
-- the calls that write a history row are at most four for each policy at the end; and a call that
-- writes none, in any world, leaves the tables as they were.
pub served-effective_calls :
    (env : Env) (calls : List Call) (customers : List Customer) (products : List ProductType)
    (rules : List RatingRule)
    → (effective_calls env calls (untouched customers products rules)
        ≤ 4 * length (served env calls customers products rules).policies)
      × ((call : Call) (w : World)
          → is_effective env call w ≡ false
          → (after_call env call w).db ≡ w.db)
served-effective_calls env calls customers products rules =
    let bound = served-transitions_bounded env calls customers products rules in
    let count = effective_calls-le env calls (untouched customers products rules) in
    (omega arith, ineffective env)
