-- ===== src/Lifecycle/Keys.antt =====
-- No two policies have the same key after calls of the services of apps/policies and apps/payments,
-- so the list of apps/policies/views.py has one order.
use mathlib.Core.Path.{subst}
use democrance_insurance_api.Prelude.{
  ℕ, ◌<◌, ◌≡◌, ◌≢◌, refl, sym, ◌∙◌, Bool, Bool-cases, inl, inr, String, List, [], ◌∷◌, All, In,
  update, arith, ◌==◌,
}
use democrance_insurance_api.Accounts.{Principal}
use democrance_insurance_api.Customers.{Customer}
use democrance_insurance_api.Products.{ProductType, RatingRule}
use democrance_insurance_api.Policies.Rows.{Policy}
use democrance_insurance_api.Policies.Read.{listed_before, order_listed}
use democrance_insurance_api.Policies.Paging.{HasKeys, listed, listed_unique}
use democrance_insurance_api.Policies.StateMachine.{State}
use democrance_insurance_api.Search.{PolicyFilter}
use democrance_insurance_api.Database.{Db, Env, insert_transition, insert_policy, insert_payment}
use democrance_insurance_api.Database.Answers.{Answer}
use democrance_insurance_api.Lifecycle.Steps.{
  Advance, Step, quote, accept, bind, pay, Reach, here, next,
}
use democrance_insurance_api.Lifecycle.Invariant.{IsSound}
use democrance_insurance_api.Lifecycle.Moves.{Advance-policies}
use democrance_insurance_api.Lifecycle.Sound.{Reach-IsSound}
use democrance_insurance_api.Lifecycle.Reachable.{
  Call, untouched, untouched-IsSound, served, serve-Reach,
}

module _ (test : Policy → Bool) (write : Policy → Policy)
    (same : (p : Policy) → (write p).id ≡ p.id) where
  other-update :
      (k : ℕ) (policies : List Policy)
      → All (λ (q : Policy). k ≢ q.id) policies
      → All (λ (q : Policy). k ≢ q.id) (update test write policies)
  other-update k [] h = tt
  other-update k (p ∷ policies) h = elim (Bool-cases (test p)) [
    | inl e ↦ rw e ((λ z. h.0 (z ∙ same p)), other-update k policies h.1)
    | inr e ↦ rw e (h.0, other-update k policies h.1)
  ]

  update-HasKeys :
      (policies : List Policy) → HasKeys policies → HasKeys (update test write policies)
  update-HasKeys [] h = tt
  update-HasKeys (p ∷ policies) h =
      let rest = other-update p.id policies h.0 in
      elim (Bool-cases (test p)) [
        | inl e ↦ rw e (
          subst (λ k. All (λ (q : Policy). k ≢ q.id) (update test write policies)) (sym (same p))
              rest,
          update-HasKeys policies h.1,
        )
        | inr e ↦ rw e (rest, update-HasKeys policies h.1)
      ]

Advance-HasKeys :
    (db db' : Db) (id : ℕ) (from to : State)
    → Advance db db' id from to
    → HasKeys db.policies
    → HasKeys db'.policies
Advance-HasKeys db db' id from to a h =
    subst HasKeys (sym (Advance-policies db db' id from to a))
      (update-HasKeys (λ (r : Policy). r.id == id) a.write (λ p. (a.writes p).1) db.policies h)

fresh_key :
    (k : ℕ) (policies : List Policy)
    → ((p : Policy) → In p policies → p.id < k)
    → All (λ (q : Policy). k ≢ q.id) policies
fresh_key k [] below = tt
fresh_key k (p ∷ policies) below = (
  λ e. let low = below p (inl refl) in omega arith,
  fresh_key k policies (λ q m. below q (inr m)),
)

Step-HasKeys : {db db' : Db} → IsSound db → Step db db' → HasKeys db.policies → HasKeys db'.policies
Step-HasKeys {db} {db'} sound (quote policy row o a) h =
    Advance-HasKeys (insert_transition row (insert_policy policy db)) db' policy.id _ _ a (
      subst (λ k. All (λ (q : Policy). k ≢ q.id) db.policies) (sym o.key)
          (fresh_key db.next_policy db.policies sound.audited.policy_keys),
      h,
    )
Step-HasKeys {db} {db'} sound (accept id a) h = Advance-HasKeys db db' id _ _ a h
Step-HasKeys {db} {db'} sound (bind id a) h = Advance-HasKeys db db' id _ _ a h
Step-HasKeys {db} {db'} sound (pay policy payment c a) h =
    Advance-HasKeys (insert_payment payment db) db' payment.policy_id _ _ a h

Reach-HasKeys :
    {db db' : Db} → IsSound db → Reach db db' → HasKeys db.policies → HasKeys db'.policies
Reach-HasKeys sound here h = h
Reach-HasKeys {db} sound (next {db'} run step) h =
    Step-HasKeys (Reach-IsSound run sound) step (Reach-HasKeys sound run h)

-- After any sequence of calls of the four services on a database with a catalogue and customers
-- only, whatever filters by customer, product, state, time and text a principal gives, the only
-- order that the database may answer the default list of policies in is the one that sorting
-- gives: no two rows tie.
pub served-listed :
    (env : Env) (calls : List Call) (customers : List Customer) (products : List ProductType)
    (rules : List RatingRule) (icontains : String → String → Bool) (f : PolicyFilter)
    (who : Principal) (answer : List Policy)
    → Answer listed_before
        (listed icontains f (served env calls customers products rules) who)
        answer
    → answer ≡ order_listed (listed icontains f (served env calls customers products rules) who)
served-listed env calls customers products rules icontains f who answer given =
    listed_unique icontains f (served env calls customers products rules) who answer
      (Reach-HasKeys (untouched-IsSound customers products rules)
        (serve-Reach env calls (untouched customers products rules)) tt)
      given
