-- ===== src/Lifecycle/Between.antt =====
-- Other requests between two parts of one: what the services of apps/policies and apps/payments
-- leave alone, and the lock that apps/policies/views.py takes after its check.
use mathlib.Core.Path.{subst}
use democrance_insurance_api.Prelude.{ℤ, ◌≡◌, sym, ap, ◌∙◌, none, String, List}
use democrance_insurance_api.Accounts.{Principal, customer_by_id}
use democrance_insurance_api.Accounts.Scoping.{MaySee, owner_of}
use democrance_insurance_api.Policies.Rows.{Policy}
use democrance_insurance_api.Policies.Services.{accept_quote}
use democrance_insurance_api.Policies.Views.{get_policy, by_user, pay_and_reload}
use democrance_insurance_api.Policies.Access.{login_of, get_policy_sound}
use democrance_insurance_api.Database.{Env, World, ok, policy_by_id}
use democrance_insurance_api.Lifecycle.Invariant.{IsSound}
use democrance_insurance_api.Lifecycle.Kept.{IsKept, Successor, Reach-IsKept}
use democrance_insurance_api.Lifecycle.Reachable.{Call, serve, serve-Reach}
use democrance_insurance_api.Lifecycle.Refinement.{Refines, accept_quote-Refines}
use democrance_insurance_api.Lifecycle.Dispatch.{pay_and_reload-Refines}
use democrance_insurance_api.Lifecycle.Locks.{IsFound, accept_quote-gone, listed-found}
use democrance_insurance_api.Lifecycle.Outcomes.{pay_and_reload-IsFound}

-- On tables that satisfy the invariant, any calls of the four services only add history rows and
-- payments, in front of those that were there; every policy stays under its key with the same
-- reference, customer, product, premium, cover, currency and rating, in a state reached by allowed
-- moves, and customers, products and rules are unchanged.
pub serve-IsKept :
    (env : Env) (calls : List Call) (w : World) → IsSound w.db → IsKept w.db (serve env calls w).db
serve-IsKept env calls w sound = Reach-IsKept sound (serve-Reach env calls w)

-- How a request goes on that has seen the policy `p` at `w` when other calls have come between.
pub record IsStill (env : Env) (calls : List Call) (who : Principal) (w : World) (p : Policy)
    : Type 0 where
  pub successor : Successor (serve env calls w).db p
  pub may_see : MaySee who (login_of (serve env calls w).db successor.row)
  pub accepts :
      Refines (serve env calls w).db (accept_quote env p.id (by_user who) (serve env calls w))
      × IsFound (accept_quote env p.id (by_user who)) (serve env calls w)
  pub pays :
      (value : String)
      → Refines
          (serve env calls w).db
          (pay_and_reload env p.id value (by_user who) (serve env calls w))
        × IsFound (pay_and_reload env p.id value (by_user who)) (serve env calls w)

-- On tables that satisfy the invariant, when any calls of the four services come between the check
-- of a request and its lock, the policy that it has seen is still in the table under its key with
-- the same terms, in a state that it may move to, and the principal may still see it; accepting or
-- paying it then either makes one step of the lifecycle or leaves the tables, and does not end in
-- a missing row.
pub seen-IsStill :
    (env : Env) (calls : List Call) (id : ℤ) (who : Principal) (w : World) (p : Policy)
    → IsSound w.db
    → (get_policy id who w).0 ≡ ok p
    → IsStill env calls who w p
seen-IsStill env calls id who w p sound seen =
    let kept = serve-IsKept env calls w sound in
    let (listed, key, may) = get_policy_sound id who w p seen in
    let next = kept.successor p listed in
    let there =
      subst (λ k. ¬ (policy_by_id k (serve env calls w).db ≡ none)) next.same_id
        (listed-found next.row (serve env calls w).db next.listed) in
    record {
      successor = next;
      may_see =
          subst (MaySee who)
            (ap (λ k. owner_of (customer_by_id k w.db.customers))
                (sym (ap (λ t. t.customer_id) next.same_terms))
              ∙ ap (λ cs. owner_of (customer_by_id next.row.customer_id cs))
                  (sym kept.same_customers))
            may;
      accepts = (
        accept_quote-Refines env p.id (by_user who) (serve env calls w),
        λ gone. there (accept_quote-gone env p.id (by_user who) (serve env calls w) gone),
      );
      pays = λ value. (
        pay_and_reload-Refines env p.id value (by_user who) (serve env calls w),
        pay_and_reload-IsFound env p.id value (by_user who) (serve env calls w) there,
      );
    }
