-- ===== src/Lifecycle/Selected.antt =====
-- The actions of apps/policies/admin.py as runs of the lifecycle.
use mathlib.Core.Path.{subst}
use democrance_insurance_api.Prelude.{
  ℕ, ◌+◌, find-update, ◌≡◌, refl, sym, List, [], ◌∷◌, Option, some, true, arith, ◌==◌,
}
use democrance_insurance_api.Policies.StateMachine.{accepted, active, can_transition}
use democrance_insurance_api.Policies.Rows.{Policy}
use democrance_insurance_api.Policies.Services.{accept_quote, activate_policy}
use democrance_insurance_api.Policies.Admin.{
  Report, caught, attempt, count, run, by_admin, accept_selected_quotes, bind_selected_policies,
}
use democrance_insurance_api.Policies.Branches.{activate_policy-moves, activate_columns, move_row}
use democrance_insurance_api.Common.Errors.{Error}
use democrance_insurance_api.Database.{
  Db, Env, World, Action, Result, ok, err, policy_by_id, set_policy, insert_transition, ◌>>=◌, pure,
}
use democrance_insurance_api.Lifecycle.Steps.{Reach-trans, Reach, here, next}
use democrance_insurance_api.Lifecycle.Refinement.{
  Refines, accept_quote-Refines, activate_policy-Refines,
}

caught-same : (r : Result Policy) (w : World) → (caught r w).1 ≡ w
caught-same (ok p) w = refl
caught-same (err e) w = ground arith

attempt-Reach : (m : Action Policy) (w : World) → Refines w.db (m w) → Reach w.db (attempt m w).1.db
attempt-Reach m w h = go (m w) h
  where
    go : (r : Result Policy × World) → Refines w.db r → Reach w.db (caught r.0 r.1).1.db
    go (ok p, w') step = next here step
    go (err e, w') same =
        subst (λ (v : World). Reach w.db v.db) (sym (caught-same (err e) w'))
          (subst (Reach w.db) (sym same) here)

rest-Reach :
    (db : Db) (id : ℕ) (r : Result (Option Error) × World) (rest : Action Report)
    → Reach db r.1.db
    → ((w : World) → Reach w.db (rest w).1.db)
    → Reach db
        (((λ _. r) >>= λ outcome. rest >>= λ report. pure (count id outcome report)) r.1).1.db
rest-Reach db id (ok outcome, w') rest first more = go (rest w') (more w')
  where
    go :
        (s : Result Report × World)
        → Reach w'.db s.1.db
        → Reach db
            (elim s.0 as (λ x. Result Report × World) [
              | ok a ↦ (ok (count id outcome a), s.1)
              | err e ↦ (err e, s.1)
            ]).1.db
    go (ok report, v) later = Reach-trans first later
    go (err e, v) later = Reach-trans first later
rest-Reach db id (err e, w') rest first more = first

run-Reach :
    (fn : ℕ → Action Policy) (ids : List ℕ)
    → ((id : ℕ) (w : World) → Refines w.db (fn id w))
    → (w : World) → Reach w.db (run fn ids w).1.db
unfolding run
run-Reach fn [] refines w = here
run-Reach fn (id ∷ ids) refines w =
    rest-Reach w.db id (attempt (fn id) w) (run fn ids) (attempt-Reach (fn id) w (refines id w))
      (run-Reach fn ids refines)

-- Whatever policies are selected, the two admin actions change the tables only by steps of the
-- lifecycle.
pub selected-Reach :
    (env : Env) (user : ℕ) (ids : List ℕ) (w : World)
    → Reach w.db (accept_selected_quotes env user ids w).1.db
      × Reach w.db (bind_selected_policies env user ids w).1.db
unfolding accept_selected_quotes bind_selected_policies
selected-Reach env user ids w = (
  run-Reach (λ id. accept_quote env id (by_admin user)) ids
      (λ id v. accept_quote-Refines env id (by_admin user) v) w,
  run-Reach (λ id. activate_policy env id (by_admin user) []) ids
      (λ id v. activate_policy-Refines env id (by_admin user) [] v) w,
)

-- The tables after the activation of one policy.
abbrev bound_db : Env → ℕ → ℕ → Policy → World → Db
bound_db env user id p w = set_policy id (activate_columns env (w.asked + 1) (w.asked + 2)) (
    insert_transition
      (move_row env (by_admin user) p active "policy activated" [] w.db.next_transition w.asked)
      w.db)

run_one :
    (fn : ℕ → Action Policy) (id : ℕ) (w w' : World) (p : Policy)
    → fn id w ≡ (ok p, w')
    → (run fn (id ∷ []) w).1.db ≡ w'.db
unfolding run
run_one fn id w w' p e = ground (arith, e)

bind_one :
    (env : Env) (user id : ℕ) (w : World) (p : Policy)
    → policy_by_id id w.db ≡ some p
    → can_transition (some p.state) active ≡ true
    → (bind_selected_policies env user (id ∷ []) w).1.db ≡ bound_db env user id p w
unfolding bind_selected_policies
bind_one env user id w p found move =
    run_one (λ k. activate_policy env k (by_admin user) []) id w
      (record w { db = bound_db env user id p w; asked = w.asked + 3 })
      (record p { state = active; activated_at = some (env.now (w.asked + 1)) })
      (activate_policy-moves env id (by_admin user) w [] p found move)

accepted-can_transition :
    (p : Policy) → p.state ≡ accepted → can_transition (some p.state) active ≡ true
unfolding can_transition
accepted-can_transition p ready = rw ready refl

-- Binding an accepted policy from the admin page makes it active and writes no payment.
pub bind_selected-unpaid :
    (env : Env) (user id : ℕ) (w : World) (p : Policy)
    → policy_by_id id w.db ≡ some p
    → p.state ≡ accepted
    → let db' = (bind_selected_policies env user (id ∷ []) w).1.db in
      ((q : Policy) × (policy_by_id id db' ≡ some q) × (q.state ≡ active))
      × (db'.payments ≡ w.db.payments)
bind_selected-unpaid env user id w p found ready =
    rw (bind_one env user id w p found (accepted-can_transition p ready)) (
      (
        activate_columns env (w.asked + 1) (w.asked + 2) p,
        find-update (λ (q : Policy). q.id == id) (activate_columns env (w.asked + 1) (w.asked + 2))
            p w.db.policies (λ q. refl) found,
        refl,
      ),
      refl,
    )
