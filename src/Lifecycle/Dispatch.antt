-- ===== src/Lifecycle/Dispatch.antt =====
-- The handlers of apps/policies/views.py, seen by the steps of the lifecycle.
use mathlib.Core.Path.{subst}
use democrance_insurance_api.Prelude.{
  ℕ, ℤ, pos, ◌≡◌, refl, sym, ◌∙◌, Bool, true, false, Option, none, some, String, ◌||◌, arith, inl,
  inr, ap, str_eq, if◌then◌else◌,
}
use democrance_insurance_api.Accounts.{Principal}
use democrance_insurance_api.Policies.Rows.{Policy}
use democrance_insurance_api.Policies.Services.{By, create_quote, accept_quote}
use democrance_insurance_api.Policies.Serializers.{
  Dict, Body, dict, not_dict, Fields, CreateInput, TransitionInput, has_key, validate_create,
  validate_transition,
}
use democrance_insurance_api.Policies.Views.{
  get_policy, by_user, is_foreign, dispatch_by, handle_transition, handle_create, handle_accept,
  handle_pay, pay_and_reload, dispatch, method_or_card,
}
use democrance_insurance_api.Payments.Rows.{Payment}
use democrance_insurance_api.Payments.Services.{found_by, usable_key, simulate_payment}
use democrance_insurance_api.Common.Errors.{Error, missing, customer_id}
use democrance_insurance_api.Database.{
  policy_by_id, Db, Env, World, ◌>>=◌, ◌>>◌, pure, raise_if, Result, ok, err,
}
use democrance_insurance_api.Lifecycle.Steps.{pay}
use democrance_insurance_api.Lifecycle.Refinement.{
  Refines, create_quote-Refines, accept_quote-Refines,
}
use democrance_insurance_api.Lifecycle.Settling.{Settles, simulate_payment-Settles}
use democrance_insurance_api.Lifecycle.Retry.{paid-cases, charged-found, bound_row}
use democrance_insurance_api.Lifecycle.Reading.{
  Reads-Refines, Refines-pure, raise_if-reads, shown, validate_create-reads,
  validate_transition-reads, get_policy-reads,
}

no_key : (db : Db) → found_by (usable_key none) db ≡ none
unfolding usable_key
no_key db = refl

pay_and_reload-failed :
    (env : Env) (id : ℕ) (value : String) (by : By) (w w' : World) (e : Error)
    → simulate_payment env id value none by w ≡ (err e, w')
    → pay_and_reload env id value by w ≡ (err e, w')
unfolding pay_and_reload
pay_and_reload-failed env id value by w w' e run = ground (arith, run)

pay_and_reload-paid :
    (env : Env) (id : ℕ) (value : String) (by : By) (w w' : World) (payment : Payment) (p : Policy)
    → simulate_payment env id value none by w ≡ (ok payment, w')
    → policy_by_id id w'.db ≡ some p
    → pay_and_reload env id value by w ≡ (ok (record { status = 200; policy = p }), w')
unfolding pay_and_reload
pay_and_reload-paid env id value by w w' payment p run found = ground (arith, run, found)

-- The row is there to be read again, since the payment has just bound it.
pub paid_row :
    (env : Env) (id : ℕ) (value : String) (by : By) (w w' : World) (payment : Payment)
    → simulate_payment env id value none by w ≡ (ok payment, w')
    → (p : Policy) × (policy_by_id id w'.db ≡ some p)
paid_row env id value by w w' payment run =
    elim (paid-cases env id value none by w payment (ap (λ z. z.0) run)) [
      | inl r ↦ cc (no_key w.db, r.used)
      | inr c ↦ (
        bound_row env id by w c.method c.policy none c.amount c.found c.price,
        subst
            (λ (z : World).
              policy_by_id id z.db
              ≡ some (bound_row env id by w c.method c.policy none c.amount c.found c.price))
            (sym c.world ∙ ap (λ z. z.1) run)
            (charged-found env id by w c.method c.policy none c.amount c.found c.price),
      )
    ]

pub pay_and_reload-Refines :
    (env : Env) (id : ℕ) (value : String) (by : By) (w : World)
    → Refines w.db (pay_and_reload env id value by w)
pay_and_reload-Refines env id value by w = go (simulate_payment env id value none by w) refl
  where
    go :
        (r : Result Payment × World)
        → simulate_payment env id value none by w ≡ r
        → Refines w.db (pay_and_reload env id value by w)
    go (err e, w') run =
        rw (pay_and_reload-failed env id value by w w' e run)
          (subst (Settles id value none w.db) run (simulate_payment-Settles env id value none by w))
    go (ok payment, w') run =
        let (p, found) = paid_row env id value by w w' payment run in
        rw (pay_and_reload-paid env id value by w w' payment p run found)
          (elim (subst (Settles id value none w.db) run
            (simulate_payment-Settles env id value none by w)) [
              | inl (used, _, _) ↦ cc (no_key w.db, used)
              | inr paid ↦ pay paid.policy payment paid.charge paid.advance
            ])

handle_create-Refines :
    (env : Env) (fields : Fields) (body : Body) (who : Principal) (w : World)
    → Refines w.db (handle_create env fields body who w)
unfolding handle_create
handle_create-Refines env fields body who w =
    Reads-Refines (validate_create fields body)
      (λ (v : CreateInput).
        raise_if (is_foreign who v.customer) (missing (customer_id (pos v.customer.id)))
        >> (create_quote env v.customer v.product v.cover (by_user who) none >>= λ p.
            pure (shown 201 p)))
      w (validate_create-reads fields body w)
      (λ v.
        Reads-Refines
          (raise_if (is_foreign who v.customer) (missing (customer_id (pos v.customer.id))))
          (λ _. create_quote env v.customer v.product v.cover (by_user who) none >>= λ p.
            pure (shown 201 p))
          w
          (raise_if-reads (is_foreign who v.customer) (missing (customer_id (pos v.customer.id))) w)
          (λ _.
            Refines-pure (create_quote env v.customer v.product v.cover (by_user who) none)
              (shown 201) w
              (create_quote-Refines env v.customer v.product v.cover (by_user who) none w)))

handle_accept-Refines :
    (env : Env) (fields : Fields) (id : ℤ) (who : Principal) (w : World)
    → Refines w.db (handle_accept env fields id who w)
unfolding handle_accept
handle_accept-Refines env fields id who w =
    Reads-Refines (get_policy id who)
      (λ (p : Policy). accept_quote env p.id (by_user who) >>= λ q. pure (shown 200 q)) w
      (get_policy-reads id who w)
      (λ p.
        Refines-pure (accept_quote env p.id (by_user who)) (shown 200) w
          (accept_quote-Refines env p.id (by_user who) w))

handle_pay-Refines :
    (env : Env) (fields : Fields) (id : ℤ) (method : Option String) (who : Principal) (w : World)
    → Refines w.db (handle_pay env fields id method who w)
unfolding handle_pay
handle_pay-Refines env fields id method who w =
    Reads-Refines (get_policy id who)
      (λ (p : Policy). pay_and_reload env p.id (method_or_card env fields method) (by_user who)) w
      (get_policy-reads id who w)
      (λ p. pay_and_reload-Refines env p.id (method_or_card env fields method) (by_user who) w)

handle_transition-Refines :
    (env : Env) (fields : Fields) (accepts : Bool) (v : TransitionInput) (who : Principal)
    (w : World)
    → Refines w.db (
        (if accepts
            then handle_accept env fields v.quote_id who
            else handle_pay env fields v.quote_id v.payment_method who)
          w)
handle_transition-Refines env fields true v who w =
    handle_accept-Refines env fields v.quote_id who w
handle_transition-Refines env fields false v who w =
    handle_pay-Refines env fields v.quote_id v.payment_method who w

dispatch_by-Refines :
    (env : Env) (fields : Fields) (creates moves : Bool) (payload : Dict) (who : Principal)
    (w : World)
    → Refines w.db (dispatch_by env fields creates moves payload who w)
dispatch_by-Refines env fields true true payload who w = refl
dispatch_by-Refines env fields true false payload who w =
    handle_create-Refines env fields (dict payload) who w
dispatch_by-Refines env fields false true payload who w =
    Reads-Refines (validate_transition fields (dict payload))
      (λ v. handle_transition env fields who v) w
      (validate_transition-reads fields (dict payload) w)
      (λ v. handle_transition-Refines env fields (str_eq v.status "accepted") v who w)
dispatch_by-Refines env fields false false payload who w = refl

-- Whatever the body and whoever sends it, a post to the quote endpoint either succeeds with one
-- step of the lifecycle on the tables, or fails and leaves every table as it was.
pub dispatch-Refines :
    (env : Env) (fields : Fields) (body : Body) (who : Principal) (w : World)
    → Refines w.db (dispatch env fields body who w)
unfolding dispatch
dispatch-Refines env fields not_dict who w = refl
dispatch-Refines env fields (dict payload) who w =
    dispatch_by-Refines env fields (has_key "customer_id" payload || has_key "type" payload)
      (has_key "quote_id" payload || has_key "status" payload) payload who w
