-- ===== src/Lifecycle/Outcomes.antt =====
-- How a post to the quote endpoint of apps/policies/views.py can end.
use democrance_insurance_api.Prelude.{
  not, ℕ, ℤ, pos, ◌≡◌, ◌⊎◌, inl, inr, Option, Bool, true, false, none, some, String, List, [], ◌∷◌,
  arith, str_eq, ◌||◌, if◌then◌else◌,
}
use democrance_insurance_api.Accounts.{Principal, demo_or_authenticated}
use democrance_insurance_api.Policies.Services.{By, create_quote, accept_quote}
use democrance_insurance_api.Policies.Serializers.{
  Dict, Body, dict, not_dict, Fields, CreateInput, TransitionInput, has_key, reject_unknown,
  unknown_keys, create_fields, transition_fields, create_input, transition_input, validate_create,
  validate_transition, read_transition,
}
use democrance_insurance_api.Policies.Views.{
  by_user, is_foreign, handle_create, handle_accept, handle_pay, pay_and_reload, dispatch_by,
  handle_transition, dispatch, method_or_card,
}
use democrance_insurance_api.Payments.Services.{simulate_payment}
use democrance_insurance_api.Common.Errors.{
  missing, customer_id, does_not_exist, integrity_error, decimal_overflow, status_code,
}
use democrance_insurance_api.Common.Requests.{denied, request, crashed, outcome}
use democrance_insurance_api.Database.{
  Env, World, Action, Result, err, ◌>>=◌, ◌>>◌, pure, raise_if, policy_by_id, lock_policy,
}
use democrance_insurance_api.Database.Runs.{>>=-ne-err}
use democrance_insurance_api.Lifecycle.Dispatch.{paid_row}
use democrance_insurance_api.Lifecycle.Reading.{shown}
use democrance_insurance_api.Lifecycle.Locks.{
  IsFound, raise_if-IsFound, accept_quote-gone, simulate_payment-gone, create_quote-IsFound,
  get_policy-IsFound,
}

-- The exceptions that no handler knows.
outcome-crashed :
    {A : Type 0} (r : Result A)
    → outcome r ≡ crashed
    → (r ≡ err does_not_exist) ⊎ (r ≡ err integrity_error) ⊎ (r ≡ err decimal_overflow)
unfolding outcome status_code
outcome-crashed r h = ground arith

pub pay_and_reload-IsFound :
    (env : Env) (id : ℕ) (value : String) (by : By) (w : World)
    → ¬ (policy_by_id id w.db ≡ none)
    → IsFound (pay_and_reload env id value by) w
unfolding pay_and_reload
pay_and_reload-IsFound env id value by w there =
    >>=-ne-err (simulate_payment env id value none by)
      (λ _. lock_policy id >>= λ p. pure (shown 200 p)) w does_not_exist
      (λ gone. there (simulate_payment-gone env id value none by w gone))
      (λ payment w' run h.
        let (p, found) = paid_row env id value by w w' payment run in cc (h, found))

module _ (env : Env) (fields : Fields) where
  handle_accept-IsFound :
      (id : ℤ) (who : Principal) (w : World) → IsFound (handle_accept env fields id who) w
  unfolding handle_accept
  handle_accept-IsFound id who w =
      get_policy-IsFound id who
        (λ p. accept_quote env p.id (by_user who) >>= λ q. pure (shown 200 q)) w
        (λ p there.
          >>=-ne-err (accept_quote env p.id (by_user who)) (λ q. pure (shown 200 q)) w
            does_not_exist (λ gone. there (accept_quote-gone env p.id (by_user who) w gone))
            (λ q w' run h. cc))

  handle_pay-IsFound :
      (id : ℤ) (method : Option String) (who : Principal) (w : World)
      → IsFound (handle_pay env fields id method who) w
  unfolding handle_pay
  handle_pay-IsFound id method who w =
      get_policy-IsFound id who
        (λ p. pay_and_reload env p.id (method_or_card env fields method) (by_user who)) w
        (λ p there.
          pay_and_reload-IsFound env p.id (method_or_card env fields method) (by_user who) w there)

  handle_transition-IsFound :
      (accepts : Bool) (v : TransitionInput) (who : Principal) (w : World)
      → IsFound
          (if accepts
            then handle_accept env fields v.quote_id who
            else handle_pay env fields v.quote_id v.payment_method who)
          w
  handle_transition-IsFound true v who w = handle_accept-IsFound v.quote_id who w
  handle_transition-IsFound false v who w = handle_pay-IsFound v.quote_id v.payment_method who w

  create_input-IsFound : (payload : Dict) (w : World) → IsFound (create_input fields payload) w
  unfolding create_input
  create_input-IsFound payload w h = ground arith

  strict-IsFound :
      {A : Type 0} (keys : List String) (m : Action A) (w : World)
      → IsFound m w
      → IsFound (reject_unknown keys >> m) w
  strict-IsFound [] m w safe = safe
  strict-IsFound (key ∷ keys) m w safe = λ h. cc

  validate_create-IsFound : (body : Body) (w : World) → IsFound (validate_create fields body) w
  unfolding validate_create
  validate_create-IsFound not_dict w = λ h. cc
  validate_create-IsFound (dict payload) w =
      strict-IsFound (unknown_keys create_fields payload) (create_input fields payload) w
        (create_input-IsFound payload w)

  handle_create-IsFound :
      (body : Body) (who : Principal) (w : World) → IsFound (handle_create env fields body who) w
  unfolding handle_create
  handle_create-IsFound body who w =
      >>=-ne-err (validate_create fields body)
        (λ (v : CreateInput).
          raise_if (is_foreign who v.customer) (missing (customer_id (pos v.customer.id)))
          >> (create_quote env v.customer v.product v.cover (by_user who) none >>= λ p.
              pure (shown 201 p)))
        w does_not_exist (validate_create-IsFound body w)
        (λ v w' run.
          >>=-ne-err
            (raise_if (is_foreign who v.customer) (missing (customer_id (pos v.customer.id))))
            (λ _. create_quote env v.customer v.product v.cover (by_user who) none >>= λ p.
              pure (shown 201 p))
            w' does_not_exist
            (raise_if-IsFound (is_foreign who v.customer)
              (missing (customer_id (pos v.customer.id))) w' (λ h. cc))
            (λ t w'' passed.
              >>=-ne-err (create_quote env v.customer v.product v.cover (by_user who) none)
                (λ p. pure (shown 201 p)) w'' does_not_exist
                (create_quote-IsFound env v.customer v.product v.cover (by_user who) none w'')
                (λ p w3 made h. cc)))

  read_transition-IsFound :
      (id : Option ℤ) (status : Option String) (method : Option (Option String)) (w : World)
      → IsFound (read_transition fields id status method) w
  read_transition-IsFound id status method w h = ground arith

  validate_transition-IsFound :
      (body : Body) (w : World) → IsFound (validate_transition fields body) w
  unfolding validate_transition transition_input
  validate_transition-IsFound not_dict w = λ h. cc
  validate_transition-IsFound (dict payload) w =
      strict-IsFound (unknown_keys transition_fields payload) (transition_input fields payload) w
        (read_transition-IsFound _ _ _ w)

  dispatch_by-IsFound :
      (creates moves : Bool) (payload : Dict) (who : Principal) (w : World)
      → IsFound (dispatch_by env fields creates moves payload who) w
  dispatch_by-IsFound true true payload who w = λ h. cc
  dispatch_by-IsFound true false payload who w = handle_create-IsFound (dict payload) who w
  dispatch_by-IsFound false true payload who w =
      >>=-ne-err (validate_transition fields (dict payload))
        (λ v. handle_transition env fields who v) w does_not_exist
        (validate_transition-IsFound (dict payload) w)
        (λ v w' run. handle_transition-IsFound (str_eq v.status "accepted") v who w')
  dispatch_by-IsFound false false payload who w = λ h. cc

  dispatch-IsFound :
      (body : Body) (who : Principal) (w : World) → IsFound (dispatch env fields body who) w
  unfolding dispatch
  dispatch-IsFound not_dict who w = λ h. cc
  dispatch-IsFound (dict payload) who w =
      dispatch_by-IsFound (has_key "customer_id" payload || has_key "type" payload)
        (has_key "quote_id" payload || has_key "status" payload) payload who w

  request-IsFound :
      (body : Body) (who : Principal) (w : World)
      → IsFound (request env who (dispatch env fields body who)) w
  unfolding request
  request-IsFound body who w =
      >>=-ne-err (raise_if (not (demo_or_authenticated env.demo_open who)) (denied who))
        (λ _. dispatch env fields body who) w does_not_exist
        (raise_if-IsFound (not (demo_or_authenticated env.demo_open who)) (denied who) w
          (denied-ne who))
        (λ t w' run. dispatch-IsFound body who w')
    where
      denied-ne : (who : Principal) → ¬ (denied who ≡ does_not_exist)
      denied-ne none h = cc
      denied-ne (some user) h = cc

  -- A request to the quote endpoint, whatever its body and whoever sends it, only ends in an
  -- exception that no handler knows when a constraint of the database or the width of the premium
  -- column is violated; no row that the code reads under a lock is missing.
  pub request-crashed :
      (body : Body) (who : Principal) (w : World)
      → outcome ((request env who (dispatch env fields body who) w).0) ≡ crashed
      → ((request env who (dispatch env fields body who) w).0 ≡ err integrity_error)
        ⊎ ((request env who (dispatch env fields body who) w).0 ≡ err decimal_overflow)
  request-crashed body who w h =
      elim (outcome-crashed ((request env who (dispatch env fields body who) w).0) h) [
        | inl gone ↦ absurd (request-IsFound body who w gone)
        | inr rest ↦ rest
      ]
