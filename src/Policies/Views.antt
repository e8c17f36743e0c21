-- ===== src/Policies/Views.antt =====
-- apps/policies/views.py: the dispatcher, the REST aliases and the three handlers that they
-- share. A response is the rendered policy with its status.
use democrance_insurance_api.Prelude.{
  ℕ, ℤ, pos, eqb_ℤ, Bool, true, false, not, ◌&&◌, ◌||◌, Option, none, some, String, List, find,
  str_eq, if◌then◌else◌,
}
use democrance_insurance_api.Accounts.{Principal, is_customer, linked_to, scope_policies}
use democrance_insurance_api.Customers.{Customer}
use democrance_insurance_api.Policies.Rows.{Policy, api}
use democrance_insurance_api.Policies.Services.{By, create_quote, accept_quote}
use democrance_insurance_api.Policies.Serializers.{
  Json, null, bool, int, str, other, Dict, Body, dict, not_dict, has_key, lookup, Fields,
  TransitionInput, validate_create, validate_transition,
}
use democrance_insurance_api.Payments.Services.{simulate_payment}
use democrance_insurance_api.Common.Errors.{
  invalid, expected_object, ambiguous_payload, unrecognised_payload, missing, quote_id, customer_id,
}
use democrance_insurance_api.Database.{
  Db, Env, Action, ◌>>=◌, ◌>>◌, pure, raise, gets, or_raise, raise_if, lock_policy,
}

pub record Response : Type 0 where
  pub status : ℕ
  pub policy : Policy

-- `_actor`, with the source that the services default to.
abbrev pub by_user : Principal → By
by_user none = record { actor = none; source = api }
by_user (some user) = record { actor = some user.id; source = api }

-- The policies that the principal may see.
abbrev pub visible : Principal → Db → List Policy
visible who db = scope_policies (λ p. p.customer_id) db.customers db.policies who

-- `_get_policy`
unfoldable pub get_policy : ℤ → Principal → Action Policy
get_policy id who = do
  seen ← gets (visible who)
  or_raise (find (λ p. eqb_ℤ (pos p.id) id) seen) (missing (quote_id id))

-- `customer.user_id != user.id` for a customer principal.
abbrev pub is_foreign : Principal → Customer → Bool
is_foreign none customer = false
is_foreign (some user) customer = is_customer user && not (linked_to user customer.user)

-- The end of `_pay_quote`: pay, then `policy.refresh_from_db()`.
unfoldable pub pay_and_reload : Env → ℕ → String → By → Action Response
pay_and_reload env id value by = do
  simulate_payment env id value none by
  policy ← lock_policy id
  pure (record { status = 200; policy = policy })

module _ (env : Env) (fields : Fields) where
  -- `_create_quote`
  unfoldable pub handle_create : Body → Principal → Action Response
  handle_create payload who = do
    v ← validate_create fields payload
    raise_if (is_foreign who v.customer) (missing (customer_id (pos v.customer.id)))
    policy ← create_quote env v.customer v.product v.cover (by_user who) none
    pure (record { status = 201; policy = policy })

  -- `_accept_quote`
  unfoldable pub handle_accept : ℤ → Principal → Action Response
  handle_accept id who = do
    seen ← get_policy id who
    policy ← accept_quote env seen.id (by_user who)
    pure (record { status = 200; policy = policy })

  -- `payment_method or Payment.Method.CARD`
  abbrev pub method_or_card : Option String → String
  method_or_card none = "simulated_card"
  method_or_card (some value) = if str_eq value "" then "simulated_card" else value

  -- `_pay_quote`; no idempotency key is passed on.
  unfoldable pub handle_pay : ℤ → Option String → Principal → Action Response
  handle_pay id method who = do
    seen ← get_policy id who
    pay_and_reload env seen.id (method_or_card method) (by_user who)

  abbrev pub handle_transition : Principal → TransitionInput → Action Response
  handle_transition who v =
      if str_eq v.status "accepted"
      then handle_accept v.quote_id who
      else handle_pay v.quote_id v.payment_method who

  -- `QuoteDispatchView.post` on a dict, by which of the two pairs of keys it has.
  abbrev pub dispatch_by : Bool → Bool → Dict → Principal → Action Response
  dispatch_by true true payload who = raise (invalid ambiguous_payload)
  dispatch_by true false payload who = handle_create (dict payload) who
  dispatch_by false true payload who = do
    v ← validate_transition fields (dict payload)
    handle_transition who v
  dispatch_by false false payload who = raise (invalid unrecognised_payload)

  unfoldable pub dispatch : Body → Principal → Action Response
  dispatch not_dict who = raise (invalid expected_object)
  dispatch (dict payload) who =
      dispatch_by (has_key "customer_id" payload || has_key "type" payload)
        (has_key "quote_id" payload || has_key "status" payload) payload who

  -- `QuoteCollectionView.post` and `QuoteAcceptView.post`
  unfoldable pub post_collection : Body → Principal → Action Response
  post_collection payload who = handle_create payload who

  unfoldable pub post_accept : ℕ → Principal → Action Response
  post_accept pk who = handle_accept (pos pk) who

  -- `request.data.get("payment_method")` where it is true; a value of another kind than text is
  -- no method, like the text "?".
  abbrev pub raw_method : Option Json → Option String
  raw_method none = none
  raw_method (some null) = none
  raw_method (some (bool b)) = if b then some "?" else none
  raw_method (some (int n)) = if eqb_ℤ n (pos 0) then none else some "?"
  raw_method (some (str s)) = some s
  raw_method (some (other b)) = if b then some "?" else none

  abbrev pub body_method : Body → Option String
  body_method not_dict = none
  body_method (dict payload) = raw_method (lookup "payment_method" payload)

  -- `QuotePayView.post`
  unfoldable pub post_pay : ℕ → Body → Principal → Action Response
  post_pay pk payload who = handle_pay (pos pk) (body_method payload) who
