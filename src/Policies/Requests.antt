-- ===== src/Policies/Requests.antt =====
-- The bodies that `QuoteDispatchView` of apps/policies/views.py receives, and its REST aliases.
use democrance_insurance_api.Prelude.{
  ℕ, pos, ◌≡◌, refl, true, false, not, ◌||◌, String, List, [], ◌∷◌, In, In-filter, any, map, str_eq,
  arith, inl, inr, ap, if◌then◌else◌,
}
use democrance_insurance_api.Accounts.{Principal}
use democrance_insurance_api.Policies.Serializers.{
  Json, Dict, Body, dict, Fields, TransitionInput, has_key, unknown_keys, create_fields,
  reject_unknown, create_input, validate_create, validate_transition,
}
use democrance_insurance_api.Policies.Views.{
  handle_create, dispatch, post_collection, post_accept, post_pay, body_method,
}
use democrance_insurance_api.Common.Errors.{invalid, unknown_fields}
use democrance_insurance_api.Database.{Env, World, Action, ◌>>◌, ok, err}

-- A body that names a pair for creation and none for a transition.
abbrev pub IsCreate : Dict → Type 0
IsCreate payload =
    (has_key "customer_id" payload || has_key "type" payload ≡ true)
    × (has_key "quote_id" payload || has_key "status" payload ≡ false)

abbrev pub IsTransition : Dict → Type 0
IsTransition payload =
    (has_key "customer_id" payload || has_key "type" payload ≡ false)
    × (has_key "quote_id" payload || has_key "status" payload ≡ true)

In-map : (e : String × Json) (payload : Dict) → In e payload → In e.0 (map (λ z. z.0) payload)
In-map e [] h = absurd h
In-map e (x ∷ payload) (inl same) = inl (ap (λ z. z.0) same)
In-map e (x ∷ payload) (inr h) = inr (In-map e payload h)

unknown-In :
    (fields : List String) (payload : Dict) (e : String × Json)
    → In e payload
    → any (λ f. str_eq f e.0) fields ≡ false
    → In e.0 (unknown_keys fields payload)
unknown-In fields payload e h strange =
    let listed = In-map e payload h in
    let kept =
      In-filter (λ (k : String). not (any (λ f. str_eq f k) fields)) e.0 (map (λ z. z.0) payload) in
    kept.1 (listed, ap not strange)

rejects :
    {A : Type 0} (keys : List String) (k : String) (m : Action A) (w : World)
    → In k keys
    → (reject_unknown keys >> m) w ≡ (err (invalid (unknown_fields keys)), w)
rejects [] k m w h = absurd h
rejects (key ∷ keys) k m w h = refl

strict_validate :
    (fields : Fields) (payload : Dict) (e : String × Json) (w : World)
    → In e payload
    → any (λ f. str_eq f e.0) create_fields ≡ false
    → validate_create fields (dict payload) w
      ≡ (err (invalid (unknown_fields (unknown_keys create_fields payload))), w)
unfolding validate_create
strict_validate fields payload e w h strange =
    rejects (unknown_keys create_fields payload) e.0 (create_input fields payload) w
      (unknown-In create_fields payload e h strange)

-- A key in a create body that is no field of the endpoint is refused with an error that names it,
-- and nothing is looked up or written.
pub strict_create :
    (env : Env) (fields : Fields) (payload : Dict) (e : String × Json) (who : Principal) (w : World)
    → In e payload
    → any (λ f. str_eq f e.0) create_fields ≡ false
    → (handle_create env fields (dict payload) who w
        ≡ (err (invalid (unknown_fields (unknown_keys create_fields payload))), w))
      × In e.0 (unknown_keys create_fields payload)
unfolding handle_create
strict_create env fields payload e who w h strange =
    let refused = strict_validate fields payload e w h strange in
    (ground (arith, refused), unknown-In create_fields payload e h strange)

-- A body with a creation key and no transition key is handled by the dispatcher exactly as by the
-- collection endpoint.
pub dispatch-create :
    (env : Env) (fields : Fields) (payload : Dict) (who : Principal) (w : World)
    → IsCreate payload
    → dispatch env fields (dict payload) who w ≡ post_collection env fields (dict payload) who w
unfolding dispatch post_collection
dispatch-create env fields payload who w (creates, no_move) = rw (creates, no_move)

-- A valid transition body for a quote, with no creation key, is handled by the dispatcher exactly
-- as by the accept endpoint when its status is accepted, and otherwise as by the pay endpoint with
-- the same method.
pub dispatch-transition :
    (env : Env) (fields : Fields) (payload : Dict) (body : Body) (pk : ℕ) (who : Principal)
    (w : World) (v : TransitionInput)
    → IsTransition payload
    → validate_transition fields (dict payload) w ≡ (ok v, w)
    → v.quote_id ≡ pos pk
    → body_method env fields body ≡ v.payment_method
    → dispatch env fields (dict payload) who w ≡ (
        if str_eq v.status "accepted"
        then post_accept env fields pk who w
        else post_pay env fields pk body who w)
unfolding dispatch post_accept post_pay
dispatch-transition env fields payload body pk who w v (creates, moves) valid key method =
    rw (creates, moves) (ground (arith, valid, key, method))
