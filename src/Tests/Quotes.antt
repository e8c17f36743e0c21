-- ===== src/Tests/Quotes.antt =====
-- The lifecycle: one quote is asked for, accepted and paid.
use democrance_insurance_api.Prelude.{
  pos, ◌≡◌, ◌≤◌, refl, inl, some, none, true, [], ◌∷◌, map, length,
}
use democrance_insurance_api.Customers.{age_at}
use democrance_insurance_api.Products.{
  covers_age, is_effective_on, insert_rule, order_rules, active_rules,
}
use democrance_insurance_api.Products.Rating.{
  candidates, newest, select_rule, quantize, raw_premium, premium_by, calculate_premium,
}
use democrance_insurance_api.Prelude.{◌-ℤ◌, ◌*ℤ◌}
use democrance_insurance_api.Dates.{date_leb}
use democrance_insurance_api.Policies.StateMachine.{transitions, can_transition, IsDistinct, active}
use democrance_insurance_api.Policies.Rows.{Policy, is_expired, flag, text}
use democrance_insurance_api.Policies.Services.{
  create_transition, assert_can_transition, apply_transition, save_policy, create_policy,
  create_quote, accept_quote, activate_policy,
}
use democrance_insurance_api.Policies.History.{history, Recorded}
use democrance_insurance_api.Payments.Rows.{Payment, card, succeeded, parse_method}
use democrance_insurance_api.Payments.Services.{
  usable_key, same_request, create_payment, charge, simulate_payment,
}
use democrance_insurance_api.Lifecycle.Invariant.{IsOffered, Receipt, receipts_of, payments_by_key}
use democrance_insurance_api.Lifecycle.Reachable.{
  serve, after_call, served-history, served-charged_once, served-Receipt,
}
use democrance_insurance_api.Policies.Serializers.{dict}
use democrance_insurance_api.Policies.Views.{dispatch}
use democrance_insurance_api.Payments.Services.{found_by}
use democrance_insurance_api.Database.{World, ok}
use democrance_insurance_api.Lifecycle.Refinement.{Refines}
use democrance_insurance_api.Lifecycle.Settling.{Settles, simulate_payment-Settles}
use democrance_insurance_api.Lifecycle.Retry.{simulate_payment_retry}
use democrance_insurance_api.Lifecycle.Dispatch.{dispatch-Refines}
use democrance_insurance_api.Tests.World.{
  by_ben, by_nobody, start, accepted_world, fields, quote_body, user_of_ben, outside, ben, accident,
  young, old, purchase, purchased,
}

abbrev pub bound_policy : Policy
bound_policy = record {
  id = 1;
  quote_reference = "QT-2026-A";
  customer_id = 1;
  product_id = 1;
  premium = some (pos 16_000);
  cover = pos 20_000_000;
  currency = "AED";
  state = active;
  rating_rule = some 1;
  rated_age = some (pos 35);
  rated_at = some 1;
  quoted_at = some 1;
  accepted_at = some 9;
  activated_at = some 15;
  quote_expires_at = some 2_592_000_000_001;
  created_by = some 7;
  created_at = 3;
  updated_at = 16;
}

abbrev pub receipt : Payment
receipt = record {
  id = 1;
  reference = 12;
  policy_id = 1;
  amount = pos 16_000;
  currency = "AED";
  method = card;
  status = succeeded;
  idempotency_key = some "key-1";
  provider_payload = ("simulated", flag true) ∷ ("method", text "simulated_card") ∷ [];
  settled_at = some 11;
  created_at = 13;
}

pub purchased-policies :
    (purchased.policies ≡ bound_policy ∷ []) × (purchased.payments ≡ receipt ∷ [])
unfolding serve after_call create_quote accept_quote simulate_payment charge activate_policy
    create_payment usable_key same_request parse_method apply_transition create_transition
    assert_can_transition save_policy create_policy is_expired can_transition transitions
    calculate_premium premium_by raw_premium quantize select_rule newest candidates active_rules
    order_rules insert_rule covers_age is_effective_on age_at ◌-ℤ◌ ◌*ℤ◌ date_leb
purchased-policies = (refl, refl)

served-history_example :
    IsOffered active
    × Recorded (history 1 purchased) (some active)
    × IsDistinct (map (λ t. t.to_state) (history 1 purchased))
served-history_example =
    served-history outside purchase (ben ∷ []) (accident ∷ []) (young ∷ old ∷ []) bound_policy
      (rw purchased-policies.0 (inl refl))

served-charged_once_example :
    (length (receipts_of 1 purchased) ≤ 1) × (length (payments_by_key "key-1" purchased) ≤ 1)
served-charged_once_example =
    served-charged_once outside purchase (ben ∷ []) (accident ∷ []) (young ∷ old ∷ []) 1 "key-1"

served-Receipt_example : Receipt purchased receipt
served-Receipt_example =
    served-Receipt outside purchase (ben ∷ []) (accident ∷ []) (young ∷ old ∷ []) receipt
      (rw purchased-policies.1 (inl refl))

simulate_payment-Settles_example :
    Settles 1 "invoice"
      (some "key-1")
      accepted_world.db
      (simulate_payment outside 1 "invoice" (some "key-1") by_ben accepted_world)
simulate_payment-Settles_example =
    simulate_payment-Settles outside 1 "invoice" (some "key-1") by_ben accepted_world

paid :
    (simulate_payment outside 1 "simulated_card" (some "key-1") by_ben accepted_world).0
    ≡ ok receipt
unfolding create_quote accept_quote simulate_payment charge activate_policy create_payment
    usable_key same_request parse_method apply_transition create_transition assert_can_transition
    save_policy create_policy is_expired can_transition transitions calculate_premium premium_by
    raw_premium quantize select_rule newest candidates active_rules order_rules insert_rule
    covers_age is_effective_on age_at ◌-ℤ◌ ◌*ℤ◌ date_leb
paid = refl

key_usable : (usable_key (some "key-1") ≡ some "key-1") × (usable_key none ≡ none)
unfolding usable_key
key_usable = (refl, refl)

key_unused : found_by (usable_key (some "key-1")) accepted_world.db ≡ none
unfolding create_quote accept_quote simulate_payment charge activate_policy create_payment
    usable_key same_request parse_method apply_transition create_transition assert_can_transition
    save_policy create_policy is_expired can_transition transitions calculate_premium premium_by
    raw_premium quantize select_rule newest candidates active_rules order_rules insert_rule
    covers_age is_effective_on age_at ◌-ℤ◌ ◌*ℤ◌ date_leb
key_unused = refl

abbrev paid_world : World
paid_world = (simulate_payment outside 1 "simulated_card" (some "key-1") by_ben accepted_world).1

simulate_payment_retry_example :
    simulate_payment outside 1 "simulated_card" (some "key-1") by_nobody paid_world
    ≡ (ok receipt, paid_world)
simulate_payment_retry_example =
    simulate_payment_retry outside 1 "simulated_card" (some "key-1") by_ben by_nobody accepted_world
      receipt "key-1" key_usable.0 paid

dispatch-Refines_example :
    Refines start.db (dispatch outside fields (dict quote_body) (some user_of_ben) start)
dispatch-Refines_example =
    dispatch-Refines outside fields (dict quote_body) (some user_of_ben) start
