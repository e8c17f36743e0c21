-- ===== src/Tests/Kept.antt =====
-- What other calls leave alone, and the order of the list of policies.
use democrance_insurance_api.Prelude.{
  ◌⊎◌, In, pos, ◌≡◌, refl, Bool, true, false, none, some, String, List, [], ◌∷◌, ◌-ℤ◌, ◌*ℤ◌,
}
use democrance_insurance_api.Dates.{date_leb}
use democrance_insurance_api.Customers.{age_at}
use democrance_insurance_api.Products.{
  covers_age, is_effective_on, insert_rule, order_rules, active_rules,
}
use democrance_insurance_api.Products.Rating.{
  candidates, newest, select_rule, quantize, raw_premium, premium_by, calculate_premium,
}
use democrance_insurance_api.Accounts.{scope_policies, is_agent_or_staff}
use democrance_insurance_api.Policies.Rows.{Policy, is_expired}
use democrance_insurance_api.Policies.StateMachine.{quoted, accepted, can_transition, transitions}
use democrance_insurance_api.Policies.Services.{
  accept_quote, create_quote, apply_transition, create_transition, assert_can_transition,
  save_policy, create_policy,
}
use democrance_insurance_api.Policies.Views.{get_policy}
use democrance_insurance_api.Policies.Read.{listed_before, order_listed}
use democrance_insurance_api.Policies.Listing.{
  Column, list_order, column_of, allowed_terms, terms_leb,
}
use democrance_insurance_api.Policies.Paging.{listed, tied_pages}
use democrance_insurance_api.Policies.History.{history, IsAudited}
use democrance_insurance_api.Policies.AdminForm.{save_form, edit_policy}
use democrance_insurance_api.Lifecycle.Edited.{edit_policy-IsSound, edit_policy-stale}
use democrance_insurance_api.Search.{PolicyFilter, filter_policies, take, drop}
use democrance_insurance_api.Database.{policy_by_id, ok, World}
use democrance_insurance_api.Payments.Services.{found_by, usable_key, simulate_payment}
use democrance_insurance_api.Payments.Racing.{pay_with}
use democrance_insurance_api.Lifecycle.Racing.{IsRaced, pay_with-IsRaced}
use democrance_insurance_api.Database.Answers.{Answer, pick, empty, here}
use democrance_insurance_api.Lifecycle.Invariant.{IsSound}
use democrance_insurance_api.Lifecycle.Kept.{IsKept}
use democrance_insurance_api.Lifecycle.Between.{IsStill, serve-IsKept, seen-IsStill}
use democrance_insurance_api.Lifecycle.Keys.{served-listed}
use democrance_insurance_api.Lifecycle.Reachable.{
  Call, accept_call, pay_call, quote_call, serve, after_call, serve-IsSound, untouched-IsSound,
}
use democrance_insurance_api.Tests.World.{
  accepted_world, outside, ben, accident, young, old, start, purchase, purchased, quoted_world,
  by_ben, user_of_ben,
}
use democrance_insurance_api.Tests.Quotes.{bound_policy, purchased-policies}
use democrance_insurance_api.Tests.Requests.{quoted_policy, only_quote}

quoted-IsSound : IsSound quoted_world.db
unfolding serve after_call
quoted-IsSound =
    serve-IsSound outside (quote_call ben accident none by_ben none ∷ []) start
      (untouched-IsSound (ben ∷ []) (accident ∷ []) (young ∷ old ∷ []))

abbrev others : List Call
others = accept_call 1 by_ben ∷ pay_call 1 "invoice" none by_ben ∷ []

serve-IsKept_example : IsKept quoted_world.db (serve outside others quoted_world).db
serve-IsKept_example = serve-IsKept outside others quoted_world quoted-IsSound

ben_sees : (get_policy (pos 1) (some user_of_ben) quoted_world).0 ≡ ok quoted_policy
unfolding create_quote apply_transition create_transition assert_can_transition save_policy
    create_policy can_transition transitions calculate_premium premium_by raw_premium quantize
    select_rule newest candidates active_rules order_rules insert_rule covers_age is_effective_on
    age_at ◌-ℤ◌ ◌*ℤ◌ date_leb get_policy scope_policies is_agent_or_staff
ben_sees = refl

seen-IsStill_example : IsStill outside others (some user_of_ben) quoted_world quoted_policy
seen-IsStill_example =
    seen-IsStill outside others (pos 1) (some user_of_ben) quoted_world quoted_policy quoted-IsSound
      ben_sees

abbrev no_filter : PolicyFilter
no_filter = record {
  customer_id = none;
  product = none;
  state = none;
  created_after = none;
  created_before = none;
  text = none;
}

abbrev anything : String → String → Bool
anything a b = true

one_answer : Answer listed_before (listed anything no_filter purchased none) (bound_policy ∷ [])
unfolding filter_policies scope_policies
one_answer = rw purchased-policies.0 (pick here tt empty)

served-listed_example : bound_policy ∷ [] ≡ order_listed (listed anything no_filter purchased none)
served-listed_example =
    served-listed outside purchase (ben ∷ []) (accident ∷ []) (young ∷ old ∷ []) anything no_filter
      none (bound_policy ∷ []) one_answer

abbrev second_policy : Policy
second_policy = record quoted_policy { id = 2; quote_reference = "QT-2026-B" }

abbrev by_state : List (Bool × String)
by_state = (false, "state") ∷ []

state_terms : allowed_terms by_state ≡ (false, Column.state) ∷ []
unfolding allowed_terms column_of
state_terms = refl

two_answer :
    Answer
      (list_order true by_state)
      (quoted_policy ∷ second_policy ∷ [])
      (quoted_policy ∷ second_policy ∷ [])
unfolding allowed_terms column_of terms_leb
two_answer = pick here (refl, tt) (pick here tt empty)

tied_pages_example :
    (other : List Policy) × Answer
      (list_order true by_state)
      (quoted_policy ∷ second_policy ∷ [])
      other
    × (take 1 (quoted_policy ∷ second_policy ∷ []) ≡ quoted_policy ∷ [])
    × (drop 1 other ≡ quoted_policy ∷ [])
tied_pages_example =
    tied_pages true by_state (false, Column.state) [] (quoted_policy ∷ second_policy ∷ []) []
      quoted_policy second_policy [] state_terms (refl, tt) two_answer

abbrev raced : World
raced = record { db = purchased; asked = 40 }

edit_policy-IsSound_example :
    IsSound (edit_policy outside 1 second_policy quoted_policy quoted_world).1.db
edit_policy-IsSound_example =
    edit_policy-IsSound outside 1 second_policy quoted_policy quoted_world quoted-IsSound
      (λ x m e. only_quote x m)

accepted-IsSound : IsSound accepted_world.db
unfolding serve after_call
accepted-IsSound = serve-IsSound outside (accept_call 1 by_ben ∷ []) quoted_world quoted-IsSound

abbrev accepted_policy : Policy
accepted_policy = record quoted_policy { state = accepted; accepted_at = some 9; updated_at = 10 }

now_accepted : policy_by_id 1 accepted_world.db ≡ some accepted_policy
unfolding create_quote apply_transition create_transition assert_can_transition save_policy
    create_policy can_transition transitions calculate_premium premium_by raw_premium quantize
    select_rule newest candidates active_rules order_rules insert_rule covers_age is_effective_on
    age_at ◌-ℤ◌ ◌*ℤ◌ date_leb accept_quote is_expired
now_accepted = refl

-- The form was opened on the quote, and the quote was accepted before it was sent.
edit_policy-stale_example :
    In
      (save_form (outside.now accepted_world.asked) quoted_policy quoted_policy)
      (edit_policy outside 1 quoted_policy quoted_policy accepted_world).1.db.policies
    × ((save_form (outside.now accepted_world.asked) quoted_policy quoted_policy).state ≡ quoted)
    × (history 1 (edit_policy outside 1 quoted_policy quoted_policy accepted_world).1.db
        ≡ history 1 accepted_world.db)
    × (¬ IsAudited (edit_policy outside 1 quoted_policy quoted_policy accepted_world).1.db)
edit_policy-stale_example =
    edit_policy-stale outside 1 quoted_policy quoted_policy accepted_policy accepted_world
      accepted-IsSound now_accepted refl (λ e. cc)

-- Two accepted quotes; the payment of the first, under the same key, comes between the lookup and
-- the insert of the payment of the second.
abbrev two_quotes : List Call
two_quotes =
    quote_call ben accident none by_ben none
    ∷ accept_call 1 by_ben
    ∷ quote_call ben accident none by_ben none
    ∷ accept_call 2 by_ben
    ∷ []

abbrev both_accepted : World
both_accepted = serve outside two_quotes start

abbrev paid_between : List Call
paid_between = pay_call 1 "invoice" (some "key-1") by_ben ∷ []

pay_with-IsRaced_example :
    (pay_with outside 2 "invoice"
        (some "key-1")
        by_ben
        (found_by (usable_key (some "key-1")) both_accepted.db)
        (serve outside paid_between both_accepted)
      ≡ simulate_payment outside 2 "invoice"
          (some "key-1")
          by_ben
          (serve outside paid_between both_accepted))
    ⊎ IsRaced outside 2 "invoice"
        (some "key-1")
        by_ben
        both_accepted
        (serve outside paid_between both_accepted)
pay_with-IsRaced_example =
    pay_with-IsRaced outside paid_between 2 "invoice" (some "key-1") by_ben both_accepted (
      serve-IsSound outside two_quotes start
        (untouched-IsSound (ben ∷ []) (accident ∷ []) (young ∷ old ∷ [])))
