-- ===== src/Tests/Requests.antt =====
-- Requests, and who may see what.
use democrance_insurance_api.Prelude.{
  pos, ◌-ℤ◌, ◌*ℤ◌, ◌≡◌, inl, inr, refl, ap, true, none, some, [], ◌∷◌, In,
}
use mathlib.Core.Path.{subst}
use democrance_insurance_api.Dates.{date_leb}
use democrance_insurance_api.Customers.{age_at}
use democrance_insurance_api.Products.{
  covers_age, is_effective_on, insert_rule, order_rules, active_rules,
}
use democrance_insurance_api.Products.Rating.{
  candidates, newest, select_rule, quantize, raw_premium, premium_by, calculate_premium,
}
use democrance_insurance_api.Accounts.{is_customer}
use democrance_insurance_api.Accounts.Scoping.{MaySee}
use democrance_insurance_api.Policies.StateMachine.{quoted, transitions, can_transition}
use democrance_insurance_api.Policies.Rows.{Policy}
use democrance_insurance_api.Policies.Services.{
  create_transition, assert_can_transition, apply_transition, save_policy, create_policy,
  create_quote,
}
use democrance_insurance_api.Policies.Views.{handle_accept, handle_pay}
use democrance_insurance_api.Policies.Timeline.{get_history}
use democrance_insurance_api.Policies.Access.{login_of, hidden_quote}
use democrance_insurance_api.Common.Errors.{missing, quote_id}
use democrance_insurance_api.Database.{err}
use democrance_insurance_api.Tests.World.{outside, fields, ben, quoted_world, stranger}

abbrev pub quoted_policy : Policy
quoted_policy = record {
  id = 1;
  quote_reference = "QT-2026-A";
  customer_id = 1;
  product_id = 1;
  premium = some (pos 16_000);
  cover = pos 20_000_000;
  currency = "AED";
  state = quoted;
  rating_rule = some 1;
  rated_age = some (pos 35);
  rated_at = some 1;
  quoted_at = some 1;
  accepted_at = none;
  activated_at = none;
  quote_expires_at = some 2_592_000_000_001;
  created_by = some 7;
  created_at = 3;
  updated_at = 6;
}

quoted-policies : quoted_world.db.policies ≡ quoted_policy ∷ []
unfolding create_quote apply_transition create_transition assert_can_transition save_policy
    create_policy can_transition transitions calculate_premium premium_by raw_premium quantize
    select_rule newest candidates active_rules order_rules insert_rule covers_age is_effective_on
    age_at ◌-ℤ◌ ◌*ℤ◌ date_leb
quoted-policies = refl

quoted-customers : quoted_world.db.customers ≡ ben ∷ []
unfolding create_quote apply_transition create_transition assert_can_transition save_policy
    create_policy can_transition transitions calculate_premium premium_by raw_premium quantize
    select_rule newest candidates active_rules order_rules insert_rule covers_age is_effective_on
    age_at ◌-ℤ◌ ◌*ℤ◌ date_leb
quoted-customers = refl

stranger_customer : is_customer stranger ≡ true
unfolding is_customer
stranger_customer = refl

bens_quote : login_of quoted_world.db quoted_policy ≡ some 7
bens_quote = rw quoted-customers refl

pub only_quote : (p : Policy) → In p quoted_world.db.policies → p ≡ quoted_policy
only_quote p h = elim (subst (In p) quoted-policies h) [
  | inl e ↦ e
  | inr none_left ↦ absurd none_left
]

-- The one policy belongs to Ben, and the stranger is a customer.
hidden :
    (p : Policy)
    → In p quoted_world.db.policies
    → pos p.id ≡ pos 1
    → ¬ MaySee (some stranger) (login_of quoted_world.db p)
hidden p h e (inl privileged) = cc (stranger_customer, privileged)
hidden p h e (inr owner) =
    let same = ap (λ (q : Policy). login_of quoted_world.db q) (only_quote p h) in
    cc (same, owner, bens_quote)

hidden_quote_example :
    (handle_accept outside fields (pos 1) (some stranger) quoted_world
      ≡ (err (missing (quote_id (pos 1))), quoted_world))
    × (handle_pay outside fields (pos 1) none (some stranger) quoted_world
        ≡ (err (missing (quote_id (pos 1))), quoted_world))
    × (get_history [] 1 (some stranger) quoted_world
        ≡ (err (missing (quote_id (pos 1))), quoted_world))
hidden_quote_example = hidden_quote outside fields [] 1 none (some stranger) quoted_world hidden
