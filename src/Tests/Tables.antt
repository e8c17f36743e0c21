-- ===== src/Tests/Tables.antt =====
-- Deletions, the tables against their migrations, and the logins that are made.
use democrance_insurance_api.Prelude.{
  ◌<◌, ap, ℕ, ◌≡◌, refl, inl, inr, Bool, true, String, [], ◌∷◌, In, any, arith, ◌==◌, if◌then◌else◌,
}
use democrance_insurance_api.Accounts.{User, Role}
use democrance_insurance_api.Customers.{Customer}
use democrance_insurance_api.Payments.Rows.{Payment}
use democrance_insurance_api.Policies.AdminDelete.{delete_on_admin, has_protected, lacks_permission}
use democrance_insurance_api.Products.{ProductType, RatingRule}
use democrance_insurance_api.Products.Seed.{Catalogue, seed}
use democrance_insurance_api.Products.Unseed.{unseed, unseed-seed}
use democrance_insurance_api.Customers.{age_at}
use democrance_insurance_api.Products.{
  covers_age, is_effective_on, insert_rule, order_rules, active_rules,
}
use democrance_insurance_api.Products.Rating.{
  candidates, newest, select_rule, quantize, raw_premium, premium_by, calculate_premium,
}
use democrance_insurance_api.Prelude.{◌-ℤ◌, ◌*ℤ◌}
use democrance_insurance_api.Dates.{date_leb}
use democrance_insurance_api.Policies.StateMachine.{transitions, can_transition}
use democrance_insurance_api.Policies.Rows.{is_expired}
use democrance_insurance_api.Policies.Services.{
  create_transition, assert_can_transition, apply_transition, save_policy, create_policy,
  create_quote, accept_quote, activate_policy,
}
use democrance_insurance_api.Payments.Rows.{parse_method}
use democrance_insurance_api.Payments.Services.{
  usable_key, same_request, create_payment, charge, simulate_payment,
}
use democrance_insurance_api.Lifecycle.Reachable.{serve, after_call}
use democrance_insurance_api.Policies.Rows.{Policy, PolicyStateTransition}
use democrance_insurance_api.Database.Answers.{All-In}
use democrance_insurance_api.Prelude.{All}
use democrance_insurance_api.Database.{Db}
use democrance_insurance_api.Database.Deleting.{Model, remaining, delete, delete_users, deleted}
use democrance_insurance_api.Database.Links.{IsLinked, is_login, has, has?}
use democrance_insurance_api.Lifecycle.Invariant.{IsSound}
use democrance_insurance_api.Lifecycle.Deleting.{delete-IsSound, served-undeletable}
use democrance_insurance_api.Lifecycle.Reachable.{served-IsSound}
use democrance_insurance_api.Tests.World.{outside, ben, accident, young, old, purchase, purchased}
use democrance_insurance_api.Tests.Quotes.{bound_policy, purchased-policies}

abbrev first_row : ℕ → Bool
first_row id = id == 1

-- Ben's login, which is deleted after the purchase.
abbrev login_of_ben : ℕ → Bool
login_of_ben id = id == 7

abbrev forgotten : Db
forgotten = delete_users login_of_ben purchased

login_deleted : delete Model.users login_of_ben purchased ≡ deleted forgotten
unfolding delete
login_deleted = refl

purchased_actors :
    All
      (λ (t : PolicyStateTransition).
        (is_login login_of_ben t.actor ≡ true)
        × (has (λ (p : Policy). p.id) purchased.policies t.policy_id ≡ true))
      purchased.transitions
unfolding serve after_call create_quote accept_quote simulate_payment charge activate_policy
    create_payment usable_key same_request parse_method apply_transition create_transition
    assert_can_transition save_policy create_policy is_expired can_transition transitions
    calculate_premium premium_by raw_premium quantize select_rule newest candidates active_rules
    order_rules insert_rule covers_age is_effective_on age_at ◌-ℤ◌ ◌*ℤ◌ date_leb
purchased_actors = ground arith

purchased_policies :
    All
      (λ (p : Policy).
        (is_login login_of_ben p.created_by ≡ true)
        × (has (λ (c : Customer). c.id) purchased.customers p.customer_id ≡ true)
        × (has (λ (r : ProductType). r.id) purchased.products p.product_id ≡ true)
        × (has? (λ (r : RatingRule). r.id) purchased.rules p.rating_rule ≡ true))
      purchased.policies
unfolding serve after_call create_quote accept_quote simulate_payment charge activate_policy
    create_payment usable_key same_request parse_method apply_transition create_transition
    assert_can_transition save_policy create_policy is_expired can_transition transitions
    calculate_premium premium_by raw_premium quantize select_rule newest candidates active_rules
    order_rules insert_rule covers_age is_effective_on age_at ◌-ℤ◌ ◌*ℤ◌ date_leb
purchased_policies = ground arith

purchased_others :
    All
      (λ (r : RatingRule). has (λ (q : ProductType). q.id) purchased.products r.product_id ≡ true)
      purchased.rules
    × All (λ (c : Customer). is_login login_of_ben c.user ≡ true) purchased.customers
    × All
        (λ (payment : Payment).
          has (λ (p : Policy). p.id) purchased.policies payment.policy_id ≡ true)
        purchased.payments
unfolding serve after_call create_quote accept_quote simulate_payment charge activate_policy
    create_payment usable_key same_request parse_method apply_transition create_transition
    assert_can_transition save_policy create_policy is_expired can_transition transitions
    calculate_premium premium_by raw_premium quantize select_rule newest candidates active_rules
    order_rules insert_rule covers_age is_effective_on age_at ◌-ℤ◌ ◌*ℤ◌ date_leb
purchased_others = ground arith

purchased-IsLinked : IsLinked login_of_ben purchased
purchased-IsLinked = record {
  profiles = λ c m. All-In _ c purchased.customers purchased_others.1 m;
  authors = λ p m. (All-In _ p purchased.policies purchased_policies m).0;
  actors = λ t m. (All-In _ t purchased.transitions purchased_actors m).0;
  owners = λ p m. (All-In _ p purchased.policies purchased_policies m).1;
  covers = λ p m. (All-In _ p purchased.policies purchased_policies m).2;
  prices = λ p m. (All-In _ p purchased.policies purchased_policies m).3;
  bands = λ r m. All-In _ r purchased.rules purchased_others.0 m;
  told = λ t m. (All-In _ t purchased.transitions purchased_actors m).1;
  paid = λ payment m. All-In _ payment purchased.payments purchased_others.2 m;
}

delete-IsSound_example :
    IsSound forgotten
    × IsLinked (remaining Model.users login_of_ben login_of_ben) forgotten
    × (forgotten.payments ≡ purchased.payments)
delete-IsSound_example =
    delete-IsSound Model.users login_of_ben login_of_ben purchased forgotten
      (served-IsSound outside purchase (ben ∷ []) (accident ∷ []) (young ∷ old ∷ []))
      purchased-IsLinked login_deleted

served-undeletable_example : delete_on_admin first_row purchased ≡ (
    if any (λ (payment : Payment). first_row payment.policy_id) purchased.payments
    then has_protected
    else lacks_permission)
served-undeletable_example =
    served-undeletable outside purchase (ben ∷ []) (accident ∷ []) (young ∷ old ∷ []) first_row
      bound_policy (rw purchased-policies.0 (inl refl)) refl

abbrev anything : String → String → Bool
anything a b = true

abbrev root : User
root = record {
  id = 9;
  email = "root@example.com";
  role = Role.staff;
  first_name = "";
  last_name = "";
  is_active = true;
  is_staff = true;
  is_superuser = true;
}

-- A catalogue with one of the products of the migration and one of its own.
abbrev pets : ProductType
pets = record accident { id = 2; code = "pets" }

abbrev shelf : Catalogue
shelf = record {
  products = accident ∷ pets ∷ [];
  rules = young ∷ record old { product_id = 2 } ∷ [];
  next_product = 3;
  next_rule = 3;
}

shelf_linked : (r : RatingRule) → In r shelf.rules → r.product_id < shelf.next_product
shelf_linked r (inl e) = let same = ap (λ (z : RatingRule). z.product_id) e in omega arith
shelf_linked r (inr (inl e)) = let same = ap (λ (z : RatingRule). z.product_id) e in omega arith
shelf_linked r (inr (inr end)) = absurd end

unseed-seed_example :
    ((unseed (seed "AED" shelf)).products ≡ (unseed shelf).products)
    × ((unseed (seed "AED" shelf)).rules ≡ (unseed shelf).rules)
unseed-seed_example = unseed-seed "AED" shelf shelf_linked

kept_shelf : (unseed shelf).products ≡ pets ∷ []
unfolding unseed
kept_shelf = refl
