-- ===== src/Policies/Services.antt =====
-- apps/policies/services.py: the only code that writes `Policy.state`. The log lines are left out.
use democrance_insurance_api.Prelude.{
  ℕ, ◌+◌, ◌*◌, ℤ, pos_part, neg_part, Bool, not, Option, none, some, String, [], ◌∷◌, any, leb,
  str_eq,
}
use democrance_insurance_api.Dates.{Date}
use democrance_insurance_api.Customers.{Customer, age_at}
use democrance_insurance_api.Products.{ProductType, RatingRule}
use democrance_insurance_api.Products.Rating.{
  Rated, premium_of, rating_error, calculate_premium, select_rule,
}
use democrance_insurance_api.Policies.StateMachine.{
  State, new, quoted, accepted, active, can_transition,
}
use democrance_insurance_api.Policies.Rows.{Policy, Source, Metadata, money, is_expired}
use democrance_insurance_api.Common.Errors.{
  rating, invalid_transition, quote_expired, integrity_error, decimal_overflow,
}
use democrance_insurance_api.Database.{
  Env, Action, ◌>>=◌, ◌>>◌, pure, raise, gets, atomic, raise_if, modify, ask, lock_policy,
  set_policy, insert_policy, insert_transition,
}

-- Who acts, from where: the keyword arguments `actor` and `source`.
pub record By : Type 0 where
  pub actor : Option ℕ
  pub source : Source

-- `PolicyStateTransition.objects.create(…)`
unfoldable pub create_transition :
    Env → By → ℕ → Option State → State → String → Metadata → Action (Unit {0})
create_transition env by policy_id from to reason metadata = do
  created ← ask env.now
  id ← gets (λ db. db.next_transition)
  modify (
      insert_transition (record {
        id = id;
        policy_id = policy_id;
        from_state = from;
        to_state = to;
        actor = by.actor;
        source = by.source;
        reason = reason;
        metadata = metadata;
        created_at = created;
      }))

-- `assert_can_transition`
unfoldable pub assert_can_transition : Option State → State → Action (Unit {0})
assert_can_transition from to = raise_if (not (can_transition from to)) (invalid_transition from to)

-- `_apply_transition`: the policy in memory comes back with its new state.
unfoldable pub apply_transition : Env → By → Policy → State → String → Metadata → Action Policy
unfolding create_transition assert_can_transition
apply_transition env by policy to reason metadata = do
  assert_can_transition (some policy.state) to
  create_transition env by policy.id (some policy.state) to reason metadata
  pure (record policy { state = to })

-- `policy.save(update_fields=…)`: the named columns, and `updated_at` from the clock.
unfoldable pub save_policy : Env → ℕ → (Policy → Policy) → Action (Unit {0})
save_policy env id write = do
  stamp ← ask env.now
  modify (set_policy id (λ row. record (write row) { updated_at = stamp }))

-- `calculate_premium` as a call that may raise.
abbrev pub premium_or_raise : Rated → Action ℤ
premium_or_raise (premium_of p) = pure p
premium_or_raise (rating_error e) = raise (rating e)

-- `max_digits=10, decimal_places=2` of `Policy.premium`
abbrev pub fits_premium : ℤ → Bool
fits_premium p = leb (pos_part p + neg_part p) 9_999_999_999

abbrev pub microseconds_per_day : ℕ
microseconds_per_day = 86_400_000_000

abbrev pub rule_id : Option RatingRule → Option ℕ
rule_id none = none
rule_id (some rule) = some rule.id

-- The row that `Policy.objects.create` is called with.
abbrev pub new_policy :
    By → Customer → ProductType → ℤ → ℤ → Option RatingRule → ℤ → ℕ → String → ℕ → ℕ → Policy
new_policy by customer product cover premium rule age now reference created id = record {
  id = id;
  quote_reference = reference;
  customer_id = customer.id;
  product_id = product.id;
  premium = some premium;
  cover = cover;
  currency = product.currency;
  state = new;
  rating_rule = rule_id rule;
  rated_age = some age;
  rated_at = some now;
  quoted_at = none;
  accepted_at = none;
  activated_at = none;
  quote_expires_at = none;
  created_by = by.actor;
  created_at = created;
  updated_at = created;
}

-- `INSERT` with the unique column `quote_reference` and the digits of `premium`.
unfoldable pub create_policy : ℤ → Policy → Action Policy
create_policy premium policy = do
  raise_if (not (fits_premium premium)) decimal_overflow
  taken ← gets (λ db. any (λ p. str_eq p.quote_reference policy.quote_reference) db.policies)
  raise_if taken integrity_error
  modify (insert_policy policy)
  pure policy

abbrev pub or_default {ℓ} : {A : Type ℓ} → A → Option A → A
or_default d none = d
or_default d (some a) = a

-- The row once it is quoted, as `policy.save` writes it.
abbrev pub quote_columns : ℕ → ℕ → Policy → Policy
quote_columns now days row = record row {
  state = quoted;
  quoted_at = some now;
  quote_expires_at = some (now + days * microseconds_per_day);
}

-- `create_quote`; `as_of` and `cover` may be left out by the caller.
unfoldable pub create_quote :
    Env → Customer → ProductType → Option ℤ → By → Option Date → Action Policy
unfolding create_policy create_transition apply_transition save_policy
create_quote env customer product cover by as_of = atomic do
  today ← ask (λ k. env.localdate (env.now k))
  let date = or_default today as_of
  let sum = or_default product.default_cover cover
  let age = age_at customer.dob date
  rules ← gets (λ db. db.rules)
  premium ← premium_or_raise (calculate_premium product rules age sum date)
  let rule = select_rule product rules age date
  now ← ask env.now
  reference ← ask (λ k. env.quote_text (env.now k) (env.uuid k))
  created ← ask env.now
  id ← gets (λ db. db.next_policy)
  policy ←
      create_policy premium
        (new_policy by customer product sum premium rule age now reference created id)
  create_transition env by policy.id none new "quote created" (("premium", money premium) ∷ [])
  moved ← apply_transition env by policy quoted "quote priced" (("premium", money premium) ∷ [])
  save_policy env moved.id (quote_columns now env.quote_validity_days)
  pure (quote_columns now env.quote_validity_days moved)

-- `accept_quote`
unfoldable pub accept_quote : Env → ℕ → By → Action Policy
unfolding apply_transition save_policy
accept_quote env id by = atomic do
  policy ← lock_policy id
  late ← ask (λ k. is_expired (env.now k) policy)
  raise_if late quote_expired
  moved ← apply_transition env by policy accepted "quote accepted" []
  now ← ask env.now
  save_policy env id (λ row. record row { state = accepted; accepted_at = some now })
  pure (record moved { accepted_at = some now })

-- `activate_policy`
unfoldable pub activate_policy : Env → ℕ → By → Metadata → Action Policy
unfolding apply_transition save_policy
activate_policy env id by metadata = atomic do
  policy ← lock_policy id
  moved ← apply_transition env by policy active "policy activated" metadata
  now ← ask env.now
  save_policy env id (λ row. record row { state = active; activated_at = some now })
  pure (record moved { activated_at = some now })
