-- ===== src/Policies/Quoting.antt =====
-- The branches of `create_quote` of apps/policies/services.py, as equations on the result.
use democrance_insurance_api.Prelude.{
  suc, ◌+◌, ◌≡◌, ℤ, any, str_eq, Bool, true, false, Option, none, [], ◌∷◌, arith,
}
use democrance_insurance_api.Dates.{Date}
use democrance_insurance_api.Customers.{Customer, age_at}
use democrance_insurance_api.Products.{ProductType}
use democrance_insurance_api.Products.Rating.{
  RatingError, premium_of, rating_error, calculate_premium, select_rule,
}
use democrance_insurance_api.Policies.StateMachine.{new, quoted, can_transition}
use democrance_insurance_api.Policies.Rows.{Policy, PolicyStateTransition, money}
use democrance_insurance_api.Policies.Services.{
  By, or_default, fits_premium, new_policy, quote_columns, create_quote,
}
use democrance_insurance_api.Policies.Branches.{move_row}
use democrance_insurance_api.Common.Errors.{rating, integrity_error, decimal_overflow}
use democrance_insurance_api.Database.{
  Env, World, ok, err, set_policy, insert_transition, insert_policy,
}

module _ (env : Env) (customer : Customer) (product : ProductType) (cover : Option ℤ) (by : By)
    (as_of : Option Date) (w : World) where
  -- The date, the cover and the age that the quote is rated with.
  abbrev pub rated_on : Date
  rated_on = or_default (env.localdate (env.now w.asked)) as_of

  abbrev pub sum_insured : ℤ
  sum_insured = or_default product.default_cover cover

  abbrev pub age_rated : ℤ
  age_rated = age_at customer.dob rated_on

  -- The row that the quote inserts, for the premium `p`.
  abbrev pub quoted_row : ℤ → Policy
  quoted_row p =
      new_policy by customer product sum_insured p
        (select_rule product w.db.rules age_rated rated_on) age_rated (env.now (w.asked + 1))
        (env.quote_text (env.now (w.asked + 2)) (env.uuid (w.asked + 2))) (env.now (w.asked + 3))
        w.db.next_policy

  -- Its genesis row.
  abbrev pub genesis_row : ℤ → PolicyStateTransition
  genesis_row p = record {
    id = w.db.next_transition;
    policy_id = w.db.next_policy;
    from_state = none;
    to_state = new;
    actor = by.actor;
    source = by.source;
    reason = "quote created";
    metadata = ("premium", money p) ∷ [];
    created_at = env.now (w.asked + 4);
  }

  abbrev pub is_taken : ℤ → Bool
  is_taken p = any (λ q. str_eq q.quote_reference (quoted_row p).quote_reference) w.db.policies

  pub create_quote-unrated :
      (e : RatingError)
      → calculate_premium product w.db.rules age_rated sum_insured rated_on ≡ rating_error e
      → create_quote env customer product cover by as_of w
        ≡ (err (rating e), record w { asked = w.asked + 1 })
  unfolding create_quote
  create_quote-unrated e h = ground arith

  pub create_quote-too_large :
      (p : ℤ)
      → calculate_premium product w.db.rules age_rated sum_insured rated_on ≡ premium_of p
      → fits_premium p ≡ false
      → create_quote env customer product cover by as_of w
        ≡ (err decimal_overflow, record w { asked = w.asked + 4 })
  unfolding create_quote
  create_quote-too_large p h wide = ground arith

  pub create_quote-collides :
      (p : ℤ)
      → calculate_premium product w.db.rules age_rated sum_insured rated_on ≡ premium_of p
      → fits_premium p ≡ true
      → is_taken p ≡ true
      → create_quote env customer product cover by as_of w
        ≡ (err integrity_error, record w { asked = w.asked + 4 })
  unfolding create_quote
  create_quote-collides p h fits taken =
      let two : suc (suc w.asked) ≡ w.asked + 2 = omega arith in ground arith

  -- The columns that the second save writes.
  abbrev pub quote_write : Policy → Policy
  quote_write row = record (quote_columns (env.now (w.asked + 1)) env.quote_validity_days row) {
    updated_at = env.now (w.asked + 6);
  }

  pub create_quote-quotes :
      (p : ℤ)
      → calculate_premium product w.db.rules age_rated sum_insured rated_on ≡ premium_of p
      → fits_premium p ≡ true
      → is_taken p ≡ false
      → create_quote env customer product cover by as_of w ≡ (
        ok (quote_columns (env.now (w.asked + 1)) env.quote_validity_days (quoted_row p)),
        record {
          db = set_policy w.db.next_policy quote_write (
              insert_transition
                (move_row env by
                  (quoted_row p)
                  quoted
                  "quote priced"
                  (("premium", money p) ∷ [])
                  (suc w.db.next_transition)
                  (w.asked + 5))
                (insert_transition (genesis_row p) (insert_policy (quoted_row p) w.db)));
          asked = w.asked + 7;
        },
      )
  unfolding create_quote can_transition
  create_quote-quotes p h fits free =
      let one : suc w.asked ≡ w.asked + 1 = omega arith in
      let two : suc (suc w.asked) ≡ w.asked + 2 = omega arith in
      let three : suc (suc (suc w.asked)) ≡ w.asked + 3 = omega arith in
      let four : suc (suc (suc (suc w.asked))) ≡ w.asked + 4 = omega arith in
      let five : suc (suc (suc (suc (suc w.asked)))) ≡ w.asked + 5 = omega arith in
      let six : suc (suc (suc (suc (suc (suc w.asked))))) ≡ w.asked + 6 = omega arith in
      ground arith
