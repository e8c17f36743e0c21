-- ===== src/Lifecycle/Purchase.antt =====
-- The whole way of a quote through apps/policies/services.py and apps/payments/services.py: asked
-- for, accepted before it expires, and paid.
use democrance_insurance_api.Prelude.{
  suc, [], ◌∷◌, ◌+◌, ◌*◌, ◌≤◌, ◌≡◌, refl, ap, ◌∙◌, ℤ, any, true, false, Option, none, some, String,
  find-update, arith, ◌==◌,
}
use democrance_insurance_api.Dates.{Date}
use democrance_insurance_api.Customers.{Customer}
use democrance_insurance_api.Products.{ProductType}
use democrance_insurance_api.Products.Rating.{premium_of, calculate_premium}
use democrance_insurance_api.Policies.StateMachine.{quoted, accepted, active, can_transition}
use democrance_insurance_api.Policies.Rows.{Policy, money, is_expired}
use democrance_insurance_api.Policies.Services.{
  By, fits_premium, microseconds_per_day, quote_columns, create_quote, accept_quote,
}
use democrance_insurance_api.Policies.Branches
use democrance_insurance_api.Policies.Quoting
use democrance_insurance_api.Payments.Rows.{Method, Payment, parse_method}
use democrance_insurance_api.Payments.Services.{usable_key, found_by, simulate_payment}
use democrance_insurance_api.Payments.Charging
use democrance_insurance_api.Lifecycle.Retry.{charged, charged-found, bound_row}
use democrance_insurance_api.Database.{
  Env, World, Result, ok, policy_by_id, set_policy, insert_transition, insert_policy,
}

-- The three calls, one after the other.
module _ (env : Env) (customer : Customer) (product : ProductType) (cover : Option ℤ)
    (as_of : Option Date) (value : String) (key : Option String) (by : By) (w : World) where
  abbrev pub after_quote : World
  after_quote = (create_quote env customer product cover by as_of w).1

  abbrev pub after_accept : World
  after_accept = (accept_quote env w.db.next_policy by after_quote).1

  abbrev pub payment_run : Result Payment × World
  payment_run = simulate_payment env w.db.next_policy value key by after_accept

  -- What the three calls need: a price that fits its column, a fresh reference, an acceptance in
  -- time, a supported method, a key that is not in use and a fresh UUID. The numbers count the
  -- questions to the outside.
  pub record CanBuy (p : ℤ) (m : Method) : Type 0 where
    pub priced :
        calculate_premium product w.db.rules
          (Quoting.age_rated env customer product cover by as_of w)
          (Quoting.sum_insured env customer product cover by as_of w)
          (Quoting.rated_on env customer product cover by as_of w)
        ≡ premium_of p
    pub fits : fits_premium p ≡ true
    pub reference_free : Quoting.is_taken env customer product cover by as_of w p ≡ false
    pub in_time :
        env.now (w.asked + 7)
        ≤ env.now (w.asked + 1) + env.quote_validity_days * microseconds_per_day
    pub method : parse_method value ≡ some m
    pub key_free : found_by (usable_key key) w.db ≡ none
    pub uuid_free :
        any (λ (q : Payment). q.reference == env.uuid (w.asked + 12)) w.db.payments ≡ false

  -- What they come to: all three return, and the policy is active at the price that was quoted.
  pub record IsBought (p : ℤ) : Type 0 where
    pub quote : Policy
    pub quote_returned : (create_quote env customer product cover by as_of w).0 ≡ ok quote
    pub quote_price : quote.premium ≡ some p
    pub acceptance : Policy
    pub accept_returned : (accept_quote env w.db.next_policy by after_quote).0 ≡ ok acceptance
    pub payment : Payment
    pub pay_returned : payment_run.0 ≡ ok payment
    pub paid_price : payment.amount ≡ p
    pub row : Policy
    pub found : policy_by_id w.db.next_policy payment_run.1.db ≡ some row
    pub bound : row.state ≡ active

  module _ (p : ℤ) (m : Method) (can : CanBuy p m) where
    abbrev q_row : Policy
    q_row = Quoting.quoted_row env customer product cover by as_of w p

    abbrev w1 : World
    w1 = (record {
      db = set_policy w.db.next_policy (Quoting.quote_write env customer product cover by as_of w) (
          insert_transition
            (Branches.move_row env by q_row quoted "quote priced" (("premium", money p) ∷ [])
              (suc w.db.next_transition) (w.asked + 5))
            (insert_transition (Quoting.genesis_row env customer product cover by as_of w p)
              (insert_policy q_row w.db)));
      asked = w.asked + 7;
    })

    -- The row that the quote leaves, and those that the acceptance and the payment leave.
    abbrev row1 : Policy
    row1 = Quoting.quote_write env customer product cover by as_of w q_row

    quoted_lem :
        create_quote env customer product cover by as_of w
        ≡ (ok (quote_columns (env.now (w.asked + 1)) env.quote_validity_days q_row), w1)
    quoted_lem =
        Quoting.create_quote-quotes env customer product cover by as_of w p can.priced can.fits
          can.reference_free

    found1 : policy_by_id w.db.next_policy w1.db ≡ some row1
    found1 =
        find-update (λ (q : Policy). q.id == w.db.next_policy)
          (Quoting.quote_write env customer product cover by as_of w) q_row (q_row ∷ w.db.policies)
          (λ q. refl) (ground arith)

    live : is_expired (env.now (w.asked + 7)) row1 ≡ false
    unfolding is_expired
    live = let early = can.in_time in ground arith

    abbrev w2 : World
    w2 = record {
      db = set_policy w.db.next_policy (Branches.accept_columns env (w1.asked + 2) (w1.asked + 3)) (
          insert_transition
            (Branches.move_row env by row1 accepted "quote accepted" [] w1.db.next_transition
              (w1.asked + 1))
            w1.db);
      asked = w1.asked + 4;
    }

    move1 : can_transition (some quoted) accepted ≡ true
    unfolding can_transition
    move1 = refl

    accepted_lem :
        accept_quote env w.db.next_policy by w1
        ≡ (ok (record row1 { state = accepted; accepted_at = some (env.now (w1.asked + 2)) }), w2)
    accepted_lem = Branches.accept_quote-moves env w.db.next_policy by w1 row1 found1 live move1

    abbrev row2 : Policy
    row2 = Branches.accept_columns env (w1.asked + 2) (w1.asked + 3) row1

    found2 : policy_by_id w.db.next_policy w2.db ≡ some row2
    found2 =
        find-update (λ (q : Policy). q.id == w.db.next_policy)
          (Branches.accept_columns env (w1.asked + 2) (w1.asked + 3)) row1 w1.db.policies
          (λ q. refl) found1

    fresh : Charging.is_reused env w2 ≡ false
    fresh = let twelve : w2.asked + 1 ≡ w.asked + 12 = omega arith in rw twelve can.uuid_free

    same_keys : (k : Option String) → found_by k w2.db ≡ found_by k w.db
    same_keys none = refl
    same_keys (some k) = refl

    paid_lem : simulate_payment env w.db.next_policy value key by w2 ≡ (
      ok (Charging.new_payment env w2 row2 m key p),
      charged env w.db.next_policy by w2 m row2 key p,
    )
    paid_lem =
        Charging.simulate_payment-charges env w.db.next_policy value key by w2 m row2 can.method
          found2 (same_keys (usable_key key) ∙ can.key_free) refl p refl fresh refl

    accept_run :
        accept_quote env w.db.next_policy by after_quote
        ≡ (ok (record row1 { state = accepted; accepted_at = some (env.now (w1.asked + 2)) }), w2)
    accept_run = ap (λ r. accept_quote env w.db.next_policy by r.1) quoted_lem ∙ accepted_lem

    pay_run : payment_run ≡ (
      ok (Charging.new_payment env w2 row2 m key p),
      charged env w.db.next_policy by w2 m row2 key p,
    )
    pay_run = ap (λ r. simulate_payment env w.db.next_policy value key by r.1) accept_run ∙ paid_lem

    -- When the rating engine has a price that fits its column, the references that are drawn are
    -- fresh, the acceptance comes in time, the method is supported and the key is not in use, then
    -- quoting, accepting and paying one after the other all return, the quote and the payment at
    -- that price, and the policy ends active.
    pub purchase-IsBought : IsBought p
    purchase-IsBought = record {
      quote = quote_columns (env.now (w.asked + 1)) env.quote_validity_days q_row;
      quote_returned = ap (λ r. r.0) quoted_lem;
      quote_price = refl;
      acceptance = record row1 { state = accepted; accepted_at = some (env.now (w1.asked + 2)) };
      accept_returned = ap (λ r. r.0) accept_run;
      payment = Charging.new_payment env w2 row2 m key p;
      pay_returned = ap (λ r. r.0) pay_run;
      paid_price = refl;
      row = bound_row env w.db.next_policy by w2 m row2 key p found2 refl;
      found =
          ap (λ (r : Result Payment × World). policy_by_id w.db.next_policy r.1.db) pay_run
          ∙ charged-found env w.db.next_policy by w2 m row2 key p found2 refl;
      bound = refl;
    }
