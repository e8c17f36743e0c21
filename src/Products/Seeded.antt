-- ===== src/Products/Seeded.antt =====
-- The catalogue that apps/products/migrations/0002_seed_rating_rules.py makes, seen by the rating
-- engine.
use mathlib.Core.Path.{subst}
use democrance_insurance_api.Prelude.{
  ℕ, ◌≤◌, ◌<◌, ℤ, pos, ◌≤ℤ◌, ◌≡◌, ◌⊎◌, inl, inr, refl, ap, sym, String, In, arith, leb, Bool-cases,
  true,
}
use democrance_insurance_api.Dates.{Date, date_leb}
use democrance_insurance_api.Products.{ProductType, RatingRule}
use democrance_insurance_api.Products.Rating.{calculate_premium, premium_of}
use democrance_insurance_api.Products.Select.{Prices}
use democrance_insurance_api.Products.Premium.{calculate_premium_complete}
use democrance_insurance_api.Products.Seed.{
  Band, band, personal_accident, travel, seed_from, seeded_rule, all_rules, new_product, fresh,
  seeded_products, seeded_rules,
}

up_to : (age high : ℕ) → (age ≤ high) ⊎ (high < age)
up_to age high = elim (Bool-cases (leb age high)) [
  | inl e ↦ inl (ground arith)
  | inr e ↦ inr (ground arith)
]

module _ (as_of : Date) (begun : date_leb seed_from as_of ≡ true) where
  -- A seeded rule prices the ages of its band.
  priced_by :
      (product : ProductType) (age : ℕ) (b : Band) (id : ℕ)
      → In (seeded_rule product.id b id) all_rules
      → b.low ≤ age
      → age ≤ b.high
      → (rule : RatingRule) × Prices product all_rules (pos age) as_of rule
  priced_by product age b id listed low high = (
    seeded_rule product.id b id,
    record {
      listed = listed;
      owner = refl;
      active = refl;
      above = omega arith;
      below = omega arith;
      begun = begun;
      running = refl;
    },
  )

  accident_priced :
      (currency : String) (age : ℕ)
      → 18 ≤ age
      → age ≤ 70
      → (rule : RatingRule) × Prices
          (new_product currency personal_accident 1)
          all_rules
          (pos age)
          as_of
          rule
  accident_priced currency age low high =
      let row = new_product currency personal_accident 1 in
      elim (up_to age 25) [
        | inl h ↦ priced_by row age (band 18 25 (pos 13_000) (pos 5_000)) 1 (inl refl) low h
        | inr l25 ↦ elim (up_to age 30) [
          | inl h ↦
              priced_by row age (band 26 30 (pos 11_500) (pos 5_000)) 2 (inr (inl refl))
                (omega arith) h
          | inr l30 ↦ elim (up_to age 40) [
            | inl h ↦
                priced_by row age (band 31 40 (pos 10_000) (pos 5_000)) 3 (inr (inr (inl refl)))
                  (omega arith) h
            | inr l40 ↦ elim (up_to age 50) [
              | inl h ↦
                  priced_by row age (band 41 50 (pos 14_000) (pos 5_000)) 4
                    (inr (inr (inr (inl refl)))) (omega arith) h
              | inr l50 ↦ elim (up_to age 60) [
                | inl h ↦
                    priced_by row age (band 51 60 (pos 20_000) (pos 5_000)) 5
                      (inr (inr (inr (inr (inl refl))))) (omega arith) h
                | inr l60 ↦
                    priced_by row age (band 61 70 (pos 31_000) (pos 5_000)) 6
                      (inr (inr (inr (inr (inr (inl refl)))))) (omega arith) high
              ]
            ]
          ]
        ]
      ]

  travel_priced :
      (currency : String) (age : ℕ)
      → 18 ≤ age
      → age ≤ 65
      → (rule : RatingRule) × Prices (new_product currency travel 2) all_rules (pos age) as_of rule
  travel_priced currency age low high =
      let row = new_product currency travel 2 in
      elim (up_to age 40) [
        | inl h ↦
            priced_by row age (band 18 40 (pos 6_000) (pos 2_500)) 7
              (inr (inr (inr (inr (inr (inr (inl refl))))))) low h
        | inr l40 ↦
            priced_by row age (band 41 65 (pos 9_500) (pos 2_500)) 8
              (inr (inr (inr (inr (inr (inr (inr (inl refl)))))))) (omega arith) high
      ]

  -- Every age within the limits of a seeded product is priced by a seeded rule.
  all_priced :
      (currency : String) (product : ProductType) (age : ℕ)
      → In product (fresh currency).products
      → product.min_age ≤ age
      → age ≤ product.max_age
      → (rule : RatingRule) × Prices product (fresh currency).rules (pos age) as_of rule
  all_priced currency product age listed low high =
      rw (seeded_rules currency) (elim (subst (In product) (seeded_products currency) listed) [
        | inl e ↦
            subst
              (λ (p : ProductType).
                p.min_age ≤ age
                → age ≤ p.max_age
                → (rule : RatingRule) × Prices p all_rules (pos age) as_of rule)
              (sym e) (accident_priced currency age) low high
        | inr (inl e) ↦
            subst
              (λ (p : ProductType).
                p.min_age ≤ age
                → age ≤ p.max_age
                → (rule : RatingRule) × Prices p all_rules (pos age) as_of rule)
              (sym e) (travel_priced currency age) low high
        | inr (inr h) ↦ absurd h
      ])

fresh_active :
    (currency : String) (product : ProductType)
    → In product (fresh currency).products
    → product.is_active ≡ true
fresh_active currency product listed = elim (subst (In product) (seeded_products currency) listed) [
  | inl e ↦ ap (λ (p : ProductType). p.is_active) e
  | inr (inl e) ↦ ap (λ (p : ProductType). p.is_active) e
  | inr (inr h) ↦ absurd h
]

-- On a freshly seeded catalogue, from the day on which its rules start, every product gives a
-- premium for every age and every cover within its limits.
pub fresh-calculate_premium :
    (currency : String) (product : ProductType) (age : ℕ) (cover : ℤ) (as_of : Date)
    → In product (fresh currency).products
    → date_leb seed_from as_of ≡ true
    → product.min_age ≤ age
    → age ≤ product.max_age
    → product.min_cover ≤ℤ cover
    → cover ≤ℤ product.max_cover
    → (p : ℤ) × (calculate_premium product (fresh currency).rules (pos age) cover as_of
        ≡ premium_of p)
fresh-calculate_premium currency product age cover as_of listed begun low high least most =
    let (rule, prices) = all_priced as_of begun currency product age listed low high in
    calculate_premium_complete product (fresh currency).rules (pos age) cover as_of rule
      (record {
        available = fresh_active currency product listed;
        age_above = omega arith;
        age_below = omega arith;
        cover_above = least;
        cover_below = most;
      })
      prices
