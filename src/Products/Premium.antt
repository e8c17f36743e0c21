-- ===== src/Products/Premium.antt =====
-- `calculate_premium` of apps/products/rating.py: rounding, floor and the order of its checks.
use democrance_insurance_api.Prelude.{
  ℕ, suc, ◌+◌, ◌*◌, ◌≤◌, ◌<◌, ℤ, pos, negsuc, pos_part, neg_part, ◌≤ℤ◌, max_ℤ, *ℤ-pos, ◌≡◌, ◌↔◌,
  inl, inr, refl, true, false, none, some, Option, Option-cases, List, arith,
}
use democrance_insurance_api.Dates.{Date}
use democrance_insurance_api.Products.{ProductType, RatingRule}
use democrance_insurance_api.Products.Rating.{
  RatingError, premium_of, rating_error, not_available, age_outside, cover_outside, no_active_band,
  per_cent, quantize, raw_premium, premium_by, rate_by, select_rule, calculate_premium,
}
use democrance_insurance_api.Products.Select.{Prices, select_rule_sound, select_rule-none_iff}

-- A raw price of at least zero is rounded to a hundredth within half a hundredth, a half going up,
-- and the result is not negative.
pub quantize_nearest :
    (n : ℕ)
    → (2 * n < 2 * per_cent * pos_part (quantize (pos n)) + per_cent)
      × (2 * per_cent * pos_part (quantize (pos n)) ≤ 2 * n + per_cent)
      × (neg_part (quantize (pos n)) ≡ 0)
unfolding quantize
quantize_nearest n = (omega arith, omega arith, refl)

-- Rounding is odd: a negative value is rounded as its opposite.
pub quantize_odd :
    (n : ℕ)
    → (neg_part (quantize (negsuc n)) ≡ pos_part (quantize (pos (suc n))))
      × (pos_part (quantize (negsuc n)) ≡ 0)
unfolding quantize
quantize_odd n = ground arith

pub quantize-mono : (m n : ℕ) → m ≤ n → quantize (pos m) ≤ℤ quantize (pos n)
unfolding quantize
quantize-mono m n h = omega arith

pub premium_by-ge_min : (rule : RatingRule) (cover : ℤ) → rule.min_premium ≤ℤ premium_by rule cover
unfolding premium_by
premium_by-ge_min rule cover = ground arith

raw_premium_mono :
    (rule : RatingRule) (rate loading c d : ℕ)
    → rule.rate_per_1000_cover ≡ pos rate
    → rule.loading_factor ≡ pos loading
    → c ≤ d
    → (m n : ℕ) × (raw_premium rule (pos c) ≡ pos m) × (raw_premium rule (pos d) ≡ pos n) × (m ≤ n)
unfolding raw_premium
raw_premium_mono rule rate loading c d er el h = (
  c * rate * loading,
  d * rate * loading,
  rw (er, el, *ℤ-pos, *ℤ-pos),
  rw (er, el, *ℤ-pos, *ℤ-pos),
  grind arith,
)

-- With a rate and a loading of at least zero, a greater cover of at least zero never has a lower
-- premium.
pub premium_by-mono :
    (rule : RatingRule) (rate loading c d : ℕ)
    → rule.rate_per_1000_cover ≡ pos rate
    → rule.loading_factor ≡ pos loading
    → c ≤ d
    → premium_by rule (pos c) ≤ℤ premium_by rule (pos d)
unfolding premium_by
premium_by-mono rule rate loading c d er el h =
    let (m, n, em, en, le) = raw_premium_mono rule rate loading c d er el h in
    rw (em, en) (ground (arith, quantize-mono m n le))

-- The three checks of `calculate_premium` before the rule is looked up.
pub record IsEligible (product : ProductType) (age cover : ℤ) : Type 0 where
  pub available : product.is_active ≡ true
  pub age_above : pos product.min_age ≤ℤ age
  pub age_below : age ≤ℤ pos product.max_age
  pub cover_above : product.min_cover ≤ℤ cover
  pub cover_below : cover ≤ℤ product.max_cover

calculate_premium_eligible :
    (product : ProductType) (rules : List RatingRule) (age cover : ℤ) (as_of : Date)
    → IsEligible product age cover
    → calculate_premium product rules age cover as_of
      ≡ rate_by age cover (select_rule product rules age as_of)
unfolding calculate_premium
calculate_premium_eligible product rules age cover as_of h = ground arith

premium_of-IsEligible :
    (product : ProductType) (rules : List RatingRule) (age cover p : ℤ) (as_of : Date)
    → calculate_premium product rules age cover as_of ≡ premium_of p
    → IsEligible product age cover
unfolding calculate_premium
premium_of-IsEligible product rules age cover p as_of e = ground arith

rate_by-premium_of :
    (age cover p : ℤ) (found : Option RatingRule)
    → rate_by age cover found ≡ premium_of p
    → (rule : RatingRule) × (found ≡ some rule) × (p ≡ premium_by rule cover)
rate_by-premium_of age cover p none e = cc
rate_by-premium_of age cover p (some rule) e = (rule, refl, cc)

-- What a premium is: the product was open to this age and cover, and the amount is that of a rule
-- which prices the age on the date, the newest such.
pub record IsPremium (product : ProductType) (rules : List RatingRule) (age cover : ℤ)
    (as_of : Date) (p : ℤ) : Type 0 where
  pub eligible : IsEligible product age cover
  pub rule : RatingRule
  pub selected : select_rule product rules age as_of ≡ some rule
  pub prices : Prices product rules age as_of rule
  pub amount : p ≡ max_ℤ rule.min_premium (quantize (raw_premium rule cover))

-- A premium is only returned for an active product and an age and a cover within its limits; it is
-- the greater of the minimum premium and the rounded price of the rule selected, which is an
-- active rule of the product whose band holds the age and whose window holds the date.
pub calculate_premium_sound :
    (product : ProductType) (rules : List RatingRule) (age cover p : ℤ) (as_of : Date)
    → calculate_premium product rules age cover as_of ≡ premium_of p
    → IsPremium product rules age cover as_of p
unfolding premium_by
calculate_premium_sound product rules age cover p as_of e =
    let eligible = premium_of-IsEligible product rules age cover p as_of e in
    let (rule, selected, amount) =
      rate_by-premium_of age cover p _
        (rw (calculate_premium_eligible product rules age cover as_of eligible) at e) in
    record {
      eligible = eligible;
      rule = rule;
      selected = selected;
      prices = select_rule_sound product rules age as_of rule selected;
      amount = amount;
    }

-- A request within the limits of an active product, for which some rule prices the age on the
-- date, always gets a premium.
pub calculate_premium_complete :
    (product : ProductType) (rules : List RatingRule) (age cover : ℤ) (as_of : Date)
    (rule : RatingRule)
    → IsEligible product age cover
    → Prices product rules age as_of rule
    → (p : ℤ) × (calculate_premium product rules age cover as_of ≡ premium_of p)
calculate_premium_complete product rules age cover as_of rule eligible prices =
    elim (Option-cases (select_rule product rules age as_of)) [
      | inl missing ↦ absurd ((select_rule-none_iff product rules age as_of).0 missing rule prices)
      | inr (found, e) ↦ (
        premium_by found cover,
        rw (calculate_premium_eligible product rules age cover as_of eligible, e),
      )
    ]

-- Why a request is refused: the first check that fails, in the order product, age, cover, band.
abbrev pub IsRefused : ProductType → List RatingRule → ℤ → ℤ → Date → RatingError → Type 0
IsRefused product rules age cover as_of not_available = product.is_active ≡ false
IsRefused product rules age cover as_of (age_outside a) =
    (a ≡ age)
    × (product.is_active ≡ true)
    × ¬ ((pos product.min_age ≤ℤ age) × (age ≤ℤ pos product.max_age))
IsRefused product rules age cover as_of (cover_outside c) =
    (c ≡ cover)
    × (product.is_active ≡ true)
    × (pos product.min_age ≤ℤ age)
    × (age ≤ℤ pos product.max_age)
    × ¬ ((product.min_cover ≤ℤ cover) × (cover ≤ℤ product.max_cover))
IsRefused product rules age cover as_of (no_active_band a) =
    (a ≡ age)
    × IsEligible product age cover
    × ((rule : RatingRule) → ¬ Prices product rules age as_of rule)

rate_by-refused :
    (age cover a : ℤ) (found : Option RatingRule)
    → (rate_by age cover found ≡ rating_error (no_active_band a)) ↔ ((a ≡ age) × (found ≡ none))
rate_by-refused age cover a none = ground arith
rate_by-refused age cover a (some rule) = ground arith

-- Each rating error is raised exactly when its check fails and the earlier ones pass, in the order
-- product, age, cover, band.
pub calculate_premium-rating_error_iff :
    (product : ProductType) (rules : List RatingRule) (age cover : ℤ) (as_of : Date)
    (e : RatingError)
    → (calculate_premium product rules age cover as_of ≡ rating_error e)
      ↔ IsRefused product rules age cover as_of e
unfolding calculate_premium
calculate_premium-rating_error_iff product rules age cover as_of not_available =
    elim (Option-cases (select_rule product rules age as_of)) [
      | inl missing ↦ ground arith
      | inr (rule, found) ↦ ground arith
    ]
calculate_premium-rating_error_iff product rules age cover as_of (age_outside a) = ground arith
calculate_premium-rating_error_iff product rules age cover as_of (cover_outside c) = ground arith
calculate_premium-rating_error_iff product rules age cover as_of (no_active_band a) =
    let missing = select_rule-none_iff product rules age as_of in
    let refused = rate_by-refused age cover a (select_rule product rules age as_of) in
    ground (arith, missing, refused)
