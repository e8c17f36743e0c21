-- ===== src/Products/Rating.antt =====
-- apps/products/rating.py: the rating engine, a pure function of the product, its rules, the
-- age, the cover and the date. `raw` is exact: the decimal context has 28 digits and the three
-- factors have at most 12, 6 and 5. In units of 10^-13 it is cover * rate * loading, and
-- `quantize` to hundredths divides by 10^11.
use democrance_insurance_api.Prelude.{
  ℕ, suc, ◌+◌, ◌/◌, ℤ, pos, negsuc, ◌*ℤ◌, sub_ℕ, leb_ℤ, max_ℤ, not, ◌&&◌, Option, none, some, List,
  [], ◌∷◌, filter, if◌then◌else◌,
}
use democrance_insurance_api.Dates.{Date, date_ltb}
use democrance_insurance_api.Products.{
  ProductType, RatingRule, covers_age, is_effective_on, active_rules,
}

-- The four messages of `RatingError`.
pub data RatingError : Type 0 where
  not_available : RatingError
  age_outside : ℤ → RatingError
  cover_outside : ℤ → RatingError
  no_active_band : ℤ → RatingError

pub data Rated : Type 0 where
  premium_of : ℤ → Rated
  rating_error : RatingError → Rated

-- The candidates of `select_rule`.
unfoldable pub candidates : ProductType → List RatingRule → ℤ → Date → List RatingRule
candidates product rules age as_of =
    filter (λ rule. covers_age rule age && is_effective_on rule as_of)
      (active_rules product.id rules)

-- `max(…, key=valid_from)`: the first of the greatest.
unfoldable pub newest : RatingRule → List RatingRule → RatingRule
newest best [] = best
newest best (rule ∷ rules) =
    newest (if date_ltb best.valid_from rule.valid_from then rule else best) rules

abbrev pub newest? : List RatingRule → Option RatingRule
newest? [] = none
newest? (rule ∷ rules) = some (newest rule rules)

unfoldable pub select_rule : ProductType → List RatingRule → ℤ → Date → Option RatingRule
select_rule product rules age as_of = newest? (candidates product rules age as_of)

-- Units of `raw` in a hundredth.
abbrev pub per_cent : ℕ
per_cent = 100_000_000_000

-- `raw.quantize(_CENTS, rounding=ROUND_HALF_UP)`: halves go away from zero.
unfoldable pub quantize : ℤ → ℤ
quantize (pos n) = pos ((n + 50_000_000_000) / per_cent)
quantize (negsuc n) = sub_ℕ 0 ((suc n + 50_000_000_000) / per_cent)

-- `(cover / _PER) * rule.rate_per_1000_cover * rule.loading_factor`
unfoldable pub raw_premium : RatingRule → ℤ → ℤ
raw_premium rule cover = cover *ℤ rule.rate_per_1000_cover *ℤ rule.loading_factor

unfoldable pub premium_by : RatingRule → ℤ → ℤ
premium_by rule cover = max_ℤ rule.min_premium (quantize (raw_premium rule cover))

-- The end of `calculate_premium`, once the rule has been looked up.
abbrev pub rate_by : ℤ → ℤ → Option RatingRule → Rated
rate_by age cover none = rating_error (no_active_band age)
rate_by age cover (some rule) = premium_of (premium_by rule cover)

unfoldable pub calculate_premium : ProductType → List RatingRule → ℤ → ℤ → Date → Rated
calculate_premium product rules age cover as_of =
    if not product.is_active
    then rating_error not_available
    else if not (leb_ℤ (pos product.min_age) age && leb_ℤ age (pos product.max_age))
    then rating_error (age_outside age)
    else if not (leb_ℤ product.min_cover cover && leb_ℤ cover product.max_cover)
    then rating_error (cover_outside cover)
    else rate_by age cover (select_rule product rules age as_of)
