-- ===== src/Products.antt =====
-- apps/products/models.py: the catalogue and the date-versioned rating rules. Money is in
-- hundredths (`decimal_places=2`), rates and loadings are in ten-thousandths
-- (`decimal_places=4`), so every decimal of the source is an integer here. A
-- PositiveSmallIntegerField is a natural number; the timestamps are left out.
pub mod Rating
pub mod Select
pub mod Premium
pub mod Overlap
pub mod Clean
pub mod Seed
pub mod Seeded
pub mod Unseed
pub mod Tariff
use democrance_insurance_api.Prelude.{
  ℕ, ℤ, pos, leb_ℤ, Bool, true, false, not, ◌&&◌, ◌||◌, Option, none, some, String, List, [], ◌∷◌,
  filter, leb, ltb, ◌==◌, if◌then◌else◌,
}
use democrance_insurance_api.Dates.{Date, date_leb, date_ltb, date_max}

pub record ProductType : Type 0 where
  pub id : ℕ
  pub code : String
  pub name : String
  pub description : String
  pub is_active : Bool
  pub default_cover : ℤ
  pub min_cover : ℤ
  pub max_cover : ℤ
  pub min_age : ℕ
  pub max_age : ℕ
  pub currency : String

pub record RatingRule : Type 0 where
  pub id : ℕ
  pub product_id : ℕ
  pub age_band_min : ℕ
  pub age_band_max : ℕ
  pub rate_per_1000_cover : ℤ
  pub loading_factor : ℤ
  pub min_premium : ℤ
  pub valid_from : Date
  pub valid_to : Option Date
  pub is_active : Bool

-- `RatingRule.covers_age`
unfoldable pub covers_age : RatingRule → ℤ → Bool
covers_age rule age = leb_ℤ (pos rule.age_band_min) age && leb_ℤ age (pos rule.age_band_max)

-- The open end of a validity window: `valid_to is None or valid_to >= as_of`.
abbrev pub not_ended : Option Date → Date → Bool
not_ended none as_of = true
not_ended (some last) as_of = date_leb as_of last

-- `RatingRule.is_effective_on`
unfoldable pub is_effective_on : RatingRule → Date → Bool
is_effective_on rule as_of =
    if date_ltb as_of rule.valid_from then false else not_ended rule.valid_to as_of

-- `RatingRule._age_ranges_overlap`, on the ends of the two bands.
abbrev pub age_ranges_overlap : ℕ → ℕ → ℕ → ℕ → Bool
age_ranges_overlap min max other_min other_max = not (ltb max other_min || ltb other_max min)

-- `valid_to or datetime.date.max`
abbrev pub end_or_max : Option Date → Date
end_or_max none = date_max
end_or_max (some last) = last

-- `RatingRule._windows_overlap`, on the ends of the two windows.
abbrev pub windows_overlap : Date → Option Date → Date → Option Date → Bool
windows_overlap from to other_from other_to =
    date_leb from (end_or_max other_to) && date_leb other_from (end_or_max to)

-- The ordering of `RatingRule.Meta` within one product: `age_band_min`, then `-valid_from`.
abbrev pub rule_leb : RatingRule → RatingRule → Bool
rule_leb r s =
    if r.age_band_min == s.age_band_min
    then date_leb s.valid_from r.valid_from
    else ltb r.age_band_min s.age_band_min

unfoldable pub insert_rule : RatingRule → List RatingRule → List RatingRule
insert_rule r [] = r ∷ []
insert_rule r (s ∷ rules) = if rule_leb r s then r ∷ s ∷ rules else s ∷ insert_rule r rules

unfoldable pub order_rules : List RatingRule → List RatingRule
unfolding insert_rule
order_rules [] = []
order_rules (r ∷ rules) = insert_rule r (order_rules rules)

-- `RatingRule.objects.filter(product=…, is_active=True)`, in the default ordering; also
-- `product.rating_rules.filter(is_active=True)`.
unfoldable pub active_rules : ℕ → List RatingRule → List RatingRule
active_rules product_id rules =
    order_rules (filter (λ rule. rule.product_id == product_id && rule.is_active) rules)
