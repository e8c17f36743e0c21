-- ===== src/Tests/Pricing.antt =====
-- The catalogue of the tests, priced for a customer of 35 in June 2026.
use democrance_insurance_api.Prelude.{
  ◌+◌, ◌*◌, ◌≤◌, ◌<◌, pos, pos_part, neg_part, ◌*ℤ◌, ◌≡◌, ◌↔◌, inl, inr, refl, sym, ◌∙◌, true,
  false, none, some, List, [], ◌∷◌, In, arith,
}
use mathlib.Core.Path.{ap₂}
use mathlib.Core.Quot
use democrance_insurance_api.Dates.{Date, IsDate, date, date_leb, date_ltb}
use democrance_insurance_api.Customers.{age_at}
use democrance_insurance_api.Customers.Age.{anniversary, age_at_iff}
use democrance_insurance_api.Products.{
  RatingRule, age_ranges_overlap, covers_age, is_effective_on, insert_rule, order_rules,
  active_rules,
}
use democrance_insurance_api.Products.Rating.{
  candidates, newest, select_rule, quantize, raw_premium, premium_by, calculate_premium, Rated,
  premium_of, rating_error, age_outside, per_cent,
}
use democrance_insurance_api.Products.Overlap.{IsDisjoint, Overlaps}
use democrance_insurance_api.Products.Premium.{
  IsPremium, IsRefused, quantize_nearest, calculate_premium_sound,
  calculate_premium-rating_error_iff,
}
use democrance_insurance_api.Products.Clean
use democrance_insurance_api.Products.Clean.{
  Draft, draft_of, save_rule, clean_ok, type_error, check_others, save_rule-IsDisjoint,
  clean-no_overlap, clean-type_error,
}
use democrance_insurance_api.Products.Tariff.{Table, Tariff, price, price_unique}
use democrance_insurance_api.Tests.World.{ben, accident, young, old}

abbrev day : Date
day = date 2026 6 15

abbrev rules : List RatingRule
rules = young ∷ old ∷ []

priced : calculate_premium accident rules (pos 35) (pos 20_000_000) day ≡ premium_of (pos 16_000)
unfolding calculate_premium premium_by raw_premium quantize select_rule newest candidates
    active_rules order_rules insert_rule covers_age is_effective_on date_leb ◌*ℤ◌
priced = refl

-- Two rows with bands that are apart do not overlap.
apart :
    (r s x y : RatingRule)
    → r ≡ x
    → s ≡ y
    → age_ranges_overlap x.age_band_min x.age_band_max y.age_band_min y.age_band_max ≡ false
    → ¬ Overlaps r s
apart r s x y er es far over =
    let near : age_ranges_overlap r.age_band_min r.age_band_max s.age_band_min s.age_band_max
        ≡ true =
      over.0 in
    cc (
      ap₂
          (λ (a b : RatingRule).
            age_ranges_overlap a.age_band_min a.age_band_max b.age_band_min b.age_band_max)
          er es,
      near,
      far,
    )

rules-IsDisjoint : IsDisjoint rules
rules-IsDisjoint r s (inl er) (inl es) same ra sa over = er ∙ sym es
rules-IsDisjoint r s (inl er) (inr (inl es)) same ra sa over =
    absurd (apart r s young old er es refl over)
rules-IsDisjoint r s (inr (inl er)) (inl es) same ra sa over =
    absurd (apart r s old young er es refl over)
rules-IsDisjoint r s (inr (inl er)) (inr (inl es)) same ra sa over = er ∙ sym es
rules-IsDisjoint r s (inl er) (inr (inr hs)) same ra sa over = absurd hs
rules-IsDisjoint r s (inr (inl er)) (inr (inr hs)) same ra sa over = absurd hs
rules-IsDisjoint r s (inr (inr hr)) hs same ra sa over = absurd hr

calculate_premium_sound_example :
    IsPremium accident rules (pos 35) (pos 20_000_000) day (pos 16_000)
calculate_premium_sound_example =
    calculate_premium_sound accident rules (pos 35) (pos 20_000_000) (pos 16_000) day priced

calculate_premium-rating_error_iff_example :
    (calculate_premium accident rules (pos 17) (pos 20_000_000) day
      ≡ rating_error (age_outside (pos 17)))
    ↔ IsRefused accident rules (pos 17) (pos 20_000_000) day (age_outside (pos 17))
calculate_premium-rating_error_iff_example =
    calculate_premium-rating_error_iff accident rules (pos 17) (pos 20_000_000) day
      (age_outside (pos 17))

-- Half a hundredth.
quantize_nearest_example :
    (2 * 50_000_000_000 < 2 * per_cent * pos_part (quantize (pos 50_000_000_000)) + per_cent)
    × (2 * per_cent * pos_part (quantize (pos 50_000_000_000)) ≤ 2 * 50_000_000_000 + per_cent)
    × (neg_part (quantize (pos 50_000_000_000)) ≡ 0)
quantize_nearest_example = quantize_nearest 50_000_000_000

age_at_iff_example : (age_at ben.dob day ≡ pos 35) ↔ (
    (date_leb (anniversary ben.dob 35) day ≡ true) × (date_ltb day (anniversary ben.dob 36) ≡ true))
age_at_iff_example = age_at_iff ben.dob day 35

-- The rule of a third band, as a new record of the form.
abbrev oldest : RatingRule
oldest = record young { id = 3; age_band_min = 66; age_band_max = 70 }

oldest-clean : Clean.clean rules (draft_of none oldest) ≡ clean_ok
unfolding Clean.clean check_others active_rules order_rules insert_rule date_leb
oldest-clean = refl

save_rule-IsDisjoint_example : IsDisjoint (save_rule oldest rules)
save_rule-IsDisjoint_example =
    save_rule-IsDisjoint rules none oldest rules-IsDisjoint (inl refl) oldest-clean

-- The draft of a rule for 30 to 50 whose start date could not be read.
abbrev undated : Draft
undated = record (draft_of none young) {
  age_band_min = some 30;
  age_band_max = some 50;
  valid_from = none;
}

young_active : In young (active_rules 1 rules)
unfolding active_rules order_rules insert_rule date_leb
young_active = inl refl

clean-type_error_example : Clean.clean rules undated ≡ type_error
clean-type_error_example =
    clean-type_error rules undated 1 30 50 young refl refl refl refl (omega arith) refl refl
      young_active refl

day-IsDate : IsDate day
day-IsDate = (omega arith, omega arith, omega arith)

price_unique_example :
    ((t : Table)
      → price accident (pos 35) (pos 20_000_000) day day-IsDate (Quot.mk t)
        ≡ calculate_premium accident t.0 (pos 35) (pos 20_000_000) day)
    × ((other : Tariff → Rated)
        → ((t : Table)
            → other (Quot.mk t) ≡ calculate_premium accident t.0 (pos 35) (pos 20_000_000) day)
        → (x : Tariff) → other x ≡ price accident (pos 35) (pos 20_000_000) day day-IsDate x)
price_unique_example = price_unique accident (pos 35) (pos 20_000_000) day day-IsDate
