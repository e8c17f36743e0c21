-- ===== src/Products/Select.antt =====
-- `select_rule` of apps/products/rating.py, against the rules that price an age on a date.
use mathlib.Core.Path.{subst}
use democrance_insurance_api.Prelude.{
  ℕ, ℤ, pos, ◌≤ℤ◌, ◌≡◌, ◌↔◌, ◌⊎◌, inl, inr, refl, true, ◌&&◌, none, some, List, [], ◌∷◌, filter, In,
  In-filter, arith, ◌==◌, if◌then◌else◌, Bool-cases,
}
use democrance_insurance_api.Dates.{
  Date, date_leb, date_ltb, date_leb_refl, date_leb_trans, date_leb_total,
}
use democrance_insurance_api.Products.{
  ProductType, RatingRule, covers_age, is_effective_on, not_ended, insert_rule, order_rules,
  active_rules,
}
use democrance_insurance_api.Products.Rating.{candidates, newest, newest?, select_rule}

In-insert_rule :
    (r s : RatingRule) (rules : List RatingRule)
    → In r (insert_rule s rules) ↔ ((r ≡ s) ⊎ In r rules)
unfolding insert_rule
In-insert_rule r s [] = (λ h. h, λ h. h)
In-insert_rule r s (x ∷ rules) = ground (arith, In-insert_rule r s rules)

pub In-order_rules :
    (r : RatingRule) (rules : List RatingRule) → In r (order_rules rules) ↔ In r rules
unfolding order_rules
In-order_rules r [] = (λ h. h, λ h. h)
In-order_rules r (s ∷ rules) =
    let at = In-insert_rule r s (order_rules rules) in
    let ih = In-order_rules r rules in ground (arith, at, ih)

-- A rule of the table that prices `age` on `as_of` for the product: active, the age in its band,
-- the date in its window.
pub record Prices (product : ProductType) (rules : List RatingRule) (age : ℤ) (as_of : Date)
    (rule : RatingRule) : Type 0 where
  pub listed : In rule rules
  pub owner : rule.product_id ≡ product.id
  pub active : rule.is_active ≡ true
  pub above : pos rule.age_band_min ≤ℤ age
  pub below : age ≤ℤ pos rule.age_band_max
  pub begun : date_leb rule.valid_from as_of ≡ true
  pub running : not_ended rule.valid_to as_of ≡ true

pub covers_age_iff :
    (rule : RatingRule) (age : ℤ)
    → (covers_age rule age ≡ true)
      ↔ ((pos rule.age_band_min ≤ℤ age) × (age ≤ℤ pos rule.age_band_max))
unfolding covers_age
covers_age_iff rule age = ground arith

pub is_effective_on_iff :
    (rule : RatingRule) (as_of : Date)
    → (is_effective_on rule as_of ≡ true)
      ↔ ((date_leb rule.valid_from as_of ≡ true) × (not_ended rule.valid_to as_of ≡ true))
unfolding is_effective_on
is_effective_on_iff rule as_of = ground arith

pub In-active_rules :
    (product_id : ℕ) (rules : List RatingRule) (rule : RatingRule)
    → In rule (active_rules product_id rules)
      ↔ (In rule rules × (rule.product_id ≡ product_id) × (rule.is_active ≡ true))
unfolding active_rules
In-active_rules product_id rules rule =
    let own = λ (r : RatingRule). r.product_id == product_id && r.is_active in
    let sorted = In-order_rules rule (filter own rules) in
    let kept = In-filter own rule rules in ground (arith, sorted, kept)

pub In-candidates :
    (product : ProductType) (rules : List RatingRule) (age : ℤ) (as_of : Date) (rule : RatingRule)
    → In rule (candidates product rules age as_of) ↔ Prices product rules age as_of rule
unfolding candidates
In-candidates product rules age as_of rule =
    let kept =
      In-filter (λ (r : RatingRule). covers_age r age && is_effective_on r as_of) rule
        (active_rules product.id rules) in
    let known = In-active_rules product.id rules rule in
    ground (arith, kept, known, covers_age_iff rule age, is_effective_on_iff rule as_of)

-- The better of two, as the loop of `newest` takes it.
abbrev later : RatingRule → RatingRule → RatingRule
later best rule = if date_ltb best.valid_from rule.valid_from then rule else best

later_bounds :
    (best rule : RatingRule)
    → (date_leb best.valid_from (later best rule).valid_from ≡ true)
      × (date_leb rule.valid_from (later best rule).valid_from ≡ true)
      × ((later best rule ≡ best) ⊎ (later best rule ≡ rule))
later_bounds best rule = elim (Bool-cases (date_leb rule.valid_from best.valid_from)) [
  | inl old ↦ rw old (date_leb_refl _, old, inl refl)
  | inr new ↦ rw new (date_leb_total rule.valid_from best.valid_from new, date_leb_refl _, inr refl)
]

newest-In : (best : RatingRule) (rules : List RatingRule) → In (newest best rules) (best ∷ rules)
unfolding newest
newest-In best [] = inl refl
newest-In best (rule ∷ rules) =
    ground (arith, newest-In (later best rule) rules, later_bounds best rule)

newest-ge_best :
    (best : RatingRule) (rules : List RatingRule)
    → date_leb best.valid_from (newest best rules).valid_from ≡ true
unfolding newest
newest-ge_best best [] = date_leb_refl best.valid_from
newest-ge_best best (rule ∷ rules) =
    date_leb_trans best.valid_from (later best rule).valid_from _ (later_bounds best rule).0
      (newest-ge_best (later best rule) rules)

newest-ge :
    (best : RatingRule) (rules : List RatingRule) (rule : RatingRule)
    → In rule rules
    → date_leb rule.valid_from (newest best rules).valid_from ≡ true
unfolding newest
newest-ge best [] rule h = absurd h
newest-ge best (r ∷ rules) rule (inl e) = rw e (
    date_leb_trans r.valid_from (later best r).valid_from _ (later_bounds best r).1
      (newest-ge_best (later best r) rules))
newest-ge best (r ∷ rules) rule (inr h) = newest-ge (later best r) rules rule h

newest-ge_all :
    (best : RatingRule) (rules : List RatingRule) (rule : RatingRule)
    → In rule (best ∷ rules)
    → date_leb rule.valid_from (newest best rules).valid_from ≡ true
newest-ge_all best rules rule (inl e) = rw e (newest-ge_best best rules)
newest-ge_all best rules rule (inr h) = newest-ge best rules rule h

newest?-none :
    (rules : List RatingRule) → newest? rules ≡ none → (rule : RatingRule) → ¬ In rule rules
newest?-none [] e rule h = h
newest?-none (r ∷ rules) e rule h = cc

newest?_of_empty :
    (rules : List RatingRule) → ((rule : RatingRule) → ¬ In rule rules) → newest? rules ≡ none
newest?_of_empty [] never = refl
newest?_of_empty (r ∷ rules) never = absurd (never r (inl refl))

newest?_lem :
    (rules : List RatingRule) (rule : RatingRule)
    → newest? rules ≡ some rule
    → In rule rules
      × ((other : RatingRule) → In other rules → date_leb other.valid_from rule.valid_from ≡ true)
newest?_lem [] rule e = cc
newest?_lem (r ∷ rules) rule e =
    let same : newest r rules ≡ rule = cc in
    subst
      (λ z.
        In z (r ∷ rules)
        × ((other : RatingRule)
            → In other (r ∷ rules)
            → date_leb other.valid_from z.valid_from ≡ true))
      same (newest-In r rules, newest-ge_all r rules)

-- A selected rule prices the age on the date.
pub select_rule_sound :
    (product : ProductType) (rules : List RatingRule) (age : ℤ) (as_of : Date) (rule : RatingRule)
    → select_rule product rules age as_of ≡ some rule
    → Prices product rules age as_of rule
unfolding select_rule
select_rule_sound product rules age as_of rule e =
    (In-candidates product rules age as_of rule).0
      (newest?_lem (candidates product rules age as_of) rule e).0

-- No rule that prices the age on the date starts later than the selected rule.
pub select_rule_newest :
    (product : ProductType) (rules : List RatingRule) (age : ℤ) (as_of : Date)
    (rule other : RatingRule)
    → select_rule product rules age as_of ≡ some rule
    → Prices product rules age as_of other
    → date_leb other.valid_from rule.valid_from ≡ true
unfolding select_rule
select_rule_newest product rules age as_of rule other e h =
    (newest?_lem (candidates product rules age as_of) rule e).1 other
      ((In-candidates product rules age as_of other).1 h)

-- No rule is selected exactly when no rule of the table prices the age on the date for the
-- product.
pub select_rule-none_iff :
    (product : ProductType) (rules : List RatingRule) (age : ℤ) (as_of : Date)
    → (select_rule product rules age as_of ≡ none)
      ↔ ((rule : RatingRule) → ¬ Prices product rules age as_of rule)
unfolding select_rule
select_rule-none_iff product rules age as_of = (
  λ e rule h. absurd (
      newest?-none (candidates product rules age as_of) e rule
        ((In-candidates product rules age as_of rule).1 h)),
  λ never.
      newest?_of_empty (candidates product rules age as_of)
        (λ rule h. never rule ((In-candidates product rules age as_of rule).0 h)),
)
