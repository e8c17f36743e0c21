-- ===== src/Products/Overlap.antt =====
-- The two senses in which `RatingRule.clean` of apps/products/models.py compares rules, and the
-- rules that price the same age on the same day.
use democrance_insurance_api.Prelude.{ℤ, ◌≡◌, sym, ◌∙◌, true, none, some, Option, List, In, arith}
use democrance_insurance_api.Dates.{Date, IsDate, date_leb, date_leb_trans, date_leb_max, date_max}
use democrance_insurance_api.Products.{
  ProductType, RatingRule, not_ended, end_or_max, age_ranges_overlap, windows_overlap,
}
use democrance_insurance_api.Products.Rating.{select_rule}
use democrance_insurance_api.Products.Select.{Prices, select_rule_sound}

-- What `clean` refuses between two active rules of one product.
abbrev pub Overlaps : RatingRule → RatingRule → Type 0
Overlaps r s =
    (age_ranges_overlap r.age_band_min r.age_band_max s.age_band_min s.age_band_max ≡ true)
    × (windows_overlap r.valid_from r.valid_to s.valid_from s.valid_to ≡ true)

-- No two different active rules of one product overlap.
abbrev pub IsDisjoint : List RatingRule → Type 0
IsDisjoint rules =
    (r s : RatingRule)
    → In r rules
    → In s rules
    → r.product_id ≡ s.product_id
    → r.is_active ≡ true
    → s.is_active ≡ true
    → Overlaps r s
    → r ≡ s

begun_before_end :
    (from as_of : Date) (to : Option Date)
    → IsDate as_of
    → date_leb from as_of ≡ true
    → not_ended to as_of ≡ true
    → date_leb from (end_or_max to) ≡ true
begun_before_end from as_of none d b e = date_leb_trans from as_of date_max b (date_leb_max as_of d)
begun_before_end from as_of (some last) d b e = date_leb_trans from as_of last b e

pub Prices-Overlaps :
    (product : ProductType) (rules : List RatingRule) (age : ℤ) (as_of : Date) (r s : RatingRule)
    → IsDate as_of
    → Prices product rules age as_of r
    → Prices product rules age as_of s
    → Overlaps r s
Prices-Overlaps product rules age as_of r s d p q =
    let first = begun_before_end r.valid_from as_of s.valid_to d p.begun q.running in
    let second = begun_before_end s.valid_from as_of r.valid_to d q.begun p.running in
    (ground arith, ground arith)

-- When no two active rules of a product overlap, and the date is a Python date, the selected rule
-- is the only rule that prices the age on the date.
pub select_rule_unique :
    (product : ProductType) (rules : List RatingRule) (age : ℤ) (as_of : Date)
    (rule other : RatingRule)
    → IsDate as_of
    → IsDisjoint rules
    → select_rule product rules age as_of ≡ some rule
    → Prices product rules age as_of other
    → other ≡ rule
select_rule_unique product rules age as_of rule other d disjoint e q =
    let p = select_rule_sound product rules age as_of rule e in
    disjoint other rule q.listed p.listed (q.owner ∙ sym p.owner) q.active p.active
      (Prices-Overlaps product rules age as_of other rule d q p)
