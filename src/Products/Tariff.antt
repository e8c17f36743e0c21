-- ===== src/Products/Tariff.antt =====
-- The rules of apps/products/models.py as a set: a table without overlaps, whatever the order of its
-- rows and however often a row is in it, seen by apps/products/rating.py.
use mathlib.Core.Quot
use mathlib.Core.Quot.{Quot, Quot-set}
use democrance_insurance_api.Prelude.{
  ℤ, ◌≡◌, ◌↔◌, refl, sym, ap, ◌∙◌, inl, inr, Option-cases, some, List, In,
}
use democrance_insurance_api.Dates.{Date, IsDate}
use democrance_insurance_api.Products.{ProductType, RatingRule}
use democrance_insurance_api.Products.Rating.{select_rule, calculate_premium, Rated}
use democrance_insurance_api.Products.Select.{Prices, select_rule_sound, select_rule-none_iff}
use democrance_insurance_api.Products.Overlap.{IsDisjoint, select_rule_unique}

-- The same rules, in any order.
abbrev pub SameRules : List RatingRule → List RatingRule → Type 0
SameRules rules others = (r : RatingRule) → In r rules ↔ In r others

SameRules-sym : (rules others : List RatingRule) → SameRules rules others → SameRules others rules
SameRules-sym rules others same r = ((same r).1, (same r).0)

SameRules-IsDisjoint :
    (rules others : List RatingRule) → SameRules rules others → IsDisjoint rules → IsDisjoint others
SameRules-IsDisjoint rules others same disjoint r s at_r at_s =
    disjoint r s ((same r).1 at_r) ((same s).1 at_s)

module _ (product : ProductType) (age : ℤ) (as_of : Date) where
  moved-Prices :
      {rules others : List RatingRule} (rule : RatingRule)
      → SameRules rules others
      → Prices product rules age as_of rule
      → Prices product others age as_of rule
  moved-Prices rule same p = record {
    listed = (same rule).0 p.listed;
    owner = p.owner;
    active = p.active;
    above = p.above;
    below = p.below;
    begun = p.begun;
    running = p.running;
  }

  select_rule-SameRules :
      (rules others : List RatingRule)
      → IsDate as_of
      → IsDisjoint rules
      → SameRules rules others
      → select_rule product rules age as_of ≡ select_rule product others age as_of
  select_rule-SameRules rules others date disjoint same =
      let disjoint' = SameRules-IsDisjoint rules others same disjoint in
      elim (Option-cases (select_rule product rules age as_of)) [
        | inl unpriced ↦
            unpriced
            ∙ sym (
                (select_rule-none_iff product others age as_of).1 (λ rule p.
                  (select_rule-none_iff product rules age as_of).0 unpriced rule
                    (moved-Prices rule (SameRules-sym rules others same) p)))
        | inr (rule, found) ↦
            let p = moved-Prices rule same (select_rule_sound product rules age as_of rule found) in
            elim (Option-cases (select_rule product others age as_of)) [
              | inl unpriced ↦
                  absurd ((select_rule-none_iff product others age as_of).0 unpriced rule p)
              | inr (other, chosen) ↦
                  found
                  ∙ ap some (
                      select_rule_unique product others age as_of other rule date disjoint' chosen
                        p)
                  ∙ sym chosen
            ]
      ]

-- The premium does not depend on the order of the rows of a table without overlaps.
pub calculate_premium-SameRules :
    (product : ProductType) (rules others : List RatingRule) (age cover : ℤ) (as_of : Date)
    → IsDate as_of
    → IsDisjoint rules
    → SameRules rules others
    → calculate_premium product rules age cover as_of
      ≡ calculate_premium product others age cover as_of
unfolding calculate_premium
calculate_premium-SameRules product rules others age cover as_of date disjoint same =
    rw (select_rule-SameRules product age as_of rules others date disjoint same) refl

-- A table without overlaps.
abbrev pub Table : Type 0
Table = (rules : List RatingRule) × IsDisjoint rules

-- Tables, up to the order and the repetition of their rows.
abbrev pub Tariff : Type 0
Tariff = Quot (λ (a b : Table). SameRules a.0 b.0)

unfoldable pub price : ProductType → ℤ → ℤ → (as_of : Date) → IsDate as_of → Tariff → Rated
price product age cover as_of date =
    Quot.lift (hlevel) (λ (t : Table). calculate_premium product t.0 age cover as_of)
      (λ a b same. calculate_premium-SameRules product a.0 b.0 age cover as_of date a.1 same)

-- For a Python date, the premium is a function of the tariff, which is a rule table without
-- overlaps up to the order and the repetition of its rows: there is one function on tariffs, and
-- only one, that agrees with calculate_premium on every such table.
pub price_unique :
    (product : ProductType) (age cover : ℤ) (as_of : Date) (date : IsDate as_of)
    → ((t : Table)
        → price product age cover as_of date (Quot.mk t)
          ≡ calculate_premium product t.0 age cover as_of)
      × ((other : Tariff → Rated)
          → ((t : Table) → other (Quot.mk t) ≡ calculate_premium product t.0 age cover as_of)
          → (x : Tariff) → other x ≡ price product age cover as_of date x)
unfolding price
price_unique product age cover as_of date =
    (λ t. refl, λ other agrees. Quot.ind (λ x. hlevel) (λ t. agrees t))
