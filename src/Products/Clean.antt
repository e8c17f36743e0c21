-- ===== src/Products/Clean.antt =====
-- `RatingRule.clean` of apps/products/models.py, as the admin form runs it on a record whose fields
-- may be missing, and the save that follows.
use mathlib.Core.Path.{subst}
use democrance_insurance_api.Prelude.{
  ℕ, ◌≤◌, ◌≡◌, ◌≢◌, ◌⊎◌, inl, inr, sym, ◌∙◌, Bool, true, not, none, some, Option, List, [], ◌∷◌, In,
  In-filter, filter, arith, ltb, ◌==◌, if◌then◌else◌,
}
use democrance_insurance_api.Dates.{Date}
use democrance_insurance_api.Products.{
  RatingRule, age_ranges_overlap, windows_overlap, active_rules,
}
use democrance_insurance_api.Products.Select.{In-active_rules}
use democrance_insurance_api.Products.Overlap.{Overlaps, IsDisjoint}

-- The instance that the form fills in: a field that failed its own check is still `None`.
pub record Draft : Type 0 where
  pub pk : Option ℕ
  pub product : Option ℕ
  pub age_band_min : Option ℕ
  pub age_band_max : Option ℕ
  pub valid_from : Option Date
  pub valid_to : Option Date
  pub is_active : Bool

-- How `clean` ends: it returns, raises one of its two ValidationErrors, raises
-- RelatedObjectDoesNotExist on `self.product`, or raises TypeError on a comparison with `None`.
pub data Cleaned : Type 0 where
  clean_ok bands_reversed overlapping product_missing type_error : Cleaned

-- `self._windows_overlap(other)` in the loop, where `self.valid_from` may be `None`.
abbrev pub clash : Option Date → Option Date → RatingRule → Cleaned → Cleaned
clash none to other rest = type_error
clash (some from) to other rest =
    if windows_overlap from to other.valid_from other.valid_to then overlapping else rest

-- `for other in others`
unfoldable pub check_others : ℕ → ℕ → Option Date → Option Date → List RatingRule → Cleaned
check_others min max from to [] = clean_ok
check_others min max from to (other ∷ others) =
    let rest = check_others min max from to others in
    if age_ranges_overlap min max other.age_band_min other.age_band_max
    then clash from to other rest
    else rest

-- `if self.pk: others = others.exclude(pk=self.pk)`
abbrev pub exclude : Option ℕ → List RatingRule → List RatingRule
exclude none others = others
exclude (some pk) others = if pk == 0 then others else filter (λ r. not (r.id == pk)) others

abbrev clean_active : List RatingRule → ℕ → ℕ → Draft → Option ℕ → Cleaned
clean_active rules min max draft none = product_missing
clean_active rules min max draft (some product) =
    check_others min max draft.valid_from draft.valid_to
      (exclude draft.pk (active_rules product rules))

abbrev clean_bands : List RatingRule → Draft → Option ℕ → Option ℕ → Cleaned
clean_bands rules draft (some min) (some max) =
    if ltb max min
    then bands_reversed
    else if not draft.is_active
    then clean_ok
    else clean_active rules min max draft draft.product
clean_bands rules draft _ _ = clean_ok

-- `RatingRule.clean`
unfoldable pub clean : List RatingRule → Draft → Cleaned
clean rules draft = clean_bands rules draft draft.age_band_min draft.age_band_max

-- The draft of a complete record, under the key with which the form holds it.
abbrev pub draft_of : Option ℕ → RatingRule → Draft
draft_of pk rule = record {
  pk = pk;
  product = some rule.product_id;
  age_band_min = some rule.age_band_min;
  age_band_max = some rule.age_band_max;
  valid_from = some rule.valid_from;
  valid_to = rule.valid_to;
  is_active = rule.is_active;
}

-- `save()`: the row with this id is replaced, or there is a new row.
unfoldable pub save_rule : RatingRule → List RatingRule → List RatingRule
save_rule rule rules = rule ∷ filter (λ r. not (r.id == rule.id)) rules

check_others_ok :
    (min max : ℕ) (from : Date) (to : Option Date) (others : List RatingRule) (other : RatingRule)
    → check_others min max (some from) to others ≡ clean_ok
    → In other others
    → ¬ (
        (age_ranges_overlap min max other.age_band_min other.age_band_max ≡ true)
        × (windows_overlap from to other.valid_from other.valid_to ≡ true))
unfolding check_others
check_others_ok min max from to [] other e h = absurd h
check_others_ok min max from to (r ∷ others) other e h =
    ground (arith, check_others_ok min max from to others other)

In-exclude :
    (pk : Option ℕ) (r : RatingRule) (others : List RatingRule)
    → In r others
    → ¬ (pk ≡ some r.id)
    → In r (exclude pk others)
In-exclude none r others h ne = h
In-exclude (some k) r others h ne =
    let kept = In-filter (λ (s : RatingRule). not (s.id == k)) r others in ground (arith, kept)

-- An active rule that clean passes overlaps no other active rule of its product.
pub clean-no_overlap :
    (rules : List RatingRule) (pk : Option ℕ) (rule other : RatingRule)
    → clean rules (draft_of pk rule) ≡ clean_ok
    → rule.is_active ≡ true
    → In other rules
    → other.is_active ≡ true
    → other.product_id ≡ rule.product_id
    → ¬ (pk ≡ some other.id)
    → ¬ Overlaps rule other
unfolding clean
clean-no_overlap rules pk rule other e active h other_active same ne =
    let listed = (In-active_rules rule.product_id rules other).1 (h, same, other_active) in
    let kept = In-exclude pk other (active_rules rule.product_id rules) listed ne in
    check_others_ok rule.age_band_min rule.age_band_max rule.valid_from rule.valid_to _ other
      (ground arith) kept

Overlaps-symm : (r s : RatingRule) → Overlaps r s → Overlaps s r
Overlaps-symm r s h = ground arith

In-save_rule :
    (rule r : RatingRule) (rules : List RatingRule)
    → In r (save_rule rule rules)
    → (r ≡ rule) ⊎ (In r rules × (r.id ≢ rule.id))
unfolding save_rule
In-save_rule rule r rules h =
    let kept = In-filter (λ (x : RatingRule). not (x.id == rule.id)) r rules in ground (arith, kept)

not_key :
    (pk : Option ℕ) (rule other : RatingRule)
    → (pk ≡ none) ⊎ (pk ≡ some rule.id)
    → other.id ≢ rule.id
    → ¬ (pk ≡ some other.id)
not_key pk rule other key ne e = ground arith

-- The rule that is saved, under any name, against a row that stays.
new_apart :
    (rules : List RatingRule) (pk : Option ℕ) (rule r other : RatingRule)
    → (pk ≡ none) ⊎ (pk ≡ some rule.id)
    → clean rules (draft_of pk rule) ≡ clean_ok
    → r ≡ rule
    → r.product_id ≡ other.product_id
    → r.is_active ≡ true
    → In other rules
    → other.is_active ≡ true
    → other.id ≢ rule.id
    → ¬ Overlaps r other
new_apart rules pk rule r other key e er =
    subst
      (λ z.
        z.product_id ≡ other.product_id
        → z.is_active ≡ true
        → In other rules
        → other.is_active ≡ true
        → other.id ≢ rule.id
        → ¬ Overlaps z other)
      (sym er)
      (λ same active h other_active ne.
        clean-no_overlap rules pk rule other e active h other_active (sym same)
          (not_key pk rule other key ne))

-- Saving a rule that clean passes, as a new row or under its own key, into a table without
-- overlaps keeps the table without overlaps.
pub save_rule-IsDisjoint :
    (rules : List RatingRule) (pk : Option ℕ) (rule : RatingRule)
    → IsDisjoint rules
    → (pk ≡ none) ⊎ (pk ≡ some rule.id)
    → clean rules (draft_of pk rule) ≡ clean_ok
    → IsDisjoint (save_rule rule rules)
unfolding save_rule
save_rule-IsDisjoint rules pk rule disjoint key e r s hr hs same ra sa over =
    let apart = new_apart rules pk rule in
    elim (In-save_rule rule r rules hr) [
      | inl er ↦ elim (In-save_rule rule s rules hs) [
        | inl es ↦ er ∙ sym es
        | inr (old, ne) ↦ absurd (apart r s key e er same ra old sa ne over)
      ]
      | inr (old, ne) ↦ elim (In-save_rule rule s rules hs) [
        | inl es ↦ absurd (apart s r key e es (sym same) sa old ra ne (Overlaps-symm r s over))
        | inr (old', _) ↦ disjoint r s old old' same ra sa over
      ]
    ]

check_others-type_error :
    (min max : ℕ) (to : Option Date) (others : List RatingRule) (other : RatingRule)
    → In other others
    → age_ranges_overlap min max other.age_band_min other.age_band_max ≡ true
    → check_others min max none to others ≡ type_error
unfolding check_others
check_others-type_error min max to [] other h over = absurd h
check_others-type_error min max to (r ∷ others) other h over =
    ground (arith, check_others-type_error min max to others other)

-- On a new active draft with its product and its bands in order but without a start date, clean
-- raises TypeError when an active rule of the product covers one of its ages.
pub clean-type_error :
    (rules : List RatingRule) (draft : Draft) (product min max : ℕ) (other : RatingRule)
    → draft.pk ≡ none
    → draft.product ≡ some product
    → draft.age_band_min ≡ some min
    → draft.age_band_max ≡ some max
    → min ≤ max
    → draft.is_active ≡ true
    → draft.valid_from ≡ none
    → In other (active_rules product rules)
    → age_ranges_overlap min max other.age_band_min other.age_band_max ≡ true
    → clean rules draft ≡ type_error
unfolding clean
clean-type_error rules draft product min max other ek ep el eh le ea ef h over =
    let crash =
      check_others-type_error min max draft.valid_to (active_rules product rules) other h over in
    ground (arith, crash)
