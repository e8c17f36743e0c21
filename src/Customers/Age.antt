-- ===== src/Customers/Age.antt =====
-- `Customer.age_at` and `Customer.clean` of apps/customers/models.py, against birthdays and limits.
use democrance_insurance_api.Prelude.{
  ℕ, suc, ◌+◌, ◌≤◌, pos, pos_part, neg_part, ◌-ℤ◌, ◌≤ℤ◌, ◌≡◌, ◌↔◌, true, none, some, arith,
  if◌then◌else◌,
}
use democrance_insurance_api.Dates.{Date, date, date_leb, date_ltb, month_day_leb}
use democrance_insurance_api.Customers.{AgeLimits, age_at, clean}

-- The `n`-th anniversary of a birth, as a plain triple (29 February stays 29 February).
abbrev pub anniversary : Date → ℕ → Date
anniversary born n = date (born.year + n) born.month born.day

-- The age is n exactly when the n-th birthday has come and the next one has not.
pub age_at_iff :
    (born as_of : Date) (n : ℕ)
    → (age_at born as_of ≡ pos n) ↔ (
        (date_leb (anniversary born n) as_of ≡ true)
        × (date_ltb as_of (anniversary born (suc n)) ≡ true))
unfolding age_at ◌-ℤ◌ date_leb
age_at_iff born as_of n = ground arith

-- 1 in the part of the year before the birthday.
abbrev before_birthday : Date → Date → ℕ
before_birthday born as_of =
    if month_day_leb born.month born.day as_of.month as_of.day then 0 else 1

age_at_parts :
    (born as_of : Date)
    → pos_part (age_at born as_of) + born.year + before_birthday born as_of
      ≡ neg_part (age_at born as_of) + as_of.year
unfolding age_at ◌-ℤ◌
age_at_parts born as_of = ground arith

before_birthday_mono :
    (born a b : Date)
    → date_leb a b ≡ true
    → a.year + before_birthday born b ≤ b.year + before_birthday born a
unfolding date_leb
before_birthday_mono born a b h = ground arith

-- As time passes nobody gets younger.
pub age_at-mono : (born a b : Date) → date_leb a b ≡ true → age_at born a ≤ℤ age_at born b
age_at-mono born a b h =
    omega (arith, age_at_parts born a, age_at_parts born b, before_birthday_mono born a b h)

-- A date of birth passes clean exactly when it is before today and the age today is within the
-- limits, both ends included.
pub clean_iff :
    (limits : AgeLimits) (today dob : Date)
    → (clean limits today (some dob) ≡ none) ↔ (
        (date_ltb dob today ≡ true)
        × (limits.min_age ≤ℤ age_at dob today)
        × (age_at dob today ≤ℤ limits.max_age))
unfolding clean
clean_iff limits today dob = ground arith
