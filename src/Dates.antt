-- ===== src/Dates.antt =====
-- `datetime.date` and its order: dates are compared by year, then month, then day.
-- A `datetime` is a number of microseconds (see Database).
pub mod Text
pub mod Roundtrip
use democrance_insurance_api.Prelude.{
  ℕ, ◌≤◌, ◌≡◌, Bool, true, false, arith, ltb, leb, ◌==◌, if◌then◌else◌,
}

pub record Date : Type 0 where
  pub year : ℕ
  pub month : ℕ
  pub day : ℕ

-- What every Python date satisfies, as far as the order needs it.
abbrev pub IsDate : Date → Type 0
IsDate d = (d.year ≤ 9999) × (d.month ≤ 12) × (d.day ≤ 31)

-- `datetime.date(year, month, day)`
abbrev pub date : (yyyy mm dd : ℕ) → Date
date yyyy mm dd = record { day = dd; month = mm; year = yyyy }

-- `datetime.date.max`
abbrev pub date_max : Date
date_max = date 9999 12 31

-- `(m, d) <= (m', d')` on tuples
abbrev pub month_day_leb : ℕ → ℕ → ℕ → ℕ → Bool
month_day_leb m d m' d' = if m == m' then leb d d' else ltb m m'

-- `a <= b` on dates
unfoldable pub date_leb : Date → Date → Bool
date_leb a b =
    if a.year == b.year then month_day_leb a.month a.day b.month b.day else ltb a.year b.year

-- `a < b` on dates
abbrev pub date_ltb : Date → Date → Bool
date_ltb a b = if date_leb b a then false else true

pub date_leb_refl : (a : Date) → date_leb a a ≡ true
unfolding date_leb
date_leb_refl a = ground arith

pub date_leb_trans :
    (a b c : Date) → date_leb a b ≡ true → date_leb b c ≡ true → date_leb a c ≡ true
unfolding date_leb
date_leb_trans a b c h k = ground arith

pub date_leb_total : (a b : Date) → date_leb a b ≡ false → date_leb b a ≡ true
unfolding date_leb
date_leb_total a b h = ground arith

pub date_leb_max : (a : Date) → IsDate a → date_leb a date_max ≡ true
unfolding date_leb
date_leb_max a h = ground arith
