-- ===== src/Dates/Roundtrip.antt =====
-- Texts of dates, there and back: the input and output formats of apps/common/fields.py.
use democrance_insurance_api.Prelude.{
  ℕ, ◌+◌, ◌*◌, ◌-◌, ◌/◌, ◌%◌, ◌≤◌, ◌<◌, ◌≡◌, ◌∙◌, refl, inl, inr, ◌⊎◌, true, Option, none, some,
  List, [], ◌∷◌, arith,
}
use democrance_insurance_api.Dates.{Date, date}
use democrance_insurance_api.Dates.Text.{
  Rest, is_calendar_date, or_else, day_part, month_part, year_part, dash, match_dmy, match_iso,
  finish, parse_flexible_date, show_two, show_year, show_dmy, show_iso,
}

-- The digits of a number below 100.
digits_two : (n : ℕ) → n < 100 → 10 * (48 + n / 10 - 48) + (48 + n % 10 - 48) ≡ n
digits_two n h = omega arith

day_part-show :
    (k : Rest) (n : ℕ) (text : List ℕ) (r : Date × List ℕ)
    → 1 ≤ n
    → n ≤ 31
    → k n text ≡ some r
    → day_part k (show_two n text) ≡ some r
unfolding day_part
day_part-show k n text r low high done =
    let value = digits_two n (omega arith) in ground (arith, value, done)

month_part-show :
    (k : Rest) (n : ℕ) (text : List ℕ) (r : Date × List ℕ)
    → 1 ≤ n
    → n ≤ 12
    → k n text ≡ some r
    → month_part k (show_two n text) ≡ some r
unfolding month_part
month_part-show k n text r low high done =
    let value = digits_two n (omega arith) in ground (arith, value, done)

digits_year :
    (y : ℕ)
    → y ≤ 9999
    → 1000 * (48 + y / 1000 - 48)
        + 100 * (48 + y / 100 % 10 - 48)
        + 10 * (48 + y / 10 % 10 - 48)
        + (48 + y % 10 - 48)
      ≡ y
digits_year y h = omega arith

year_part-show :
    (k : Rest) (y : ℕ) (text : List ℕ) → y ≤ 9999 → year_part k (show_year y text) ≡ k y text
unfolding year_part
year_part-show k y text high = let value = digits_year y high in ground (arith, value)

-- A text that starts with four digits is no "%d-…": a dash must come after one or two.
day_part-of_year :
    (k : ℕ → List ℕ → Option (Date × List ℕ)) (y : ℕ) (text : List ℕ)
    → 1000 ≤ y
    → day_part (λ d. dash (k d)) (show_year y text) ≡ none
unfolding day_part
day_part-of_year k y text low = ground arith

-- What is a date lies within the bounds of its parts.
calendar_bounds :
    (d : Date)
    → is_calendar_date d ≡ true
    → (d.year ≤ 9999) × (1 ≤ d.month) × (d.month ≤ 12) × (1 ≤ d.day) × (d.day ≤ 31)
unfolding is_calendar_date
calendar_bounds d valid = ground arith

match_dmy-show : (d : Date) → is_calendar_date d ≡ true → match_dmy (show_dmy d) ≡ some (d, [])
unfolding match_dmy show_dmy
match_dmy-show d valid =
    let (year, m_low, m_high, d_low, d_high) = calendar_bounds d valid in
    day_part-show _ d.day (45 ∷ show_two d.month (45 ∷ show_year d.year [])) (d, []) d_low d_high
      (month_part-show _ d.month (45 ∷ show_year d.year []) (d, []) m_low m_high
        (year_part-show (λ y rest. some (date y d.month d.day, rest)) d.year [] year))

match_dmy-show_iso : (d : Date) → 1000 ≤ d.year → match_dmy (show_iso d) ≡ none
unfolding match_dmy show_iso
match_dmy-show_iso d low =
    day_part-of_year _ d.year (45 ∷ show_two d.month (45 ∷ show_two d.day [])) low

match_iso-show : (d : Date) → is_calendar_date d ≡ true → match_iso (show_iso d) ≡ some (d, [])
unfolding match_iso show_iso
match_iso-show d valid =
    let (year, m_low, m_high, d_low, d_high) = calendar_bounds d valid in
    year_part-show _ d.year (45 ∷ show_two d.month (45 ∷ show_two d.day [])) year
    ∙ month_part-show _ d.month (45 ∷ show_two d.day []) (d, []) m_low m_high
        (day_part-show _ d.day [] (d, []) d_low d_high refl)

-- A date of the calendar with a year of four digits is read back from its text in either format.
pub parse_flexible_date-show :
    (d : Date)
    → is_calendar_date d ≡ true
    → 1000 ≤ d.year
    → (parse_flexible_date (show_dmy d) ≡ some d) × (parse_flexible_date (show_iso d) ≡ some d)
unfolding parse_flexible_date
parse_flexible_date-show d valid low = (
  rw (match_dmy-show d valid, valid),
  rw (match_dmy-show_iso d low, match_iso-show d valid, valid),
)

or_else-cases : (a b : Option Date) (d : Date) → or_else a b ≡ some d → (a ≡ some d) ⊎ (b ≡ some d)
or_else-cases none b d e = inr e
or_else-cases (some a) b d e = inl e

finish-is_calendar_date :
    (r : Option (Date × List ℕ)) (d : Date) → finish r ≡ some d → is_calendar_date d ≡ true
finish-is_calendar_date none d e = cc
finish-is_calendar_date (some (x, [])) d e = ground arith
finish-is_calendar_date (some (x, c ∷ text)) d e = cc

-- Whatever text is read, what comes out is a date of the calendar.
pub parse_flexible_date-is_calendar_date :
    (text : List ℕ) (d : Date) → parse_flexible_date text ≡ some d → is_calendar_date d ≡ true
unfolding parse_flexible_date
parse_flexible_date-is_calendar_date text d e =
    elim (or_else-cases (finish (match_dmy text)) (finish (match_iso text)) d e) [
      | inl h ↦ finish-is_calendar_date (match_dmy text) d h
      | inr h ↦ finish-is_calendar_date (match_iso text) d h
    ]
