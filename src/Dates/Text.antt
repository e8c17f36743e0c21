-- ===== src/Dates/Text.antt =====
-- apps/common/fields.py (`FlexibleDateField`) and apps/customers/filters.py
-- (`parse_flexible_date`): dates as texts, through Python's `strptime` and `strftime` at the
-- formats that the source names. A text is the list of its code points; the digits are ASCII.
use Prim.Native.Char.{code}
use democrance_insurance_api.Prelude.{
  String, ℕ, ◌+◌, ◌-◌, ◌*◌, ◌/◌, ◌%◌, Bool, true, false, ◌&&◌, ◌||◌, Option, none, some, List, [],
  ◌∷◌, leb, ◌==◌, if◌then◌else◌,
}
use democrance_insurance_api.Dates.{Date, date}

-- The code points of a text.
abbrev pub codes : String → List ℕ
codes String.[] = []
codes (String.◌∷◌ c s) = code c ∷ codes s

-- What `datetime.date` takes.
abbrev pub is_leap : ℕ → Bool
is_leap y = (y % 4 == 0) && ((if y % 100 == 0 then false else true) || (y % 400 == 0))

abbrev pub days_in_month : ℕ → ℕ → ℕ
days_in_month y m =
    if m == 2
    then if is_leap y then 29 else 28
    else if (m == 4) || (m == 6) || (m == 9) || (m == 11)
    then 30
    else 31

unfoldable pub is_calendar_date : Date → Bool
is_calendar_date d =
    leb 1 d.year
    && leb d.year 9999
    && leb 1 d.month
    && leb d.month 12
    && leb 1 d.day
    && leb d.day (days_in_month d.year d.month)

-- The rest of a match: a part has a value and leaves the rest of the text.
abbrev pub Rest : Type 0
Rest = ℕ → List ℕ → Option (Date × List ℕ)

-- The alternatives of a regular expression, tried in order.
abbrev pub or_else {ℓ} : {A : Type ℓ} → Option A → Option A → Option A
or_else none second = second
or_else (some a) second = some a

abbrev pub between : ℕ → ℕ → ℕ → Bool
between low high c = leb low c && leb c high

-- Two characters that pass a test, and one digit from 1 to 9. A space before a digit counts as 0,
-- like in Python's `int`, since the subtraction stops at 0.
abbrev pub two_digits : (ℕ → ℕ → Bool) → Rest → List ℕ → Option (Date × List ℕ)
two_digits test k [] = none
two_digits test k (c ∷ []) = none
two_digits test k (c ∷ d ∷ text) = if test c d then k (10 * (c - 48) + (d - 48)) text else none

abbrev pub one_digit : Rest → List ℕ → Option (Date × List ℕ)
one_digit k [] = none
one_digit k (c ∷ text) = if between 49 57 c then k (c - 48) text else none

-- `%d` of `strptime`: 3[0-1] | [1-2]\d | 0[1-9] | [1-9] | space [1-9]
unfoldable pub day_part : Rest → List ℕ → Option (Date × List ℕ)
day_part k text = or_else (two_digits (λ c d. (c == 51) && between 48 49 d) k text) (
    or_else (two_digits (λ c d. between 49 50 c && between 48 57 d) k text) (
      or_else (two_digits (λ c d. (c == 48) && between 49 57 d) k text)
        (or_else (one_digit k text) (two_digits (λ c d. (c == 32) && between 49 57 d) k text))))

-- `%m`: 1[0-2] | 0[1-9] | [1-9]
unfoldable pub month_part : Rest → List ℕ → Option (Date × List ℕ)
month_part k text =
    or_else (two_digits (λ c d. (c == 49) && between 48 50 d) k text)
      (or_else (two_digits (λ c d. (c == 48) && between 49 57 d) k text) (one_digit k text))

-- `%Y`: four digits
unfoldable pub year_part : Rest → List ℕ → Option (Date × List ℕ)
year_part k (a ∷ b ∷ c ∷ d ∷ text) =
    if between 48 57 a && between 48 57 b && between 48 57 c && between 48 57 d
    then k (1000 * (a - 48) + 100 * (b - 48) + 10 * (c - 48) + (d - 48)) text
    else none
year_part k _ = none

-- A literal "-".
abbrev pub dash : (List ℕ → Option (Date × List ℕ)) → List ℕ → Option (Date × List ℕ)
dash k [] = none
dash k (c ∷ text) = if c == 45 then k text else none

unfoldable pub match_dmy : List ℕ → Option (Date × List ℕ)
match_dmy =
    day_part (λ d. dash (month_part (λ m. dash (year_part (λ y rest. some (date y m d, rest))))))

unfoldable pub match_iso : List ℕ → Option (Date × List ℕ)
match_iso =
    year_part (λ y. dash (month_part (λ m. dash (day_part (λ d rest. some (date y m d, rest))))))

-- A match must use up the text, and be a date; the rest is ValueError.
abbrev pub finish : Option (Date × List ℕ) → Option Date
finish none = none
finish (some (d, [])) = if is_calendar_date d then some d else none
finish (some (d, c ∷ text)) = none

-- `parse_flexible_date`, and `FlexibleDateField.INPUT_FORMATS` as DRF's DateField tries them.
unfoldable pub parse_flexible_date : List ℕ → Option Date
parse_flexible_date text = or_else (finish (match_dmy text)) (finish (match_iso text))

-- `strftime` of "%d", "%m" and "%Y", the last for years of four digits.
abbrev pub show_two : ℕ → List ℕ → List ℕ
show_two n text = (48 + n / 10) ∷ (48 + n % 10) ∷ text

abbrev pub show_year : ℕ → List ℕ → List ℕ
show_year y text = (48 + y / 1000) ∷ (48 + y / 100 % 10) ∷ (48 + y / 10 % 10) ∷ (48 + y % 10) ∷ text

-- `FlexibleDateField.OUTPUT_FORMAT`
unfoldable pub show_dmy : Date → List ℕ
show_dmy d = show_two d.day (45 ∷ show_two d.month (45 ∷ show_year d.year []))

-- The ISO form of a date.
unfoldable pub show_iso : Date → List ℕ
show_iso d = show_year d.year (45 ∷ show_two d.month (45 ∷ show_two d.day []))
