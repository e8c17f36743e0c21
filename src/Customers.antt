-- ===== src/Customers.antt =====
-- apps/customers/models.py: the customer record, its age and its domain rules. A UUID is a
-- number; `phone` and the timestamps do not enter any rule.
pub mod Age
pub mod Endpoints
pub mod Failing
pub mod Creating
use democrance_insurance_api.Prelude.{
  ℕ, ℤ, pos, ◌-ℤ◌, leb_ℤ, Bool, true, false, not, ◌&&◌, Option, none, some, String, if◌then◌else◌,
}
use democrance_insurance_api.Dates.{Date, date_leb, month_day_leb}

pub record Customer : Type 0 where
  pub id : ℕ
  pub reference : ℕ
  pub first_name : String
  pub last_name : String
  pub dob : Date
  pub email : Option String
  pub phone : String
  -- The linked login, `user_id`.
  pub user : Option ℕ

-- `Customer.age_at` for the date of birth `born`; a birth after `as_of` gives a negative age.
unfoldable pub age_at : Date → Date → ℤ
age_at born as_of =
    let had_birthday = month_day_leb born.month born.day as_of.month as_of.day in
    (pos as_of.year -ℤ pos born.year) -ℤ (if had_birthday then pos 0 else pos 1)

-- `settings.CUSTOMER_MIN_AGE` and `settings.CUSTOMER_MAX_AGE`
pub record AgeLimits : Type 0 where
  pub min_age : ℤ
  pub max_age : ℤ

-- The two errors of `Customer.clean`, both under the key `dob`.
pub data DobError : Type 0 where
  not_in_past : DobError
  age_out_of_band : ℤ → ℤ → DobError

-- `Customer.clean` on a probe whose `dob` may be missing; `none` when it raises nothing.
unfoldable pub clean : AgeLimits → Date → Option Date → Option DobError
unfolding age_at
clean limits today none = none
clean limits today (some dob) =
    let age = age_at dob today in
    if date_leb today dob
    then some not_in_past
    else if not (leb_ℤ limits.min_age age && leb_ℤ age limits.max_age)
    then some (age_out_of_band limits.min_age limits.max_age)
    else none
