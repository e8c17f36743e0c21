-- ===== src/Tests/World.antt =====
-- A clock that ticks once a microsecond, one customer with a login, one product with two rules.
use democrance_insurance_api.Prelude.{
  ℤ, pos, String, Option, any, str_eq, true, false, none, some, List, [], ◌∷◌, ◌==◌, if◌then◌else◌,
}
use democrance_insurance_api.Dates.{date}
use democrance_insurance_api.Customers.{Customer, AgeLimits}
use democrance_insurance_api.Products.{ProductType, RatingRule}
use democrance_insurance_api.Accounts.{User, Role}
use democrance_insurance_api.Policies.Rows.{api}
use democrance_insurance_api.Policies.Services.{By, create_quote, accept_quote}
use democrance_insurance_api.Policies.Serializers.{Json, int, str, Fields, Dict}
use democrance_insurance_api.Database.{Db, Env, World}
use democrance_insurance_api.Lifecycle.Reachable.{
  Call, quote_call, accept_call, pay_call, untouched, served,
}

abbrev pub limits : AgeLimits
limits = record { min_age = pos 18; max_age = pos 100 }

abbrev pub outside : Env
outside = record {
  now = λ k. k;
  localdate = λ k. date 2026 6 15;
  uuid = λ k. k;
  quote_text = λ k u. if u == 2 then "QT-2026-A" else "QT-2026-B";
  quote_validity_days = 30;
  age_limits = limits;
  demo_open = true;
}

abbrev pub ben : Customer
ben = record {
  id = 1;
  reference = 100;
  first_name = "Ben";
  last_name = "Stokes";
  dob = date 1991 6 4;
  email = none;
  phone = "";
  user = some 7;
}

abbrev pub accident : ProductType
accident = record {
  id = 1;
  code = "personal-accident";
  name = "Personal Accident";
  description = "";
  is_active = true;
  default_cover = pos 20_000_000;
  min_cover = pos 1_000_000;
  max_cover = pos 100_000_000;
  min_age = 18;
  max_age = 65;
  currency = "AED";
}

-- 0.8 for each 1000 of cover.
abbrev pub young : RatingRule
young = record {
  id = 1;
  product_id = 1;
  age_band_min = 18;
  age_band_max = 40;
  rate_per_1000_cover = pos 8_000;
  loading_factor = pos 10_000;
  min_premium = pos 10_000;
  valid_from = date 2025 1 1;
  valid_to = none;
  is_active = true;
}

abbrev pub old : RatingRule
old = record young { id = 2; age_band_min = 41; age_band_max = 65 }

abbrev pub user_of_ben : User
user_of_ben = record {
  id = 7;
  email = "ben@example.com";
  role = Role.customer;
  first_name = "Ben";
  last_name = "Stokes";
  is_active = true;
  is_staff = false;
  is_superuser = false;
}

abbrev pub stranger : User
stranger = record user_of_ben { id = 8; email = "eve@example.com" }

abbrev pub by_ben : By
by_ben = record { actor = some 7; source = api }

abbrev pub by_nobody : By
by_nobody = record { actor = none; source = api }

-- Quote, accept, pay.
abbrev pub purchase : List Call
purchase =
    quote_call ben accident none by_ben none
    ∷ accept_call 1 by_ben
    ∷ pay_call 1 "simulated_card" (some "key-1") by_ben
    ∷ []

abbrev pub purchased : Db
purchased = served outside purchase (ben ∷ []) (accident ∷ []) (young ∷ old ∷ [])

-- The worlds before each of the three calls, and after all.
abbrev pub start : World
start = untouched (ben ∷ []) (accident ∷ []) (young ∷ old ∷ [])

abbrev pub quoted_world : World
quoted_world = (create_quote outside ben accident none by_ben none start).1

abbrev pub accepted_world : World
accepted_world = (accept_quote outside 1 by_ben quoted_world).1

-- The fields of DRF, on the values that they are meant for.
abbrev in_choices : List String → String → Option String
in_choices choices s = if any (λ c. str_eq c s) choices then some s else none

abbrev integer_of : Json → Option ℤ
integer_of (int n) = some n
integer_of _ = none

abbrev text_of : Json → Option String
text_of (str s) = some s
text_of _ = none

abbrev choice_of : List String → Json → Option String
choice_of choices (str s) = in_choices choices s
choice_of choices _ = none

abbrev pub fields : Fields
fields = record { integer = integer_of; slug = text_of; decimal = integer_of; choice = choice_of }

abbrev pub quote_body : Dict
quote_body = ("customer_id", int (pos 1)) ∷ ("type", str "personal-accident") ∷ []
