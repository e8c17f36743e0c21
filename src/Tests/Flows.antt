-- ===== src/Tests/Flows.antt =====
-- Whole flows: a purchase, a customer that is created, a request with its id, a date as a text.
use democrance_insurance_api.Prelude.{
  ℕ, pos, ◌≤◌, ◌*◌, ◌≡◌, ◌⊎◌, refl, true, false, none, some, String, Option, List, [], ◌∷◌, length,
  arith, ◌-ℤ◌, ◌*ℤ◌,
}
use democrance_insurance_api.Dates.{date, date_leb}
use democrance_insurance_api.Dates.Text.{
  parse_flexible_date, show_dmy, show_iso, is_calendar_date, match_dmy, day_part, month_part,
  year_part,
}
use democrance_insurance_api.Dates.Roundtrip.{parse_flexible_date-show}
use democrance_insurance_api.Customers.{age_at, clean}
use democrance_insurance_api.Customers.Endpoints.{
  CustomerFields, CustomerRead, check_customer, validate_customer, save_customer, create_customer,
}
use democrance_insurance_api.Customers.Creating.{IsCreated, create_customer_sound}
use democrance_insurance_api.Accounts.{demo_or_staff, demo_or_authenticated}
use democrance_insurance_api.Products.{
  covers_age, is_effective_on, insert_rule, order_rules, active_rules,
}
use democrance_insurance_api.Products.Rating.{
  candidates, newest, select_rule, quantize, raw_premium, premium_by, calculate_premium,
}
use democrance_insurance_api.Policies.StateMachine.{can_transition, transitions}
use democrance_insurance_api.Policies.Serializers.{
  validate_create, create_input, Json, str, dict, Dict,
}
use democrance_insurance_api.Policies.Services.{
  create_quote, apply_transition, create_transition, assert_can_transition, save_policy,
  create_policy,
}
use democrance_insurance_api.Policies.Views.{Response, dispatch, handle_create}
use democrance_insurance_api.Payments.Rows.{card, parse_method}
use democrance_insurance_api.Payments.Services.{usable_key}
use democrance_insurance_api.Common.Errors.{integrity_error, decimal_overflow, status_code}
use democrance_insurance_api.Common.Requests.{request, outcome, crashed}
use democrance_insurance_api.Common.Middleware.{
  LogRecord, Context, Ending, response, request_id_of, call,
}
use democrance_insurance_api.Common.Tracing.{logging_view, HasId, Stamped, call-Stamped}
use democrance_insurance_api.Common.Handler.{Framework, scalar, Answer}
use democrance_insurance_api.Common.Answering.{IsEnveloped, handler-IsEnveloped}
use democrance_insurance_api.Database.{Env, World, Result, ok, err}
use democrance_insurance_api.Lifecycle.Reachable.{after_call, Call}
use democrance_insurance_api.Lifecycle.Bounded.{
  effective_calls, is_effective, served-effective_calls,
}
use democrance_insurance_api.Lifecycle.Purchase.{CanBuy, IsBought, purchase-IsBought}
use democrance_insurance_api.Lifecycle.Outcomes.{request-crashed}
use democrance_insurance_api.Tests.World.{
  by_ben, start, outside, fields, ben, accident, young, old, purchase, purchased, quote_body,
}

can_buy :
    CanBuy outside ben accident none none "simulated_card"
      (some "key-1")
      by_ben
      start
      (pos 16_000)
      card
unfolding calculate_premium premium_by raw_premium quantize select_rule newest candidates
    active_rules order_rules insert_rule covers_age is_effective_on age_at ◌-ℤ◌ ◌*ℤ◌ date_leb
    parse_method usable_key
can_buy = record {
  priced = refl;
  fits = refl;
  reference_free = refl;
  in_time = omega arith;
  method = refl;
  key_free = refl;
  uuid_free = refl;
}

purchase-IsBought_example :
    IsBought outside ben accident none none "simulated_card"
      (some "key-1")
      by_ben
      start
      (pos 16_000)
purchase-IsBought_example =
    purchase-IsBought outside ben accident none none "simulated_card" (some "key-1") by_ben start
      (pos 16_000) card can_buy

served-effective_calls_example :
    (effective_calls outside purchase start ≤ 4 * length purchased.policies)
    × ((c : Call) (w : World)
        → is_effective outside c w ≡ false
        → (after_call outside c w).db ≡ w.db)
served-effective_calls_example =
    served-effective_calls outside purchase (ben ∷ []) (accident ∷ []) (young ∷ old ∷ [])

leap_day : is_calendar_date (date 2000 2 29) ≡ true
unfolding is_calendar_date
leap_day = refl

parse_flexible_date-show_example :
    (parse_flexible_date (show_dmy (date 2000 2 29)) ≡ some (date 2000 2 29))
    × (parse_flexible_date (show_iso (date 2000 2 29)) ≡ some (date 2000 2 29))
parse_flexible_date-show_example = parse_flexible_date-show (date 2000 2 29) leap_day (omega arith)

abbrev text_field : Json → Option String
text_field (str s) = some s
text_field _ = none

abbrev email_field : Json → Option (Option String)
email_field (str s) = some (some s)
email_field _ = none

abbrev customer_fields : CustomerFields
customer_fields = record { name = text_field; email = email_field; phone = text_field }

abbrev ana_body : Dict
ana_body = ("first_name", str "Ana") ∷ ("last_name", str "Lee") ∷ ("dob", str "04-06-1991") ∷ []

abbrev ana : CustomerRead
ana = record {
  customer = record {
    id = 1;
    reference = 1;
    first_name = "Ana";
    last_name = "Lee";
    dob = date 1991 6 4;
    email = none;
    phone = "";
    user = none;
  };
  dob = 48 ∷ 52 ∷ 45 ∷ 48 ∷ 54 ∷ 45 ∷ 49 ∷ 57 ∷ 57 ∷ 49 ∷ [];
  age = pos 35;
}

ana_created : (create_customer outside customer_fields (dict ana_body) none start).0 ≡ ok ana
unfolding create_customer validate_customer check_customer save_customer demo_or_staff clean age_at
    date_leb ◌-ℤ◌ match_dmy day_part month_part year_part parse_flexible_date is_calendar_date
    show_dmy
ana_created = refl

create_customer_sound_example :
    IsCreated outside customer_fields none start ana
      (create_customer outside customer_fields (dict ana_body) none start).1.db
create_customer_sound_example =
    create_customer_sound outside customer_fields (dict ana_body) none start ana ana_created

-- A view that logs two lines.
abbrev two_lines : String → List LogRecord
two_lines id =
    let line : LogRecord = record {
      level = "INFO";
      logger = "apps";
      message = "quote created";
      request_id = none;
      extra_fields = [];
    } in
    line ∷ line ∷ []

abbrev fine : String → Ending ℕ ℕ
fine id = response 200 []

abbrev idle : Context
idle = record { request_id_var = "-"; lines = [] }

call-Stamped_example :
    HasId
      (request_id_of (some "abc") "minted")
      (call (logging_view two_lines fine) (some "abc") "minted" idle).0
    × ((call (logging_view two_lines fine) (some "abc") "minted" idle).1.request_id_var ≡ "-")
    × Stamped
        (request_id_of (some "abc") "minted")
        2
        []
        (call (logging_view two_lines fine) (some "abc") "minted" idle).1.lines
call-Stamped_example = call-Stamped two_lines fine (some "abc") "minted" idle

-- A framework that knows one exception.
abbrev one_error : Framework ℕ String
one_error = record {
  as_drf = λ e. e;
  drf = λ e. some (409, scalar "no");
  explicit = λ e. some "duplicate_request";
  extra = λ e. [];
  str = λ s. s;
  joined = λ xs. "";
}

handler-IsEnveloped_example : (a : Answer String) × IsEnveloped one_error 0 409 a
handler-IsEnveloped_example = handler-IsEnveloped one_error 0 409 (scalar "no") refl

-- References that are all alike.
abbrev same_text : Env
same_text = record outside { quote_text = λ k u. "QT" }

abbrev second_quote : Result Response × World
second_quote =
    request same_text none (dispatch same_text fields (dict quote_body) none)
      (create_quote same_text ben accident none by_ben none start).1

second_crashes : outcome second_quote.0 ≡ crashed
unfolding request dispatch handle_create validate_create create_input demo_or_authenticated outcome
    status_code create_quote apply_transition create_transition assert_can_transition save_policy
    create_policy can_transition transitions calculate_premium premium_by raw_premium quantize
    select_rule newest candidates active_rules order_rules insert_rule covers_age is_effective_on
    age_at ◌-ℤ◌ ◌*ℤ◌ date_leb
second_crashes = refl

request-crashed_example :
    (second_quote.0 ≡ err integrity_error) ⊎ (second_quote.0 ≡ err decimal_overflow)
request-crashed_example =
    request-crashed same_text fields (dict quote_body) none
      (create_quote same_text ben accident none by_ben none start).1 second_crashes
