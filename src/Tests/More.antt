-- ===== src/Tests/More.antt =====
-- Settings, orders, histories and the admin form, on small data.
use democrance_insurance_api.Prelude.{
  ℕ, pos, ◌≡◌, refl, true, false, none, some, String, Option, [], ◌∷◌, In, sort_by, insert_by,
  eq_refl, any, arith, List, str_eq, if◌then◌else◌,
}
use democrance_insurance_api.Accounts.{scope_policies, is_agent_or_staff}
use democrance_insurance_api.Accounts.{Role}
use democrance_insurance_api.Accounts.Demo.{
  Tables, new_principal, new_demo, put_principal, put_principals, put_demo, seed_rows, seed_demo,
  Stamps, stamp, set_passwords,
}
use democrance_insurance_api.Accounts.Demo.Rerun.{IsRerun, seed_demo-IsRerun}
use democrance_insurance_api.Accounts.Session.{Tokens, logout}
use democrance_insurance_api.Accounts.Session.Revoking.{logout-revokes}
use democrance_insurance_api.Policies.Serializers.{Json, null, bool, int, str, other, Body, dict}
use democrance_insurance_api.Common.Errors.{invalid, refresh_invalid}
use democrance_insurance_api.Settings.{Environ, Casts, Secured, loaded, sqlite, base, prod}
use democrance_insurance_api.Settings.Production.{IsProduction, prod-IsProduction}
use democrance_insurance_api.Policies.StateMachine.{quoted, new}
use democrance_insurance_api.Policies.Rows.{Policy, PolicyStateTransition, api}
use democrance_insurance_api.Policies.History.{history, IsAudited}
use democrance_insurance_api.Policies.AdminForm.{save_form, blank_policy, add_policy}
use democrance_insurance_api.Policies.Timeline.{HistoryView, get_history}
use democrance_insurance_api.Policies.Views.{get_policy}
use democrance_insurance_api.Policies.Ordering.{IsTold, get_history-IsTold}
use democrance_insurance_api.Database.{World, ok, err}
use democrance_insurance_api.Lifecycle.Invariant.{IsSound}
use democrance_insurance_api.Lifecycle.Reachable.{untouched-IsSound}
use democrance_insurance_api.Lifecycle.Edited.{add_policy-untold}
use democrance_insurance_api.Routing.{public_routes, api_routes, drop_slashless_paths, resolve}
use democrance_insurance_api.Routing.Spellings.{resolve-slashed}
use democrance_insurance_api.Tests.World.{start, outside, ben, accident, young, old, user_of_ben}
use democrance_insurance_api.Tests.Quotes.{bound_policy}

-- An environment with the two variables that production needs.
abbrev environ : Environ
environ name =
    if str_eq name "SECRET_KEY"
    then some "s3cret"
    else if str_eq name "ALLOWED_HOSTS"
    then some "api.example.com"
    else none

abbrev casts : Casts String
casts = record {
  as_bool = λ s. some (str_eq s "true");
  as_int = λ s. none;
  as_csv = λ s. s ∷ [];
  parse_url = λ s. some s;
}

abbrev production : Secured casts environ
production = record {
  settings = record {
    secret_key = "s3cret";
    debug = false;
    allowed_hosts = "api.example.com" ∷ [];
    demo_open_api = true;
    default_currency = "AED";
    customer_min_age = pos 18;
    customer_max_age = pos 100;
    quote_validity_days = pos 30;
    database = sqlite;
  };
  secure_ssl_redirect = true;
  secure_hsts_seconds = pos 31_536_000;
  secure_hsts_include_subdomains = true;
  secure_hsts_preload = true;
  secure_content_type_nosniff = true;
  session_cookie_secure = true;
  csrf_cookie_secure = true;
}

prod_loads : prod casts environ ≡ loaded production
unfolding prod base
prod_loads = refl

prod-IsProduction_example : IsProduction casts environ production
prod-IsProduction_example = prod-IsProduction casts environ production prod_loads

-- One policy with its first two rows, at the same instant.
abbrev first_row : PolicyStateTransition
first_row = record {
  id = 1;
  policy_id = 1;
  from_state = none;
  to_state = new;
  actor = some 7;
  source = api;
  reason = "quote requested";
  metadata = [];
  created_at = 4;
}

abbrev second_row : PolicyStateTransition
second_row = record first_row { id = 2; from_state = some new; to_state = quoted }

abbrev two_rows : World
two_rows = record start {
  db = record start.db {
    policies = record bound_policy { state = quoted } ∷ [];
    transitions = second_row ∷ first_row ∷ [];
    next_policy = 2;
  };
}

abbrev told : HistoryView
told = record {
  policy_id = 1;
  current_state = quoted;
  transitions =
      record {
        from_state = none;
        to_state = new;
        source = api;
        actor = some "ben@example.com";
        reason = "quote requested";
        at = 4;
      }
      ∷ record {
        from_state = some new;
        to_state = quoted;
        source = api;
        actor = some "ben@example.com";
        reason = "quote requested";
        at = 4;
      }
      ∷ [];
}

ben_reads : (get_history (user_of_ben ∷ []) 1 (some user_of_ben) two_rows).0 ≡ ok told
unfolding get_history get_policy scope_policies is_agent_or_staff sort_by insert_by
ben_reads = refl

get_history-IsTold_example : IsTold (user_of_ben ∷ []) 1 (some user_of_ben) two_rows.db told
get_history-IsTold_example =
    get_history-IsTold (user_of_ben ∷ []) 1 (some user_of_ben) two_rows told ben_reads

start-IsSound : IsSound start.db
start-IsSound = untouched-IsSound (ben ∷ []) (accident ∷ []) (young ∷ old ∷ [])

abbrev blank : Policy
blank = record bound_policy {
  quote_reference = "QT-2026-B";
  premium = none;
  currency = "";
  state = new;
  rating_rule = none;
  rated_age = none;
  rated_at = none;
  quoted_at = none;
  accepted_at = none;
  activated_at = none;
  quote_expires_at = none;
  created_at = 2;
  updated_at = 2;
}

admin_adds : (add_policy outside bound_policy start).0 ≡ ok blank
unfolding add_policy blank_policy save_form
admin_adds = refl

add_policy-untold_example :
    In blank (add_policy outside bound_policy start).1.db.policies
    × (new ≡ new)
    × (history 1 (add_policy outside bound_policy start).1.db ≡ [])
    × (¬ IsAudited (add_policy outside bound_policy start).1.db)
add_policy-untold_example =
    add_policy-untold outside bound_policy start blank start-IsSound.audited admin_adds

abbrev one_digit? : String → Option ℕ
one_digit? s = if str_eq s "5" then some 5 else none

resolve-slashed_example :
    (resolve one_digit? public_routes ("quotes" ∷ "5" ∷ "pay" ∷ [])
      ≡ resolve one_digit? public_routes ("quotes" ∷ "5" ∷ "pay" ∷ "" ∷ []))
    × (resolve one_digit? (drop_slashless_paths public_routes) ("quotes" ∷ "5" ∷ "pay" ∷ "" ∷ [])
        ≡ resolve one_digit? public_routes ("quotes" ∷ "5" ∷ "pay" ∷ "" ∷ []))
    × (resolve one_digit? api_routes ("quotes" ∷ "5" ∷ "pay" ∷ [])
        ≡ resolve one_digit? public_routes ("quotes" ∷ "5" ∷ "pay" ∷ []))
resolve-slashed_example =
    resolve-slashed one_digit? refl ("quotes" ∷ "5" ∷ "pay" ∷ []) (refl, (refl, (refl, tt)))

-- Tokens by their texts; the table holds those that are revoked.
abbrev text_token : List String → Json → Option String
text_token revoked (str s) = if any (λ t. str_eq t s) revoked then none else some s
text_token revoked _ = none

abbrev by_text : Tokens String (List String)
by_text = record { refresh_token = text_token; blacklist = λ token revoked. token ∷ revoked }

by_text-revoked :
    (s : List String) (raw : Json) (token : String)
    → text_token s raw ≡ some token
    → text_token (token ∷ s) raw ≡ none
by_text-revoked s null token e = cc
by_text-revoked s (bool b) token e = cc
by_text-revoked s (int n) token e = cc
by_text-revoked s (other b) token e = cc
by_text-revoked s (str t) token e = ground (arith, eq_refl t, e)

abbrev refresh_body : Body
refresh_body = dict (("refresh", str "abc") ∷ [])

logged_out : (logout by_text refresh_body (some user_of_ben) []).0 ≡ ok tt
unfolding logout
logged_out = refl

logout-revokes_example :
    logout by_text refresh_body
      (some user_of_ben)
      (logout by_text refresh_body (some user_of_ben) []).1
    ≡ (err (invalid refresh_invalid), (logout by_text refresh_body (some user_of_ben) []).1)
logout-revokes_example =
    logout-revokes by_text by_text-revoked refresh_body user_of_ben user_of_ben [] logged_out

abbrev no_logins : Tables
no_logins = record { users = []; next_user = 1; customers = ben ∷ []; next_customer = 2 }

abbrev demo_logins : Tables
demo_logins = record {
  users =
      new_principal
        (record { email = "customer@demo.local"; role = Role.customer; is_staff = none }) 3
      ∷ new_principal (record { email = "agent@demo.local"; role = Role.agent; is_staff = none }) 2
      ∷ new_principal
          (record { email = "staff@demo.local"; role = Role.staff; is_staff = some true }) 1
      ∷ [];
  next_user = 4;
  customers = new_demo (some 3) 9 2 ∷ ben ∷ [];
  next_customer = 3;
}

abbrev unstamped : Stamps
unstamped = record { password = λ k. 0; updated_at = λ k. 0 }

abbrev first_stamps : Stamps
first_stamps = stamp (λ e. 100) 5 demo_logins unstamped

demo_seeded : seed_demo 9 (λ e. 100) 5 no_logins unstamped ≡ some (demo_logins, first_stamps)
unfolding seed_demo seed_rows put_principals put_principal put_demo set_passwords
demo_seeded = refl

seed_demo-IsRerun_example : IsRerun (λ e. 200) 6 10 demo_logins first_stamps
seed_demo-IsRerun_example =
    seed_demo-IsRerun 9 10 (λ e. 100) (λ e. 200) 5 6 no_logins demo_logins unstamped first_stamps
      demo_seeded
