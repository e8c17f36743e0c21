-- ===== src/Customers/Failing.antt =====
-- What a request to create a customer through apps/customers/views.py leaves when it fails.
use democrance_insurance_api.Prelude.{refl, not, Option, String, List, [], ◌∷◌, arith}
use democrance_insurance_api.Dates.{Date}
use democrance_insurance_api.Accounts.{Principal, demo_or_staff}
use democrance_insurance_api.Policies.Serializers.{
  Dict, Body, dict, not_dict, reject_unknown, unknown_keys,
}
use democrance_insurance_api.Customers.Endpoints.{
  CustomerFields, NewCustomer, create_customer, validate_customer, save_customer, check_customer,
  read_fields, save_and_render, render_customer, customer_keys, read_customer,
}
use democrance_insurance_api.Common.Requests.{denied}
use democrance_insurance_api.Database.{Env, ◌>>=◌, raise_if}
use democrance_insurance_api.Database.Runs.{
  IsQuiet->>=, IsQuiet, FailsQuietly, IsQuiet->>=-FailsQuietly, FailsQuietly->>=,
}

module _ (env : Env) (fields : CustomerFields) where
  read_customer-IsQuiet :
      (first last : Option String) (dob : Option Date) (email : Option (Option (Option String)))
      (phone : Option (Option String))
      → IsQuiet (read_customer first last dob email phone)
  read_customer-IsQuiet first last dob email phone w = ground arith

  read_fields-IsQuiet : (payload : Dict) → IsQuiet (read_fields env fields payload)
  read_fields-IsQuiet payload w = read_customer-IsQuiet _ _ _ _ _ w

  check_customer-IsQuiet : (v : NewCustomer) → IsQuiet (check_customer env fields v)
  unfolding check_customer
  check_customer-IsQuiet v w = ground arith

  reject_unknown-IsQuiet : (keys : List String) → IsQuiet (reject_unknown keys)
  reject_unknown-IsQuiet [] w = refl
  reject_unknown-IsQuiet (key ∷ keys) w = refl

  validate_customer-IsQuiet : (body : Body) → IsQuiet (validate_customer env fields body)
  unfolding validate_customer
  validate_customer-IsQuiet not_dict = λ w. refl
  validate_customer-IsQuiet (dict payload) =
      IsQuiet->>= (reject_unknown (unknown_keys customer_keys payload))
        (λ _. read_fields env fields payload >>= check_customer env fields)
        (reject_unknown-IsQuiet (unknown_keys customer_keys payload))
        (λ _.
          IsQuiet->>= (read_fields env fields payload) (check_customer env fields)
            (read_fields-IsQuiet payload) check_customer-IsQuiet)

  save_customer-FailsQuietly : (v : NewCustomer) → FailsQuietly (save_customer env fields v)
  unfolding save_customer
  save_customer-FailsQuietly v w e failed = ground arith

  -- A request to create a customer that ends in an error leaves the tables as they were.
  pub create_customer-FailsQuietly :
      (body : Body) (who : Principal) → FailsQuietly (create_customer env fields body who)
  unfolding create_customer
  create_customer-FailsQuietly body who =
      IsQuiet->>=-FailsQuietly (raise_if (not (demo_or_staff env.demo_open who)) (denied who))
        (λ _. validate_customer env fields body >>= save_and_render env fields) (λ w. refl)
        (λ _.
          IsQuiet->>=-FailsQuietly (validate_customer env fields body) (save_and_render env fields)
            (validate_customer-IsQuiet body)
            (λ v.
              FailsQuietly->>= (save_customer env fields v) (render_customer env fields)
                (save_customer-FailsQuietly v) (λ c w e h. cc)))
