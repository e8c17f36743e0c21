-- ===== src/Customers/Endpoints.antt =====
-- apps/customers/serializers.py and views.py: creating a customer and listing them. What DRF's
-- fields for the names, the e-mail and the phone accept is a parameter; the date of birth goes
-- through `FlexibleDateField`. The UniqueValidator is the one that DRF adds for `email`.
use democrance_insurance_api.Prelude.{
  ℕ, ℤ, Bool, false, not, Option, none, some, String, List, [], ◌∷◌, ◌++◌, any, str_eq, ◌==◌,
  if◌then◌else◌,
}
use democrance_insurance_api.Dates.{Date}
use democrance_insurance_api.Dates.Text.{codes, parse_flexible_date, show_dmy}
use democrance_insurance_api.Customers.{Customer, DobError, age_at, clean}
use democrance_insurance_api.Accounts.{Principal, demo_or_staff, scope_customers}
use democrance_insurance_api.Policies.Serializers.{
  Json, str, Dict, Body, dict, not_dict, lookup, unknown_keys, reject_unknown, required, optional,
  failed,
}
use democrance_insurance_api.Common.Errors.{
  invalid, expected_object, bad_fields, bad_dob, integrity_error,
}
use democrance_insurance_api.Common.Requests.{denied, request}
use democrance_insurance_api.Database.{
  Env, Action, ◌>>=◌, ◌>>◌, pure, raise, raise_if, gets, modify, ask, insert_customer,
}

-- `CharField(max_length=100)`, `EmailField(allow_null=True)` and `CharField(allow_blank=True)`.
pub record CustomerFields : Type 0 where
  pub name : Json → Option String
  pub email : Json → Option (Option String)
  pub phone : Json → Option String

-- `CustomerSerializer.Meta.fields`; the read-only ones are known and ignored.
abbrev pub customer_keys : List String
customer_keys =
    "id" ∷ "reference" ∷ "first_name" ∷ "last_name" ∷ "dob" ∷ "age" ∷ "email" ∷ "phone"
    ∷ "created_at" ∷ []

-- `validated_data`
pub record NewCustomer : Type 0 where
  pub first_name : String
  pub last_name : String
  pub dob : Date
  pub email : Option String
  pub phone : String

-- `FlexibleDateField.to_internal_value`
abbrev pub read_dob : Json → Option Date
read_dob (str s) = parse_flexible_date (codes s)
read_dob _ = none

-- A field with no value given is NULL or blank in the row.
abbrev pub given_email : Option (Option String) → Option String
given_email none = none
given_email (some email) = email

abbrev pub given_phone : Option String → String
given_phone none = ""
given_phone (some phone) = phone

-- The values that were read, or the names of the fields that failed.
abbrev pub read_customer :
    Option String
    → Option String
    → Option Date
    → Option (Option (Option String))
    → Option (Option String)
    → Action NewCustomer
read_customer (some first) (some last) (some dob) (some email) (some phone) = pure (record {
  first_name = first;
  last_name = last;
  dob = dob;
  email = given_email email;
  phone = given_phone phone;
})
read_customer first last dob email phone = raise (
    invalid (
      bad_fields (
        failed "first_name" first
        ++ failed "last_name" last
        ++ failed "dob" dob
        ++ failed "email" email
        ++ failed "phone" phone)))

-- `email=…` on the nullable column: NULL equals nothing.
abbrev pub same_email : String → Option String → Bool
same_email email none = false
same_email email (some other) = str_eq other email

abbrev pub email_taken : Option String → List Customer → Bool
email_taken none customers = false
email_taken (some email) customers = any (λ (c : Customer). same_email email c.email) customers

-- The UniqueValidator of the field `email`.
abbrev pub unique_email :
    List Customer → Option (Option (Option String)) → Option (Option (Option String))
unique_email customers none = none
unique_email customers (some email) =
    if email_taken (given_email email) customers then none else some email

abbrev pub raise_dob : Option DobError → Action (Unit {0})
raise_dob none = pure tt
raise_dob (some e) = raise (invalid (bad_dob e))

-- The rendered customer, with the age of today.
pub record CustomerRead : Type 0 where
  pub customer : Customer
  pub dob : List ℕ
  pub age : ℤ

module _ (env : Env) (fields : CustomerFields) where
  -- `CustomerSerializer.validate` with its probe.
  unfoldable pub check_customer : NewCustomer → Action NewCustomer
  check_customer v = do
    today ← ask (λ k. env.localdate (env.now k))
    raise_dob (clean env.age_limits today (some v.dob))
    pure v

  -- The fields of the body, read and validated one by one.
  abbrev pub read_fields : Dict → Action NewCustomer
  read_fields payload = do
    customers ← gets (λ db. db.customers)
    read_customer (required fields.name (lookup "first_name" payload))
        (required fields.name (lookup "last_name" payload))
        (required read_dob (lookup "dob" payload))
        (unique_email customers (optional fields.email (lookup "email" payload)))
        (optional fields.phone (lookup "phone" payload))

  -- `CustomerSerializer`, run to `validated_data`.
  unfoldable pub validate_customer : Body → Action NewCustomer
  validate_customer not_dict = raise (invalid expected_object)
  validate_customer (dict payload) =
      reject_unknown (unknown_keys customer_keys payload)
      >> (read_fields payload >>= check_customer)

  abbrev pub new_customer : NewCustomer → ℕ → ℕ → Customer
  new_customer v id reference = record {
    id = id;
    reference = reference;
    first_name = v.first_name;
    last_name = v.last_name;
    dob = v.dob;
    email = v.email;
    phone = v.phone;
    user = none;
  }

  -- `serializer.save()`: `INSERT` with the unique column `reference`.
  unfoldable pub save_customer : NewCustomer → Action Customer
  save_customer v = do
    reference ← ask env.uuid
    id ← gets (λ db. db.next_customer)
    taken ← gets (λ db. any (λ (c : Customer). c.reference == reference) db.customers)
    raise_if taken integrity_error
    modify (insert_customer (new_customer v id reference))
    pure (new_customer v id reference)

  -- `CustomerSerializer.to_representation`
  abbrev pub render_customer : Customer → Action CustomerRead
  render_customer c = do
    today ← ask (λ k. env.localdate (env.now k))
    pure (record { customer = c; dob = show_dmy c.dob; age = age_at c.dob today })

  abbrev pub save_and_render : NewCustomer → Action CustomerRead
  save_and_render v = do c ← save_customer v; render_customer c

  -- `CreateCustomerView.post` and `CustomerListCreateView.post`
  unfoldable pub create_customer : Body → Principal → Action CustomerRead
  create_customer body who =
      raise_if (not (demo_or_staff env.demo_open who)) (denied who)
      >> (validate_customer body >>= save_and_render)

  -- `CustomerListCreateView.get_queryset`, behind its permission.
  unfoldable pub list_customers : Principal → Action (List Customer)
  list_customers who = request env who (gets (λ db. scope_customers db.customers who))
