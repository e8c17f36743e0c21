-- ===== src/Search.antt =====
-- apps/search/views.py, apps/customers/filters.py and apps/policies/filters.py: the unified search
-- and the filters of the two lists. The database's `icontains`, Python's `strip` are
-- parameters, and so is the order of texts that the database sorts by. A filter that is left out is
-- `none`.
pub mod Scope
pub mod Names
use Prim.Native.Nat.{zero}
use democrance_insurance_api.Prelude.{
  ℕ, suc, ℤ, pos, eqb_ℤ, Bool, true, false, ◌&&◌, ◌||◌, Option, none, some, String, List, [], ◌∷◌,
  map, filter, sort_by, find, any, length, str_eq, leb, ◌==◌, if◌then◌else◌,
}
use democrance_insurance_api.Dates.Text.{codes, parse_flexible_date}
use democrance_insurance_api.Dates.{Date, date_leb}
use democrance_insurance_api.Accounts.{Principal, customer_by_id, scope_customers}
use democrance_insurance_api.Customers.{Customer}
use democrance_insurance_api.Products.{ProductType}
use democrance_insurance_api.Policies.Rows.{Policy}
use democrance_insurance_api.Policies.StateMachine.{State, state_eqb}
use democrance_insurance_api.Policies.Views.{visible}
use democrance_insurance_api.Policies.Read.{code_of, order_listed}
use democrance_insurance_api.Database.{Db}

-- `queryset[:n]`
abbrev pub take {ℓ} : {A : Type ℓ} → ℕ → List A → List A
take zero xs = []
take (suc n) [] = []
take (suc n) (x ∷ xs) = x ∷ take n xs

-- `queryset[n:]`
abbrev pub drop {ℓ} : {A : Type ℓ} → ℕ → List A → List A
drop zero xs = xs
drop (suc n) [] = []
drop (suc n) (x ∷ xs) = drop n xs

-- `_LIMIT`
abbrev pub limit : ℕ
limit = 20

-- One section of the answer: `_section`.
pub record Section (A : Type 0) : Type 0 where
  pub count : ℕ
  pub results : List A

abbrev pub section : {A : Type 0} → List A → Section A
section rows = record { count = length rows; results = take limit rows }

-- The payload: a section that was not asked for is absent.
pub record Payload : Type 0 where
  pub customers : Option (Section Customer)
  pub policies : Option (Section Policy)

pub data Answer : Type 0 where
  bad_entity : Answer
  found : Payload → Answer

abbrev pub date_is : Option Date → Date → Bool
date_is none d = false
date_is (some e) d = date_leb d e && date_leb e d

-- A filter that was given must hold.
abbrev pub given : {A : Type 0} → (A → Bool) → Option A → Bool
given test none = true
given test (some a) = test a

-- The parameters of `CustomerFilterSet`.
pub record CustomerFilter : Type 0 where
  pub first_name : Option String
  pub last_name : Option String
  pub dob : Option String
  pub policy_type : Option String
  pub q : Option String

abbrev pub code_is : String → Option String → Bool
code_is code none = false
code_is code (some c) = str_eq c code

abbrev pub product_code : Db → Policy → Option String
product_code db p = code_of (find (λ (r : ProductType). r.id == p.product_id) db.products)

-- `policies__product__code=…`, distinct.
abbrev pub holds : Db → String → Customer → Bool
holds db code c =
    any (λ (p : Policy). p.customer_id == c.id && code_is code (product_code db p)) db.policies

-- The parameters of `PolicyFilterSet`; the two times and the choice of a state are read by
-- django-filter.
pub record PolicyFilter : Type 0 where
  pub customer_id : Option ℤ
  pub product : Option String
  pub state : Option State
  pub created_after : Option ℕ
  pub created_before : Option ℕ
  pub text : Option String

-- The default order of customers: `ordering = ["last_name", "first_name", "id"]`.
abbrev pub named_before : (String → String → Bool) → Customer → Customer → Bool
named_before text_leb c d =
    let by_key = leb c.id d.id in
    let by_first =
      if text_leb c.first_name d.first_name
      then (if text_leb d.first_name c.first_name then by_key else true)
      else false in
    if text_leb c.last_name d.last_name
    then (if text_leb d.last_name c.last_name then by_first else true)
    else false

module _ (icontains : String → String → Bool) where
  -- `Q(first_name__icontains=q) | Q(last_name__icontains=q)`
  abbrev pub name_has : String → Customer → Bool
  name_has q c = icontains c.first_name q || icontains c.last_name q

  abbrev pub owner_has : String → Option Customer → Bool
  owner_has q none = false
  owner_has q (some c) = name_has q c

  -- The three alternatives of the policy search.
  abbrev pub policy_has : String → List Customer → Policy → Bool
  policy_has q customers p =
      icontains p.quote_reference q || owner_has q (customer_by_id p.customer_id customers)

  -- `SearchView._policies`
  unfoldable pub search_policies : String → Db → Principal → List Policy
  search_policies q db who =
      order_listed (
        if str_eq q "" then visible who db else filter (policy_has q db.customers) (visible who db))

  -- The filters of a customer, all at once.
  abbrev pub is_chosen : CustomerFilter → Db → Customer → Bool
  is_chosen f db c =
      given (icontains c.first_name) f.first_name
      && given (icontains c.last_name) f.last_name
      && given (λ v. date_is (parse_flexible_date (codes v)) c.dob) f.dob
      && given (λ code. holds db code c) f.policy_type
      && given (λ v. name_has v c) f.q

  unfoldable pub filter_customers : CustomerFilter → Db → List Customer → List Customer
  filter_customers f db customers = filter (is_chosen f db) customers

  unfoldable pub filter_policies : PolicyFilter → Db → List Policy → List Policy
  filter_policies f db policies =
      filter
        (λ p.
          given (eqb_ℤ (pos p.customer_id)) f.customer_id
          && given (λ code. code_is code (product_code db p)) f.product
          && given (λ s. state_eqb p.state s) f.state
          && given (λ t. leb t p.created_at) f.created_after
          && given (λ t. leb p.created_at t) f.created_before
          && given (λ v. policy_has v db.customers p) f.text)
        policies

  module _ (text_leb : String → String → Bool) where
    -- `SearchView._customers`
    unfoldable pub search_customers : String → Db → Principal → List Customer
    search_customers q db who = sort_by (named_before text_leb) (
        if str_eq q ""
        then scope_customers db.customers who
        else filter (name_has q) (scope_customers db.customers who))

    -- `SearchView.get` on the two query parameters.
    unfoldable pub search : (String → String) → String → String → Db → Principal → Answer
    search strip entity raw db who =
        if str_eq entity "all"
        then found (record {
          customers = some (section (search_customers (strip raw) db who));
          policies = some (section (search_policies (strip raw) db who));
        })
        else if str_eq entity "customers"
        then found (record {
          customers = some (section (search_customers (strip raw) db who));
          policies = none;
        })
        else if str_eq entity "policies"
        then found (record {
          customers = none;
          policies = some (section (search_policies (strip raw) db who));
        })
        else bad_entity

    -- The rows of the list of customers, before they are cut into pages.
    unfoldable pub list_customers : CustomerFilter → Db → Principal → List Customer
    list_customers f db who =
        sort_by (named_before text_leb) (filter_customers f db (scope_customers db.customers who))
