-- ===== src/Policies/Read.antt =====
-- apps/policies/serializers.py and views.py: what a policy is rendered as, alone and in the list.
use democrance_insurance_api.Prelude.{
  ℕ, ℤ, pos, Bool, Option, none, some, String, List, [], ◌∷◌, map, filter, find, sort_by, leb, ltb,
  ◌==◌, if◌then◌else◌,
}
use democrance_insurance_api.Accounts.{Principal, customer_by_id}
use democrance_insurance_api.Customers.{Customer}
use democrance_insurance_api.Products.{ProductType}
use democrance_insurance_api.Policies.StateMachine.{State}
use democrance_insurance_api.Policies.Rows.{Policy}
use democrance_insurance_api.Policies.Views.{visible}
use democrance_insurance_api.Payments.Rows.{Payment, Method, Status}
use democrance_insurance_api.Common.Errors.{missing, policy_id}
use democrance_insurance_api.Database.{Db, Action, ◌>>=◌, pure, gets, or_raise}

-- `PaymentSummarySerializer`
pub record PaymentSummary : Type 0 where
  pub reference : ℕ
  pub method : Method
  pub amount : ℤ
  pub currency : String
  pub status : Status
  pub settled_at : Option ℕ

-- `PolicyReadSerializer`; the product's code is absent where the row points at no product.
pub record PolicyRead : Type 0 where
  pub id : ℕ
  pub quote_reference : String
  pub customer_id : ℕ
  pub product_code : Option String
  pub premium : Option ℤ
  pub cover : ℤ
  pub currency : String
  pub state : State
  pub rated_age : Option ℤ
  pub quoted_at : Option ℕ
  pub accepted_at : Option ℕ
  pub activated_at : Option ℕ
  pub quote_expires_at : Option ℕ
  pub payment : Option PaymentSummary

-- `PolicyDetailSerializer`
pub record PolicyDetail : Type 0 where
  pub read : PolicyRead
  pub customer : Option Customer
  pub rated_at : Option ℕ

abbrev pub summary : Payment → PaymentSummary
summary p = record {
  reference = p.reference;
  method = p.method;
  amount = p.amount;
  currency = p.currency;
  status = p.status;
  settled_at = p.settled_at;
}

-- `(a.created_at, a.id) < (b.created_at, b.id)`
abbrev pub is_newer : Payment → Payment → Bool
is_newer b a = if a.created_at == b.created_at then ltb a.id b.id else ltb a.created_at b.created_at

-- `max(payments, key=…)` with `best` so far.
unfoldable pub latest : Payment → List Payment → Payment
latest best [] = best
latest best (p ∷ payments) = latest (if is_newer p best then p else best) payments

abbrev pub latest? : List Payment → Option Payment
latest? [] = none
latest? (p ∷ payments) = some (latest p payments)

abbrev pub payments_of : ℕ → Db → List Payment
payments_of id db = filter (λ (p : Payment). p.policy_id == id) db.payments

abbrev pub summary? : Option Payment → Option PaymentSummary
summary? none = none
summary? (some p) = some (summary p)

-- `PolicyReadSerializer.get_payment`
unfoldable pub get_payment : Db → Policy → Option PaymentSummary
get_payment db p = summary? (latest? (payments_of p.id db))

abbrev pub code_of : Option ProductType → Option String
code_of none = none
code_of (some product) = some product.code

unfoldable pub read_policy : Db → Policy → PolicyRead
read_policy db p = record {
  id = p.id;
  quote_reference = p.quote_reference;
  customer_id = p.customer_id;
  product_code = code_of (find (λ (q : ProductType). q.id == p.product_id) db.products);
  premium = p.premium;
  cover = p.cover;
  currency = p.currency;
  state = p.state;
  rated_age = p.rated_age;
  quoted_at = p.quoted_at;
  accepted_at = p.accepted_at;
  activated_at = p.activated_at;
  quote_expires_at = p.quote_expires_at;
  payment = get_payment db p;
}

-- `PolicyDetailView.get`: like `get_policy`, with its own message.
unfoldable pub get_detail : ℕ → Principal → Action PolicyDetail
get_detail pk who = do
  seen ← gets (visible who)
  policy ← or_raise (find (λ (p : Policy). p.id == pk) seen) (missing (policy_id (pos pk)))
  read ← gets (λ db. read_policy db policy)
  customer ← gets (λ db. customer_by_id policy.customer_id db.customers)
  pure (record { read = read; customer = customer; rated_at = policy.rated_at })

-- `ordering = ["-created_at", "-id"]`
abbrev pub listed_before : Policy → Policy → Bool
listed_before p q =
    if p.created_at == q.created_at then leb q.id p.id else ltb q.created_at p.created_at

abbrev pub order_listed : List Policy → List Policy
order_listed policies = sort_by listed_before policies

-- `PolicyListView.get` without filters, before it is cut into pages.
unfoldable pub list_policies : Db → Principal → List PolicyRead
list_policies db who = map (read_policy db) (order_listed (visible who db))
