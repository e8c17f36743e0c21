-- ===== src/Database/Deleting.antt =====
-- `delete()` on the rows of apps/customers, apps/products, apps/policies and apps/payments: what
-- the `on_delete` of each foreign key does with the rows that point at the ones deleted. A set of
-- keys is a test.
use democrance_insurance_api.Prelude.{
  ℕ, ◌≡◌, refl, Bool, true, false, not, ◌&&◌, Option, none, some, List, map, filter, any, ◌==◌,
  if◌then◌else◌,
}
use mathlib.Core.Path.{subst}
use democrance_insurance_api.Customers.{Customer}
use democrance_insurance_api.Products.{RatingRule}
use democrance_insurance_api.Policies.Rows.{Policy, PolicyStateTransition}
use democrance_insurance_api.Payments.Rows.{Payment}
use democrance_insurance_api.Database.{Db}

-- The tables afterwards, or ProtectedError.
pub data Deletion : Type 0 where
  deleted : Db → Deletion
  is_protected : Deletion

-- The rows that are left, by their keys.
abbrev pub without : {A : Type 0} → (A → ℕ) → (ℕ → Bool) → List A → List A
without key gone rows = filter (λ r. not (gone (key r))) rows

-- SET_NULL
abbrev pub nulled : (ℕ → Bool) → Option ℕ → Option ℕ
nulled gone none = none
nulled gone (some id) = if gone id then none else some id

-- `Payment.policy` is PROTECT, `PolicyStateTransition.policy` is CASCADE.
unfoldable pub delete_policies : (ℕ → Bool) → Db → Deletion
delete_policies gone db =
    if any (λ (payment : Payment). gone payment.policy_id) db.payments
    then is_protected
    else deleted (record db {
      policies = without (λ (p : Policy). p.id) gone db.policies;
      transitions = without (λ (t : PolicyStateTransition). t.policy_id) gone db.transitions;
    })

-- `Policy.customer` is PROTECT.
unfoldable pub delete_customers : (ℕ → Bool) → Db → Deletion
delete_customers gone db =
    if any (λ (p : Policy). gone p.customer_id) db.policies
    then is_protected
    else deleted (record db { customers = without (λ (c : Customer). c.id) gone db.customers })

-- `Policy.rating_rule` is SET_NULL.
abbrev pub forget_rule : (ℕ → Bool) → Policy → Policy
forget_rule gone p = record p { rating_rule = nulled gone p.rating_rule }

abbrev pub delete_rules : (ℕ → Bool) → Db → Db
delete_rules gone db = record db {
  rules = without (λ (r : RatingRule). r.id) gone db.rules;
  policies = map (forget_rule gone) db.policies;
}

-- The rules of the products, by their keys.
abbrev pub rules_of : (ℕ → Bool) → List RatingRule → ℕ → Bool
rules_of gone rules id = any (λ (r : RatingRule). gone r.product_id && r.id == id) rules

-- `Policy.product` is PROTECT, `RatingRule.product` is CASCADE.
unfoldable pub delete_products : (ℕ → Bool) → Db → Deletion
delete_products gone db =
    if any (λ (p : Policy). gone p.product_id) db.policies
    then is_protected
    else deleted (
        delete_rules (rules_of gone db.rules)
          (record db { products = without (λ p. p.id) gone db.products }))

abbrev pub forget_login : (ℕ → Bool) → Customer → Customer
forget_login gone c = record c { user = nulled gone c.user }

abbrev pub forget_author : (ℕ → Bool) → Policy → Policy
forget_author gone p = record p { created_by = nulled gone p.created_by }

abbrev pub forget_actor : (ℕ → Bool) → PolicyStateTransition → PolicyStateTransition
forget_actor gone t = record t { actor = nulled gone t.actor }

-- `Customer.user`, `Policy.created_by` and `PolicyStateTransition.actor` are SET_NULL.
abbrev pub delete_users : (ℕ → Bool) → Db → Db
delete_users gone db = record db {
  customers = map (forget_login gone) db.customers;
  policies = map (forget_author gone) db.policies;
  transitions = map (forget_actor gone) db.transitions;
}

-- The rows of one model.
pub data Model : Type 0 where
  customers products rules policies users : Model

unfoldable pub delete : Model → (ℕ → Bool) → Db → Deletion
delete customers gone db = delete_customers gone db
delete products gone db = delete_products gone db
delete rules gone db = deleted (delete_rules gone db)
delete policies gone db = delete_policies gone db
delete users gone db = deleted (delete_users gone db)

-- The logins that are left, by their keys.
abbrev pub remaining : Model → (ℕ → Bool) → (ℕ → Bool) → ℕ → Bool
remaining users gone logins id = logins id && not (gone id)
remaining model gone logins id = logins id

pub deleted-injective : {a b : Db} → deleted a ≡ deleted b → a ≡ b
deleted-injective e = cc

-- A deletion that a test guards.
pub guarded :
    (P : Db → Type 0) (stop : Bool) (db db' : Db)
    → (stop ≡ false → P db)
    → (if stop then is_protected else deleted db) ≡ deleted db'
    → P db'
guarded P true db db' there e = cc
guarded P false db db' there e = subst P (deleted-injective e) (there refl)
