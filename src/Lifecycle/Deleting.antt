-- ===== src/Lifecycle/Deleting.antt =====
-- Deleted rows, against the invariant of apps/policies and apps/payments.
use democrance_insurance_api.Prelude.{
  ℕ, ◌≡◌, refl, sym, some, filter-eq-nil, any-none, ==_iff, inl, inr, Bool, Bool-cases, true, any,
  List, In, arith, ◌==◌, if◌then◌else◌,
}
use mathlib.Core.Path.{subst}
use mathlib.Core.List.{map-id}
use democrance_insurance_api.Customers.{Customer}
use democrance_insurance_api.Products.{ProductType, RatingRule}
use democrance_insurance_api.Policies.Rows.{Policy, PolicyStateTransition}
use democrance_insurance_api.Payments.Rows.{Payment}
use democrance_insurance_api.Policies.StateMachine.{State}
use democrance_insurance_api.Policies.History.{history, Recorded, nothing, Recorded-unique}
use democrance_insurance_api.Policies.AdminDelete.{
  has_protected, lacks_permission, delete_on_admin, has_permission,
}
use democrance_insurance_api.Lifecycle.Reachable.{Call, served, served-IsSound}
use democrance_insurance_api.Lifecycle.Edited.{SameBusiness}
use democrance_insurance_api.Database.{Db, Env}
use democrance_insurance_api.Database.Deleting.{
  deleted, deleted-injective, guarded, without, Model, remaining, delete, delete_policies,
  delete_customers, delete_products, delete_rules, delete_users, rules_of, forget_rule,
  forget_author, forget_actor,
}
use democrance_insurance_api.Database.Links.{IsLinked, delete-IsLinked}
use democrance_insurance_api.Lifecycle.Invariant.{IsSound}
use democrance_insurance_api.Lifecycle.Thinning.{
  Thins, Thins-IsSound, policies-Thins, rewritten-Thins, same-SameBusiness,
}

forget_rule-SameBusiness : (gone : ℕ → Bool) (p : Policy) → SameBusiness (forget_rule gone p) p
forget_rule-SameBusiness gone p = record {
  same_id = refl;
  same_state = refl;
  same_premium = refl;
  same_currency = refl;
}

rules_rewritten : (gone : ℕ → Bool) (db : Db) → Thins db (delete_rules gone db)
rules_rewritten gone db =
    rewritten-Thins (forget_rule gone) (forget_rule-SameBusiness gone) (λ t. t) (λ t. (refl, refl))
      (λ t. refl) db (delete_rules gone db) refl (sym (map-id db.transitions)) refl refl

customers-Thins :
    (db : Db) (customers : List Customer) → Thins db (record db { customers = customers })
customers-Thins db customers =
    rewritten-Thins (λ p. p) same-SameBusiness (λ t. t) (λ t. (refl, refl)) (λ t. refl) db
      (record db { customers = customers }) (sym (map-id db.policies)) (sym (map-id db.transitions))
      refl refl

users_rewritten : (gone : ℕ → Bool) (db : Db) → Thins db (delete_users gone db)
users_rewritten gone db =
    rewritten-Thins (forget_author gone)
      (λ p. record { same_id = refl; same_state = refl; same_premium = refl; same_currency = refl })
      (forget_actor gone) (λ t. (refl, refl)) (λ t. refl) db (delete_users gone db) refl refl refl
      refl

products_rewritten :
    (gone : ℕ → Bool) (db : Db) (products : List ProductType)
    → Thins db (delete_rules gone (record db { products = products }))
products_rewritten gone db products =
    rewritten-Thins (forget_rule gone) (forget_rule-SameBusiness gone) (λ t. t) (λ t. (refl, refl))
      (λ t. refl) db (delete_rules gone (record db { products = products })) refl
      (sym (map-id db.transitions)) refl refl

delete-Thins :
    (model : Model) (gone : ℕ → Bool) (db db' : Db)
    → delete model gone db ≡ deleted db'
    → Thins db db'
unfolding delete delete_policies delete_customers delete_products
delete-Thins Model.customers gone db db' e =
    guarded (Thins db) (any (λ (p : Policy). gone p.customer_id) db.policies) _ db'
      (λ free. customers-Thins db (without (λ (c : Customer). c.id) gone db.customers)) e
delete-Thins Model.products gone db db' e =
    guarded (Thins db) (any (λ (p : Policy). gone p.product_id) db.policies) _ db'
      (λ free.
        products_rewritten (rules_of gone db.rules) db
          (without (λ (p : ProductType). p.id) gone db.products))
      e
delete-Thins Model.rules gone db db' e =
    subst (Thins db) (deleted-injective e) (rules_rewritten gone db)
delete-Thins Model.policies gone db db' e =
    guarded (Thins db) (any (λ (payment : Payment). gone payment.policy_id) db.payments) _ db'
      (policies-Thins gone db) e
delete-Thins Model.users gone db db' e =
    subst (Thins db) (deleted-injective e) (users_rewritten gone db)

-- On tables that satisfy the invariant and whose foreign keys point at rows, those to logins
-- included, a deletion of customers, products, rules, policies or logins that is not refused keeps
-- both, for the logins that remain, and keeps every payment.
pub delete-IsSound :
    (model : Model) (logins gone : ℕ → Bool) (db db' : Db)
    → IsSound db
    → IsLinked logins db
    → delete model gone db ≡ deleted db'
    → IsSound db' × IsLinked (remaining model gone logins) db' × (db'.payments ≡ db.payments)
delete-IsSound model logins gone db db' sound links e =
    let thin = delete-Thins model gone db db' e in
    (Thins-IsSound thin sound, delete-IsLinked model logins gone db db' links e, thin.same_payments)

-- A policy with a lawful history has a row of history.
recorded-told :
    (selected : ℕ → Bool) (id : ℕ) (s : State) (db : Db)
    → selected id ≡ true
    → Recorded (history id db) (some s)
    → any (λ (t : PolicyStateTransition). selected t.policy_id) db.transitions ≡ true
recorded-told selected id s db picked r =
    elim (Bool-cases (any (λ (t : PolicyStateTransition). selected t.policy_id) db.transitions)) [
      | inl e ↦ e
      | inr none_told ↦
          let empty =
            filter-eq-nil (λ (t : PolicyStateTransition). t.policy_id == id) db.transitions
              (λ t m.
                let spared =
                  any-none (λ (u : PolicyStateTransition). selected u.policy_id) t db.transitions
                    none_told m in
                elim (Bool-cases (t.policy_id == id)) [
                  | inl same ↦ let key = (==_iff t.policy_id id).0 same in absurd cc
                  | inr other ↦ other
                ]) in
          absurd (cc (Recorded-unique (subst (λ rows. Recorded rows (some s)) empty r) nothing))
    ]

-- After any sequence of calls of the four services on a database with a catalogue and customers
-- only, the admin site refuses to delete a selection with a policy in it: for its payments when
-- one of the selected has a payment, and else for its history rows.
pub served-undeletable :
    (env : Env) (calls : List Call) (customers : List Customer) (products : List ProductType)
    (rules : List RatingRule) (selected : ℕ → Bool) (p : Policy)
    → In p (served env calls customers products rules).policies
    → selected p.id ≡ true
    → delete_on_admin selected (served env calls customers products rules) ≡ (
        if any
          (λ (payment : Payment). selected payment.policy_id)
          (served env calls customers products rules).payments
        then has_protected
        else lacks_permission)
unfolding delete_on_admin delete_policies has_permission
served-undeletable env calls customers products rules selected p listed picked =
    let sound = served-IsSound env calls customers products rules in
    let told =
      recorded-told selected p.id p.state (served env calls customers products rules) picked
        (sound.audited.recorded p listed) in
    ground (arith, told)
