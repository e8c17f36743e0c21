-- ===== src/Accounts/Scoping.antt =====
-- The roles and scopes of apps/accounts, against what a principal may see.
use democrance_insurance_api.Prelude.{
  ℕ, Bool, Option, ◌||◌, true, false, not, ◌≡◌, ◌↔◌, ◌⊎◌, none, some, List, In, In-filter, arith,
}
use democrance_insurance_api.Customers.{Customer}
use democrance_insurance_api.Accounts.{
  User, Principal, is_agent_or_staff, is_customer, demo_or_authenticated, demo_or_staff, linked_to,
  scope_customers, owner_is, customer_by_id, scope_policies,
}

-- A login is either privileged or a customer, never both.
pub is_customer_iff : (user : User) → is_customer user ≡ not (is_agent_or_staff user)
unfolding is_customer is_agent_or_staff
is_customer_iff user = ground arith

-- What a principal may see of a record that belongs to the login `owner`.
abbrev pub MaySee : Principal → Option ℕ → Type 0
MaySee none owner = Unit
MaySee (some user) owner = (is_customer user ≡ false) ⊎ (owner ≡ some user.id)

pub linked_to_iff :
    (user : User) (owner : Option ℕ) → (linked_to user owner ≡ true) ↔ (owner ≡ some user.id)
linked_to_iff user none = ground arith
linked_to_iff user (some k) = ground arith

-- The scoped customers are exactly those that the principal may see: all without a login or for
-- staff, its own for a customer.
pub In-scope_customers :
    (customers : List Customer) (who : Principal) (c : Customer)
    → In c (scope_customers customers who) ↔ (In c customers × MaySee who c.user)
unfolding scope_customers
In-scope_customers customers none c = ground arith
In-scope_customers customers (some user) c =
    let kept = In-filter (λ (x : Customer). linked_to user x.user) c customers in
    ground (arith, kept, is_customer_iff user, linked_to_iff user c.user)

abbrev pub owner_of : Option Customer → Option ℕ
owner_of none = none
owner_of (some c) = c.user

owner_is_iff :
    (user : User) (c : Option Customer) → (owner_is user c ≡ true) ↔ (owner_of c ≡ some user.id)
owner_is_iff user none = ground arith
owner_is_iff user (some c) = linked_to_iff user c.user

-- The scoped policies are exactly those whose customer's login the principal may see: all without
-- a login or for staff, its own for a customer.
pub In-scope_policies :
    {P : Type 0} (customer_id : P → ℕ) (customers : List Customer) (policies : List P)
    (who : Principal) (p : P)
    → In p (scope_policies customer_id customers policies who)
      ↔ (In p policies × MaySee who (owner_of (customer_by_id (customer_id p) customers)))
unfolding scope_policies
In-scope_policies customer_id customers policies none p = ground arith
In-scope_policies {P} customer_id customers policies (some user) p =
    let kept =
      In-filter (λ (x : P). owner_is user (customer_by_id (customer_id x) customers)) p policies in
    let owner = owner_is_iff user (customer_by_id (customer_id p) customers) in
    ground (arith, kept, is_customer_iff user, owner)

-- Who may create a customer: any login but a customer's, and without a login only the demo mode.
abbrev pub MayCreate : Bool → Principal → Type 0
MayCreate demo_open none = demo_open ≡ true
MayCreate demo_open (some user) = is_customer user ≡ false

-- The permission to create customers is given exactly to logins that are no customer, and to
-- requests without a login in demo mode; whoever has it has the default permission too.
pub demo_or_staff_iff :
    (demo_open : Bool) (who : Principal)
    → ((demo_or_staff demo_open who ≡ true) ↔ MayCreate demo_open who)
      × (not (demo_or_staff demo_open who) || demo_or_authenticated demo_open who ≡ true)
unfolding demo_or_staff demo_or_authenticated
demo_or_staff_iff demo_open none = ground arith
demo_or_staff_iff demo_open (some user) = ground (arith, is_customer_iff user)
