-- ===== src/Accounts.antt =====
-- apps/accounts/models.py and permissions.py: the roles, the two permission classes and the
-- narrowing of a query to what a principal may see.
pub mod Scoping
pub mod Manager
pub mod Superusers
pub mod Session
pub mod Demo
use democrance_insurance_api.Prelude.{
  ℕ, Bool, true, false, not, ◌&&◌, ◌||◌, Option, none, some, String, List, filter, find, ◌==◌,
  if◌then◌else◌,
}
use democrance_insurance_api.Customers.{Customer}

-- `User.Role`
pub data Role : Type 0 where
  staff agent customer : Role

-- A login; the password and the permission tables of Django are left out.
pub record User : Type 0 where
  pub id : ℕ
  pub email : String
  pub role : Role
  pub first_name : String
  pub last_name : String
  pub is_active : Bool
  pub is_staff : Bool
  pub is_superuser : Bool

abbrev pub in_staff_roles : Role → Bool
in_staff_roles Role.staff = true
in_staff_roles Role.agent = true
in_staff_roles Role.customer = false

-- `User.is_agent_or_staff`
unfoldable pub is_agent_or_staff : User → Bool
is_agent_or_staff user = user.is_superuser || in_staff_roles user.role

-- `User.is_customer`: the role is the third one, and the user is no superuser.
unfoldable pub is_customer : User → Bool
is_customer user = not (in_staff_roles user.role) && not user.is_superuser

-- `request.user`: `none` is `None` or Django's AnonymousUser, `some` is an authenticated login.
abbrev pub Principal : Type 0
Principal = Option User

-- `DemoOrAuthenticated.has_permission`, given `settings.DEMO_OPEN_API`.
unfoldable pub demo_or_authenticated : Bool → Principal → Bool
demo_or_authenticated demo_open none = demo_open
demo_or_authenticated demo_open (some user) = true

-- `DemoOrStaff.has_permission`
unfoldable pub demo_or_staff : Bool → Principal → Bool
demo_or_staff demo_open none = demo_open
demo_or_staff demo_open (some user) = is_agent_or_staff user

-- `user=user` on the nullable `Customer.user`
abbrev pub linked_to : User → Option ℕ → Bool
linked_to user none = false
linked_to user (some user_id) = user_id == user.id

unfoldable pub scope_customers : List Customer → Principal → List Customer
scope_customers customers none = customers
scope_customers customers (some user) =
    if is_agent_or_staff user then customers else filter (λ c. linked_to user c.user) customers

-- `customer__user=user`: the join through the foreign key.
abbrev pub owner_is : User → Option Customer → Bool
owner_is user none = false
owner_is user (some c) = linked_to user c.user

abbrev pub customer_by_id : ℕ → List Customer → Option Customer
customer_by_id id customers = find (λ c. c.id == id) customers

-- `scope_policies` on any rows that have a `customer_id`.
unfoldable pub scope_policies {ℓ} :
    {P : Type ℓ} → (P → ℕ) → List Customer → List P → Principal → List P
scope_policies customer_id customers policies none = policies
scope_policies customer_id customers policies (some user) =
    if is_agent_or_staff user
    then policies
    else filter (λ p. owner_is user (customer_by_id (customer_id p) customers)) policies
