-- ===== src/Accounts/Demo.antt =====
-- apps/accounts/management/commands/seed_demo.py: the demo logins and the customer that is linked
-- to one of them. The e-mail columns of both tables are unique.
pub mod Rerun
use democrance_insurance_api.Prelude.{
  ℕ, suc, Bool, true, false, not, ◌&&◌, ◌==◌, Option, none, some, String, List, [], ◌∷◌, any, find,
  update, str_eq, if◌then◌else◌,
}
use democrance_insurance_api.Dates.{date}
use democrance_insurance_api.Customers.{Customer}
use democrance_insurance_api.Customers.Endpoints.{same_email}
use democrance_insurance_api.Accounts.{User, Role}
use democrance_insurance_api.Accounts.Manager.{set_default}

-- A row of `PRINCIPALS`: e-mail, role, and `is_staff` where it is given.
pub record DemoPrincipal : Type 0 where
  pub email : String
  pub role : Role
  pub is_staff : Option Bool

abbrev pub principals : List DemoPrincipal
principals =
    record { email = "staff@demo.local"; role = Role.staff; is_staff = some true }
    ∷ record { email = "agent@demo.local"; role = Role.agent; is_staff = none }
    ∷ record { email = "customer@demo.local"; role = Role.customer; is_staff = none }
    ∷ []

-- The two tables and their next keys.
pub record Tables : Type 0 where
  pub users : List User
  pub next_user : ℕ
  pub customers : List Customer
  pub next_customer : ℕ

abbrev pub has_email : DemoPrincipal → User → Bool
has_email p user = str_eq user.email p.email

-- `defaults` over a row that is there, and in a new one.
abbrev pub set_principal : DemoPrincipal → User → User
set_principal p user = record user {
  role = p.role;
  is_active = true;
  is_staff = set_default user.is_staff p.is_staff;
}

abbrev pub new_principal : DemoPrincipal → ℕ → User
new_principal p id = record {
  id = id;
  email = p.email;
  role = p.role;
  first_name = "";
  last_name = "";
  is_active = true;
  is_staff = set_default false p.is_staff;
  is_superuser = false;
}

-- `User.objects.update_or_create(email=…, defaults=…)`
unfoldable pub put_principal : DemoPrincipal → Tables → Tables
put_principal p t =
    if any (has_email p) t.users
    then record t { users = update (has_email p) (set_principal p) t.users }
    else record t { users = new_principal p t.next_user ∷ t.users; next_user = suc t.next_user }

unfoldable pub put_principals : List DemoPrincipal → Tables → Tables
put_principals [] t = t
put_principals (p ∷ ps) t = put_principals ps (put_principal p t)

abbrev pub key_of : Option User → Option ℕ
key_of none = none
key_of (some user) = some user.id

-- The key of `users["customer"]`.
abbrev pub demo_user : List User → Option ℕ
demo_user users = key_of (find (λ (u : User). str_eq u.email "customer@demo.local") users)

abbrev pub is_demo : Customer → Bool
is_demo c = same_email "customer@demo.local" c.email

abbrev pub set_demo : Option ℕ → Customer → Customer
set_demo link c = record c {
  first_name = "Demo";
  last_name = "Customer";
  dob = date 1991 6 25;
  user = link;
}

abbrev pub new_demo : Option ℕ → ℕ → ℕ → Customer
new_demo link reference id = record {
  id = id;
  reference = reference;
  first_name = "Demo";
  last_name = "Customer";
  dob = date 1991 6 25;
  email = some "customer@demo.local";
  phone = "";
  user = link;
}

abbrev pub same_login : Option ℕ → Option ℕ → Bool
same_login none user = false
same_login (some id) none = false
same_login (some id) (some user) = id == user

-- Another customer has the demo login already: the column `user` is unique.
abbrev pub is_linked : Option ℕ → List Customer → Bool
is_linked link customers =
    any (λ (c : Customer). not (is_demo c) && same_login link c.user) customers

-- `Customer.objects.update_or_create(email=…, defaults=…)`, `none` where a unique column refuses.
unfoldable pub put_demo : ℕ → Option ℕ → Tables → Option Tables
put_demo reference link t =
    if is_linked link t.customers
    then none
    else if any is_demo t.customers
    then some (record t { customers = update is_demo (set_demo link) t.customers })
    else some (record t {
      customers = new_demo link reference t.next_customer ∷ t.customers;
      next_customer = suc t.next_customer;
    })

-- The rows that `Command.handle` leaves, `none` where a unique column refuses. `reference` is the
-- UUID that a new customer draws.
unfoldable pub seed_rows : ℕ → Tables → Option Tables
seed_rows reference t =
    let seeded = put_principals principals t in put_demo reference (demo_user seeded.users) seeded

-- The two columns that the rows leave out, by key: the password of a login, which holds a salted
-- hash, and `updated_at` of a customer.
pub record Stamps : Type 0 where
  pub password : ℕ → ℕ
  pub updated_at : ℕ → ℕ

abbrev pub set_key : Option ℕ → ℕ → (ℕ → ℕ) → ℕ → ℕ
set_key none value column k = column k
set_key (some id) value column k = if id == k then value else column k

-- `user.set_password(DEMO_PASSWORD); user.save()` for each login; `hash` is what each draws.
unfoldable pub set_passwords : (String → ℕ) → List DemoPrincipal → List User → (ℕ → ℕ) → ℕ → ℕ
set_passwords hash [] users column = column
set_passwords hash (p ∷ ps) users column =
    set_passwords hash ps users (set_key (key_of (find (has_email p) users)) (hash p.email) column)

abbrev pub demo_customer : List Customer → Option ℕ
demo_customer [] = none
demo_customer (c ∷ customers) = if is_demo c then some c.id else demo_customer customers

abbrev pub stamp : (String → ℕ) → ℕ → Tables → Stamps → Stamps
stamp hash now t stamps = record {
  password = set_passwords hash principals t.users stamps.password;
  updated_at = set_key (demo_customer t.customers) now stamps.updated_at;
}

abbrev pub stamped : (String → ℕ) → ℕ → Stamps → Option Tables → Option (Tables × Stamps)
stamped hash now stamps none = none
stamped hash now stamps (some t) = some (t, stamp hash now t stamps)

-- `Command.handle`, whose transaction is undone where a column refuses.
unfoldable pub seed_demo : ℕ → (String → ℕ) → ℕ → Tables → Stamps → Option (Tables × Stamps)
seed_demo reference hash now t stamps = stamped hash now stamps (seed_rows reference t)
