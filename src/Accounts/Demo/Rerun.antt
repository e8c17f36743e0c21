-- ===== src/Accounts/Demo/Rerun.antt =====
-- Running the command of apps/accounts/management/commands/seed_demo.py again.
use democrance_insurance_api.Prelude.{
  any-update, update-idle, update-update, update-fixed, ◌⊎◌, ℕ, suc, ◌≡◌, refl, sym, ap, ◌∙◌, Bool,
  true, false, Bool-cases, inl, inr, Option, none, some, List, [], ◌∷◌, any, update, str_eq,
  eq_refl, eq_iff, arith, ◌≢◌, ◌==◌, ==_iff, find, String, Option-cases,
}
use mathlib.Core.Path.{subst}
use democrance_insurance_api.Customers.{Customer}
use democrance_insurance_api.Accounts.{User, Role}
use democrance_insurance_api.Accounts.Manager.{set_default}
use democrance_insurance_api.Accounts.Demo.{
  DemoPrincipal, principals, Tables, has_email, set_principal, new_principal, put_principal,
  put_principals, demo_user, is_demo, set_demo, new_demo, is_linked, put_demo, seed_rows, seed_demo,
  Stamps, stamp, stamped, set_key, set_passwords, key_of, demo_customer,
}

set_default-again : (d : Bool) (o : Option Bool) → set_default (set_default d o) o ≡ set_default d o
set_default-again d none = refl
set_default-again d (some b) = refl

-- The login is there with its columns.
record IsSettled (p : DemoPrincipal) (users : List User) : Type 0 where
  there : any (has_email p) users ≡ true
  fixed : update (has_email p) (set_principal p) users ≡ users

set_principal-again :
    (p : DemoPrincipal) (u : User) → set_principal p (set_principal p u) ≡ set_principal p u
set_principal-again p u =
    ap (λ b. record u { role = p.role; is_active = true; is_staff = b })
      (set_default-again u.is_staff p.is_staff)

put_principal-IsSettled : (p : DemoPrincipal) (t : Tables) → IsSettled p (put_principal p t).users
unfolding put_principal
put_principal-IsSettled p t = elim (Bool-cases (any (has_email p) t.users)) [
  | inl hit ↦ rw hit (record {
    there = any-update (has_email p) (set_principal p) (λ u. refl) t.users ∙ hit;
    fixed =
        update-update (has_email p) (set_principal p) (λ u. refl) (set_principal-again p) t.users;
  })
  | inr miss ↦ rw miss (record {
    there = ground (arith, eq_refl p.email);
    fixed =
        rw
          (
            eq_refl p.email,
            set_default-again false p.is_staff,
            update-idle (has_email p) (set_principal p) (λ u. refl) t.users miss,
          )
          refl;
  })
]

put_principal-idle : (p : DemoPrincipal) (t : Tables) → IsSettled p t.users → put_principal p t ≡ t
unfolding put_principal
put_principal-idle p t settled = rw (settled.there, settled.fixed) refl

-- Two principals do not have the same e-mail.
abbrev Differ : DemoPrincipal → DemoPrincipal → Type 0
Differ p q = (u : User) → has_email q u ≡ true → has_email p u ≡ false

IsSettled-put_principal :
    (p q : DemoPrincipal) (t : Tables)
    → Differ p q
    → IsSettled p t.users
    → IsSettled p (put_principal q t).users
unfolding put_principal
IsSettled-put_principal p q t differ settled = elim (Bool-cases (any (has_email q) t.users)) [
  | inl hit ↦ rw hit (record {
    there = any-other p q t.users ∙ settled.there;
    fixed =
        update-fixed (has_email p) (has_email q) (set_principal p) (set_principal q) (λ u. refl)
          differ t.users settled.fixed;
  })
  | inr miss ↦
      let other = differ (new_principal q t.next_user) (eq_refl q.email) in
      rw miss
        (record { there = ground (arith, settled.there); fixed = rw (other, settled.fixed) refl })
]
  where
    any-other :
        (p q : DemoPrincipal) (users : List User)
        → any (has_email p) (update (has_email q) (set_principal q) users) ≡ any (has_email p) users
    any-other p q [] = refl
    any-other p q (u ∷ users) = ground (arith, any-other p q users)

linked-update :
    (link : Option ℕ) (customers : List Customer)
    → is_linked link (update is_demo (set_demo link) customers) ≡ is_linked link customers
linked-update link [] = refl
linked-update link (c ∷ customers) = ground (arith, linked-update link customers)

module _ (link : Option ℕ) (t : Tables) where
  abbrev demo_updated : Tables
  demo_updated = record t { customers = update is_demo (set_demo link) t.customers }

  abbrev demo_created : ℕ → Tables
  demo_created reference = record t {
    customers = new_demo link reference t.next_customer ∷ t.customers;
    next_customer = suc t.next_customer;
  }

  put_demo-cases :
      (reference : ℕ) (t' : Tables)
      → put_demo reference link t ≡ some t'
      → (is_linked link t.customers ≡ false)
        × (((any is_demo t.customers ≡ true) × (t' ≡ demo_updated))
            ⊎ ((any is_demo t.customers ≡ false) × (t' ≡ demo_created reference)))
  unfolding put_demo
  put_demo-cases reference t' done = ground arith

  updated-idle :
      (again : ℕ)
      → is_linked link t.customers ≡ false
      → any is_demo t.customers ≡ true
      → put_demo again link demo_updated ≡ some demo_updated
  unfolding put_demo
  updated-idle again free hit =
      rw
        (
          linked-update link t.customers,
          free,
          any-update is_demo (set_demo link) (λ c. refl) t.customers,
          hit,
          update-update is_demo (set_demo link) (λ c. refl) (λ c. refl) t.customers,
        )
        refl

  created-idle :
      (reference again : ℕ)
      → is_linked link t.customers ≡ false
      → any is_demo t.customers ≡ false
      → put_demo again link (demo_created reference) ≡ some (demo_created reference)
  unfolding put_demo
  created-idle reference again free miss =
      rw (free, update-idle is_demo (set_demo link) (λ c. refl) t.customers miss) refl

  put_demo-idle :
      (reference again : ℕ) (t' : Tables)
      → put_demo reference link t ≡ some t'
      → (put_demo again link t' ≡ some t') × (t'.users ≡ t.users)
  put_demo-idle reference again t' done =
      let (free, by_case) = put_demo-cases reference t' done in
      elim by_case [
        | inl (hit, e) ↦ (rw e (updated-idle again free hit), ap (λ (z : Tables). z.users) e)
        | inr (miss, e) ↦
            (rw e (created-idle reference again free miss), ap (λ (z : Tables). z.users) e)
      ]

abbrev staff_login : DemoPrincipal
staff_login = record { email = "staff@demo.local"; role = Role.staff; is_staff = some true }

abbrev agent_login : DemoPrincipal
agent_login = record { email = "agent@demo.local"; role = Role.agent; is_staff = none }

abbrev customer_login : DemoPrincipal
customer_login = record { email = "customer@demo.local"; role = Role.customer; is_staff = none }

emails-Differ : (p q : DemoPrincipal) → str_eq q.email p.email ≡ false → Differ p q
emails-Differ p q other u same =
    subst (λ z. str_eq z p.email ≡ false) (sym ((eq_iff u.email q.email).0 same)) other

-- The three logins are there after the first run, and a run on them changes nothing.
IsSeeded : List User → Type 0
IsSeeded users =
    IsSettled staff_login users × IsSettled agent_login users × IsSettled customer_login users

put_principals-IsSeeded : (t : Tables) → IsSeeded (put_principals principals t).users
unfolding put_principals IsSeeded
put_principals-IsSeeded t =
    let t1 = put_principal staff_login t in
    let t2 = put_principal agent_login t1 in
    let staff2 =
      IsSettled-put_principal staff_login agent_login t1
        (emails-Differ staff_login agent_login refl) (put_principal-IsSettled staff_login t) in
    (
      IsSettled-put_principal staff_login customer_login t2
          (emails-Differ staff_login customer_login refl) staff2,
      IsSettled-put_principal agent_login customer_login t2
          (emails-Differ agent_login customer_login refl) (put_principal-IsSettled agent_login t1),
      put_principal-IsSettled customer_login t2,
    )

put_principals-idle : (t : Tables) → IsSeeded t.users → put_principals principals t ≡ t
unfolding put_principals IsSeeded
put_principals-idle t (staff, agent, customer) =
    ap (λ z. put_principal customer_login (put_principal agent_login z))
      (put_principal-idle staff_login t staff)
    ∙ ap (put_principal customer_login) (put_principal-idle agent_login t agent)
    ∙ put_principal-idle customer_login t customer

-- The rows are what they were after another run.
seed_rows-idempotent :
    (reference again : ℕ) (t t' : Tables)
    → seed_rows reference t ≡ some t'
    → seed_rows again t' ≡ some t'
unfolding seed_rows
seed_rows-idempotent reference again t t' done =
    let seeded = put_principals principals t in
    let (idle, same) = put_demo-idle (demo_user seeded.users) seeded reference again t' done in
    let still : put_principals principals t' ≡ t' =
      put_principals-idle t' (subst IsSeeded (sym same) (put_principals-IsSeeded t)) in
    ap (λ (z : Tables). put_demo again (demo_user z.users) z) still
    ∙ ap (λ (users : List User). put_demo again (demo_user users) t') same
    ∙ idle

set_key-miss :
    (id : Option ℕ) (value : ℕ) (column : ℕ → ℕ) (k : ℕ)
    → id ≢ some k
    → set_key id value column k ≡ column k
set_key-miss none value column k other = refl
set_key-miss (some id) value column k other = elim (Bool-cases (id == k)) [
  | inl same ↦ absurd (other (ap some ((==_iff id k).0 same)))
  | inr differ ↦ rw differ refl
]

-- A key that is of none of the logins.
abbrev pub IsOther : List DemoPrincipal → List User → ℕ → Type 0
IsOther [] users k = Unit
IsOther (p ∷ ps) users k = (key_of (find (has_email p) users) ≢ some k) × IsOther ps users k

set_passwords-other :
    (hash : String → ℕ) (ps : List DemoPrincipal) (users : List User) (column : ℕ → ℕ) (k : ℕ)
    → IsOther ps users k
    → set_passwords hash ps users column k ≡ column k
unfolding set_passwords
set_passwords-other hash [] users column k other = refl
set_passwords-other hash (p ∷ ps) users column k other =
    set_passwords-other hash ps users
      (set_key (key_of (find (has_email p) users)) (hash p.email) column) k other.1
    ∙ set_key-miss (key_of (find (has_email p) users)) (hash p.email) column k other.0

-- What another run leaves: the rows, the passwords of other logins and the times of other
-- customers; the demo customer has the time of the run.
pub record IsRerun (hash : String → ℕ) (now reference : ℕ) (t : Tables) (stamps : Stamps)
    : Type 0 where
  pub after : Stamps
  pub succeeds : seed_demo reference hash now t stamps ≡ some (t, after)
  pub passwords : (k : ℕ) → IsOther principals t.users k → after.password k ≡ stamps.password k
  pub times :
      (k : ℕ) → demo_customer t.customers ≢ some k → after.updated_at k ≡ stamps.updated_at k
  pub touched : (k : ℕ) → demo_customer t.customers ≡ some k → after.updated_at k ≡ now

seed_demo-eq-some :
    (reference : ℕ) (hash : String → ℕ) (now : ℕ) (t t' : Tables) (stamps stamps' : Stamps)
    → seed_demo reference hash now t stamps ≡ some (t', stamps')
    → seed_rows reference t ≡ some t'
unfolding seed_demo
seed_demo-eq-some reference hash now t t' stamps stamps' done =
    elim (Option-cases (seed_rows reference t)) [
      | inl refused ↦ absurd (cc)
      | inr (t1, rows) ↦
          let step : some (t1, stamp hash now t1 stamps) ≡ some (t', stamps') =
            subst (λ o. stamped hash now stamps o ≡ some (t', stamps')) rows done in
          rows ∙ cc
    ]

-- When the command has seeded the demo logins and their customer, running it again, with whatever
-- UUID, hashes and clock, succeeds and leaves the rows and the keys of both tables as they are,
-- except for two columns: the passwords of the demo logins, and the time of update of the demo
-- customer, which is that of the run.
pub seed_demo-IsRerun :
    (reference again : ℕ) (hash hash' : String → ℕ) (now now' : ℕ) (t t' : Tables)
    (stamps stamps' : Stamps)
    → seed_demo reference hash now t stamps ≡ some (t', stamps')
    → IsRerun hash' now' again t' stamps'
unfolding seed_demo
seed_demo-IsRerun reference again hash hash' now now' t t' stamps stamps' done =
    let rows =
      seed_rows-idempotent reference again t t'
        (seed_demo-eq-some reference hash now t t' stamps stamps' done) in
    record {
      after = stamp hash' now' t' stamps';
      succeeds = rw rows refl;
      passwords = λ k other. set_passwords-other hash' principals t'.users stamps'.password k other;
      times = λ k other. set_key-miss (demo_customer t'.customers) now' stamps'.updated_at k other;
      touched = λ k own. let same = (==_iff k k).1 refl in rw own (rw same refl);
    }
