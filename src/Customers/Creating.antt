-- ===== src/Customers/Creating.antt =====
-- Who creates which customers through apps/customers/views.py, and what that leaves behind.
use mathlib.Core.Path.{subst, ap₂}
use democrance_insurance_api.Prelude.{
  ◌≡◌, refl, sym, ap, ◌∙◌, true, false, not, Option, none, some, String, List, [], ◌∷◌, arith, ◌≤ℤ◌,
}
use democrance_insurance_api.Dates.{Date, date_ltb}
use democrance_insurance_api.Dates.Text.{show_dmy}
use democrance_insurance_api.Customers.{Customer, age_at, clean}
use democrance_insurance_api.Customers.Age.{clean_iff}
use democrance_insurance_api.Accounts.{Principal, demo_or_staff}
use democrance_insurance_api.Accounts.Scoping.{MayCreate, demo_or_staff_iff}
use democrance_insurance_api.Policies.Serializers.{
  Body, dict, not_dict, reject_unknown, unknown_keys,
}
use democrance_insurance_api.Customers.Endpoints.{
  CustomerFields, NewCustomer, CustomerRead, create_customer, validate_customer, save_customer,
  new_customer, check_customer, read_fields, save_and_render, render_customer, customer_keys,
  read_customer, unique_email, email_taken,
}
use democrance_insurance_api.Common.Requests.{denied}
use democrance_insurance_api.Database.{
  Db, Env, World, Result, ok, err, insert_customer, ◌>>=◌, ◌>>◌,
}
use democrance_insurance_api.Lifecycle.Invariant.{IsSound}
use democrance_insurance_api.Database.Runs.{run-eq, >>=-eq-ok, raise_if->>=-eq-ok}
use democrance_insurance_api.Customers.Failing.{create_customer-FailsQuietly}

read_customer-valid :
    (first last : Option String) (dob : Option Date) (email : Option (Option (Option String)))
    (phone : Option (Option String)) (customers : List Customer) (w w' : World) (v : NewCustomer)
    → read_customer first last dob (unique_email customers email) phone w ≡ (ok v, w')
    → (w' ≡ w) × (email_taken v.email customers ≡ false)
read_customer-valid first last dob email phone customers w w' v run = ground arith

module _ (env : Env) (fields : CustomerFields) where
  -- What a validation that passed has seen to.
  pub record IsValidated (v : NewCustomer) (w w' : World) : Type 0 where
    pub clean_dob : clean env.age_limits (env.localdate (env.now w.asked)) (some v.dob) ≡ none
    pub email_free : email_taken v.email w.db.customers ≡ false
    pub same_db : w'.db ≡ w.db

  check_customer-valid :
      (v v' : NewCustomer) (w w' : World)
      → check_customer env fields v w ≡ (ok v', w')
      → (v' ≡ v)
        × (clean env.age_limits (env.localdate (env.now w.asked)) (some v.dob) ≡ none)
        × (w'.db ≡ w.db)
  unfolding check_customer
  check_customer-valid v v' w w' run = ground arith

  validate_customer-IsValidated :
      (body : Body) (w w' : World) (v : NewCustomer)
      → validate_customer env fields body w ≡ (ok v, w')
      → IsValidated v w w'
  unfolding validate_customer
  validate_customer-IsValidated not_dict w w' v run = cc
  validate_customer-IsValidated (dict payload) w w' v run =
      strict (unknown_keys customer_keys payload) run
    where
      strict :
          (keys : List String)
          → (reject_unknown keys >> (read_fields env fields payload >>= check_customer env fields))
              w
            ≡ (ok v, w')
          → IsValidated v w w'
      strict (key ∷ keys) h = cc
      strict [] h =
          let (v', w1, read, checked) =
            >>=-eq-ok (read_fields env fields payload) (check_customer env fields) w w' v h in
          let (here, free) = read_customer-valid _ _ _ _ _ w.db.customers w w1 v' read in
          let (same, clean_dob, same_db) = check_customer-valid v' v w1 w' checked in
          subst (λ x. IsValidated x w w') (sym same)
            (record {
              clean_dob =
                  subst
                    (λ (z : World).
                      clean env.age_limits (env.localdate (env.now z.asked)) (some v'.dob) ≡ none)
                    here clean_dob;
              email_free = free;
              same_db = same_db ∙ ap (λ (z : World). z.db) here;
            })

  save_customer-eq-ok :
      (v : NewCustomer) (w w' : World) (c : Customer)
      → save_customer env fields v w ≡ (ok c, w')
      → (c ≡ new_customer env fields v w.db.next_customer (env.uuid w.asked))
        × (w'.db ≡ insert_customer c w.db)
  unfolding save_customer
  save_customer-eq-ok v w w' c run = ground arith

  -- What it means that a customer was created.
  pub record IsCreated (who : Principal) (w : World) (c : CustomerRead) (db : Db) : Type 0 where
    pub allowed : MayCreate env.demo_open who
    pub born : date_ltb c.customer.dob (env.localdate (env.now w.asked)) ≡ true
    pub old_enough :
        env.age_limits.min_age ≤ℤ age_at c.customer.dob (env.localdate (env.now w.asked))
    pub young_enough :
        age_at c.customer.dob (env.localdate (env.now w.asked)) ≤ℤ env.age_limits.max_age
    pub unlinked : c.customer.user ≡ none
    pub email_free : email_taken c.customer.email w.db.customers ≡ false
    pub shown : c.dob ≡ show_dmy c.customer.dob
    pub inserted : db ≡ insert_customer c.customer w.db

  saved :
      (who : Principal) (w w1 w2 : World) (v : NewCustomer) (r : CustomerRead)
      → MayCreate env.demo_open who
      → IsValidated v w w1
      → save_and_render env fields v w1 ≡ (ok r, w2)
      → IsCreated who w r w2.db
  saved who w w1 w2 v r may valid run =
      let (c, w', insert, render) =
        >>=-eq-ok (save_customer env fields v) (render_customer env fields) w1 w2 r run in
      let (made, stored) = save_customer-eq-ok v w1 w' c insert in
      let row : r.customer ≡ c = cc in
      let dob : r.customer.dob ≡ v.dob = cc in
      let today = env.localdate (env.now w.asked) in
      let ages = (clean_iff env.age_limits today v.dob).0 valid.clean_dob in
      record {
        allowed = may;
        born = subst (λ d. date_ltb d today ≡ true) (sym dob) ages.0;
        old_enough = subst (λ d. env.age_limits.min_age ≤ℤ age_at d today) (sym dob) ages.1;
        young_enough = subst (λ d. age_at d today ≤ℤ env.age_limits.max_age) (sym dob) ages.2;
        unlinked = cc;
        email_free =
            let email : r.customer.email ≡ v.email = cc in
            subst (λ x. email_taken x w.db.customers ≡ false) (sym email) valid.email_free;
        shown = cc;
        inserted =
            let rendered : w2.db ≡ w'.db = cc in
            rendered
            ∙ stored
            ∙ ap₂ (λ (x : Customer) (d : Db). insert_customer x d) (sym row) valid.same_db;
      }

  -- A customer that is created was sent by a request without a login in demo mode or by a login
  -- that is no customer; the date of birth is before today and the age within the limits, the
  -- e-mail was not in use, no login is linked, the date is shown as day, month and year, and the
  -- row is all that is added to the tables.
  pub create_customer_sound :
      (body : Body) (who : Principal) (w : World) (r : CustomerRead)
      → (create_customer env fields body who w).0 ≡ ok r
      → IsCreated who w r (create_customer env fields body who w).1.db
  unfolding create_customer
  create_customer_sound body who w r done =
      let run = run-eq (create_customer env fields body who w) (ok r) done in
      let (permitted, rest) =
        raise_if->>=-eq-ok (not (demo_or_staff env.demo_open who)) (denied who)
          (validate_customer env fields body >>= save_and_render env fields) w
          (create_customer env fields body who w).1 r run in
      let (v, w1, valid, saving) =
        >>=-eq-ok (validate_customer env fields body) (save_and_render env fields) w
          (create_customer env fields body who w).1 r rest in
      let staff : demo_or_staff env.demo_open who ≡ true = ground arith in
      saved who w w1 (create_customer env fields body who w).1 v r
        ((demo_or_staff_iff env.demo_open who).0.0 staff)
        (validate_customer-IsValidated body w w1 v valid) saving

-- The lifecycle does not look at the customers.
insert_customer-IsSound : (c : Customer) (db : Db) → IsSound db → IsSound (insert_customer c db)
insert_customer-IsSound c db sound = record {
  audited = record {
    recorded = sound.audited.recorded;
    policy_keys = sound.audited.policy_keys;
    row_keys = sound.audited.row_keys;
  };
  offered = sound.offered;
  receipts = λ p h.
      let r = sound.receipts p h in
      record {
        policy = r.policy;
        listed = r.listed;
        owner = r.owner;
        bound = r.bound;
        amount = r.amount;
        currency = r.currency;
      };
  charged_once = sound.charged_once;
  key_once = sound.key_once;
}

-- A request to create a customer, whatever its body and whoever sends it, keeps the invariant of
-- the lifecycle on the tables.
pub create_customer-IsSound :
    (env : Env) (fields : CustomerFields) (body : Body) (who : Principal) (w : World)
    → IsSound w.db
    → IsSound (create_customer env fields body who w).1.db
create_customer-IsSound env fields body who w sound =
    go ((create_customer env fields body who w).0) refl
  where
    go :
        (r : Result CustomerRead)
        → (create_customer env fields body who w).0 ≡ r
        → IsSound (create_customer env fields body who w).1.db
    go (ok c) e =
        rw (create_customer_sound env fields body who w c e).inserted
          (insert_customer-IsSound c.customer w.db sound)
    go (err x) e = rw (create_customer-FailsQuietly env fields body who w x e) sound
