-- ===== src/Database.antt =====
-- What the services act on: the tables, the world outside (clock, UUIDs, settings), and actions
-- that read, write and raise. A table holds its rows newest first. `transaction.atomic` gives the
-- tables back as they were when its body raises; a row lock is held to the end of the
-- transaction, so the transactions on a policy run one after another and each is one action here.
pub mod Runs
pub mod Answers
pub mod Deleting
pub mod Links
use democrance_insurance_api.Prelude.{
  ℕ, suc, Bool, Option, none, some, String, List, ◌∷◌, find, update, ◌==◌, if◌then◌else◌,
}
use democrance_insurance_api.Dates.{Date}
use democrance_insurance_api.Customers.{Customer, AgeLimits}
use democrance_insurance_api.Products.{ProductType, RatingRule}
use democrance_insurance_api.Policies.Rows.{Policy, PolicyStateTransition}
use democrance_insurance_api.Payments.Rows.{Payment}
use democrance_insurance_api.Common.Errors.{Error, does_not_exist}

pub record Db : Type 0 where
  pub customers : List Customer
  pub products : List ProductType
  pub rules : List RatingRule
  pub policies : List Policy
  pub transitions : List PolicyStateTransition
  pub payments : List Payment
  -- The next primary key of each table that the services insert into.
  pub next_customer : ℕ
  pub next_policy : ℕ
  pub next_transition : ℕ
  pub next_payment : ℕ

-- The outside: `now k` and `uuid k` are what the k-th question to it is answered with.
pub record Env : Type 0 where
  -- `timezone.now()`
  pub now : ℕ → ℕ
  -- `timezone.localdate()` at a reading of the clock
  pub localdate : ℕ → Date
  -- `uuid.uuid4()`
  pub uuid : ℕ → ℕ
  -- `f"QT-{now:%Y}-{uuid.hex[:8].upper()}"` of a reading and a UUID
  pub quote_text : ℕ → ℕ → String
  -- `settings.QUOTE_VALIDITY_DAYS`
  pub quote_validity_days : ℕ
  pub age_limits : AgeLimits
  pub demo_open : Bool

-- The tables, and the number of questions asked so far.
pub record World : Type 0 where
  pub db : Db
  pub asked : ℕ

pub data Result (A : Type 0) : Type 0 where
  ok : A → Result A
  err : Error → Result A

abbrev pub Action : Type 0 → Type 0
Action A = World → Result A × World

infixl 5 ◌>>=◌ ◌>>◌
abbrev pub ◌>>=◌ : {A B : Type 0} → Action A → (A → Action B) → Action B
◌>>=◌ first rest w =
    let (answer, w') = first w in elim answer [ ok a ↦ rest a w' | err e ↦ (err e, w') ]

abbrev pub ◌>>◌ : {A B : Type 0} → Action A → Action B → Action B
m >> k = m >>= λ _. k

module _ {A : Type 0} where
  abbrev pub pure : A → Action A
  pure a w = (ok a, w)

  abbrev pub raise : Error → Action A
  raise e w = (err e, w)

  abbrev pub gets : (Db → A) → Action A
  gets f w = (ok (f w.db), w)

  abbrev pub or_raise : Option A → Error → Action A
  or_raise none e = raise e
  or_raise (some a) e = pure a

  -- `transaction.atomic`
  abbrev pub atomic : Action A → Action A
  atomic m w =
      let (r, w') = m w in elim r [ ok a ↦ (ok a, w') | err e ↦ (err e, record w' { db = w.db }) ]

abbrev pub raise_if : Bool → Error → Action (Unit {0})
raise_if c e w = (if c then err e else ok tt, w)

abbrev pub modify : (Db → Db) → Action (Unit {0})
modify f w = (ok tt, record w { db = f w.db })

-- One more question to the outside.
abbrev pub ask : {A : Type 0} → (ℕ → A) → Action A
ask answer w = (ok (answer w.asked), record w { asked = suc w.asked })

abbrev pub policy_by_id : ℕ → Db → Option Policy
policy_by_id id db = find (λ p. p.id == id) db.policies

-- `Policy.objects.select_for_update().get(pk=…)`
abbrev pub lock_policy : ℕ → Action Policy
lock_policy id w = or_raise (policy_by_id id w.db) does_not_exist w

-- `policy.save(update_fields=[…, "updated_at"])`: `write` sets the named columns.
abbrev pub set_policy : ℕ → (Policy → Policy) → Db → Db
set_policy id write db = record db { policies = update (λ p. p.id == id) write db.policies }

-- `INSERT` of a history row, under the next key.
abbrev pub insert_transition : PolicyStateTransition → Db → Db
insert_transition row db = record db {
  transitions = row ∷ db.transitions;
  next_transition = suc db.next_transition;
}

abbrev pub insert_policy : Policy → Db → Db
insert_policy row db = record db { policies = row ∷ db.policies; next_policy = suc db.next_policy }

abbrev pub insert_customer : Customer → Db → Db
insert_customer row db = record db {
  customers = row ∷ db.customers;
  next_customer = suc db.next_customer;
}

abbrev pub insert_payment : Payment → Db → Db
insert_payment row db = record db {
  payments = row ∷ db.payments;
  next_payment = suc db.next_payment;
}
