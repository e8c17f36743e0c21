-- ===== src/Lifecycle/Reachable.antt =====
-- Any sequence of calls: two requests that race for a policy are serialised by its row lock, so
-- whatever the order in which they win it, what happened is one such sequence.
use mathlib.Core.Path.{subst}
use democrance_insurance_api.Prelude.{
  ℕ, ◌⊎◌, ◌≡◌, ◌≤◌, inl, inr, sym, ℤ, Option, some, String, List, [], ◌∷◌, In, map, length, arith,
}
use democrance_insurance_api.Dates.{Date}
use democrance_insurance_api.Customers.{Customer}
use democrance_insurance_api.Products.{ProductType, RatingRule}
use democrance_insurance_api.Policies.StateMachine.{IsDistinct, Trail-IsDistinct}
use democrance_insurance_api.Policies.Rows.{Policy, Metadata}
use democrance_insurance_api.Policies.Services.{By, create_quote, accept_quote, activate_policy}
use democrance_insurance_api.Policies.Narrative.{narrative, Recorded-eq-narrative}
use democrance_insurance_api.Policies.History.{history, Recorded, Recorded-Trail}
use democrance_insurance_api.Payments.Rows.{Payment}
use democrance_insurance_api.Payments.Services.{simulate_payment}
use democrance_insurance_api.Database.{Db, Env, World, Result, ok, err}
use democrance_insurance_api.Lifecycle.Steps.{Step, pay, Reach, here, next, Reach-trans}
use democrance_insurance_api.Lifecycle.Invariant.{
  IsSound, IsOffered, Receipt, receipts_of, payments_by_key,
}
use democrance_insurance_api.Lifecycle.Sound.{Reach-IsSound}
use democrance_insurance_api.Lifecycle.Refinement.{
  Refines, create_quote-Refines, accept_quote-Refines, activate_policy-Refines,
}
use democrance_insurance_api.Lifecycle.Settling.{Settles, simulate_payment-Settles}

-- A call of a service, with its arguments.
pub data Call : Type 0 where
  quote_call : Customer → ProductType → Option ℤ → By → Option Date → Call
  accept_call : ℕ → By → Call
  activate_call : ℕ → By → Metadata → Call
  pay_call : ℕ → String → Option String → By → Call

-- The world after one call, whether it returned or raised.
unfoldable pub after_call : Env → Call → World → World
after_call env (quote_call customer product cover by as_of) w =
    (create_quote env customer product cover by as_of w).1
after_call env (accept_call id by) w = (accept_quote env id by w).1
after_call env (activate_call id by metadata) w = (activate_policy env id by metadata w).1
after_call env (pay_call id value key by) w = (simulate_payment env id value key by w).1

unfoldable pub serve : Env → List Call → World → World
unfolding after_call
serve env [] w = w
serve env (call ∷ calls) w = serve env calls (after_call env call w)

-- One step, or nothing.
abbrev pub StepOrSame : Db → Db → Type 0
StepOrSame db db' = Step db db' ⊎ (db' ≡ db)

Refines-cases : {A : Type 0} (db : Db) (r : Result A × World) → Refines db r → StepOrSame db r.1.db
Refines-cases db (ok a, w') step = inl step
Refines-cases db (err e, w') same = inr same

Settles-cases :
    (id : ℕ) (value : String) (key : Option String) (db : Db) (r : Result Payment × World)
    → Settles id value key db r
    → StepOrSame db r.1.db
Settles-cases id value key db (ok a, w') (inl (_, _, same)) = inr same
Settles-cases id value key db (ok a, w') (inr paid) =
    inl (pay paid.policy a paid.charge paid.advance)
Settles-cases id value key db (err e, w') same = inr same

pub after_call-cases :
    (env : Env) (call : Call) (w : World) → StepOrSame w.db (after_call env call w).db
unfolding after_call
after_call-cases env (quote_call customer product cover by as_of) w =
    Refines-cases w.db _ (create_quote-Refines env customer product cover by as_of w)
after_call-cases env (accept_call id by) w = Refines-cases w.db _ (accept_quote-Refines env id by w)
after_call-cases env (activate_call id by metadata) w =
    Refines-cases w.db _ (activate_policy-Refines env id by metadata w)
after_call-cases env (pay_call id value key by) w =
    Settles-cases id value key w.db _ (simulate_payment-Settles env id value key by w)

after_call-Reach : (env : Env) (call : Call) (w : World) → Reach w.db (after_call env call w).db
after_call-Reach env call w = elim (after_call-cases env call w) [
  | inl step ↦ next here step
  | inr same ↦ subst (Reach w.db) (sym same) here
]

-- Any sequence of calls is a run of steps.
pub serve-Reach : (env : Env) (calls : List Call) (w : World) → Reach w.db (serve env calls w).db
unfolding serve
serve-Reach env [] w = here
serve-Reach env (call ∷ calls) w =
    Reach-trans (after_call-Reach env call w) (serve-Reach env calls (after_call env call w))

-- So it keeps the invariant.
pub serve-IsSound :
    (env : Env) (calls : List Call) (w : World) → IsSound w.db → IsSound (serve env calls w).db
serve-IsSound env calls w sound = Reach-IsSound (serve-Reach env calls w) sound

-- A database with a catalogue and customers, on which no service has been called.
abbrev pub untouched : List Customer → List ProductType → List RatingRule → World
untouched customers products rules = record {
  db = record {
    customers = customers;
    products = products;
    rules = rules;
    policies = [];
    transitions = [];
    payments = [];
    next_customer = 1;
    next_policy = 1;
    next_transition = 1;
    next_payment = 1;
  };
  asked = 0;
}

pub untouched-IsSound :
    (customers : List Customer) (products : List ProductType) (rules : List RatingRule)
    → IsSound (untouched customers products rules).db
untouched-IsSound customers products rules = record {
  audited = record {
    recorded = λ p h. absurd h;
    policy_keys = λ p h. absurd h;
    row_keys = λ t h. absurd h;
  };
  offered = λ p h. absurd h;
  receipts = λ p h. absurd h;
  charged_once = λ k. omega arith;
  key_once = λ k. omega arith;
}

-- The tables that the calls leave behind.
abbrev pub served : Env → List Call → List Customer → List ProductType → List RatingRule → Db
served env calls customers products rules =
    (serve env calls (untouched customers products rules)).db

pub served-IsSound :
    (env : Env) (calls : List Call) (customers : List Customer) (products : List ProductType)
    (rules : List RatingRule)
    → IsSound (served env calls customers products rules)
served-IsSound env calls customers products rules =
    serve-IsSound env calls (untouched customers products rules)
      (untouched-IsSound customers products rules)

-- After any sequence of calls of the four services on a database with a catalogue and customers
-- only, every policy is quoted, accepted or active, its history rows are a lawful path from the
-- genesis to its state, and no state comes twice on it.
pub served-history :
    (env : Env) (calls : List Call) (customers : List Customer) (products : List ProductType)
    (rules : List RatingRule) (p : Policy)
    → In p (served env calls customers products rules).policies
    → IsOffered p.state
      × Recorded (history p.id (served env calls customers products rules)) (some p.state)
      × IsDistinct
          (map (λ t. t.to_state) (history p.id (served env calls customers products rules)))
served-history env calls customers products rules p listed =
    let sound = served-IsSound env calls customers products rules in
    let trail = sound.audited.recorded p listed in
    (sound.offered p listed, trail, Trail-IsDistinct (Recorded-Trail trail))

-- After any sequence of calls of the four services on a database with a catalogue and customers
-- only, the states of a policy's history rows are the one path of the lifecycle from the genesis
-- to its state.
pub served-narrative :
    (env : Env) (calls : List Call) (customers : List Customer) (products : List ProductType)
    (rules : List RatingRule) (p : Policy)
    → In p (served env calls customers products rules).policies
    → map (λ t. t.to_state) (history p.id (served env calls customers products rules))
      ≡ narrative (some p.state)
served-narrative env calls customers products rules p listed =
    Recorded-eq-narrative
      ((served-IsSound env calls customers products rules).audited.recorded p listed)

-- After any sequence of calls of the four services on a database with a catalogue and customers
-- only, a policy has at most one payment and a key is used by at most one payment.
pub served-charged_once :
    (env : Env) (calls : List Call) (customers : List Customer) (products : List ProductType)
    (rules : List RatingRule) (id : ℕ) (key : String)
    → (length (receipts_of id (served env calls customers products rules)) ≤ 1)
      × (length (payments_by_key key (served env calls customers products rules)) ≤ 1)
served-charged_once env calls customers products rules id key =
    let sound = served-IsSound env calls customers products rules in
    (sound.charged_once id, sound.key_once key)

-- After any sequence of calls of the four services on a database with a catalogue and customers
-- only, every payment belongs to a listed policy that is active, with the amount and the currency
-- of that policy.
pub served-Receipt :
    (env : Env) (calls : List Call) (customers : List Customer) (products : List ProductType)
    (rules : List RatingRule) (payment : Payment)
    → In payment (served env calls customers products rules).payments
    → Receipt (served env calls customers products rules) payment
served-Receipt env calls customers products rules payment listed =
    (served-IsSound env calls customers products rules).receipts payment listed
