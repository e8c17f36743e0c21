-- ===== src/Lifecycle/Steps.antt =====
-- The lifecycle as the source's documents draw it: what one committed call of a service does to
-- the tables. A call that raises does nothing.
use democrance_insurance_api.Prelude.{ℕ, ◌≡◌, false, none, some, String, any, str_eq, ◌==◌}
use democrance_insurance_api.Policies.StateMachine.{State, new, quoted, accepted, active}
use democrance_insurance_api.Policies.Rows.{Policy, PolicyStateTransition}
use democrance_insurance_api.Policies.History.{Writes}
use democrance_insurance_api.Payments.Rows.{Payment}
use democrance_insurance_api.Payments.Services.{payment_by_key}
use democrance_insurance_api.Database.{
  Db, policy_by_id, set_policy, insert_transition, insert_policy, insert_payment,
}

-- The policy with key `id` moves, and the move is written to its history.
pub record Advance (db db' : Db) (id : ℕ) (from to : State) : Type 0 where
  pub policy : Policy
  pub found : policy_by_id id db ≡ some policy
  pub at_start : policy.state ≡ from
  pub row : PolicyStateTransition
  pub row_key : row.id ≡ db.next_transition
  pub owner : row.policy_id ≡ id
  pub row_from : row.from_state ≡ some policy.state
  pub row_to : row.to_state ≡ to
  pub write : Policy → Policy
  pub writes : Writes write to
  pub result : db' ≡ set_policy id write (insert_transition row db)

-- A new policy under a reference that is not in use, with its genesis row.
pub record Opening (db : Db) (policy : Policy) (row : PolicyStateTransition) : Type 0 where
  pub key : policy.id ≡ db.next_policy
  pub state : policy.state ≡ new
  pub reference_free :
      any (λ (q : Policy). str_eq q.quote_reference policy.quote_reference) db.policies ≡ false
  pub row_key : row.id ≡ db.next_transition
  pub owner : row.policy_id ≡ db.next_policy
  pub row_from : row.from_state ≡ none
  pub row_to : row.to_state ≡ new

-- A receipt for the policy `policy`, at its price, under a key and a reference that are not in use.
pub record Charge (db : Db) (policy : Policy) (payment : Payment) : Type 0 where
  pub key : payment.id ≡ db.next_payment
  pub reference_free : any (λ (q : Payment). q.reference == payment.reference) db.payments ≡ false
  pub found : policy_by_id payment.policy_id db ≡ some policy
  pub amount : policy.premium ≡ some payment.amount
  pub currency : policy.currency ≡ payment.currency
  pub key_free : (key : String) → payment.idempotency_key ≡ some key → payment_by_key key db ≡ none

pub data Step (db db' : Db) : Type 0 where
  quote :
      (policy : Policy) (row : PolicyStateTransition)
      → Opening db policy row
      → Advance (insert_transition row (insert_policy policy db)) db' policy.id new quoted
      → Step db db'
  accept : (id : ℕ) → Advance db db' id quoted accepted → Step db db'
  bind : (id : ℕ) → Advance db db' id accepted active → Step db db'
  pay :
      (policy : Policy) (payment : Payment)
      → Charge db policy payment
      → Advance (insert_payment payment db) db' payment.policy_id accepted active
      → Step db db'

-- Any number of calls, failed ones included.
pub data Reach (db : Db) : Db → Type 0 where
  here : Reach db db
  next : {db' db'' : Db} → Reach db db' → Step db' db'' → Reach db db''

-- Steps after steps.
pub Reach-trans : {a b c : Db} → Reach a b → Reach b c → Reach a c
Reach-trans first here = first
Reach-trans first (next more step) = next (Reach-trans first more) step
