-- ===== src/Lifecycle/Invariant.antt =====
-- The invariant of the tables of apps/policies and apps/payments.
use democrance_insurance_api.Prelude.{
  ℕ, ◌≤◌, ◌≡◌, ◌⊎◌, some, String, List, In, filter, length, ◌==◌,
}
use democrance_insurance_api.Policies.StateMachine.{State, quoted, accepted, active}
use democrance_insurance_api.Policies.Rows.{Policy}
use democrance_insurance_api.Policies.History.{IsAudited}
use democrance_insurance_api.Payments.Rows.{Payment}
use democrance_insurance_api.Payments.Services.{key_is}
use democrance_insurance_api.Database.{Db}

-- The states that a policy of the services is ever in, between two calls.
abbrev pub IsOffered : State → Type 0
IsOffered s = (s ≡ quoted) ⊎ ((s ≡ accepted) ⊎ (s ≡ active))

-- A receipt stands for an active policy, at its price.
pub record Receipt (db : Db) (payment : Payment) : Type 0 where
  pub policy : Policy
  pub listed : In policy db.policies
  pub owner : policy.id ≡ payment.policy_id
  pub bound : policy.state ≡ active
  pub amount : policy.premium ≡ some payment.amount
  pub currency : policy.currency ≡ payment.currency

-- How many receipts a policy has, and how many payments carry a key.
abbrev pub receipts_of : ℕ → Db → List Payment
receipts_of id db = filter (λ p. p.policy_id == id) db.payments

abbrev pub payments_by_key : String → Db → List Payment
payments_by_key key db = filter (λ p. key_is key p.idempotency_key) db.payments

pub record IsSound (db : Db) : Type 0 where
  -- every state is the end of a lawful history
  pub audited : IsAudited db
  pub offered : (p : Policy) → In p db.policies → IsOffered p.state
  -- no receipt without a bound policy, and no second one for the same policy or key
  pub receipts : (payment : Payment) → In payment db.payments → Receipt db payment
  pub charged_once : (id : ℕ) → length (receipts_of id db) ≤ 1
  pub key_once : (key : String) → length (payments_by_key key db) ≤ 1
