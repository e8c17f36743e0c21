-- ===== src/Policies/Rows.antt =====
-- apps/policies/models.py: the rows of the two tables. A `datetime` is a number of microseconds;
-- money is in hundredths. Foreign keys are the ids of the rows that they point at.
use democrance_insurance_api.Prelude.{ℕ, ℤ, Bool, false, Option, none, some, String, List, ltb}
use democrance_insurance_api.Policies.StateMachine.{State}

pub record Policy : Type 0 where
  pub id : ℕ
  pub quote_reference : String
  pub customer_id : ℕ
  pub product_id : ℕ
  pub premium : Option ℤ
  pub cover : ℤ
  pub currency : String
  pub state : State
  pub rating_rule : Option ℕ
  pub rated_age : Option ℤ
  pub rated_at : Option ℕ
  pub quoted_at : Option ℕ
  pub accepted_at : Option ℕ
  pub activated_at : Option ℕ
  pub quote_expires_at : Option ℕ
  pub created_by : Option ℕ
  pub created_at : ℕ
  pub updated_at : ℕ

-- `PolicyStateTransition.SOURCE_CHOICES`
pub data Source : Type 0 where
  api admin system : Source

-- The values that the code puts into a JSON column: `str(premium)`, `str(reference)`, a text.
pub data Meta : Type 0 where
  money : ℤ → Meta
  uuid : ℕ → Meta
  text : String → Meta
  flag : Bool → Meta

abbrev pub Metadata : Type 0
Metadata = List (String × Meta)

pub record PolicyStateTransition : Type 0 where
  pub id : ℕ
  pub policy_id : ℕ
  pub from_state : Option State
  pub to_state : State
  pub actor : Option ℕ
  pub source : Source
  pub reason : String
  pub metadata : Metadata
  pub created_at : ℕ

-- `Policy.is_expired` at the clock reading `now`.
abbrev pub is_past : ℕ → Option ℕ → Bool
is_past now none = false
is_past now (some expires) = ltb expires now

unfoldable pub is_expired : ℕ → Policy → Bool
is_expired now policy = is_past now policy.quote_expires_at
