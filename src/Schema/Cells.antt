-- ===== src/Schema/Cells.antt =====
-- The rows of the model, column by column.
use democrance_insurance_api.Prelude.{ℕ, Option, none, some, String, str_eq, if◌then◌else◌}
use democrance_insurance_api.Schema.{Cell, null, other, number, word}
use democrance_insurance_api.Policies.Rows.{Policy, PolicyStateTransition}
use democrance_insurance_api.Payments.Rows.{Payment}

abbrev pub key? : Option ℕ → Cell
key? none = null
key? (some id) = number id

abbrev pub word? : Option String → Cell
word? none = null
word? (some s) = word s

abbrev pub other? : {A : Type 0} → Option A → Cell
other? none = null
other? (some a) = other

abbrev pub policy_cell : Policy → String → Cell
policy_cell p column =
    if str_eq column "id"
    then number p.id
    else if str_eq column "quote_reference"
    then word p.quote_reference
    else if str_eq column "premium"
    then other? p.premium
    else if str_eq column "rated_age"
    then other? p.rated_age
    else if str_eq column "rated_at"
    then other? p.rated_at
    else if str_eq column "quoted_at"
    then other? p.quoted_at
    else if str_eq column "accepted_at"
    then other? p.accepted_at
    else if str_eq column "activated_at"
    then other? p.activated_at
    else if str_eq column "quote_expires_at"
    then other? p.quote_expires_at
    else if str_eq column "created_by_id"
    then key? p.created_by
    else if str_eq column "customer_id"
    then number p.customer_id
    else if str_eq column "product_id"
    then number p.product_id
    else if str_eq column "rating_rule_id"
    then key? p.rating_rule
    else if str_eq column "currency"
    then word p.currency
    else other

abbrev pub transition_cell : PolicyStateTransition → String → Cell
transition_cell t column =
    if str_eq column "id"
    then number t.id
    else if str_eq column "from_state"
    then other? t.from_state
    else if str_eq column "reason"
    then word t.reason
    else if str_eq column "actor_id"
    then key? t.actor
    else if str_eq column "policy_id"
    then number t.policy_id
    else other

abbrev pub payment_cell : Payment → String → Cell
payment_cell payment column =
    if str_eq column "id"
    then number payment.id
    else if str_eq column "reference"
    then number payment.reference
    else if str_eq column "currency"
    then word payment.currency
    else if str_eq column "idempotency_key"
    then word? payment.idempotency_key
    else if str_eq column "settled_at"
    then other? payment.settled_at
    else if str_eq column "policy_id"
    then number payment.policy_id
    else other
