-- ===== src/Policies/AdminForm.antt =====
-- apps/policies/admin.py: the form of a policy on the admin site, and adding one there. What a
-- valid form has read is given: its two foreign keys point at rows.
use democrance_insurance_api.Prelude.{ℕ, none, String, List, [], ◌∷◌, any, str_eq, if◌then◌else◌}
use democrance_insurance_api.Policies.Rows.{Policy}
use democrance_insurance_api.Policies.StateMachine.{new}
use democrance_insurance_api.Common.Errors.{integrity_error}
use democrance_insurance_api.Database.{
  Env, Action, ◌>>=◌, ◌>>◌, pure, gets, raise_if, modify, ask, set_policy, insert_policy,
}

-- `PolicyAdmin.readonly_fields`
abbrev pub readonly_fields : List String
readonly_fields =
    "quote_reference" ∷ "state" ∷ "premium" ∷ "currency" ∷ "rating_rule" ∷ "rated_age" ∷ "rated_at"
    ∷ "quoted_at" ∷ "accepted_at" ∷ "activated_at" ∷ "quote_expires_at" ∷ "created_at"
    ∷ "updated_at" ∷ []

-- A column takes the value of the form unless it is read-only.
abbrev pub written : {A : Type 0} → String → A → A → A
written name form row = if any (λ f. str_eq f name) readonly_fields then row else form

-- The row that a form makes of the one that was read, at the clock reading `now`.
unfoldable pub save_form : ℕ → Policy → Policy → Policy
save_form now form row = record {
  id = row.id;
  quote_reference = written "quote_reference" form.quote_reference row.quote_reference;
  customer_id = written "customer" form.customer_id row.customer_id;
  product_id = written "product" form.product_id row.product_id;
  premium = written "premium" form.premium row.premium;
  cover = written "cover" form.cover row.cover;
  currency = written "currency" form.currency row.currency;
  state = written "state" form.state row.state;
  rating_rule = written "rating_rule" form.rating_rule row.rating_rule;
  rated_age = written "rated_age" form.rated_age row.rated_age;
  rated_at = written "rated_at" form.rated_at row.rated_at;
  quoted_at = written "quoted_at" form.quoted_at row.quoted_at;
  accepted_at = written "accepted_at" form.accepted_at row.accepted_at;
  activated_at = written "activated_at" form.activated_at row.activated_at;
  quote_expires_at = written "quote_expires_at" form.quote_expires_at row.quote_expires_at;
  created_by = written "created_by" form.created_by row.created_by;
  created_at = row.created_at;
  updated_at = now;
}

-- The change form is sent: `seen` is the row as the request read it, without a lock. The save
-- writes every column, those that the form may not write with the values of `seen`.
unfoldable pub edit_policy : Env → ℕ → Policy → Policy → Action (Unit {0})
edit_policy env id form seen = do
  now ← ask env.now
  modify (set_policy id (λ row. save_form now form seen))

-- A new row: the defaults of the model, and the form where it may write.
unfoldable pub blank_policy : ℕ → String → ℕ → Policy → Policy
unfolding save_form
blank_policy id reference now form = save_form now form (record {
  id = id;
  quote_reference = reference;
  customer_id = form.customer_id;
  product_id = form.product_id;
  premium = none;
  cover = form.cover;
  currency = "";
  state = new;
  rating_rule = none;
  rated_age = none;
  rated_at = none;
  quoted_at = none;
  accepted_at = none;
  activated_at = none;
  quote_expires_at = none;
  created_by = none;
  created_at = now;
  updated_at = now;
})

unfoldable pub add_policy : Env → Policy → Action Policy
unfolding blank_policy
add_policy env form = do
  now ← ask env.now
  uuid ← ask env.uuid
  created ← ask env.now
  id ← gets (λ db. db.next_policy)
  taken ←
      gets
        (λ db. any (λ (p : Policy). str_eq p.quote_reference (env.quote_text now uuid)) db.policies)
  raise_if taken integrity_error
  modify (insert_policy (blank_policy id (env.quote_text now uuid) created form))
  pure (blank_policy id (env.quote_text now uuid) created form)
