-- ===== src/Lifecycle/Reading.antt =====
-- The parts of the handlers of apps/policies/views.py that only read, and what follows them.
use mathlib.Core.Path.{subst}
use democrance_insurance_api.Prelude.{
  ℕ, ℤ, ◌≡◌, refl, sym, Bool, true, false, Option, String, List, [], ◌∷◌, arith, ap,
}
use democrance_insurance_api.Accounts.{Principal}
use democrance_insurance_api.Policies.Rows.{Policy}
use democrance_insurance_api.Policies.Serializers.{
  Dict, Body, dict, not_dict, Fields, reject_unknown, unknown_keys, create_fields,
  transition_fields, create_input, transition_input, read_transition, required, optional, lookup,
  validate_create, validate_transition,
}
use democrance_insurance_api.Policies.Views.{Response, get_policy}
use democrance_insurance_api.Common.Errors.{Error}
use democrance_insurance_api.Database.{World, Action, ◌>>=◌, ◌>>◌, pure, raise_if, Result, ok, err}
use democrance_insurance_api.Lifecycle.Refinement.{Refines}

-- An action that only reads.
abbrev pub Reads : {A : Type 0} → Action A → Type 0
Reads m = (w : World) → (m w).1 ≡ w

-- A part that only reads, then one that refines.
pub Reads-Refines :
    {A B : Type 0} (m : Action A) (f : A → Action B) (w : World)
    → (m w).1 ≡ w
    → ((a : A) → Refines w.db (f a w))
    → Refines w.db ((m >>= f) w)
Reads-Refines {A} {B} m f w same rest = go (m w) same
  where
    go :
        (r : Result A × World)
        → r.1 ≡ w
        → Refines w.db
            (elim r.0 as (λ x. Result B × World) [ ok a ↦ f a r.1 | err e ↦ (err e, r.1) ])
    go (ok a, w') e = subst (λ z. Refines w.db (f a z)) (sym e) (rest a)
    go (err x, w') e = ap (λ (z : World). z.db) e

-- A part that refines, then a pure rest.
pub Refines-pure :
    {A B : Type 0} (m : Action A) (f : A → B) (w : World)
    → Refines w.db (m w)
    → Refines w.db ((m >>= λ a. pure (f a)) w)
Refines-pure {A} {B} m f w h = go (m w) h
  where
    go :
        (r : Result A × World)
        → Refines w.db r
        → Refines w.db
            (elim r.0 as (λ x. Result B × World) [ ok a ↦ (ok (f a), r.1) | err e ↦ (err e, r.1) ])
    go (ok a, w') k = k
    go (err x, w') k = k

pub raise_if-reads : (b : Bool) (e : Error) (w : World) → (raise_if b e w).1 ≡ w
raise_if-reads true e w = refl
raise_if-reads false e w = refl

abbrev pub shown : ℕ → Policy → Response
shown status policy = record { status = status; policy = policy }

pub strict_reads :
    {A : Type 0} (keys : List String) (m : Action A) (w : World)
    → (m w).1 ≡ w
    → ((reject_unknown keys >> m) w).1 ≡ w
strict_reads [] m w h = h
strict_reads (key ∷ keys) m w h = refl

pub create_input-reads :
    (fields : Fields) (payload : Dict) (w : World) → (create_input fields payload w).1 ≡ w
unfolding create_input
create_input-reads fields payload w = ground arith

pub validate_create-reads :
    (fields : Fields) (body : Body) (w : World) → (validate_create fields body w).1 ≡ w
unfolding validate_create
validate_create-reads fields not_dict w = refl
validate_create-reads fields (dict payload) w =
    strict_reads (unknown_keys create_fields payload) (create_input fields payload) w
      (create_input-reads fields payload w)

pub read_transition-reads :
    (fields : Fields) (id : Option ℤ) (status : Option String) (method : Option (Option String))
    (w : World)
    → (read_transition fields id status method w).1 ≡ w
read_transition-reads fields id status method w = ground arith

pub transition_input-reads :
    (fields : Fields) (payload : Dict) (w : World) → (transition_input fields payload w).1 ≡ w
unfolding transition_input
transition_input-reads fields payload w =
    read_transition-reads fields (required fields.integer (lookup "quote_id" payload))
      (required (fields.choice ("accepted" ∷ "active" ∷ [])) (lookup "status" payload))
      (optional (fields.choice ("simulated_card" ∷ "invoice" ∷ []))
        (lookup "payment_method" payload))
      w

pub validate_transition-reads :
    (fields : Fields) (body : Body) (w : World) → (validate_transition fields body w).1 ≡ w
unfolding validate_transition
validate_transition-reads fields not_dict w = refl
validate_transition-reads fields (dict payload) w =
    strict_reads (unknown_keys transition_fields payload) (transition_input fields payload) w
      (transition_input-reads fields payload w)

pub get_policy-reads : (id : ℤ) (who : Principal) (w : World) → (get_policy id who w).1 ≡ w
unfolding get_policy
get_policy-reads id who w = ground arith
