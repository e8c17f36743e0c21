-- ===== src/Policies/Narrative.antt =====
-- The history of a policy of apps/policies/models.py, read off its state.
use democrance_insurance_api.Prelude.{
  ◌≡◌, refl, ap, ◌∙◌, true, Option, none, some, List, [], ◌∷◌, map, arith,
}
use democrance_insurance_api.Policies.StateMachine.{
  State, new, quoted, accepted, active, expired, cancelled, declined, can_transition, Trail,
  genesis, moved,
}
use democrance_insurance_api.Policies.Rows.{PolicyStateTransition}
use democrance_insurance_api.Policies.History.{Recorded, Recorded-Trail}

-- The only way to each state, newest first.
abbrev pub narrative : Option State → List State
narrative none = []
narrative (some new) = new ∷ []
narrative (some quoted) = quoted ∷ new ∷ []
narrative (some accepted) = accepted ∷ quoted ∷ new ∷ []
narrative (some active) = active ∷ accepted ∷ quoted ∷ new ∷ []
narrative (some expired) = expired ∷ quoted ∷ new ∷ []
narrative (some declined) = declined ∷ quoted ∷ new ∷ []
narrative (some cancelled) = cancelled ∷ active ∷ accepted ∷ quoted ∷ new ∷ []

narrative-step :
    (from : Option State) (to : State)
    → can_transition from to ≡ true
    → to ∷ narrative from ≡ narrative (some to)
unfolding can_transition
narrative-step none to e = ground arith
narrative-step (some s) to e = ground arith

-- A path of allowed moves is the only one to its end.
pub Trail-eq-narrative :
    {states : List State} {s : Option State} → Trail states s → states ≡ narrative s
Trail-eq-narrative genesis = refl
Trail-eq-narrative (moved {states} {from} {to} trail e) =
    ap (λ (z : List State). to ∷ z) (Trail-eq-narrative trail) ∙ narrative-step from to e

pub Recorded-eq-narrative :
    {rows : List PolicyStateTransition} {s : Option State}
    → Recorded rows s
    → map (λ t. t.to_state) rows ≡ narrative s
Recorded-eq-narrative trail = Trail-eq-narrative (Recorded-Trail trail)
