-- ===== src/Policies/StateMachine.antt =====
-- apps/policies/state_machine.py: the lifecycle as one table. The source's state strings are the
-- constructors of `State`; `None`, the genesis, is `none`.
use democrance_insurance_api.Prelude.{
  ℕ, ◌<◌, ◌≤◌, ◌≡◌, ◌↔◌, ◌⊎◌, refl, Bool, true, false, Option, none, some, List, [], ◌∷◌, ap, any,
  length, All, All-map, ◌≢◌, arith,
}

pub data State : Type 0 where
  new quoted accepted active expired cancelled declined : State

-- `==` on state strings
abbrev pub state_eqb : State → State → Bool
state_eqb new new = true
state_eqb quoted quoted = true
state_eqb accepted accepted = true
state_eqb active active = true
state_eqb expired expired = true
state_eqb cancelled cancelled = true
state_eqb declined declined = true
state_eqb _ _ = false

-- `TRANSITIONS.get(from_state, set())`
unfoldable pub transitions : Option State → List State
transitions none = new ∷ []
transitions (some new) = quoted ∷ []
transitions (some quoted) = accepted ∷ expired ∷ declined ∷ []
transitions (some accepted) = active ∷ []
transitions (some active) = cancelled ∷ []
transitions (some expired) = []
transitions (some cancelled) = []
transitions (some declined) = []

unfoldable pub can_transition : Option State → State → Bool
unfolding transitions
can_transition from to = any (λ s. state_eqb s to) (transitions from)

-- The arrows of the module's docstring.
infix 40 ◌⟶◌
pub data ◌⟶◌ : Option State → State → Type 0 where
  create : none ⟶ new
  price : some new ⟶ quoted
  accept : some quoted ⟶ accepted
  expire : some quoted ⟶ expired
  decline : some quoted ⟶ declined
  bind : some accepted ⟶ active
  cancel : some active ⟶ cancelled

⟶-can_transition : {from : Option State} {to : State} → from ⟶ to → can_transition from to ≡ true
unfolding can_transition
⟶-can_transition create = refl
⟶-can_transition price = refl
⟶-can_transition accept = refl
⟶-can_transition expire = refl
⟶-can_transition decline = refl
⟶-can_transition bind = refl
⟶-can_transition cancel = refl

can_transition-⟶ : (from : Option State) (to : State) → can_transition from to ≡ true → from ⟶ to
unfolding can_transition
can_transition-⟶ none new e = create
can_transition-⟶ (some new) quoted e = price
can_transition-⟶ (some quoted) accepted e = accept
can_transition-⟶ (some quoted) expired e = expire
can_transition-⟶ (some quoted) declined e = decline
can_transition-⟶ (some accepted) active e = bind
can_transition-⟶ (some active) cancelled e = cancel
can_transition-⟶ _ _ e = cc

-- The table allows exactly the seven arrows of the lifecycle.
pub can_transition_iff :
    (from : Option State) (to : State) → (can_transition from to ≡ true) ↔ (from ⟶ to)
can_transition_iff from to = (can_transition-⟶ from to, ⟶-can_transition)

-- How far along the lifecycle a state is.
abbrev pub stage : Option State → ℕ
stage none = 0
stage (some new) = 1
stage (some quoted) = 2
stage (some accepted) = 3
stage (some expired) = 3
stage (some declined) = 3
stage (some active) = 4
stage (some cancelled) = 5

-- A path of allowed moves, newest state first: the states that a policy has been in.
pub data Trail : List State → Option State → Type 0 where
  genesis : Trail [] none
  moved :
      {states : List State} {from : Option State} {to : State}
      → Trail states from
      → can_transition from to ≡ true
      → Trail (to ∷ states) (some to)

pub stage-lt :
    (from : Option State) (to : State)
    → can_transition from to ≡ true
    → stage from < stage (some to)
unfolding can_transition
stage-lt none to e = ground arith
stage-lt (some s) to e = ground arith

-- Each move goes further along, so a path is no longer than the stage that it has reached.
pub Trail-length :
    {states : List State} {s : Option State} → Trail states s → length states ≤ stage s
Trail-length genesis = omega arith
Trail-length (moved {from} {to} trail e) = omega (arith, Trail-length trail, stage-lt from to e)

-- Every state on a path is at or before the stage reached.
pub Trail-stages :
    {states : List State} {s : Option State}
    → Trail states s
    → All (λ t. stage (some t) ≤ stage s) states
Trail-stages genesis = tt
Trail-stages (moved {states} {from} {to} trail e) =
    (omega arith, All-map (λ t h. omega (arith, stage-lt from to e)) states (Trail-stages trail))

-- No state stands twice in the list.
abbrev pub IsDistinct : List State → Type 0
IsDistinct [] = Unit
IsDistinct (s ∷ states) = All (λ t. t ≢ s) states × IsDistinct states

-- On a path of allowed moves no state comes twice.
pub Trail-IsDistinct : {states : List State} {s : Option State} → Trail states s → IsDistinct states
Trail-IsDistinct genesis = tt
Trail-IsDistinct (moved {states} {from} {to} trail e) = (
  All-map
      (λ t h same.
        let further = stage-lt from to e in
        let at_once = ap (λ z. stage (some z)) same in omega arith)
      states (Trail-stages trail),
  Trail-IsDistinct trail,
)

-- No move leaves a state exactly when it is expired, cancelled or declined.
pub terminal_iff :
    (s : State) → (transitions (some s) ≡ []) ↔ ((s ≡ expired) ⊎ ((s ≡ cancelled) ⊎ (s ≡ declined)))
unfolding transitions
terminal_iff s = ground arith
