-- ===== src/Policies/History.antt =====
-- The history rows of apps/policies/models.py, against the state that a policy is in.
use democrance_insurance_api.Prelude.{
  ℕ, ℤ, String, ◌<◌, ◌≡◌, ◌≢◌, inl, inr, refl, sym, ◌∙◌, ap, Bool-cases, true, false, Option, none,
  some, List, [], ◌∷◌, In, In-update, find-In, map, filter, arith, ◌==◌, ==_iff, if◌then◌else◌,
}
use mathlib.Core.Path.{subst, subst₂}
use democrance_insurance_api.Policies.StateMachine.{
  State, new, can_transition, Trail, genesis, moved,
}
use democrance_insurance_api.Policies.Rows.{Policy, PolicyStateTransition}
use democrance_insurance_api.Database.{
  Db, policy_by_id, set_policy, insert_transition, insert_policy,
}

-- `policy.transitions`, newest first.
abbrev pub history : ℕ → Db → List PolicyStateTransition
history id db = filter (λ t. t.policy_id == id) db.transitions

-- Rows, newest first, that lead from nothing to a state: each starts where the one before it
-- ended, and makes an allowed move.
pub data Recorded : List PolicyStateTransition → Option State → Type 0 where
  nothing : Recorded [] none
  row :
      {rows : List PolicyStateTransition} {from : Option State} {to : State}
      (t : PolicyStateTransition)
      → Recorded rows from
      → t.from_state ≡ from
      → t.to_state ≡ to
      → can_transition from to ≡ true
      → Recorded (t ∷ rows) (some to)

-- The rows determine the state.
pub Recorded-unique :
    {rows : List PolicyStateTransition} {s s' : Option State}
    → Recorded rows s
    → Recorded rows s'
    → s ≡ s'
Recorded-unique nothing nothing = refl
Recorded-unique (row t r f e c) (row _ r' f' e' c') = ap some (sym e ∙ e')

relabel :
    {rows rows' : List PolicyStateTransition} {s s' : Option State}
    → rows ≡ rows'
    → s ≡ s'
    → Recorded rows s
    → Recorded rows' s'
relabel er es r = subst₂ Recorded er es r

-- The states that the rows lead to form a path of the lifecycle.
pub Recorded-Trail :
    {rows : List PolicyStateTransition} {s : Option State}
    → Recorded rows s
    → Trail (map (λ t. t.to_state) rows) s
Recorded-Trail nothing = genesis
Recorded-Trail (row {rows} {to} t r f e c) =
    subst (λ z. Trail (z ∷ map (λ t. t.to_state) rows) (some to)) (sym e)
      (moved (Recorded-Trail r) c)

-- No policy is without its trail, and no key is used before it is handed out.
pub record IsAudited (db : Db) : Type 0 where
  pub recorded : (p : Policy) → In p db.policies → Recorded (history p.id db) (some p.state)
  pub policy_keys : (p : Policy) → In p db.policies → p.id < db.next_policy
  pub row_keys : (t : PolicyStateTransition) → In t db.transitions → t.policy_id < db.next_policy

-- A row of another policy does not show in a history.
history-skip :
    (id : ℕ) (t : PolicyStateTransition) (db : Db)
    → t.policy_id ≢ id
    → history id (insert_transition t db) ≡ history id db
history-skip id t db ne = ground arith

history-add :
    (id : ℕ) (t : PolicyStateTransition) (db : Db)
    → t.policy_id ≡ id
    → history id (insert_transition t db) ≡ t ∷ history id db
history-add id t db e = ground arith

-- A key that no row has yet has no history.
filter-fresh :
    (id : ℕ) (rows : List PolicyStateTransition)
    → ((t : PolicyStateTransition) → In t rows → t.policy_id < id)
    → filter (λ t. t.policy_id == id) rows ≡ []
filter-fresh id [] below = refl
filter-fresh id (t ∷ rows) below =
    ground (arith, below t (inl refl), filter-fresh id rows (λ u h. below u (inr h)))

-- The trail of a policy, for rows under any name.
abbrev IsRecorded : Db → Policy → Type 0
IsRecorded db p = Recorded (history p.id db) (some p.state)

first_move :
    (db : Db) (p : Policy) (t : PolicyStateTransition) (s : State)
    → IsAudited db
    → p.id ≡ db.next_policy
    → t.policy_id ≡ db.next_policy
    → t.from_state ≡ none
    → t.to_state ≡ s
    → can_transition none s ≡ true
    → Recorded (history p.id (insert_transition t db)) (some s)
first_move db p t s audit key owner from to move =
    let fresh =
      filter-fresh p.id db.transitions (λ u h. let below = audit.row_keys u h in omega arith) in
    subst (λ rows. Recorded rows (some s))
      (sym (history-add p.id t db (owner ∙ sym key) ∙ ap (λ rows. t ∷ rows) fresh))
      (row t nothing from to move)

-- Inserting a policy in state `new` with its genesis row keeps the audit.
pub open-IsAudited :
    (db : Db) (p : Policy) (t : PolicyStateTransition)
    → IsAudited db
    → p.id ≡ db.next_policy
    → p.state ≡ new
    → t.policy_id ≡ db.next_policy
    → t.from_state ≡ none
    → t.to_state ≡ new
    → IsAudited (insert_transition t (insert_policy p db))
unfolding can_transition
open-IsAudited db p t audit key state owner from to = record {
  recorded = λ q m. elim m [
    | inl e ↦ subst (IsRecorded (insert_transition t (insert_policy p db))) (sym e) (
        first_move db p t p.state audit key owner from (to ∙ sym state)
          (ap (λ z. can_transition none z) state))
    | inr h ↦
        let below = audit.policy_keys q h in
        subst (λ rows. Recorded rows (some q.state)) (sym (history-skip q.id t db (omega arith)))
          (audit.recorded q h)
  ];
  policy_keys = λ q m. elim m [
    | inl e ↦ let same = ap (λ (z : Policy). z.id) e in omega arith
    | inr h ↦ let below = audit.policy_keys q h in omega arith
  ];
  row_keys = λ u m. elim m [
    | inl e ↦ let same = ap (λ (z : PolicyStateTransition). z.policy_id) e in omega arith
    | inr h ↦ let below = audit.row_keys u h in omega arith
  ];
}

-- Two rows of the table with one key are in the same state.
pub state_by_key :
    (db : Db) (p q : Policy)
    → IsAudited db
    → In p db.policies
    → In q db.policies
    → p.id ≡ q.id
    → p.state ≡ q.state
state_by_key db p q audit hp hq same = cc (
    Recorded-unique (audit.recorded p hp)
      (subst (λ k. Recorded (history k db) (some q.state)) (sym same) (audit.recorded q hq)))

-- What `get(pk=…)` finds is a row with this key.
pub policy_by_id-In :
    (id : ℕ) (db : Db) (p : Policy) → policy_by_id id db ≡ some p → In p db.policies × (p.id ≡ id)
policy_by_id-In id db p found =
    let (at, key) = find-In (λ (q : Policy). q.id == id) p db.policies found in
    (at, (==_iff p.id id).0 key)

-- What was agreed when the policy was priced.
pub record Terms : Type 0 where
  pub quote_reference : String
  pub customer_id : ℕ
  pub product_id : ℕ
  pub premium : Option ℤ
  pub cover : ℤ
  pub currency : String
  pub rating_rule : Option ℕ
  pub rated_age : Option ℤ
  pub rated_at : Option ℕ

abbrev pub terms : Policy → Terms
terms p = record {
  quote_reference = p.quote_reference;
  customer_id = p.customer_id;
  product_id = p.product_id;
  premium = p.premium;
  cover = p.cover;
  currency = p.currency;
  rating_rule = p.rating_rule;
  rated_age = p.rated_age;
  rated_at = p.rated_at;
}

-- How a move writes: the state is set, the key and the terms stay.
abbrev pub Writes : (Policy → Policy) → State → Type 0
Writes write to =
    (q : Policy)
    → ((write q).state ≡ to)
      × ((write q).id ≡ q.id)
      × ((write q).premium ≡ q.premium)
      × ((write q).currency ≡ q.currency)
      × (terms (write q) ≡ terms q)

module _ (db : Db) (id : ℕ) (p : Policy) (to : State) (t : PolicyStateTransition)
    (write : Policy → Policy) (audit : IsAudited db) (found : policy_by_id id db ≡ some p)
    (move : can_transition (some p.state) to ≡ true) (owner : t.policy_id ≡ id)
    (from : t.from_state ≡ some p.state) (target : t.to_state ≡ to) (writes : Writes write to) where
  -- The row that an update makes of `x`.
  abbrev after : Policy → Policy
  after x = if x.id == id then write x else x

  moved_row :
      (x : Policy)
      → In x db.policies
      → x.id ≡ id
      → Recorded (history x.id (insert_transition t db)) (some to)
  moved_row x at same =
      let (in_table, key) = policy_by_id-In id db p found in
      let states = state_by_key db x p audit at in_table (same ∙ sym key) in
      relabel (sym (history-add x.id t db (owner ∙ sym same))) refl (
        row t (audit.recorded x at) (from ∙ ap some (sym states)) target
          (ap (λ z. can_transition (some z) to) states ∙ move))

  after-key : (x : Policy) → (after x).id ≡ x.id
  after-key x = ground (arith, writes x)

  after-state_moved : (x : Policy) → (x.id == id) ≡ true → to ≡ (after x).state
  after-state_moved x same = ground (arith, writes x)

  after-state_other : (x : Policy) → (x.id == id) ≡ false → x.state ≡ (after x).state
  after-state_other x other = ground arith

  after-Recorded :
      (x : Policy)
      → In x db.policies
      → Recorded (history (after x).id (insert_transition t db)) (some (after x).state)
  after-Recorded x at =
      let keys = ap (λ k. history k (insert_transition t db)) (sym (after-key x)) in
      elim (Bool-cases (x.id == id)) [
        | inl same ↦
            relabel keys (ap some (after-state_moved x same))
              (moved_row x at ((==_iff x.id id).0 same))
        | inr other ↦
            relabel (sym (history-skip x.id t db (λ e. ground arith)) ∙ keys)
              (ap some (after-state_other x other)) (audit.recorded x at)
      ]

  -- Moving the policy with key `id` by an allowed move, with the row of that move, keeps the
  -- audit.
  pub advance-IsAudited : IsAudited (set_policy id write (insert_transition t db))
  advance-IsAudited = record {
    recorded = λ q m.
        let (x, at, e) = In-update (λ (r : Policy). r.id == id) write q db.policies m in
        subst (IsRecorded (insert_transition t db)) (sym e) (after-Recorded x at);
    policy_keys = λ q m.
        let (x, at, e) = In-update (λ (r : Policy). r.id == id) write q db.policies m in
        let below = audit.policy_keys x at in
        let key = ap (λ (z : Policy). z.id) e ∙ after-key x in omega arith;
    row_keys = λ u m. elim m [
      | inl e ↦
          let (in_table, key) = policy_by_id-In id db p found in
          let below = audit.policy_keys p in_table in
          let same = ap (λ (z : PolicyStateTransition). z.policy_id) e in omega arith
      | inr h ↦ audit.row_keys u h
    ];
  }
