-- ===== src/Lifecycle/Edited.antt =====
-- What the admin form of apps/policies/admin.py does to the invariant of the lifecycle.
use democrance_insurance_api.Prelude.{
  ℕ, suc, filter-eq-nil, ◌<◌, ◌≡◌, refl, sym, ap, ◌∙◌, some, List, [], In, In-update, update-In,
  Bool-cases, inl, inr, arith, ◌≢◌, ==_iff, ◌==◌, if◌then◌else◌,
}
use mathlib.Core.Path.{subst, subst₂}
use democrance_insurance_api.Policies.Rows.{Policy, PolicyStateTransition}
use democrance_insurance_api.Policies.StateMachine.{State, new}
use democrance_insurance_api.Policies.History.{
  history, Recorded, nothing, Recorded-unique, IsAudited, policy_by_id-In,
}
use democrance_insurance_api.Policies.AdminForm.{save_form, edit_policy, add_policy, blank_policy}
use democrance_insurance_api.Database.{Db, Env, World, policy_by_id, ok, set_policy, insert_policy}
use democrance_insurance_api.Lifecycle.Invariant.{IsSound, IsOffered}

-- The columns that the lifecycle is about.
pub record SameBusiness (p x : Policy) : Type 0 where
  pub same_id : p.id ≡ x.id
  pub same_state : p.state ≡ x.state
  pub same_premium : p.premium ≡ x.premium
  pub same_currency : p.currency ≡ x.currency

save_form-SameBusiness :
    (now : ℕ) (form seen : Policy) → SameBusiness (save_form now form seen) seen
unfolding save_form
save_form-SameBusiness now form seen = record {
  same_id = refl;
  same_state = refl;
  same_premium = refl;
  same_currency = refl;
}

module _ (id now : ℕ) (form seen : Policy) where
  -- A row after the save of the form.
  abbrev edited : Policy → Policy
  edited x = if x.id == id then save_form now form seen else x

  abbrev edited_db : Db → Db
  edited_db db = set_policy id (λ row. save_form now form seen) db

  module _ (db : Db) (current : (x : Policy) → In x db.policies → x.id ≡ id → x ≡ seen) where
    edited-SameBusiness : (x : Policy) → In x db.policies → SameBusiness (edited x) x
    edited-SameBusiness x at = elim (Bool-cases (x.id == id)) [
      | inl hit ↦ rw hit (
          subst (SameBusiness (save_form now form seen))
            (sym (current x at ((==_iff x.id id).0 hit))) (save_form-SameBusiness now form seen))
      | inr miss ↦
          rw miss (record {
            same_id = refl;
            same_state = refl;
            same_premium = refl;
            same_currency = refl;
          })
    ]

    -- A row after the edit, and the row that it was.
    source_row :
        (p : Policy)
        → In p (edited_db db).policies
        → (x : Policy) × In x db.policies × SameBusiness p x
    source_row p m =
        let (x, at, e) =
          In-update (λ (q : Policy). q.id == id) (λ row. save_form now form seen) p db.policies m in
        (x, at, subst (λ z. SameBusiness z x) (sym e) (edited-SameBusiness x at))

    set_form-IsSound : IsSound db → IsSound (edited_db db)
    set_form-IsSound sound = record {
      audited = record {
        recorded = λ p m.
            let (x, at, same) = source_row p m in
            subst₂ (λ k s. Recorded (history k db) (some s)) (sym same.same_id)
              (sym same.same_state) (sound.audited.recorded x at);
        policy_keys = λ p m.
            let (x, at, same) = source_row p m in
            subst (λ k. k < db.next_policy) (sym same.same_id) (sound.audited.policy_keys x at);
        row_keys = sound.audited.row_keys;
      };
      offered = λ p m.
          let (x, at, same) = source_row p m in
          subst IsOffered (sym same.same_state) (sound.offered x at);
      receipts = λ payment m.
          let r = sound.receipts payment m in
          let same = edited-SameBusiness r.policy r.listed in
          record {
            policy = edited r.policy;
            listed =
                update-In (λ (q : Policy). q.id == id) (λ row. save_form now form seen) r.policy
                  db.policies r.listed;
            owner = same.same_id ∙ r.owner;
            bound = same.same_state ∙ r.bound;
            amount = same.same_premium ∙ r.amount;
            currency = same.same_currency ∙ r.currency;
          };
      charged_once = sound.charged_once;
      key_once = sound.key_once;
    }

-- Saving a policy's form on the admin site, whatever the form holds, keeps the invariant of the
-- lifecycle, provided that the row has not changed since the request read it.
pub edit_policy-IsSound :
    (env : Env) (id : ℕ) (form seen : Policy) (w : World)
    → IsSound w.db
    → ((x : Policy) → In x w.db.policies → x.id ≡ id → x ≡ seen)
    → IsSound (edit_policy env id form seen w).1.db
unfolding edit_policy
edit_policy-IsSound env id form seen w sound current =
    set_form-IsSound id (env.now w.asked) form seen w.db current sound

-- On tables that satisfy the invariant, when a policy has moved to another state since the request
-- read its row, saving its form on the admin site puts the old state back and leaves the history
-- as it is, so the tables are not audited any more.
pub edit_policy-stale :
    (env : Env) (id : ℕ) (form seen p : Policy) (w : World)
    → IsSound w.db
    → policy_by_id id w.db ≡ some p
    → seen.id ≡ id
    → seen.state ≢ p.state
    → In (save_form (env.now w.asked) form seen) (edit_policy env id form seen w).1.db.policies
      × ((save_form (env.now w.asked) form seen).state ≡ seen.state)
      × (history id (edit_policy env id form seen w).1.db ≡ history id w.db)
      × (¬ IsAudited (edit_policy env id form seen w).1.db)
unfolding edit_policy
edit_policy-stale env id form seen p w sound found key moved =
    let (at, same_key) = policy_by_id-In id w.db p found in
    let row = save_form (env.now w.asked) form seen in
    let same = save_form-SameBusiness (env.now w.asked) form seen in
    let kept = update-In (λ (q : Policy). q.id == id) (λ old. row) p w.db.policies at in
    let listed : In row (set_policy id (λ old. row) w.db).policies =
      rw ((==_iff p.id id).1 same_key) at kept in
    (
      listed,
      same.same_state,
      refl,
      λ after.
          let now_told =
            subst (λ k. Recorded (history k w.db) (some row.state)) (same.same_id ∙ key)
              (after.recorded row listed) in
          let was_told =
            subst (λ k. Recorded (history k w.db) (some p.state)) same_key
              (sound.audited.recorded p at) in
          let one = Recorded-unique now_told was_told in
          moved (sym same.same_state ∙ some-injective one),
    )
  where
    some-injective : {a b : State} → some a ≡ some b → a ≡ b
    some-injective e = cc

module _ (env : Env) (form : Policy) (w : World) where
  -- The row that the admin site adds.
  abbrev added : Policy
  added =
      blank_policy w.db.next_policy (env.quote_text (env.now w.asked) (env.uuid (suc w.asked)))
        (env.now (suc (suc w.asked))) form

  add_policy-eq-ok :
      (p : Policy)
      → (add_policy env form w).0 ≡ ok p
      → (p ≡ added) × ((add_policy env form w).1.db ≡ insert_policy added w.db)
  unfolding add_policy
  add_policy-eq-ok p e = ground arith

  added-new : (added.id ≡ w.db.next_policy) × (added.state ≡ new)
  unfolding blank_policy save_form
  added-new = (refl, refl)

  no_rows : IsAudited w.db → history w.db.next_policy w.db ≡ []
  no_rows audited =
      filter-eq-nil (λ (t : PolicyStateTransition). t.policy_id == w.db.next_policy)
        w.db.transitions (λ t m. let low = audited.row_keys t m in ground arith)

  -- A policy that is added on the admin site to audited tables is in the table in state new
  -- without a history row, so the tables are not audited any more.
  pub add_policy-untold :
      (p : Policy)
      → IsAudited w.db
      → (add_policy env form w).0 ≡ ok p
      → In p (add_policy env form w).1.db.policies
        × (p.state ≡ new)
        × (history p.id (add_policy env form w).1.db ≡ [])
        × (¬ IsAudited (add_policy env form w).1.db)
  add_policy-untold p audited e =
      let (row, db) = add_policy-eq-ok p e in
      let key : p.id ≡ w.db.next_policy = ap (λ (q : Policy). q.id) row ∙ added-new.0 in
      let rows : history p.id (insert_policy added w.db) ≡ [] =
        ap (λ k. history k w.db) key ∙ no_rows audited in
      let state : p.state ≡ new = ap (λ (q : Policy). q.state) row ∙ added-new.1 in
      (
        rw db (inl row),
        state,
        rw db rows,
        rw db (λ after. untold rows (after.recorded p (inl row))),
      )
    where
      untold :
          {rows : List PolicyStateTransition} {s : State} → rows ≡ [] → ¬ Recorded rows (some s)
      untold {rows} {s} e r = cc (Recorded-unique (subst (λ z. Recorded z (some s)) e r) nothing)
