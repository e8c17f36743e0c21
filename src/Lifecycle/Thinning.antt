-- ===== src/Lifecycle/Thinning.antt =====
-- Tables with fewer policies, or with other columns of them rewritten, against the invariant of
-- apps/policies and apps/payments.
use mathlib.Core.Path.{subst}
use democrance_insurance_api.Prelude.{
  ℕ, ◌≡◌, refl, sym, ap, ◌∙◌, inl, inr, Bool, Bool-cases, true, false, not, Option, some, List, [],
  ◌∷◌, In, In-filter, In-map, map-In, any-none, map, filter, any, arith, ◌↔◌, ◌==◌, ==_iff,
}
use democrance_insurance_api.Policies.Rows.{Policy, PolicyStateTransition}
use democrance_insurance_api.Policies.StateMachine.{State}
use democrance_insurance_api.Policies.History.{history, Recorded, nothing, row}
use democrance_insurance_api.Payments.Rows.{Payment}
use democrance_insurance_api.Database.{Db}
use democrance_insurance_api.Database.Deleting.{without}
use democrance_insurance_api.Lifecycle.Edited.{SameBusiness}
use democrance_insurance_api.Lifecycle.Invariant.{IsSound, IsOffered, Receipt}

-- Fewer policies, the same in what the lifecycle is about, with the history that they had; none
-- is missing that has a receipt.
pub record Thins (db db' : Db) : Type 0 where
  source : (p : Policy) → In p db'.policies → (x : Policy) × In x db.policies × SameBusiness p x
  told :
      (p : Policy) (s : State)
      → In p db'.policies
      → Recorded (history p.id db) (some s)
      → Recorded (history p.id db') (some s)
  rows :
      (t : PolicyStateTransition)
      → In t db'.transitions
      → (u : PolicyStateTransition) × In u db.transitions × (t.policy_id ≡ u.policy_id)
  paid :
      (payment : Payment) (x : Policy)
      → In payment db.payments
      → In x db.policies
      → x.id ≡ payment.policy_id
      → (p : Policy) × In p db'.policies × SameBusiness p x
  pub same_payments : db'.payments ≡ db.payments
  same_key : db'.next_policy ≡ db.next_policy

Thins-Receipt :
    {db db' : Db}
    → Thins db db'
    → (payment : Payment) → In payment db.payments
    → Receipt db payment
    → Receipt db' payment
Thins-Receipt thin payment at r =
    let (p, listed, same) = thin.paid payment r.policy at r.listed r.owner in
    record {
      policy = p;
      listed = listed;
      owner = same.same_id ∙ r.owner;
      bound = same.same_state ∙ r.bound;
      amount = same.same_premium ∙ r.amount;
      currency = same.same_currency ∙ r.currency;
    }

pub Thins-IsSound : {db db' : Db} → Thins db db' → IsSound db → IsSound db'
Thins-IsSound {db} {db'} thin sound = record {
  audited = record {
    recorded = λ p m.
        let (x, at, same) = thin.source p m in
        thin.told p p.state m (
          subst (λ k. Recorded (history k db) (some p.state)) (sym same.same_id)
            (subst (λ s. Recorded (history x.id db) (some s)) (sym same.same_state)
              (sound.audited.recorded x at)));
    policy_keys = λ p m.
        let (x, at, same) = thin.source p m in
        let below = sound.audited.policy_keys x at in
        let id = same.same_id in let next = thin.same_key in omega arith;
    row_keys = λ t m.
        let (u, at, same) = thin.rows t m in
        let below = sound.audited.row_keys u at in let next = thin.same_key in omega arith;
  };
  offered = λ p m.
      let (x, at, same) = thin.source p m in
      subst IsOffered (sym same.same_state) (sound.offered x at);
  receipts = λ payment m.
      let at = subst (In payment) thin.same_payments m in
      Thins-Receipt thin payment at (sound.receipts payment at);
  charged_once = rw thin.same_payments sound.charged_once;
  key_once = rw thin.same_payments sound.key_once;
}

pub same-SameBusiness : (p : Policy) → SameBusiness p p
same-SameBusiness p = record {
  same_id = refl;
  same_state = refl;
  same_premium = refl;
  same_currency = refl;
}

history-without :
    (gone : ℕ → Bool) (id : ℕ) (rows : List PolicyStateTransition)
    → gone id ≡ false
    → filter
        (λ (t : PolicyStateTransition). t.policy_id == id)
        (without (λ (t : PolicyStateTransition). t.policy_id) gone rows)
      ≡ filter (λ (t : PolicyStateTransition). t.policy_id == id) rows
history-without gone id [] kept = refl
history-without gone id (t ∷ rows) kept =
    let ih = history-without gone id rows kept in
    elim (Bool-cases (gone t.policy_id)) [
      | inl e ↦ elim (Bool-cases (t.policy_id == id)) [
        | inl same ↦ let k = (==_iff t.policy_id id).0 same in cc
        | inr other ↦ rw e (rw other ih)
      ]
      | inr e ↦ elim (Bool-cases (t.policy_id == id)) [
        | inl same ↦ rw e (rw same (ap (λ l. t ∷ l) ih))
        | inr other ↦ rw e (rw other ih)
      ]
    ]

module _ (gone : ℕ → Bool) (db : Db) where
  pub policies-Thins :
      any (λ (payment : Payment). gone payment.policy_id) db.payments ≡ false
      → Thins db (record db {
        policies = without (λ (p : Policy). p.id) gone db.policies;
        transitions = without (λ (t : PolicyStateTransition). t.policy_id) gone db.transitions;
      })
  policies-Thins unpaid = record {
    source = λ p m. (p, ((kept_policy p).0 m).0, same-SameBusiness p);
    told = λ p s m.
        subst (λ rows. Recorded rows (some s))
          (sym (history-without gone p.id db.transitions (not_gone p.id ((kept_policy p).0 m).1)));
    rows = λ t m.
        let kept =
          In-filter (λ (u : PolicyStateTransition). not (gone u.policy_id)) t db.transitions in
        (t, (kept.0 m).0, refl);
    paid = λ payment x at listed owner.
        let stays = any-none (λ (r : Payment). gone r.policy_id) payment db.payments unpaid at in
        (x, (kept_policy x).1 (listed, ap not (ap gone owner ∙ stays)), same-SameBusiness x);
    same_payments = refl;
    same_key = refl;
  }
    where
      kept_policy :
          (p : Policy)
          → In p (without (λ (q : Policy). q.id) gone db.policies)
            ↔ (In p db.policies × (not (gone p.id) ≡ true))
      kept_policy p = In-filter (λ (q : Policy). not (gone q.id)) p db.policies

      not_gone : (k : ℕ) → not (gone k) ≡ true → gone k ≡ false
      not_gone k e = ground arith

Recorded-map :
    (f : PolicyStateTransition → PolicyStateTransition)
    → ((t : PolicyStateTransition)
        → ((f t).from_state ≡ t.from_state) × ((f t).to_state ≡ t.to_state))
    → {rows : List PolicyStateTransition} {s : Option State} → Recorded rows s
    → Recorded (map f rows) s
Recorded-map f same nothing = nothing
Recorded-map f same (row t r from to move) =
    row (f t) (Recorded-map f same r) ((same t).0 ∙ from) ((same t).1 ∙ to) move

history-map :
    (f : PolicyStateTransition → PolicyStateTransition)
    → ((t : PolicyStateTransition) → (f t).policy_id ≡ t.policy_id)
    → (id : ℕ) (rows : List PolicyStateTransition)
    → filter (λ (t : PolicyStateTransition). t.policy_id == id) (map f rows)
      ≡ map f (filter (λ (t : PolicyStateTransition). t.policy_id == id) rows)
history-map f same id [] = refl
history-map f same id (t ∷ rows) = ground (arith, same t, history-map f same id rows)

-- Policies rewritten in other columns.
module _ (write : Policy → Policy) (same : (p : Policy) → SameBusiness (write p) p)
    (tell : PolicyStateTransition → PolicyStateTransition)
    (states : (t : PolicyStateTransition)
      → ((tell t).from_state ≡ t.from_state) × ((tell t).to_state ≡ t.to_state))
    (owner : (t : PolicyStateTransition) → (tell t).policy_id ≡ t.policy_id) where
  pub rewritten-Thins :
      (db db' : Db)
      → db'.policies ≡ map write db.policies
      → db'.transitions ≡ map tell db.transitions
      → db'.payments ≡ db.payments
      → db'.next_policy ≡ db.next_policy
      → Thins db db'
  rewritten-Thins db db' policies rows payments key = record {
    source = λ p m.
        let (x, at, e) = In-map write p db.policies (subst (In p) policies m) in
        (x, at, subst (λ z. SameBusiness z x) (sym e) (same x));
    told = λ p s m r.
        subst
          (λ ts. Recorded (filter (λ (t : PolicyStateTransition). t.policy_id == p.id) ts) (some s))
          (sym rows)
          (subst (λ ts. Recorded ts (some s)) (sym (history-map tell owner p.id db.transitions))
            (Recorded-map tell states r));
    rows = λ t m.
        let (u, at, e) = In-map tell t db.transitions (subst (In t) rows m) in
        (u, at, ap (λ (z : PolicyStateTransition). z.policy_id) e ∙ owner u);
    paid = λ payment x at listed own.
        (write x, subst (In (write x)) (sym policies) (map-In write x db.policies listed), same x);
    same_payments = payments;
    same_key = key;
  }
