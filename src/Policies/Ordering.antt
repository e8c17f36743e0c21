-- ===== src/Policies/Ordering.antt =====
-- The orders in which apps/policies/views.py shows policies and histories.
use democrance_insurance_api.Prelude.{
  ℕ, pos, ◌≡◌, ◌↔◌, ap, sym, ◌∙◌, true, false, List, In, In-filter, In-sort_by, IsSorted,
  sort_by-IsSorted, map, ◌==◌, ==_iff, arith,
}
use democrance_insurance_api.Accounts.{User, Principal}
use democrance_insurance_api.Accounts.Scoping.{MaySee, In-scope_policies}
use democrance_insurance_api.Policies.Access.{login_of, get_policy_sound}
use democrance_insurance_api.Policies.Rows.{Policy, PolicyStateTransition}
use democrance_insurance_api.Policies.History.{history}
use democrance_insurance_api.Policies.Read.{listed_before, order_listed}
use democrance_insurance_api.Policies.Timeline.{
  HistoryView, read_row, told_before, timeline, get_history,
}
use democrance_insurance_api.Policies.Views.{visible, get_policy}
use democrance_insurance_api.Database.{Db, World, ok, ◌>>=◌, pure, gets}
use democrance_insurance_api.Database.Runs.{>>=-eq-ok, run-eq}

pub listed_total : (p q : Policy) → listed_before p q ≡ false → listed_before q p ≡ true
listed_total p q h = ground arith

pub listed_trans :
    (p q r : Policy)
    → listed_before p q ≡ true
    → listed_before q r ≡ true
    → listed_before p r ≡ true
listed_trans p q r h k = ground arith

-- Before filters and pages, the rows of the list view come newest first, and they are exactly the
-- policies that the principal may see.
pub list_policies-IsSorted :
    (db : Db) (who : Principal) (p : Policy)
    → IsSorted listed_before (order_listed (visible who db))
      × (In p (order_listed (visible who db)) ↔ (In p db.policies × MaySee who (login_of db p)))
list_policies-IsSorted db who p =
    let seen = In-scope_policies (λ (q : Policy). q.customer_id) db.customers db.policies who p in
    let ordered = In-sort_by listed_before p (visible who db) in
    (
      sort_by-IsSorted listed_before listed_total listed_trans (visible who db),
      (λ h. seen.0 (ordered.0 h), λ h. ordered.1 (seen.1 h)),
    )

told_total : (t u : PolicyStateTransition) → told_before t u ≡ false → told_before u t ≡ true
told_total t u h = ground arith

told_trans :
    (t u v : PolicyStateTransition)
    → told_before t u ≡ true
    → told_before u v ≡ true
    → told_before t v ≡ true
told_trans t u v h k = ground arith

-- A history as it should be told.
pub record IsTold (users : List User) (pk : ℕ) (who : Principal) (db : Db) (v : HistoryView)
    : Type 0 where
  pub policy : Policy
  pub listed : In policy db.policies
  pub same_key : policy.id ≡ pk
  pub may_see : MaySee who (login_of db policy)
  pub answered : v.policy_id ≡ policy.id
  pub current : v.current_state ≡ policy.state
  pub rows : List PolicyStateTransition
  pub rendered : v.transitions ≡ map (read_row users) rows
  pub sorted : IsSorted told_before rows
  pub complete :
      (t : PolicyStateTransition) → In t rows ↔ (In t db.transitions × (t.policy_id ≡ pk))

get_policy-same : (id : ℕ) (who : Principal) (w : World) → (get_policy (pos id) who w).1 ≡ w
unfolding get_policy
get_policy-same id who w = ground arith

-- A history that is answered is that of a policy in the table with the given id, which the
-- principal may see, with its current state; its rows are exactly the policy's history rows, by
-- time and then by key, each as its fields and its actor's e-mail.
pub get_history-IsTold :
    (users : List User) (pk : ℕ) (who : Principal) (w : World) (v : HistoryView)
    → (get_history users pk who w).0 ≡ ok v
    → IsTold users pk who w.db v
unfolding get_history
get_history-IsTold users pk who w v e =
    let (policy, w', seen, rest) =
      >>=-eq-ok (get_policy (pos pk) who)
        (λ (policy : Policy). gets (timeline policy.id) >>= λ rows. pure (record {
          policy_id = policy.id;
          current_state = policy.state;
          transitions = map (read_row users) rows;
        }))
        w (get_history users pk who w).1 v (run-eq (get_history users pk who w) (ok v) e) in
    let here : w' ≡ w = sym (ap (λ z. z.1) seen) ∙ get_policy-same pk who w in
    let (listed, key, may) = get_policy_sound (pos pk) who w policy (ap (λ z. z.0) seen) in
    let same : policy.id ≡ pk = cc in
    record {
      policy = policy;
      listed = listed;
      same_key = same;
      may_see = may;
      answered = cc;
      current = cc;
      rows = timeline policy.id w.db;
      rendered =
          let shown : v.transitions ≡ map (read_row users) (timeline policy.id w'.db) = cc in
          shown ∙ ap (λ (z : World). map (read_row users) (timeline policy.id z.db)) here;
      sorted = sort_by-IsSorted told_before told_total told_trans (history policy.id w.db);
      complete = λ t.
          let key_iff = ==_iff t.policy_id policy.id in
          let k =
            In-filter (λ (u : PolicyStateTransition). u.policy_id == policy.id) t
              w.db.transitions in
          let o = In-sort_by told_before t (history policy.id w.db) in
          (
            λ h. ((k.0 (o.0 h)).0, key_iff.0 (k.0 (o.0 h)).1 ∙ same),
            λ h. o.1 (k.1 (h.0, key_iff.1 (h.1 ∙ sym same))),
          );
    }
