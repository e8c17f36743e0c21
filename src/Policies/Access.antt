-- ===== src/Policies/Access.antt =====
-- `_get_policy` and the handlers of apps/policies/views.py, against what a principal may see.
use democrance_insurance_api.Prelude.{
  ℕ, ℤ, pos, eqb_ℤ, eqb_ℤ_iff, ◌≡◌, ◌≢◌, Bool-cases, true, Option, some, String, List, In, find,
  find-In, find-eq-none, arith, inl, inr,
}
use democrance_insurance_api.Accounts.{User, Principal, is_customer, customer_by_id}
use democrance_insurance_api.Accounts.Scoping.{MaySee, owner_of, In-scope_policies, linked_to_iff}
use democrance_insurance_api.Policies.Rows.{Policy}
use democrance_insurance_api.Policies.Serializers.{Body, Fields, CreateInput, validate_create}
use democrance_insurance_api.Policies.Views.{
  visible, get_policy, handle_create, handle_accept, handle_pay,
}
use democrance_insurance_api.Policies.Timeline.{get_history}
use democrance_insurance_api.Common.Errors.{missing, quote_id, customer_id}
use democrance_insurance_api.Database.{Db, Env, World, ok, err}

-- The login that a policy belongs to, if any.
abbrev pub login_of : Db → Policy → Option ℕ
login_of db p = owner_of (customer_by_id p.customer_id db.customers)

-- A policy that is found by its id is a row of the table with that id which the principal may see.
pub get_policy_sound :
    (id : ℤ) (who : Principal) (w : World) (p : Policy)
    → (get_policy id who w).0 ≡ ok p
    → In p w.db.policies × (pos p.id ≡ id) × MaySee who (login_of w.db p)
unfolding get_policy
get_policy_sound id who w p e =
    let found : find (λ q. eqb_ℤ (pos q.id) id) (visible who w.db) ≡ some p = ground arith in
    let (seen, key) = find-In (λ (q : Policy). eqb_ℤ (pos q.id) id) p (visible who w.db) found in
    let (listed, may) =
      (In-scope_policies (λ (q : Policy). q.customer_id) w.db.customers w.db.policies who p).0
        seen in
    (listed, (eqb_ℤ_iff (pos p.id) id).0 key, may)

hidden-get_policy :
    (id : ℤ) (who : Principal) (w : World)
    → ((p : Policy) → In p w.db.policies → pos p.id ≡ id → ¬ MaySee who (login_of w.db p))
    → get_policy id who w ≡ (err (missing (quote_id id)), w)
unfolding get_policy
hidden-get_policy id who w hidden =
    let unseen =
      find-eq-none (λ (q : Policy). eqb_ℤ (pos q.id) id) (visible who w.db)
        (λ q m.
          let (listed, may) =
            (In-scope_policies (λ (r : Policy). r.customer_id) w.db.customers w.db.policies who q).0
              m in
          elim (Bool-cases (eqb_ℤ (pos q.id) id)) [
            | inl same ↦ absurd (hidden q listed ((eqb_ℤ_iff (pos q.id) id).0 same) may)
            | inr ne ↦ ne
          ]) in
    ground (arith, unseen)

-- A quote that is absent or that the principal may not see is answered with the same not-found
-- error by accept, pay and history, and nothing changes.
pub hidden_quote :
    (env : Env) (fields : Fields) (users : List User) (id : ℕ) (method : Option String)
    (who : Principal) (w : World)
    → ((p : Policy) → In p w.db.policies → pos p.id ≡ pos id → ¬ MaySee who (login_of w.db p))
    → (handle_accept env fields (pos id) who w ≡ (err (missing (quote_id (pos id))), w))
      × (handle_pay env fields (pos id) method who w ≡ (err (missing (quote_id (pos id))), w))
      × (get_history users id who w ≡ (err (missing (quote_id (pos id))), w))
unfolding handle_accept handle_pay get_history
hidden_quote env fields users id method who w hidden =
    let gone = hidden-get_policy (pos id) who w hidden in
    (ground (arith, gone), ground (arith, gone), ground (arith, gone))

-- A customer principal who asks for a quote on a valid body for a customer record that is not
-- linked to it is answered that there is no such customer, and nothing changes.
pub foreign_customer :
    (env : Env) (fields : Fields) (body : Body) (user : User) (w : World) (v : CreateInput)
    → validate_create fields body w ≡ (ok v, w)
    → is_customer user ≡ true
    → v.customer.user ≢ some user.id
    → handle_create env fields body (some user) w
      ≡ (err (missing (customer_id (pos v.customer.id))), w)
unfolding handle_create
foreign_customer env fields body user w v valid customer other =
    let link = linked_to_iff user v.customer.user in ground (arith, valid, link)
