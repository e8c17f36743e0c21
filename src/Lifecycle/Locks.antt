-- ===== src/Lifecycle/Locks.antt =====
-- The locks that the services take on a policy find it: `select_for_update().get(…)` in
-- apps/policies/services.py and apps/payments/services.py.
use mathlib.Core.Path.{subst}
use democrance_insurance_api.Prelude.{
  ℕ, ℤ, ◌≡◌, refl, sym, ap, ◌∙◌, inl, inr, Option, Option-cases, Bool, Bool-cases, true, false,
  none, some, String, arith, In, find-none, find-In, ◌==◌, ==_iff,
}
use democrance_insurance_api.Dates.{Date}
use democrance_insurance_api.Customers.{Customer}
use democrance_insurance_api.Products.{ProductType}
use democrance_insurance_api.Accounts.{Principal}
use democrance_insurance_api.Policies.Rows.{Policy}
use democrance_insurance_api.Policies.Services.{By, create_quote, accept_quote}
use democrance_insurance_api.Policies.Views.{get_policy}
use democrance_insurance_api.Policies.Access.{get_policy_sound}
use democrance_insurance_api.Policies.StateMachine.{accepted, state_eqb}
use democrance_insurance_api.Payments.Rows.{Method, parse_method}
use democrance_insurance_api.Payments.Services.{
  simulate_payment, found_by, usable_key, same_request,
}
use democrance_insurance_api.Payments.Charging.{
  simulate_payment-bad_method, simulate_payment-replays, simulate_payment-conflicts,
  simulate_payment-refused, simulate_payment-no_price, simulate_payment-collides,
  simulate_payment-charges, is_reused,
}
use democrance_insurance_api.Common.Errors.{Error, does_not_exist}
use democrance_insurance_api.Database.{Db, Env, World, Action, err, ◌>>=◌, raise_if, policy_by_id}
use democrance_insurance_api.Database.Runs.{>>=-ne-err}
use democrance_insurance_api.Lifecycle.Reading.{get_policy-reads}

-- The row is there, so locking it does not fail.
abbrev pub IsFound : {A : Type 0} → Action A → World → Type 0
IsFound m w = ¬ ((m w).0 ≡ err does_not_exist)

pub raise_if-IsFound :
    (c : Bool) (e : Error) (w : World) → ¬ (e ≡ does_not_exist) → IsFound (raise_if c e) w
raise_if-IsFound true e w ne h = ne (cc)
raise_if-IsFound false e w ne h = cc

pub accept_quote-gone :
    (env : Env) (id : ℕ) (by : By) (w : World)
    → (accept_quote env id by w).0 ≡ err does_not_exist
    → policy_by_id id w.db ≡ none
unfolding accept_quote
accept_quote-gone env id by w h = ground arith

pub simulate_payment-gone :
    (env : Env) (id : ℕ) (value : String) (key : Option String) (by : By) (w : World)
    → (simulate_payment env id value key by w).0 ≡ err does_not_exist
    → policy_by_id id w.db ≡ none
simulate_payment-gone env id value key by w h = elim (Option-cases (parse_method value)) [
  | inl bad ↦ cc (simulate_payment-bad_method env id value key by w bad, h)
  | inr (m, good) ↦ elim (Option-cases (policy_by_id id w.db)) [
    | inl gone ↦ gone
    | inr (p, found) ↦ absurd (present m p good found)
  ]
]
  where
    present :
        (m : Method) (p : Policy) → parse_method value ≡ some m → policy_by_id id w.db ≡ some p → ⊥
    present m p good found = elim (Option-cases (found_by (usable_key key) w.db)) [
      | inr (old, used) ↦ elim (Bool-cases (same_request old p m)) [
        | inl same ↦
            cc (simulate_payment-replays env id value key by w m p good found old used same, h)
        | inr other ↦
            cc (simulate_payment-conflicts env id value key by w m p good found old used other, h)
      ]
      | inl unused ↦ elim (Bool-cases (state_eqb p.state accepted)) [
        | inr other ↦
            cc (simulate_payment-refused env id value key by w m p good found unused other, h)
        | inl ready ↦ fresh m p good found unused ready
      ]
    ]
      where
        fresh :
            (m : Method) (p : Policy)
            → parse_method value ≡ some m
            → policy_by_id id w.db ≡ some p
            → found_by (usable_key key) w.db ≡ none
            → state_eqb p.state accepted ≡ true
            → ⊥
        fresh m p good found unused ready = elim (Option-cases p.premium) [
          | inl free ↦
              cc (
                simulate_payment-no_price env id value key by w m p good found unused ready free,
                h,
              )
          | inr (amount, price) ↦ elim (Bool-cases (is_reused env w)) [
            | inl reused ↦ cc (
              simulate_payment-collides env id value key by w m p good found unused ready amount
                  price reused,
              h,
            )
            | inr new ↦
                let row = find-In (λ (q : Policy). q.id == id) p w.db.policies found in
                cc (
                  simulate_payment-charges env id value key by w m p good found unused ready amount
                      price new ((==_iff p.id id).0 row.1),
                  h,
                )
          ]
        ]

pub create_quote-IsFound :
    (env : Env) (customer : Customer) (product : ProductType) (cover : Option ℤ) (by : By)
    (as_of : Option Date) (w : World)
    → IsFound (create_quote env customer product cover by as_of) w
unfolding create_quote
create_quote-IsFound env customer product cover by as_of w h = ground arith

-- A row of the table is found by its key.
pub listed-found : (p : Policy) (db : Db) → In p db.policies → ¬ (policy_by_id p.id db ≡ none)
listed-found p db m gone =
    let no : (p.id == p.id) ≡ false =
      find-none (λ (q : Policy). q.id == p.id) p db.policies gone m in
    let yes = (==_iff p.id p.id).1 refl in cc

seen : (id : ℤ) (who : Principal) (w : World) → IsFound (get_policy id who) w
unfolding get_policy
seen id who w h = ground arith

-- The rest after `get_policy` works on a row of the table.
pub get_policy-IsFound :
    {A : Type 0} (id : ℤ) (who : Principal) (rest : Policy → Action A) (w : World)
    → ((p : Policy) → ¬ (policy_by_id p.id w.db ≡ none) → IsFound (rest p) w)
    → IsFound (get_policy id who >>= rest) w
get_policy-IsFound id who rest w safe =
    >>=-ne-err (get_policy id who) rest w does_not_exist (seen id who w) (λ p w' run.
      let here : w' ≡ w = sym (ap (λ z. z.1) run) ∙ get_policy-reads id who w in
      let row = get_policy_sound id who w p (ap (λ z. z.0) run) in
      subst (IsFound (rest p)) (sym here) (safe p (listed-found p w.db row.0)))
