-- ===== src/Lifecycle/Refinement.antt =====
-- The services of apps/policies/services.py against the steps of the lifecycle.
use democrance_insurance_api.Prelude.{
  ℕ, suc, ◌+◌, ◌≡◌, ◌⊎◌, inl, inr, refl, ℤ, Option-cases, Bool-cases, true, Option, some, [], ◌∷◌,
  arith,
}
use democrance_insurance_api.Dates.{Date}
use democrance_insurance_api.Customers.{Customer}
use democrance_insurance_api.Products.{ProductType}
use democrance_insurance_api.Products.Rating.{
  Rated, RatingError, premium_of, rating_error, calculate_premium,
}
use democrance_insurance_api.Policies.StateMachine.{State, quoted, accepted, active, can_transition}
use democrance_insurance_api.Policies.Rows.{Metadata, money, is_expired}
use democrance_insurance_api.Policies.Services.{
  By, fits_premium, create_quote, accept_quote, activate_policy,
}
use democrance_insurance_api.Policies.Branches
use democrance_insurance_api.Policies.Branches.{move_row, accept_columns, activate_columns}
use democrance_insurance_api.Policies.Quoting
use democrance_insurance_api.Policies.History.{policy_by_id-In}
use democrance_insurance_api.Database
use democrance_insurance_api.Database.{
  Db, Env, World, Result, ok, err, policy_by_id, insert_payment,
}
use democrance_insurance_api.Lifecycle.Steps.{Step, quote, accept, bind}

-- How a call that began on `db` ended: it returned after one step, or raised and left `db`.
abbrev pub Refines : {A : Type 0} → Db → Result A × World → Type 0
Refines db (ok _, w') = Step db w'.db
Refines db (err _, w') = w'.db ≡ db

quoted_of_accept : (s : State) → can_transition (some s) accepted ≡ true → s ≡ quoted
unfolding can_transition
quoted_of_accept s e = ground arith

accepted_of_bind : (s : State) → can_transition (some s) active ≡ true → s ≡ accepted
unfolding can_transition
accepted_of_bind s e = ground arith

-- An acceptance that returns is one step from quoted to accepted with its history row; a call that
-- raises leaves the tables as they were.
pub accept_quote-Refines :
    (env : Env) (id : ℕ) (by : By) (w : World) → Refines w.db (accept_quote env id by w)
accept_quote-Refines env id by w = elim (Option-cases (policy_by_id id w.db)) [
  | inl gone ↦ rw (Branches.accept_quote-missing env id by w gone) refl
  | inr (p, found) ↦ elim (Bool-cases (is_expired (env.now w.asked) p)) [
    | inl late ↦ rw (Branches.accept_quote-late env id by w p found late) refl
    | inr live ↦ elim (Bool-cases (can_transition (some p.state) accepted)) [
      | inl move ↦ rw (Branches.accept_quote-moves env id by w p found live move) (
          accept id (record {
            policy = p;
            found = found;
            at_start = quoted_of_accept p.state move;
            row = move_row env by p accepted "quote accepted" [] w.db.next_transition (w.asked + 1);
            row_key = refl;
            owner = (policy_by_id-In id w.db p found).1;
            row_from = refl;
            row_to = refl;
            write = accept_columns env (w.asked + 2) (w.asked + 3);
            writes = λ q. (refl, refl, refl, refl, refl);
            result = refl;
          }))
      | inr barred ↦ rw (Branches.accept_quote-refused env id by w p found live barred) refl
    ]
  ]
]

-- An activation that returns is one step from accepted to active with its history row; a call that
-- raises leaves the tables as they were.
pub activate_policy-Refines :
    (env : Env) (id : ℕ) (by : By) (metadata : Metadata) (w : World)
    → Refines w.db (activate_policy env id by metadata w)
activate_policy-Refines env id by metadata w = elim (Option-cases (policy_by_id id w.db)) [
  | inl gone ↦ rw (Branches.activate_policy-missing env id by w metadata gone) refl
  | inr (p, found) ↦ elim (Bool-cases (can_transition (some p.state) active)) [
    | inl move ↦ rw (Branches.activate_policy-moves env id by w metadata p found move) (
        bind id (record {
          policy = p;
          found = found;
          at_start = accepted_of_bind p.state move;
          row = move_row env by p active "policy activated" metadata w.db.next_transition w.asked;
          row_key = refl;
          owner = (policy_by_id-In id w.db p found).1;
          row_from = refl;
          row_to = refl;
          write = activate_columns env (w.asked + 1) (w.asked + 2);
          writes = λ q. (refl, refl, refl, refl, refl);
          result = refl;
        }))
    | inr barred ↦ rw (Branches.activate_policy-refused env id by w metadata p found barred) refl
  ]
]

Rated-cases :
    (r : Rated) → ((p : ℤ) × (r ≡ premium_of p)) ⊎ ((e : RatingError) × (r ≡ rating_error e))
Rated-cases (premium_of p) = inl (p, refl)
Rated-cases (rating_error e) = inr (e, refl)

module _ (env : Env) (customer : Customer) (product : ProductType) (cover : Option ℤ) (by : By)
    (as_of : Option Date) (w : World) where
  open_row_found :
      (p : ℤ)
      → policy_by_id w.db.next_policy
          (Database.insert_policy (Quoting.quoted_row env customer product cover by as_of w p) w.db)
        ≡ some (Quoting.quoted_row env customer product cover by as_of w p)
  open_row_found p = ground arith

  -- A quote that is created is one opening step: a new policy, its genesis row and its move from
  -- new to quoted; a call that raises leaves the tables as they were.
  pub create_quote-Refines : Refines w.db (create_quote env customer product cover by as_of w)
  create_quote-Refines =
      let rated =
        calculate_premium product w.db.rules
          (Quoting.age_rated env customer product cover by as_of w)
          (Quoting.sum_insured env customer product cover by as_of w)
          (Quoting.rated_on env customer product cover by as_of w) in
      elim (Rated-cases rated) [
        | inr (e, bad) ↦
            rw (Quoting.create_quote-unrated env customer product cover by as_of w e bad) refl
        | inl (p, good) ↦ elim (Bool-cases (fits_premium p)) [
          | inr wide ↦
              rw (Quoting.create_quote-too_large env customer product cover by as_of w p good wide)
                refl
          | inl fits ↦
              elim (Bool-cases (Quoting.is_taken env customer product cover by as_of w p)) [
                | inl taken ↦
                    rw
                      (Quoting.create_quote-collides env customer product cover by as_of w p good
                        fits taken)
                      refl
                | inr free ↦
                    rw
                      (Quoting.create_quote-quotes env customer product cover by as_of w p good fits
                        free)
                      (quote (Quoting.quoted_row env customer product cover by as_of w p)
                        (Quoting.genesis_row env customer product cover by as_of w p)
                        (record {
                          key = refl;
                          state = refl;
                          reference_free = free;
                          row_key = refl;
                          owner = refl;
                          row_from = refl;
                          row_to = refl;
                        })
                        (record {
                          policy = Quoting.quoted_row env customer product cover by as_of w p;
                          found = open_row_found p;
                          at_start = refl;
                          row =
                              move_row env by
                                (Quoting.quoted_row env customer product cover by as_of w p) quoted
                                "quote priced" (("premium", money p) ∷ [])
                                (suc w.db.next_transition) (w.asked + 5);
                          row_key = refl;
                          owner = refl;
                          row_from = refl;
                          row_to = refl;
                          write = Quoting.quote_write env customer product cover by as_of w;
                          writes = λ q. (refl, refl, refl, refl, refl);
                          result = refl;
                        }))
              ]
        ]
      ]
