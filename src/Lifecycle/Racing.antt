-- ===== src/Lifecycle/Racing.antt =====
-- Payments whose lookup of the idempotency key in apps/payments/services.py is followed by other
-- calls before the insert.
use mathlib.Core.Path.{subst}
use democrance_insurance_api.Prelude.{
  ℕ, ◌+◌, ◌≤◌, ◌≡◌, ◌⊎◌, refl, sym, ap, ◌∙◌, inl, inr, Bool, Option-cases, Option, none, some,
  String, List, [], ◌∷◌, ◌++◌, find, filter, length, arith, if◌then◌else◌,
}
use democrance_insurance_api.Policies.StateMachine.{accepted, state_eqb}
use democrance_insurance_api.Policies.Rows.{Policy}
use democrance_insurance_api.Policies.Services.{By}
use democrance_insurance_api.Payments.Rows.{Payment, parse_method}
use democrance_insurance_api.Payments.Services.{
  found_by, usable_key, key_is, payment_by_key, simulate_payment,
}
use democrance_insurance_api.Payments.Racing.{
  pay_with, pay_with-unparsed, pay_with-unlocked, pay_with-simulate_payment, pay_with-raced,
}
use democrance_insurance_api.Common.Errors.{payment_not_allowed, integrity_error}
use democrance_insurance_api.Database.{Env, World, err, policy_by_id}
use democrance_insurance_api.Lifecycle.Invariant.{IsSound}
use democrance_insurance_api.Lifecycle.Between.{serve-IsKept}
use democrance_insurance_api.Lifecycle.Reachable.{Call, serve, serve-IsSound}

module _ {A : Type 0} (test : A → Bool) where
  filter_of_find : (a : A) (xs : List A) → find test xs ≡ some a → 1 ≤ length (filter test xs)
  filter_of_find a [] e = cc
  filter_of_find a (x ∷ xs) e = ground (arith, filter_of_find a xs)

  length-filter-append :
      (xs ys : List A)
      → length (filter test (xs ++ ys)) ≡ length (filter test xs) + length (filter test ys)
  length-filter-append [] ys = omega arith
  length-filter-append (x ∷ xs) ys = ground (arith, length-filter-append xs ys)

  find-append : (xs ys : List A) → find test xs ≡ none → find test (xs ++ ys) ≡ find test ys
  find-append [] ys e = refl
  find-append (x ∷ xs) ys e = ground (arith, find-append xs ys)

module _ (env : Env) (calls : List Call) (w : World) (sound : IsSound w.db) where
  -- A payment that is found under its key is found under it ever after.
  found-stays :
      (k : String) (old : Payment)
      → payment_by_key k w.db ≡ some old
      → payment_by_key k (serve env calls w).db ≡ some old
  found-stays k old found =
      let kept = serve-IsKept env calls w sound in
      let test = λ (q : Payment). key_is k q.idempotency_key in
      let once =
        subst (λ rows. length (filter test rows) ≤ 1) kept.receipts_grow
          ((serve-IsSound env calls w sound).key_once k) in
      let both = length-filter-append test kept.receipts w.db.payments in
      let older = filter_of_find test old w.db.payments found in
      elim (Option-cases (find test kept.receipts)) [
        | inl absent ↦
            ap (find test) kept.receipts_grow
            ∙ find-append test kept.receipts w.db.payments absent
            ∙ found
        | inr (new, twice) ↦
            let newer = filter_of_find test new kept.receipts twice in absurd (omega arith)
      ]

  found_by-stays :
      (key : Option String) (old : Payment)
      → found_by key w.db ≡ some old
      → found_by key (serve env calls w).db ≡ some old
  found_by-stays none old found = found
  found_by-stays (some k) old found = found-stays k old found

-- The key was free at the lookup and is taken at the insert.
pub record IsRaced (env : Env) (id : ℕ) (value : String) (key : Option String) (by : By)
    (seen w : World) : Type 0 where
  pub was_free : found_by (usable_key key) seen.db ≡ none
  pub other : Payment
  pub taken : found_by (usable_key key) w.db ≡ some other
  pub policy : Policy
  pub locked : policy_by_id id w.db ≡ some policy
  pub unchanged : (pay_with env id value key by (found_by (usable_key key) seen.db) w).1.db ≡ w.db
  pub refused :
      (pay_with env id value key by (found_by (usable_key key) seen.db) w).0
      ≡ (if state_eqb policy.state accepted then err integrity_error else err payment_not_allowed)

-- On tables that satisfy the invariant, when any calls of the four services come between a
-- payment's lookup of its key and the rest of it, the payment does exactly what it would do with a
-- lookup at the end, or the key was free at the lookup and has been taken by another payment
-- since; then the tables are left as they are and the payment is refused, with an integrity error
-- when its policy is accepted and as not allowed otherwise.
pub pay_with-IsRaced :
    (env : Env) (calls : List Call) (id : ℕ) (value : String) (key : Option String) (by : By)
    (seen : World)
    → IsSound seen.db
    → (pay_with env id value key by (found_by (usable_key key) seen.db) (serve env calls seen)
        ≡ simulate_payment env id value key by (serve env calls seen))
      ⊎ IsRaced env id value key by seen (serve env calls seen)
pay_with-IsRaced env calls id value key by seen sound =
    let w = serve env calls seen in
    let now = pay_with-simulate_payment env id value key by w in
    elim (Option-cases (found_by (usable_key key) seen.db)) [
      | inr (old, found) ↦
          let still = found_by-stays env calls seen sound (usable_key key) old found in
          inl (ap (λ e. pay_with env id value key by e w) (found ∙ sym still) ∙ now)
      | inl free ↦ elim (Option-cases (found_by (usable_key key) w.db)) [
        | inl unused ↦ inl (ap (λ e. pay_with env id value key by e w) (free ∙ sym unused) ∙ now)
        | inr (other, taken) ↦ elim (Option-cases (parse_method value)) [
          | inl bad ↦ inl (rw free (pay_with-unparsed env id value key by w none bad))
          | inr (m, good) ↦ elim (Option-cases (policy_by_id id w.db)) [
            | inl gone ↦ inl (rw free (pay_with-unlocked env id value key by w none m good gone))
            | inr (p, locked) ↦
                let raced = pay_with-raced env id value key by w m p other good locked taken in
                inr (record {
                  was_free = free;
                  other = other;
                  taken = taken;
                  policy = p;
                  locked = locked;
                  unchanged = rw free raced.0;
                  refused = rw free raced.1;
                })
          ]
        ]
      ]
    ]
