-- ===== src/Schema/Distinct.antt =====
-- Columns without repeated values, when a row is added or rewritten.
use mathlib.Core.Path.{subst}
use democrance_insurance_api.Prelude.{
  ℕ, ◌<◌, ◌≡◌, refl, sym, inl, inr, Bool, Bool-cases, false, List, [], ◌∷◌, All, In, any, update,
  arith,
}
use democrance_insurance_api.Schema.{Cell, number, same, IsDistinct}

module _ {A : Type 0} where
  pub numbers-fresh :
      (key : A → ℕ) (n : ℕ) (rows : List A)
      → ((a : A) → In a rows → key a < n)
      → All (λ a. same (number (key a)) (number n) ≡ false) rows
  numbers-fresh key n [] below = tt
  numbers-fresh key n (a ∷ rows) below = (
    let low = below a (inl refl) in ground (arith, low),
    numbers-fresh key n rows (λ b m. below b (inr m)),
  )

  pub any-fresh :
      (test : A → Bool) (rows : List A) → any test rows ≡ false → All (λ a. test a ≡ false) rows
  any-fresh test [] e = tt
  any-fresh test (a ∷ rows) e = (ground arith, any-fresh test rows (ground arith))

  module _ (cell : A → Cell) (test : A → Bool) (write : A → A)
      (keeps : (a : A) → cell (write a) ≡ cell a) where
    update-fresh :
        (x : Cell) (rows : List A)
        → All (λ a. same (cell a) x ≡ false) rows
        → All (λ a. same (cell a) x ≡ false) (update test write rows)
    update-fresh x [] h = tt
    update-fresh x (a ∷ rows) h = (
      elim (Bool-cases (test a)) [
        | inl e ↦ rw e (subst (λ c. same c x ≡ false) (sym (keeps a)) h.0)
        | inr e ↦ rw e h.0
      ],
      update-fresh x rows h.1,
    )

    pub update-IsDistinct :
        (rows : List A) → IsDistinct cell rows → IsDistinct cell (update test write rows)
    update-IsDistinct [] h = tt
    update-IsDistinct (a ∷ rows) h =
        let rest = update-fresh (cell a) rows h.0 in
        (
          elim (Bool-cases (test a)) [
            | inl e ↦ rw e (
                subst (λ c. All (λ b. same (cell b) c ≡ false) (update test write rows))
                  (sym (keeps a)) rest)
            | inr e ↦ rw e rest
          ],
          update-IsDistinct rows h.1,
        )
