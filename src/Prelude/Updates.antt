-- ===== src/Prelude/Updates.antt =====
-- Updating rows: once, again, and after an update of other rows.
use mathlib.Core.Path.{◌≡◌, refl, ◌∙◌}
use mathlib.Core.Logic.{inl, inr}
use mathlib.Core.Bool.{Bool, true, false}
use mathlib.Core.List.{List, [], ◌∷◌}
use native.Mathlib.Omega.{arith}
use democrance_insurance_api.Prelude.Tests.{if◌then◌else◌, Bool-cases}
use democrance_insurance_api.Prelude.Lists.{any, update}

-- Rewriting rows by a test that the rewriting keeps.
module _ {A : Type 0} (test : A → Bool) (write : A → A)
    (keeps : (a : A) → test (write a) ≡ test a) where
  pub any-update : (xs : List A) → any test (update test write xs) ≡ any test xs
  any-update [] = refl
  any-update (x ∷ xs) = ground (arith, keeps x, any-update xs)

  pub update-idle : (xs : List A) → any test xs ≡ false → update test write xs ≡ xs
  update-idle [] none_passes = refl
  update-idle (x ∷ xs) none_passes = ground (arith, update-idle xs)

  pub update-update :
      ((a : A) → write (write a) ≡ write a)
      → (xs : List A) → update test write (update test write xs) ≡ update test write xs
  update-update again [] = refl
  update-update again (x ∷ xs) = ground (arith, keeps x, again x, update-update again xs)

-- Rows that one rewriting leaves alone, after another that does not touch them.
pub update-fixed :
    {A : Type 0} (p q : A → Bool) (f g : A → A)
    → ((a : A) → p (g a) ≡ p a)
    → ((a : A) → q a ≡ true → p a ≡ false)
    → (xs : List A) → update p f xs ≡ xs
    → update p f (update q g xs) ≡ update q g xs
update-fixed p q f g keeps apart [] fixed = refl
update-fixed p q f g keeps apart (x ∷ xs) fixed =
    let head : (if p x then f x else x) ≡ x = cc in
    let tail : update p f xs ≡ xs = cc in
    let ih = update-fixed p q f g keeps apart xs tail in
    elim (Bool-cases (q x)) [
      | inl hit ↦ let miss = keeps x ∙ apart x hit in rw (hit, miss, ih) refl
      | inr miss ↦ rw (miss, head, ih) refl
    ]
