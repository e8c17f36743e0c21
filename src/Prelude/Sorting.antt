-- ===== src/Prelude/Sorting.antt =====
-- Sorting by insertion: what the database's `ORDER BY` leaves.
use mathlib.Core.Path.{◌≡◌}
use mathlib.Core.Logic.{◌↔◌, ◌⊎◌, inl, inr}
use mathlib.Core.Bool.{Bool, true, false}
use mathlib.Core.List.{List, [], ◌∷◌}
use native.Mathlib.Omega.{arith}
use democrance_insurance_api.Prelude.Tests.{if◌then◌else◌, Bool-cases}
use democrance_insurance_api.Prelude.Lists.{In, All, All-map}

module _ {A : Type 0} (before : A → A → Bool) where
  unfoldable pub insert_by : A → List A → List A
  insert_by a [] = a ∷ []
  insert_by a (x ∷ xs) = if before a x then a ∷ x ∷ xs else x ∷ insert_by a xs

  unfoldable pub sort_by : List A → List A
  sort_by [] = []
  sort_by (x ∷ xs) = insert_by x (sort_by xs)

  -- Every element comes before all that follow it.
  abbrev pub IsSorted : List A → Type 0
  IsSorted [] = Unit
  IsSorted (x ∷ xs) = All (λ y. before x y ≡ true) xs × IsSorted xs

  In-insert_by : (a b : A) (xs : List A) → In a (insert_by b xs) ↔ ((a ≡ b) ⊎ In a xs)
  unfolding insert_by
  In-insert_by a b [] = (λ h. h, λ h. h)
  In-insert_by a b (x ∷ xs) = ground (arith, In-insert_by a b xs)

  pub In-sort_by : (a : A) (xs : List A) → In a (sort_by xs) ↔ In a xs
  unfolding sort_by
  In-sort_by a [] = (λ h. h, λ h. h)
  In-sort_by a (x ∷ xs) =
      let at = In-insert_by a x (sort_by xs) in let ih = In-sort_by a xs in ground (arith, at, ih)

  All-insert_by : (P : A → Type 0) (a : A) (xs : List A) → P a → All P xs → All P (insert_by a xs)
  unfolding insert_by
  All-insert_by P a [] p h = (p, tt)
  All-insert_by P a (x ∷ xs) p h = ground (arith, All-insert_by P a xs p h.1)

  module _ (total : (a b : A) → before a b ≡ false → before b a ≡ true)
      (trans : (a b c : A) → before a b ≡ true → before b c ≡ true → before a c ≡ true) where
    insert_by-IsSorted : (a : A) (xs : List A) → IsSorted xs → IsSorted (insert_by a xs)
    unfolding insert_by
    insert_by-IsSorted a [] h = (tt, tt)
    insert_by-IsSorted a (x ∷ xs) h = elim (Bool-cases (before a x)) [
      | inl first ↦
          rw first ((first, All-map (λ y (e : before x y ≡ true). trans a x y first e) xs h.0), h)
      | inr later ↦ rw later (
        All-insert_by (λ y. before x y ≡ true) a xs (total a x later) h.0,
        insert_by-IsSorted a xs h.1,
      )
    ]

    pub sort_by-IsSorted : (xs : List A) → IsSorted (sort_by xs)
    unfolding sort_by
    sort_by-IsSorted [] = tt
    sort_by-IsSorted (x ∷ xs) = insert_by-IsSorted x (sort_by xs) (sort_by-IsSorted xs)
