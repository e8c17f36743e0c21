-- ===== src/Prelude/Lists.antt =====
-- Lists over native numbers: search, filter by a Boolean test, predicates by recursion.
use Prim.Native.Nat.{ℕ, suc}
use mathlib.Core.Path.{◌≡◌, refl, ap}
use mathlib.Core.Logic.{◌⊎◌, ◌↔◌, inl, inr}
use mathlib.Core.Bool.{Bool, true, false, ◌||◌}
use mathlib.Core.List.{List, [], ◌∷◌, map}
use mathlib.Core.Option.{Option, none, some}
use native.Mathlib.Omega.{arith}
use democrance_insurance_api.Prelude.Tests.{if◌then◌else◌}

module _ {ℓ} {A : Type ℓ} where
  abbrev pub length : List A → ℕ
  length [] = 0
  length (x ∷ xs) = suc (length xs)

  -- `[x for x in xs if p(x)]`
  abbrev pub filter : (A → Bool) → List A → List A
  filter p [] = []
  filter p (x ∷ xs) = if p x then x ∷ filter p xs else filter p xs

  -- `next((x for x in xs if p(x)), None)`
  abbrev pub find : (A → Bool) → List A → Option A
  find p [] = none
  find p (x ∷ xs) = if p x then some x else find p xs

  abbrev pub any : (A → Bool) → List A → Bool
  any p [] = false
  any p (x ∷ xs) = p x || any p xs

  -- `f` applied to the items that pass `p`, the others left alone.
  abbrev pub update : (A → Bool) → (A → A) → List A → List A
  update p f [] = []
  update p f (x ∷ xs) = (if p x then f x else x) ∷ update p f xs

module _ {A : Type 0} where
  -- Membership that can be matched.
  abbrev pub In : A → List A → Type 0
  In a [] = ⊥
  In a (x ∷ xs) = (a ≡ x) ⊎ In a xs

module _ {ℓ κ} {A : Type ℓ} where
  abbrev pub All : (A → Type κ) → List A → Type κ
  All P [] = Unit
  All P (x ∷ xs) = P x × All P xs

-- The filter keeps exactly the members that pass.
pub In-filter :
    {A : Type 0} (p : A → Bool) (a : A) (xs : List A)
    → In a (filter p xs) ↔ (In a xs × (p a ≡ true))
In-filter p a [] = (λ h. absurd h, λ h. h.0)
In-filter p a (x ∷ xs) = ground (arith, In-filter p a xs)

-- A search finds a member that passes.
pub find-In :
    {A : Type 0} (p : A → Bool) (a : A) (xs : List A) → find p xs ≡ some a → In a xs × (p a ≡ true)
find-In p a [] h = cc
find-In p a (x ∷ xs) h = ground (arith, find-In p a xs)

-- A search that fails has no member that passes.
pub find-none :
    {A : Type 0} (p : A → Bool) (a : A) (xs : List A) → find p xs ≡ none → In a xs → p a ≡ false
find-none p a [] h m = absurd m
find-none p a (x ∷ xs) h m = ground (arith, find-none p a xs)

pub All-map {κ μ} :
    {A : Type 0} {P : A → Type κ} {Q : A → Type μ}
    → ((a : A) → P a → Q a)
    → (xs : List A) → All P xs
    → All Q xs
All-map f [] h = tt
All-map f (x ∷ xs) h = (f x h.0, All-map f xs h.1)

-- An updated row is an old one, rewritten exactly if it passes.
pub In-update :
    {A : Type 0} (p : A → Bool) (f : A → A) (a : A) (xs : List A)
    → In a (update p f xs)
    → (x : A) × In x xs × (a ≡ (if p x then f x else x))
In-update p f a [] h = absurd h
In-update p f a (x ∷ xs) (inl e) = (x, inl refl, e)
In-update p f a (x ∷ xs) (inr h) = let (y, at, e) = In-update p f a xs h in (y, inr at, e)

pub update-In :
    {A : Type 0} (p : A → Bool) (f : A → A) (x : A) (xs : List A)
    → In x xs
    → In (if p x then f x else x) (update p f xs)
update-In p f x [] h = absurd h
update-In p f x (y ∷ xs) (inl e) = inl (ap (λ z. if p z then f z else z) e)
update-In p f x (y ∷ xs) (inr h) = inr (update-In p f x xs h)

pub filter-eq-nil :
    {A : Type 0} (p : A → Bool) (xs : List A) → ((a : A) → In a xs → p a ≡ false) → filter p xs ≡ []
filter-eq-nil p [] never = refl
filter-eq-nil p (x ∷ xs) never =
    ground (arith, never x (inl refl), filter-eq-nil p xs (λ a h. never a (inr h)))

pub filter_of_find-none :
    {A : Type 0} (p : A → Bool) (xs : List A) → find p xs ≡ none → filter p xs ≡ []
filter_of_find-none p [] h = refl
filter_of_find-none p (x ∷ xs) h = ground (arith, filter_of_find-none p xs)

-- A search by a test that the rewriting keeps finds the rewritten row.
pub find-update :
    {A : Type 0} (p : A → Bool) (f : A → A) (a : A) (xs : List A)
    → ((x : A) → p (f x) ≡ p x)
    → find p xs ≡ some a
    → find p (update p f xs) ≡ some (f a)
find-update p f a [] keeps h = cc
find-update p f a (x ∷ xs) keeps h = ground (arith, keeps x, find-update p f a xs keeps)

pub find-eq-none :
    {A : Type 0} (p : A → Bool) (xs : List A) → ((a : A) → In a xs → p a ≡ false) → find p xs ≡ none
find-eq-none p [] never = refl
find-eq-none p (x ∷ xs) never =
    ground (arith, never x (inl refl), find-eq-none p xs (λ a h. never a (inr h)))

-- A member of a list of images.
pub In-map :
    {A B : Type 0} (f : A → B) (b : B) (xs : List A)
    → In b (map f xs)
    → (a : A) × In a xs × (b ≡ f a)
In-map f b [] m = absurd m
In-map f b (x ∷ xs) (inl e) = (x, inl refl, e)
In-map f b (x ∷ xs) (inr m) = let (a, at, e) = In-map f b xs m in (a, inr at, e)

pub map-In : {A B : Type 0} (f : A → B) (a : A) (xs : List A) → In a xs → In (f a) (map f xs)
map-In f a [] m = absurd m
map-In f a (x ∷ xs) (inl e) = inl (ap f e)
map-In f a (x ∷ xs) (inr m) = inr (map-In f a xs m)

-- No member passes.
pub any-none :
    {A : Type 0} (f : A → Bool) (a : A) (xs : List A) → any f xs ≡ false → In a xs → f a ≡ false
any-none f a [] e m = absurd m
any-none f a (x ∷ xs) e m = ground (arith, any-none f a xs)

pub All-intro {κ} :
    {A : Type 0} (P : A → Type κ) (xs : List A) → ((a : A) → In a xs → P a) → All P xs
All-intro P [] each = tt
All-intro P (x ∷ xs) each = (each x (inl refl), All-intro P xs (λ a m. each a (inr m)))
