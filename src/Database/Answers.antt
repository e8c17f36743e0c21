-- ===== src/Database/Answers.antt =====
-- What the database may answer to a query with `ORDER BY`: the rows, each once, no row after one
-- that must come later. Rows that tie come in any order.
use democrance_insurance_api.Prelude.{
  ◌≡◌, refl, sym, ap, inl, inr, Bool, Bool-cases, true, false, List, [], ◌∷◌, ◌++◌, All, All-map,
  In, insert_by, sort_by,
}
use mathlib.Core.Path.{subst, ap₂}

-- One occurrence of a row taken out.
pub data Removes {A : Type 0} (x : A) : List A → List A → Type 0 where
  here : {xs : List A} → Removes x (x ∷ xs) xs
  there : {y : A} {xs ys : List A} → Removes x xs ys → Removes x (y ∷ xs) (y ∷ ys)

Removes-In : {A : Type 0} {x : A} {xs ys : List A} → Removes x xs ys → In x xs
Removes-In here = inl refl
Removes-In (there r) = inr (Removes-In r)

Removes-All :
    {A : Type 0} {x : A} {xs ys : List A} (P : A → Type 0) → Removes x xs ys → All P xs → All P ys
Removes-All P here h = h.1
Removes-All P (there r) h = (h.0, Removes-All P r h.1)

All-Removes :
    {A : Type 0} {x : A} {xs ys : List A} (P : A → Type 0)
    → Removes x xs ys
    → P x
    → All P ys
    → All P xs
All-Removes P here p h = (p, h)
All-Removes P (there r) p h = (h.0, All-Removes P r p h.1)

pub All-In : {A : Type 0} (P : A → Type 0) (x : A) (xs : List A) → All P xs → In x xs → P x
All-In P x [] h m = absurd m
All-In P x (y ∷ xs) h (inl e) = subst P (sym e) h.0
All-In P x (y ∷ xs) h (inr m) = All-In P x xs h.1 m

-- Two rows can be taken out in either order.
record Exchanged {A : Type 0} (p q : A) (rows rest : List A) : Type 0 where
  middle : List A
  first : Removes q rows middle
  second : Removes p middle rest

exchange :
    {A : Type 0} {p q : A} {rows mid rest : List A}
    → Removes p rows mid
    → Removes q mid rest
    → Exchanged p q rows rest
exchange here r = record { middle = _; first = there r; second = here }
exchange (there r) here = record { middle = _; first = here; second = r }
exchange (there r) (there s) =
    let e = exchange r s in record { middle = _; first = there e.first; second = there e.second }

module _ {A : Type 0} (before : A → A → Bool) where
  pub data Answer : List A → List A → Type 0 where
    empty : Answer [] []
    pick :
        {x : A} {rows rest answer : List A}
        → Removes x rows rest
        → All (λ y. before x y ≡ true) rest
        → Answer rest answer
        → Answer rows (x ∷ answer)

  -- No two rows tie.
  abbrev pub NoTies : List A → Type 0
  NoTies [] = Unit
  NoTies (x ∷ xs) = All (λ y. before x y ≡ true → before y x ≡ true → ⊥) xs × NoTies xs

  Removes-NoTies : {x : A} {xs ys : List A} → Removes x xs ys → NoTies xs → NoTies ys
  Removes-NoTies here h = h.1
  Removes-NoTies (there {y} r) h =
      (Removes-All (λ z. before y z ≡ true → before z y ≡ true → ⊥) r h.0, Removes-NoTies r h.1)

  first_unique :
      {x y : A} {rows xs ys : List A}
      → NoTies rows
      → Removes x rows xs
      → Removes y rows ys
      → All (λ z. before x z ≡ true) xs
      → All (λ z. before y z ≡ true) ys
      → (x ≡ y) × (xs ≡ ys)
  first_unique apart here here h k = (refl, refl)
  first_unique {x} {y} {xs} apart here (there r) h k = absurd (
      All-In (λ z. before x z ≡ true → before z x ≡ true → ⊥) y xs apart.0 (Removes-In r)
        (All-In (λ z. before x z ≡ true) y xs h (Removes-In r)) k.0)
  first_unique {x} {y} {ys} apart (there r) here h k = absurd (
      All-In (λ z. before y z ≡ true → before z y ≡ true → ⊥) x ys apart.0 (Removes-In r)
        (All-In (λ z. before y z ≡ true) x ys k (Removes-In r)) h.0)
  first_unique apart (there {y = z} r) (there s) h k =
      let (e, f) = first_unique apart.1 r s h.1 k.1 in (e, ap (λ l. z ∷ l) f)

  -- Where no rows tie there is one answer.
  pub Answer-unique :
      {rows xs ys : List A} → NoTies rows → Answer rows xs → Answer rows ys → xs ≡ ys
  Answer-unique apart empty empty = refl
  Answer-unique apart empty (pick r k b) = elim r [ ]
  Answer-unique apart (pick r h a) empty = elim r [ ]
  Answer-unique apart (pick {answer = xs} r h a) (pick {answer = ys} s k b) =
      let (e, f) = first_unique apart r s h k in
      ap₂ (λ z l. z ∷ l) e
        (Answer-unique (Removes-NoTies r apart) a (subst (λ l. Answer l ys) (sym f) b))

  -- Two neighbours that tie may be given the other way round.
  pub Answer-swap :
      {rows : List A} (first : List A) (p q : A) (last : List A)
      → before q p ≡ true
      → Answer rows (first ++ (p ∷ q ∷ last))
      → Answer rows (first ++ (q ∷ p ∷ last))
  Answer-swap {rows} [] p q last tie (pick r h (pick s k a)) =
      let e = exchange r s in
      pick e.first (All-Removes (λ y. before q y ≡ true) e.second tie k)
        (pick e.second (Removes-All (λ y. before p y ≡ true) s h) a)
  Answer-swap {rows} (x ∷ first) p q last tie (pick {rest} r h a) =
      pick r h (Answer-swap {rows = rest} first p q last tie a)

  module _ (total : (a b : A) → before a b ≡ false → before b a ≡ true)
      (trans : (a b c : A) → before a b ≡ true → before b c ≡ true → before a c ≡ true) where
    insert_by-Answer :
        (x : A) {rows answer : List A}
        → Answer rows answer
        → Answer (x ∷ rows) (insert_by before x answer)
    unfolding insert_by
    insert_by-Answer x empty = pick here tt empty
    insert_by-Answer x (pick {x = z} {rest} r h a) = elim (Bool-cases (before x z)) [
      | inl e ↦ rw e (
          pick here
            (All-Removes (λ y. before x y ≡ true) r e
              (All-map (λ y (k : before z y ≡ true). trans x z y e k) rest h))
            (pick r h a))
      | inr e ↦ rw e (pick (there r) (total x z e, h) (insert_by-Answer x a))
    ]

    -- Sorting by insertion is an answer.
    pub sort_by-Answer : (rows : List A) → Answer rows (sort_by before rows)
    unfolding sort_by
    sort_by-Answer [] = empty
    sort_by-Answer (x ∷ rows) = insert_by-Answer x (sort_by-Answer rows)
