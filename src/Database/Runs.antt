-- ===== src/Database/Runs.antt =====
-- A run of an action that returned, taken apart into the runs of its parts.
use democrance_insurance_api.Prelude.{◌≡◌, refl, ap, ◌∙◌, Bool, true, false}
use democrance_insurance_api.Common.Errors.{Error}
use democrance_insurance_api.Database.{World, Action, Result, ok, err, ◌>>=◌, ◌>>◌, raise_if}

pub >>=-eq-ok :
    {A B : Type 0} (m : Action A) (f : A → Action B) (w w'' : World) (b : B)
    → (m >>= f) w ≡ (ok b, w'')
    → (a : A) × (w' : World) × (m w ≡ (ok a, w')) × (f a w' ≡ (ok b, w''))
>>=-eq-ok {A} {B} m f w w'' b run = go (m w) refl run
  where
    go :
        (r : Result A × World)
        → m w ≡ r
        → elim r.0 as (λ x. Result B × World) [ ok a ↦ f a r.1 | err e ↦ (err e, r.1) ]
          ≡ (ok b, w'')
        → (a : A) × (w' : World) × (m w ≡ (ok a, w')) × (f a w' ≡ (ok b, w''))
    go (ok a, w') e h = (a, w', e, h)
    go (err x, w') e h = cc

-- The part after a test that does not raise.
pub raise_if->>=-eq-ok :
    {B : Type 0} (c : Bool) (e : Error) (k : Action B) (w w' : World) (b : B)
    → (raise_if c e >> k) w ≡ (ok b, w')
    → (c ≡ false) × (k w ≡ (ok b, w'))
raise_if->>=-eq-ok true e k w w' b run = cc
raise_if->>=-eq-ok false e k w w' b run = (refl, run)

-- A run by its two parts.
pub run-eq : {A : Type 0} (r : Result A × World) (x : Result A) → r.0 ≡ x → r ≡ (x, r.1)
run-eq r x e = ap (λ z. (z, r.1)) e

-- An action that never writes, and one that writes nothing when it fails.
abbrev pub IsQuiet : {A : Type 0} → Action A → Type 0
IsQuiet m = (w : World) → (m w).1.db ≡ w.db

abbrev pub FailsQuietly : {A : Type 0} → Action A → Type 0
FailsQuietly m = (w : World) (e : Error) → (m w).0 ≡ err e → (m w).1.db ≡ w.db

pub IsQuiet->>=-FailsQuietly :
    {A B : Type 0} (m : Action A) (f : A → Action B)
    → IsQuiet m
    → ((a : A) → FailsQuietly (f a))
    → FailsQuietly (m >>= f)
IsQuiet->>=-FailsQuietly {A} {B} m f quiet rest w e failed = go (m w) (quiet w) failed
  where
    go :
        (r : Result A × World)
        → r.1.db ≡ w.db
        → (elim r.0 as (λ x. Result B × World) [ ok a ↦ f a r.1 | err e ↦ (err e, r.1) ]).0 ≡ err e
        → (elim r.0 as (λ x. Result B × World) [ ok a ↦ f a r.1 | err e ↦ (err e, r.1) ]).1.db
          ≡ w.db
    go (ok a, w') same h = rest a w' e h ∙ same
    go (err x, w') same h = same

pub IsQuiet->>= :
    {A B : Type 0} (m : Action A) (f : A → Action B)
    → IsQuiet m
    → ((a : A) → IsQuiet (f a))
    → IsQuiet (m >>= f)
IsQuiet->>= {A} {B} m f quiet rest w = go (m w) (quiet w)
  where
    go :
        (r : Result A × World)
        → r.1.db ≡ w.db
        → (elim r.0 as (λ x. Result B × World) [ ok a ↦ f a r.1 | err e ↦ (err e, r.1) ]).1.db
          ≡ w.db
    go (ok a, w') same = rest a w' ∙ same
    go (err x, w') same = same

-- A part that may write, and a rest that does not fail.
pub FailsQuietly->>= :
    {A B : Type 0} (m : Action A) (f : A → Action B)
    → FailsQuietly m
    → ((a : A) (w : World) (e : Error) → ¬ ((f a w).0 ≡ err e))
    → FailsQuietly (m >>= f)
FailsQuietly->>= {A} {B} m f quiet never w e failed = go (m w) (quiet w) failed
  where
    go :
        (r : Result A × World)
        → ((e : Error) → r.0 ≡ err e → r.1.db ≡ w.db)
        → (elim r.0 as (λ x. Result B × World) [ ok a ↦ f a r.1 | err e ↦ (err e, r.1) ]).0 ≡ err e
        → (elim r.0 as (λ x. Result B × World) [ ok a ↦ f a r.1 | err e ↦ (err e, r.1) ]).1.db
          ≡ w.db
    go (ok a, w') same h = absurd (never a w' e h)
    go (err x, w') same h = same x refl

-- An error that neither part raises.
pub >>=-ne-err :
    {A B : Type 0} (m : Action A) (f : A → Action B) (w : World) (x : Error)
    → ¬ ((m w).0 ≡ err x)
    → ((a : A) (w' : World) → m w ≡ (ok a, w') → ¬ ((f a w').0 ≡ err x))
    → ¬ (((m >>= f) w).0 ≡ err x)
>>=-ne-err {A} {B} m f w x first rest = go (m w) refl
  where
    go :
        (r : Result A × World)
        → m w ≡ r
        → ¬ (
            (elim r.0 as (λ x. Result B × World) [ ok a ↦ f a r.1 | err e ↦ (err e, r.1) ]).0
            ≡ err x)
    go (ok a, w') same = rest a w' same
    go (err e, w') same = λ h. first (ap (λ z. z.0) same ∙ cc)
