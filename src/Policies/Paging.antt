-- ===== src/Policies/Paging.antt =====
-- Pages of the list of apps/policies/views.py: each is cut from an answer of its own.
use democrance_insurance_api.Prelude.{
  ℤ, Option, false, suc, ◌≡◌, ◌≢◌, refl, ap, Bool, Bool-cases, true, none, some, String, List, [],
  ◌∷◌, ◌++◌, All, All-map, filter, length, arith, inl, inr,
}
use democrance_insurance_api.Accounts.{
  Principal, scope_policies, owner_is, customer_by_id, is_agent_or_staff,
}
use democrance_insurance_api.Policies.Rows.{Policy}
use democrance_insurance_api.Policies.Views.{visible}
use democrance_insurance_api.Policies.Read.{listed_before, order_listed}
use democrance_insurance_api.Policies.Ordering.{listed_total, listed_trans}
use mathlib.Core.Path.{subst}
use democrance_insurance_api.Policies.Listing.{
  Column, Term, premium_leb, column_leb, term_leb, terms_leb, allowed_terms, list_order,
}
use democrance_insurance_api.Search.{PolicyFilter, filter_policies, take, drop}
use democrance_insurance_api.Database.{Db}
use democrance_insurance_api.Database.Answers.{
  Answer, NoTies, Answer-unique, Answer-swap, sort_by-Answer,
}

-- No two rows of a table have the same key.
abbrev pub HasKeys : List Policy → Type 0
HasKeys [] = Unit
HasKeys (p ∷ policies) = All (λ (q : Policy). p.id ≢ q.id) policies × HasKeys policies

All-filter :
    {A : Type 0} (P : A → Type 0) (f : A → Bool) (xs : List A) → All P xs → All P (filter f xs)
All-filter P f [] h = tt
All-filter P f (x ∷ xs) h = elim (Bool-cases (f x)) [
  | inl e ↦ rw e (h.0, All-filter P f xs h.1)
  | inr e ↦ rw e (All-filter P f xs h.1)
]

filter-HasKeys :
    (f : Policy → Bool) (policies : List Policy) → HasKeys policies → HasKeys (filter f policies)
filter-HasKeys f [] h = tt
filter-HasKeys f (p ∷ policies) h = elim (Bool-cases (f p)) [
  | inl e ↦
      rw e (All-filter (λ (q : Policy). p.id ≢ q.id) f policies h.0, filter-HasKeys f policies h.1)
  | inr e ↦ rw e (filter-HasKeys f policies h.1)
]

visible-HasKeys : (who : Principal) (db : Db) → HasKeys db.policies → HasKeys (visible who db)
unfolding scope_policies
visible-HasKeys none db h = h
visible-HasKeys (some user) db h = elim (Bool-cases (is_agent_or_staff user)) [
  | inl e ↦ rw e h
  | inr e ↦ rw e (
      filter-HasKeys (λ (p : Policy). owner_is user (customer_by_id p.customer_id db.customers))
        db.policies h)
]

listed_antisym :
    (p q : Policy) → p.id ≢ q.id → listed_before p q ≡ true → listed_before q p ≡ true → ⊥
listed_antisym p q ne h k = ne (ground arith)

HasKeys-NoTies : (policies : List Policy) → HasKeys policies → NoTies listed_before policies
HasKeys-NoTies [] h = tt
HasKeys-NoTies (p ∷ policies) h = (
  All-map (λ q (ne : p.id ≢ q.id). listed_antisym p q ne) policies h.0,
  HasKeys-NoTies policies h.1,
)

module _ (icontains : String → String → Bool) (f : PolicyFilter) (db : Db) (who : Principal) where
  -- The rows that the list is about, before they are ordered.
  abbrev pub listed : List Policy
  listed = filter_policies icontains f db (visible who db)

  listed-HasKeys : HasKeys db.policies → HasKeys listed
  unfolding filter_policies
  listed-HasKeys keys = filter-HasKeys _ (visible who db) (visible-HasKeys who db keys)

  -- In the default order there is one answer.
  pub listed_unique :
      (answer : List Policy)
      → HasKeys db.policies
      → Answer listed_before listed answer
      → answer ≡ order_listed listed
  listed_unique answer keys given =
      Answer-unique listed_before (HasKeys-NoTies listed (listed-HasKeys keys)) given
        (sort_by-Answer listed_before listed_total listed_trans listed)

take-append :
    {A : Type 0} (first : List A) (p : A) (last : List A)
    → take (suc (length first)) (first ++ (p ∷ last)) ≡ first ++ (p ∷ [])
take-append [] p last = refl
take-append (x ∷ first) p last = ap (λ l. x ∷ l) (take-append first p last)

drop-append :
    {A : Type 0} (first : List A) (p : A) (last : List A)
    → drop (suc (length first)) (first ++ (p ∷ last)) ≡ last
drop-append [] p last = refl
drop-append (x ∷ first) p last = drop-append first p last

-- Two rows that hold the same in a column.
abbrev pub SameIn : Column → Policy → Policy → Type 0
SameIn Column.created_at p q = p.created_at ≡ q.created_at
SameIn Column.premium p q = p.premium ≡ q.premium
SameIn Column.state p q = p.state ≡ q.state

premium_leb_refl : (nulls_first : Bool) (a : Option ℤ) → premium_leb nulls_first a a ≡ true
premium_leb_refl nulls_first none = refl
premium_leb_refl nulls_first (some a) = ground arith

SameIn-column_leb :
    (nulls_first : Bool) (c : Column) (p q : Policy)
    → SameIn c p q
    → (column_leb nulls_first c p q ≡ true) × (column_leb nulls_first c q p ≡ true)
SameIn-column_leb nulls_first Column.created_at p q same = (ground arith, ground arith)
SameIn-column_leb nulls_first Column.premium p q same = (
  subst (λ a. premium_leb nulls_first p.premium a ≡ true) same
      (premium_leb_refl nulls_first p.premium),
  subst (λ a. premium_leb nulls_first a p.premium ≡ true) same
      (premium_leb_refl nulls_first p.premium),
)
SameIn-column_leb nulls_first Column.state p q same =
    (rw same (ground arith), rw same (ground arith))

SameIn-term_leb :
    (nulls_first : Bool) (t : Term) (p q : Policy)
    → SameIn t.1 p q
    → (term_leb nulls_first t p q ≡ true) × (term_leb nulls_first t q p ≡ true)
SameIn-term_leb nulls_first (true, c) p q same =
    let (there, back) = SameIn-column_leb nulls_first c p q same in (back, there)
SameIn-term_leb nulls_first (false, c) p q same = SameIn-column_leb nulls_first c p q same

SameIn-terms_leb :
    (nulls_first : Bool) (ts : List Term) (p q : Policy)
    → All (λ (t : Term). SameIn t.1 p q) ts
    → terms_leb nulls_first ts q p ≡ true
unfolding terms_leb
SameIn-terms_leb nulls_first [] p q same = refl
SameIn-terms_leb nulls_first (t ∷ ts) p q same =
    let (there, back) = SameIn-term_leb nulls_first t p q same.0 in
    let rest = SameIn-terms_leb nulls_first ts p q same.1 in rw (back, there, rest) refl

-- When a client orders by some of the allowed columns, and the rows on the two sides of the end of
-- a page hold the same in each of them, then, whatever their keys, the database may answer the
-- next page from another answer in which the first page's last row comes again and the other row
-- is on no page of the two.
pub tied_pages :
    (nulls_first : Bool) (asked : List (Bool × String)) (t : Term) (ts : List Term)
    (rows first : List Policy) (p q : Policy) (last : List Policy)
    → allowed_terms asked ≡ t ∷ ts
    → All (λ (u : Term). SameIn u.1 p q) (t ∷ ts)
    → Answer (list_order nulls_first asked) rows (first ++ (p ∷ q ∷ last))
    → (other : List Policy) × Answer (list_order nulls_first asked) rows other
      × (take (suc (length first)) (first ++ (p ∷ q ∷ last)) ≡ first ++ (p ∷ []))
      × (drop (suc (length first)) other ≡ p ∷ last)
tied_pages nulls_first asked t ts rows first p q last terms same given = (
  first ++ (q ∷ p ∷ last),
  Answer-swap (list_order nulls_first asked) first p q last
      (rw terms (SameIn-terms_leb nulls_first (t ∷ ts) p q same)) given,
  take-append first p (q ∷ last),
  drop-append first q (p ∷ last),
)
