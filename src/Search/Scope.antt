-- ===== src/Search/Scope.antt =====
-- The search of apps/search/views.py, against what a principal may see.
use Prim.Native.Nat.{zero}
use democrance_insurance_api.Prelude.{
  ℕ, suc, ◌≤◌, ◌≡◌, ◌⊎◌, inl, inr, true, Bool, String, List, [], ◌∷◌, In, In-filter, length, str_eq,
  arith, filter, In-sort_by, IsSorted, sort_by-IsSorted, ◌↔◌, sym,
}
use democrance_insurance_api.Accounts.{Principal}
use democrance_insurance_api.Accounts.Scoping.{MaySee, In-scope_policies}
use democrance_insurance_api.Database.Answers.{All-In}
use democrance_insurance_api.Policies.Read.{listed_before}
use democrance_insurance_api.Policies.Ordering.{listed_total, listed_trans}
use mathlib.Core.Path.{subst}
use democrance_insurance_api.Policies.Access.{login_of}
use democrance_insurance_api.Policies.Views.{visible}
use democrance_insurance_api.Policies.Rows.{Policy}
use democrance_insurance_api.Database.{Db}
use democrance_insurance_api.Search.{take, limit, section, search_policies, policy_has}

length-take :
    {A : Type 0} (n : ℕ) (xs : List A) → (length (take n xs) ≤ n) × (length (take n xs) ≤ length xs)
length-take zero xs = (omega arith, omega arith)
length-take (suc n) [] = (omega arith, omega arith)
length-take (suc n) (x ∷ xs) = let ih = length-take n xs in (omega arith, omega arith)

take-In : {A : Type 0} (n : ℕ) (a : A) (xs : List A) → In a (take n xs) → In a xs
take-In zero a xs h = absurd h
take-In (suc n) a [] h = absurd h
take-In (suc n) a (x ∷ xs) (inl e) = inl e
take-In (suc n) a (x ∷ xs) (inr h) = inr (take-In n a xs h)

take-IsSorted :
    {A : Type 0} (before : A → A → Bool) (n : ℕ) (a b : A) (xs : List A)
    → IsSorted before xs
    → In a (take n xs)
    → In b xs
    → In b (take n xs) ⊎ (before a b ≡ true)
take-IsSorted before zero a b xs s h k = absurd h
take-IsSorted before (suc n) a b [] s h k = absurd h
take-IsSorted before (suc n) a b (x ∷ xs) s h (inl e) = inl (inl e)
take-IsSorted before (suc n) a b (x ∷ xs) s (inl e) (inr k) =
    inr (subst (λ z. before z b ≡ true) (sym e) (All-In (λ y. before x y ≡ true) b xs s.0 k))
take-IsSorted before (suc n) a b (x ∷ xs) s (inr h) (inr k) =
    ground (arith, take-IsSorted before n a b xs s.1 h k)

module _ (icontains : String → String → Bool) where
  -- A policy that is in the table, that the principal may see, and that matches the text unless
  -- that is empty.
  abbrev pub Matches : String → Db → Principal → Policy → Type 0
  Matches q db who p =
      In p db.policies
      × MaySee who (login_of db p)
      × ((str_eq q "" ≡ true) ⊎ (policy_has icontains q db.customers p ≡ true))

  In-search_policies :
      (q : String) (db : Db) (who : Principal) (p : Policy)
      → In p (search_policies icontains q db who) ↔ Matches q db who p
  unfolding search_policies
  In-search_policies q db who p =
      let kept = In-filter (policy_has icontains q db.customers) p (visible who db) in
      let seen = In-scope_policies (λ (r : Policy). r.customer_id) db.customers db.policies who p in
      let all = In-sort_by listed_before p (visible who db) in
      let some_of =
        In-sort_by listed_before p
          (filter (policy_has icontains q db.customers) (visible who db)) in
      ground (arith, kept, seen, all, some_of)

  search_policies-IsSorted :
      (q : String) (db : Db) (who : Principal)
      → IsSorted listed_before (search_policies icontains q db who)
  unfolding search_policies
  search_policies-IsSorted q db who = sort_by-IsSorted listed_before listed_total listed_trans _

  -- A policy shown by a search is in the table, may be seen by the principal, and matches the text
  -- unless that is empty; at most twenty are shown; and any policy that is in the table, may be
  -- seen and matches is shown too or does not come before it in the default order.
  pub search_policies_sound :
      (q : String) (db : Db) (who : Principal) (p : Policy)
      → In p (section (search_policies icontains q db who)).results
      → Matches q db who p
        × (length (section (search_policies icontains q db who)).results ≤ 20)
        × ((r : Policy)
            → Matches q db who r
            → In r (section (search_policies icontains q db who)).results
              ⊎ (listed_before p r ≡ true))
  search_policies_sound q db who p shown =
      let rows = search_policies icontains q db who in
      (
        (In-search_policies q db who p).0 (take-In limit p rows shown),
        (length-take limit rows).0,
        λ r matches.
            take-IsSorted listed_before limit p r rows (search_policies-IsSorted q db who) shown
              ((In-search_policies q db who r).1 matches),
      )
