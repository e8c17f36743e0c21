-- ===== src/Products/Unseed.antt =====
-- apps/products/migrations/0002_seed_rating_rules.py: the migration backwards, after the migration
-- forwards. When it runs, the tables of apps/policies are gone.
use mathlib.Core.Path.{subst}
use democrance_insurance_api.Prelude.{
  ℕ, ◌≤◌, ◌<◌, ◌≡◌, refl, sym, ap, ◌∙◌, inl, inr, Bool, Bool-cases, true, false, not, ◌&&◌, ◌||◌,
  Option-cases, none, some, String, List, [], ◌∷◌, ◌++◌, In, any, find, find-In, filter, update,
  str_eq, arith, ◌==◌, ==_iff, eq_iff,
}
use democrance_insurance_api.Products.{ProductType, RatingRule}
use democrance_insurance_api.Products.Seed.{
  Spec, Band, Catalogue, specs, seed, seed_specs, put_product, put_rules, put_rule, product_columns,
  new_product, seeded_rule, is_band,
}

-- `code__in=PRODUCTS.keys()`
abbrev pub is_seeded : ProductType → Bool
is_seeded p = any (λ (s : Spec). str_eq p.code s.code) specs

-- The keys of the products deleted.
abbrev pub goes : List ProductType → ℕ → Bool
goes products id = any (λ (p : ProductType). p.id == id && is_seeded p) products

-- `unseed`, with the rules that the deletion cascades to.
unfoldable pub unseed : Catalogue → Catalogue
unseed c = record c {
  products = filter (λ p. not (is_seeded p)) c.products;
  rules = filter (λ r. not (goes c.products r.product_id)) c.rules;
}

module _ {A : Type 0} where
  filter-update :
      (keep test : A → Bool) (write : A → A)
      → ((x : A) → test x ≡ true → (keep x ≡ false) × (keep (write x) ≡ false))
      → (xs : List A) → filter keep (update test write xs) ≡ filter keep xs
  filter-update keep test write dropped [] = refl
  filter-update keep test write dropped (x ∷ xs) =
      let ih = filter-update keep test write dropped xs in
      elim (Bool-cases (test x)) [
        | inl e ↦ let (old, written) = dropped x e in rw e (rw old (rw written ih))
        | inr e ↦ rw e (elim (Bool-cases (keep x)) [
          | inl kept ↦ rw kept (ap (λ l. x ∷ l) ih)
          | inr lost ↦ rw lost ih
        ])
      ]

  filter-snoc :
      (keep : A → Bool) (y : A) (xs : List A)
      → keep y ≡ false
      → filter keep (xs ++ (y ∷ [])) ≡ filter keep xs
  filter-snoc keep y [] e = rw e refl
  filter-snoc keep y (x ∷ xs) e = elim (Bool-cases (keep x)) [
    | inl kept ↦ rw kept (ap (λ l. x ∷ l) (filter-snoc keep y xs e))
    | inr lost ↦ rw lost (filter-snoc keep y xs e)
  ]

  any-snoc : (f : A → Bool) (y : A) (xs : List A) → any f (xs ++ (y ∷ [])) ≡ (any f xs || f y)
  any-snoc f y [] = ground arith
  any-snoc f y (x ∷ xs) = ground (arith, any-snoc f y xs)

  any-update :
      (f test : A → Bool) (write : A → A)
      → ((x : A) → f (write x) ≡ f x)
      → (xs : List A) → any f (update test write xs) ≡ any f xs
  any-update f test write same [] = refl
  any-update f test write same (x ∷ xs) = ground (arith, same x, any-update f test write same xs)

  any-In : (f : A → Bool) (x : A) (xs : List A) → In x xs → f x ≡ true → any f xs ≡ true
  any-In f x [] m e = absurd m
  any-In f x (y ∷ xs) m e = ground (arith, any-In f x xs)

  filter-same :
      (f g : A → Bool) (xs : List A) → ((x : A) → In x xs → f x ≡ g x) → filter f xs ≡ filter g xs
  filter-same f g [] same = refl
  filter-same f g (x ∷ xs) same =
      ground (arith, same x (inl refl), filter-same f g xs (λ y m. same y (inr m)))

goes-In :
    (products : List ProductType) (p : ProductType)
    → In p products
    → is_seeded p ≡ true
    → goes products p.id ≡ true
goes-In products p m e =
    let own = (==_iff p.id p.id).1 refl in
    any-In (λ (q : ProductType). q.id == p.id && is_seeded q) p products m (ground (arith, own, e))

-- What putting one product of the list does.
record IsPut (c : Catalogue) (result : Catalogue × ℕ) : Type 0 where
  same_others :
      filter (λ p. not (is_seeded p)) result.0.products ≡ filter (λ p. not (is_seeded p)) c.products
  same_rules : result.0.rules ≡ c.rules
  key_goes : goes result.0.products result.1 ≡ true
  still_goes : (k : ℕ) → goes c.products k ≡ true → goes result.0.products k ≡ true
  same_below : (k : ℕ) → k < c.next_product → goes result.0.products k ≡ goes c.products k
  above : c.next_product ≤ result.0.next_product

module _ (currency : String) (spec : Spec) (ours : In spec specs) (c : Catalogue) where
  coded : (p : ProductType) → str_eq p.code spec.code ≡ true → is_seeded p ≡ true
  coded p e = any-In (λ (s : Spec). str_eq p.code s.code) spec specs ours e

  updated-IsPut :
      (p : ProductType)
      → find (λ (q : ProductType). str_eq q.code spec.code) c.products ≡ some p
      → IsPut c (put_product currency spec c)
  unfolding put_product
  updated-IsPut p found =
      let test = λ (q : ProductType). str_eq q.code spec.code in
      let same = λ (k : ℕ).
        any-update (λ (q : ProductType). q.id == k && is_seeded q) test (product_columns spec)
          (λ q. refl) c.products in
      let (at, code) = find-In test p c.products found in
      rw (found, put_product)
        (record {
          same_others =
              filter-update (λ q. not (is_seeded q)) test (product_columns spec)
                (λ q e. (ap not (coded q e), ap not (coded q e))) c.products;
          same_rules = refl;
          key_goes = same p.id ∙ goes-In c.products p at (coded p code);
          still_goes = λ k e. same k ∙ e;
          same_below = λ k low. same k;
          above = omega arith;
        })

  added-IsPut :
      find (λ (q : ProductType). str_eq q.code spec.code) c.products ≡ none
      → IsPut c (put_product currency spec c)
  unfolding put_product
  added-IsPut absent =
      let row = new_product currency spec c.next_product in
      let seeded = coded row ((eq_iff spec.code spec.code).1 refl) in
      let grown =
        λ (k : ℕ). any-snoc (λ (q : ProductType). q.id == k && is_seeded q) row c.products in
      rw (absent, put_product)
        (record {
          same_others = filter-snoc (λ q. not (is_seeded q)) row c.products (ap not seeded);
          same_rules = refl;
          key_goes =
              let own = (==_iff c.next_product c.next_product).1 refl in
              grown c.next_product ∙ ground (arith, own, seeded);
          still_goes = λ k e. grown k ∙ ground (arith, e);
          same_below = λ k low. grown k ∙ ground (arith, low);
          above = omega arith;
        })

  put_product-IsPut : IsPut c (put_product currency spec c)
  put_product-IsPut =
      elim (Option-cases (find (λ (q : ProductType). str_eq q.code spec.code) c.products)) [
        | inl absent ↦ added-IsPut absent
        | inr (p, found) ↦ updated-IsPut p found
      ]

-- What putting the bands of a product of the list does, for rules of products that stay.
module _ (stays : ℕ → Bool) (id : ℕ) (leaves : stays id ≡ false) where
  put_rule-rules :
      (b : Band) (c : Catalogue)
      → filter (λ (r : RatingRule). stays r.product_id) (put_rule id b c).rules
        ≡ filter (λ (r : RatingRule). stays r.product_id) c.rules
  unfolding put_rule
  put_rule-rules b c = elim (Option-cases (find (is_band id b) c.rules)) [
    | inl absent ↦
        rw (absent, put_rule)
          (filter-snoc (λ (r : RatingRule). stays r.product_id) (seeded_rule id b c.next_rule)
            c.rules leaves)
    | inr (p, found) ↦
        rw (found, put_rule)
          (filter-update (λ (r : RatingRule). stays r.product_id) (is_band id b)
            (λ row. seeded_rule id b row.id)
            (λ r e.
              let owner : (r.product_id == id) ≡ true = ground arith in
              (ap stays ((==_iff r.product_id id).0 owner) ∙ leaves, leaves))
            c.rules)
  ]

  put_rule-products :
      (b : Band) (c : Catalogue)
      → ((put_rule id b c).products ≡ c.products)
        × ((put_rule id b c).next_product ≡ c.next_product)
  unfolding put_rule
  put_rule-products b c = elim (Option-cases (find (is_band id b) c.rules)) [
    | inl absent ↦ rw (absent, put_rule) (refl, refl)
    | inr (p, found) ↦ rw (found, put_rule) (refl, refl)
  ]

  put_rules-rules :
      (bands : List Band) (c : Catalogue)
      → filter (λ (r : RatingRule). stays r.product_id) (put_rules id bands c).rules
        ≡ filter (λ (r : RatingRule). stays r.product_id) c.rules
  unfolding put_rules
  put_rules-rules [] c = refl
  put_rules-rules (b ∷ bands) c = put_rules-rules bands (put_rule id b c) ∙ put_rule-rules b c

put_rules-products :
    (id : ℕ) (bands : List Band) (c : Catalogue)
    → ((put_rules id bands c).products ≡ c.products)
      × ((put_rules id bands c).next_product ≡ c.next_product)
unfolding put_rules
put_rules-products id [] c = (refl, refl)
put_rules-products id (b ∷ bands) c =
    let first = put_rule-products (λ k. false) id refl b c in
    let rest = put_rules-products id bands (put_rule id b c) in (rest.0 ∙ first.0, rest.1 ∙ first.1)

-- What the migration does.
record IsSeed (c result : Catalogue) : Type 0 where
  same_others :
      filter (λ p. not (is_seeded p)) result.products ≡ filter (λ p. not (is_seeded p)) c.products
  still_goes : (k : ℕ) → goes c.products k ≡ true → goes result.products k ≡ true
  same_below : (k : ℕ) → k < c.next_product → goes result.products k ≡ goes c.products k
  above : c.next_product ≤ result.next_product
  other_rules :
      (stays : ℕ → Bool)
      → ((k : ℕ) → goes result.products k ≡ true → stays k ≡ false)
      → filter (λ (r : RatingRule). stays r.product_id) result.rules
        ≡ filter (λ (r : RatingRule). stays r.product_id) c.rules

seed_specs-IsSeed :
    (currency : String) (ss : List Spec)
    → ((s : Spec) → In s ss → In s specs)
    → (c : Catalogue) → IsSeed c (seed_specs currency ss c)
unfolding seed_specs
seed_specs-IsSeed currency [] ours c = record {
  same_others = refl;
  still_goes = λ k e. e;
  same_below = λ k low. refl;
  above = omega arith;
  other_rules = λ stays leaves. refl;
}
seed_specs-IsSeed currency (s ∷ ss) ours c =
    let (c', id) = put_product currency s c in
    let put = put_product-IsPut currency s (ours s (inl refl)) c in
    let (products, key) = put_rules-products id s.bands c' in
    let rest = seed_specs-IsSeed currency ss (λ t m. ours t (inr m)) (put_rules id s.bands c') in
    let still = λ (k : ℕ) (e : goes c'.products k ≡ true).
      rest.still_goes k (subst (λ ps. goes ps k ≡ true) (sym products) e) in
    record {
      same_others =
          rest.same_others
          ∙ ap (λ ps. filter (λ p. not (is_seeded p)) ps) products
          ∙ put.same_others;
      still_goes = λ k e. still k (put.still_goes k e);
      same_below = λ k low.
          rest.same_below k (let up = put.above in omega arith)
          ∙ ap (λ ps. goes ps k) products
          ∙ put.same_below k low;
      above = let up = put.above in let more = rest.above in omega arith;
      other_rules = λ stays leaves.
          rest.other_rules stays leaves
          ∙ put_rules-rules stays id (leaves id (still id put.key_goes)) s.bands c'
          ∙ ap (λ rs. filter (λ (r : RatingRule). stays r.product_id) rs) put.same_rules;
    }

-- On a catalogue whose rules belong to products with keys that were given out, undoing the
-- migration after it has run leaves the products and the rules that undoing it at once would
-- leave: those without its codes, and their rules.
pub unseed-seed :
    (currency : String) (c : Catalogue)
    → ((r : RatingRule) → In r c.rules → r.product_id < c.next_product)
    → ((unseed (seed currency c)).products ≡ (unseed c).products)
      × ((unseed (seed currency c)).rules ≡ (unseed c).rules)
unfolding unseed seed
unseed-seed currency c linked =
    let done = seed_specs-IsSeed currency specs (λ s m. m) c in
    (
      done.same_others,
      done.other_rules (λ k. not (goes (seed_specs currency specs c).products k)) (λ k e. ap not e)
          ∙ filter-same
              (λ (r : RatingRule). not (goes (seed_specs currency specs c).products r.product_id))
              (λ (r : RatingRule). not (goes c.products r.product_id)) c.rules
              (λ r m. ap not (done.same_below r.product_id (linked r m))),
    )
