-- ===== src/Database/Links.antt =====
-- The foreign keys of the tables: each points at a row that is there, also after a deletion.
use democrance_insurance_api.Prelude.{
  ℕ, ◌≡◌, refl, sym, ap, ◌∙◌, inl, inr, Bool, Bool-cases, true, false, not, ◌&&◌, Option, none,
  some, List, [], ◌∷◌, In, In-filter, In-map, any-none, map, any, arith, ◌==◌, ==_iff,
}
use mathlib.Core.Path.{subst}
use democrance_insurance_api.Customers.{Customer}
use democrance_insurance_api.Products.{ProductType, RatingRule}
use democrance_insurance_api.Policies.Rows.{Policy, PolicyStateTransition}
use democrance_insurance_api.Payments.Rows.{Payment}
use democrance_insurance_api.Database.{Db}
use democrance_insurance_api.Database.Deleting.{
  deleted, deleted-injective, guarded, without, nulled, Model, remaining, delete, delete_policies,
  delete_customers, delete_products, delete_rules, delete_users, rules_of, forget_rule,
  forget_author, forget_actor, forget_login,
}

-- A row with this key is there.
abbrev pub has : {A : Type 0} → (A → ℕ) → List A → ℕ → Bool
has key rows id = any (λ r. key r == id) rows

abbrev pub has? : {A : Type 0} → (A → ℕ) → List A → Option ℕ → Bool
has? key rows none = true
has? key rows (some id) = has key rows id

-- A key of a login that is there, or NULL.
abbrev pub is_login : (ℕ → Bool) → Option ℕ → Bool
is_login logins none = true
is_login logins (some id) = logins id

-- The foreign keys of the tables, where `logins` are the keys of the logins.
pub record IsLinked (logins : ℕ → Bool) (db : Db) : Type 0 where
  pub profiles : (c : Customer) → In c db.customers → is_login logins c.user ≡ true
  pub authors : (p : Policy) → In p db.policies → is_login logins p.created_by ≡ true
  pub actors : (t : PolicyStateTransition) → In t db.transitions → is_login logins t.actor ≡ true
  pub owners :
      (p : Policy)
      → In p db.policies
      → has (λ (c : Customer). c.id) db.customers p.customer_id ≡ true
  pub covers :
      (p : Policy)
      → In p db.policies
      → has (λ (r : ProductType). r.id) db.products p.product_id ≡ true
  pub prices :
      (p : Policy)
      → In p db.policies
      → has? (λ (r : RatingRule). r.id) db.rules p.rating_rule ≡ true
  pub bands :
      (r : RatingRule)
      → In r db.rules
      → has (λ (q : ProductType). q.id) db.products r.product_id ≡ true
  pub told :
      (t : PolicyStateTransition)
      → In t db.transitions
      → has (λ (p : Policy). p.id) db.policies t.policy_id ≡ true
  pub paid :
      (payment : Payment)
      → In payment db.payments
      → has (λ (p : Policy). p.id) db.policies payment.policy_id ≡ true

module _ {A : Type 0} (key : A → ℕ) (gone : ℕ → Bool) where
  has-without :
      (rows : List A) (id : ℕ)
      → gone id ≡ false
      → has key rows id ≡ true
      → has key (without key gone rows) id ≡ true
  has-without [] id kept h = h
  has-without (r ∷ rows) id kept h =
      let ih = has-without rows id kept in
      let same = ==_iff (key r) id in
      let carry = λ (e : key r ≡ id). ap gone e in ground (arith, ih, same, carry)

  has-nulled :
      (rows : List A) (id : Option ℕ)
      → has? key rows id ≡ true
      → has? key (without key gone rows) (nulled gone id) ≡ true
  has-nulled rows none h = refl
  has-nulled rows (some id) h = elim (Bool-cases (gone id)) [
    | inl e ↦ rw e refl
    | inr e ↦ rw e (has-without rows id e h)
  ]

-- A key that is cleared, or that is not among those deleted.
is_login-nulled :
    (logins gone : ℕ → Bool) (id : Option ℕ)
    → is_login logins id ≡ true
    → is_login (λ k. logins k && not (gone k)) (nulled gone id) ≡ true
is_login-nulled logins gone none there = refl
is_login-nulled logins gone (some id) there = elim (Bool-cases (gone id)) [
  | inl e ↦ rw e refl
  | inr e ↦ rw (e, there, e) refl
]

has-map :
    {A : Type 0} (key : A → ℕ) (f : A → A) (rows : List A) (id : ℕ)
    → ((r : A) → key (f r) ≡ key r)
    → has key (map f rows) id ≡ has key rows id
has-map key f [] id same = refl
has-map key f (r ∷ rows) id same = ground (arith, same r, has-map key f rows id same)

-- The rows that are left were there, and their keys are not among those deleted.
left :
    {A : Type 0} (key : A → ℕ) (gone : ℕ → Bool) (a : A) (rows : List A)
    → In a (without key gone rows)
    → In a rows × (gone (key a) ≡ false)
left key gone a rows m =
    let kept = In-filter (λ r. not (gone (key r))) a rows in ground (arith, kept)

module _ (logins : ℕ → Bool) (gone : ℕ → Bool) (db : Db) (links : IsLinked logins db) where
  policies-IsLinked :
      any (λ (payment : Payment). gone payment.policy_id) db.payments ≡ false
      → IsLinked logins (record db {
        policies = without (λ (p : Policy). p.id) gone db.policies;
        transitions = without (λ (t : PolicyStateTransition). t.policy_id) gone db.transitions;
      })
  policies-IsLinked unpaid = record {
    profiles = links.profiles;
    authors = λ p m. links.authors p (left (λ (q : Policy). q.id) gone p db.policies m).0;
    actors = λ t m.
        links.actors t
          (left (λ (u : PolicyStateTransition). u.policy_id) gone t db.transitions m).0;
    owners = λ p m. links.owners p (left (λ (q : Policy). q.id) gone p db.policies m).0;
    covers = λ p m. links.covers p (left (λ (q : Policy). q.id) gone p db.policies m).0;
    prices = λ p m. links.prices p (left (λ (q : Policy). q.id) gone p db.policies m).0;
    bands = links.bands;
    told = λ t m.
        let (at, kept) =
          left (λ (u : PolicyStateTransition). u.policy_id) gone t db.transitions m in
        has-without (λ (p : Policy). p.id) gone db.policies t.policy_id kept (links.told t at);
    paid = λ payment m.
        has-without (λ (p : Policy). p.id) gone db.policies payment.policy_id
          (any-none (λ (r : Payment). gone r.policy_id) payment db.payments unpaid m)
          (links.paid payment m);
  }

  customers-IsLinked :
      any (λ (p : Policy). gone p.customer_id) db.policies ≡ false
      → IsLinked logins
          (record db { customers = without (λ (c : Customer). c.id) gone db.customers })
  customers-IsLinked free = record {
    profiles = λ c m. links.profiles c (left (λ (d : Customer). d.id) gone c db.customers m).0;
    authors = links.authors;
    actors = links.actors;
    owners = λ p m.
        has-without (λ (c : Customer). c.id) gone db.customers p.customer_id
          (any-none (λ (q : Policy). gone q.customer_id) p db.policies free m) (links.owners p m);
    covers = links.covers;
    prices = links.prices;
    bands = links.bands;
    told = links.told;
    paid = links.paid;
  }

  -- The rules deleted, whatever becomes of the products.
  rules-IsLinked :
      (products : List ProductType)
      → ((p : Policy)
          → In p db.policies
          → has (λ (r : ProductType). r.id) products p.product_id ≡ true)
      → ((r : RatingRule)
          → In r db.rules
          → gone r.id ≡ false
          → has (λ (q : ProductType). q.id) products r.product_id ≡ true)
      → IsLinked logins (delete_rules gone (record db { products = products }))
  rules-IsLinked products covers bands = record {
    profiles = links.profiles;
    authors = λ p m.
        let (x, at, e) = In-map (forget_rule gone) p db.policies m in
        ap (λ (q : Policy). is_login logins q.created_by) e ∙ links.authors x at;
    actors = links.actors;
    owners = λ p m.
        let (x, at, e) = In-map (forget_rule gone) p db.policies m in
        subst (λ (q : Policy). has (λ (c : Customer). c.id) db.customers q.customer_id ≡ true)
          (sym e) (links.owners x at);
    covers = λ p m.
        let (x, at, e) = In-map (forget_rule gone) p db.policies m in
        subst (λ (q : Policy). has (λ (r : ProductType). r.id) products q.product_id ≡ true) (sym e)
          (covers x at);
    prices = λ p m.
        let (x, at, e) = In-map (forget_rule gone) p db.policies m in
        subst
          (λ (q : Policy).
            has? (λ (r : RatingRule). r.id) (without (λ (r : RatingRule). r.id) gone db.rules)
              q.rating_rule
            ≡ true)
          (sym e)
          (has-nulled (λ (r : RatingRule). r.id) gone db.rules x.rating_rule (links.prices x at));
    bands = λ r m.
        let (at, kept) = left (λ (q : RatingRule). q.id) gone r db.rules m in bands r at kept;
    told = λ t m.
        has-map (λ (p : Policy). p.id) (forget_rule gone) db.policies t.policy_id (λ p. refl)
        ∙ links.told t m;
    paid = λ payment m.
        has-map (λ (p : Policy). p.id) (forget_rule gone) db.policies payment.policy_id (λ p. refl)
        ∙ links.paid payment m;
  }

  users-IsLinked : IsLinked (λ id. logins id && not (gone id)) (delete_users gone db)
  users-IsLinked = record {
    profiles = λ c m.
        let (x, at, e) = In-map (forget_login gone) c db.customers m in
        ap (λ (d : Customer). is_login (λ id. logins id && not (gone id)) d.user) e
        ∙ is_login-nulled logins gone x.user (links.profiles x at);
    authors = λ p m.
        let (x, at, e) = In-map (forget_author gone) p db.policies m in
        ap (λ (q : Policy). is_login (λ id. logins id && not (gone id)) q.created_by) e
        ∙ is_login-nulled logins gone x.created_by (links.authors x at);
    actors = λ t m.
        let (x, at, e) = In-map (forget_actor gone) t db.transitions m in
        ap (λ (u : PolicyStateTransition). is_login (λ id. logins id && not (gone id)) u.actor) e
        ∙ is_login-nulled logins gone x.actor (links.actors x at);
    owners = λ p m.
        let (x, at, e) = In-map (forget_author gone) p db.policies m in
        has-map (λ (c : Customer). c.id) (forget_login gone) db.customers p.customer_id (λ c. refl)
        ∙ ap (λ (q : Policy). has (λ (c : Customer). c.id) db.customers q.customer_id) e
        ∙ links.owners x at;
    covers = λ p m.
        let (x, at, e) = In-map (forget_author gone) p db.policies m in
        ap (λ (q : Policy). has (λ (r : ProductType). r.id) db.products q.product_id) e
        ∙ links.covers x at;
    prices = λ p m.
        let (x, at, e) = In-map (forget_author gone) p db.policies m in
        ap (λ (q : Policy). has? (λ (r : RatingRule). r.id) db.rules q.rating_rule) e
        ∙ links.prices x at;
    bands = links.bands;
    told = λ t m.
        let (u, at, e) = In-map (forget_actor gone) t db.transitions m in
        has-map (λ (p : Policy). p.id) (forget_author gone) db.policies t.policy_id (λ p. refl)
        ∙ ap (λ (v : PolicyStateTransition). has (λ (p : Policy). p.id) db.policies v.policy_id) e
        ∙ links.told u at;
    paid = λ payment m.
        has-map (λ (p : Policy). p.id) (forget_author gone) db.policies payment.policy_id
          (λ p. refl)
        ∙ links.paid payment m;
  }

products-IsLinked :
    (logins : ℕ → Bool) (gone : ℕ → Bool) (db : Db)
    → IsLinked logins db
    → any (λ (p : Policy). gone p.product_id) db.policies ≡ false
    → IsLinked logins (
        delete_rules
          (rules_of gone db.rules)
          (record db { products = without (λ (p : ProductType). p.id) gone db.products }))
products-IsLinked logins gone db links free =
    rules-IsLinked logins (rules_of gone db.rules) db links
      (without (λ (p : ProductType). p.id) gone db.products)
      (λ p m.
        has-without (λ (q : ProductType). q.id) gone db.products p.product_id
          (any-none (λ (q : Policy). gone q.product_id) p db.policies free m) (links.covers p m))
      (λ r m kept.
        has-without (λ (q : ProductType). q.id) gone db.products r.product_id
          (let not_its =
              any-none (λ (q : RatingRule). gone q.product_id && q.id == r.id) r db.rules kept m in
            let own = (==_iff r.id r.id).1 refl in ground (arith, not_its, own))
          (links.bands r m))

-- No deletion leaves a key that points at nothing.
pub delete-IsLinked :
    (model : Model) (logins gone : ℕ → Bool) (db db' : Db)
    → IsLinked logins db
    → delete model gone db ≡ deleted db'
    → IsLinked (remaining model gone logins) db'
unfolding delete delete_policies delete_customers delete_products
delete-IsLinked Model.customers logins gone db db' links e =
    guarded (IsLinked logins) (any (λ (p : Policy). gone p.customer_id) db.policies) _ db'
      (customers-IsLinked logins gone db links) e
delete-IsLinked Model.products logins gone db db' links e =
    guarded (IsLinked logins) (any (λ (p : Policy). gone p.product_id) db.policies) _ db'
      (products-IsLinked logins gone db links) e
delete-IsLinked Model.rules logins gone db db' links e =
    subst (IsLinked logins) (deleted-injective e)
      (rules-IsLinked logins gone db links db.products links.covers (λ r m kept. links.bands r m))
delete-IsLinked Model.policies logins gone db db' links e =
    guarded (IsLinked logins) (any (λ (payment : Payment). gone payment.policy_id) db.payments) _
      db' (policies-IsLinked logins gone db links) e
delete-IsLinked Model.users logins gone db db' links e =
    subst (IsLinked (λ id. logins id && not (gone id))) (deleted-injective e)
      (users-IsLinked logins gone db links)
