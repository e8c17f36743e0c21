-- ===== src/Products/Seed.antt =====
-- apps/products/migrations/0002_seed_rating_rules.py: the catalogue that a fresh database has.
use democrance_insurance_api.Prelude.{
  ℕ, suc, ℤ, pos, ◌≡◌, refl, Bool, true, ◌&&◌, none, some, String, List, [], ◌∷◌, ◌++◌, find,
  update, str_eq, ◌==◌,
}
use democrance_insurance_api.Dates.{Date, date, date_leb}
use democrance_insurance_api.Products.{ProductType, RatingRule}

-- One entry of "bands".
pub record Band : Type 0 where
  pub low : ℕ
  pub high : ℕ
  pub rate : ℤ
  pub floor : ℤ

-- One entry of `PRODUCTS`.
pub record Spec : Type 0 where
  pub code : String
  pub name : String
  pub description : String
  pub default_cover : ℤ
  pub min_cover : ℤ
  pub max_cover : ℤ
  pub min_age : ℕ
  pub max_age : ℕ
  pub bands : List Band

abbrev pub seed_from : Date
seed_from = date 2020 1 1

abbrev pub band : ℕ → ℕ → ℤ → ℤ → Band
band low high rate floor = record { low = low; high = high; rate = rate; floor = floor }

abbrev pub personal_accident : Spec
personal_accident = record {
  code = "personal-accident";
  name = "Personal Accident";
  description = "Lump-sum cover for accidental injury.";
  default_cover = pos 20_000_000;
  min_cover = pos 100_000;
  max_cover = pos 100_000_000;
  min_age = 18;
  max_age = 70;
  bands =
      band 18 25 (pos 13_000) (pos 5_000)
      ∷ band 26 30 (pos 11_500) (pos 5_000)
      ∷ band 31 40 (pos 10_000) (pos 5_000)
      ∷ band 41 50 (pos 14_000) (pos 5_000)
      ∷ band 51 60 (pos 20_000) (pos 5_000)
      ∷ band 61 70 (pos 31_000) (pos 5_000)
      ∷ [];
}

abbrev pub travel : Spec
travel = record {
  code = "travel";
  name = "Travel";
  description = "Single-trip travel cover.";
  default_cover = pos 5_000_000;
  min_cover = pos 100_000;
  max_cover = pos 50_000_000;
  min_age = 18;
  max_age = 65;
  bands = band 18 40 (pos 6_000) (pos 2_500) ∷ band 41 65 (pos 9_500) (pos 2_500) ∷ [];
}

-- `PRODUCTS`
abbrev pub specs : List Spec
specs = personal_accident ∷ travel ∷ []

-- The two tables, in the order of insertion, with their next keys.
pub record Catalogue : Type 0 where
  pub products : List ProductType
  pub rules : List RatingRule
  pub next_product : ℕ
  pub next_rule : ℕ

-- The columns in `defaults` of the product.
abbrev pub product_columns : Spec → ProductType → ProductType
product_columns spec row = record row {
  name = spec.name;
  description = spec.description;
  is_active = true;
  default_cover = spec.default_cover;
  min_cover = spec.min_cover;
  max_cover = spec.max_cover;
  min_age = spec.min_age;
  max_age = spec.max_age;
}

-- The row that is created: the currency comes from the column's default.
abbrev pub new_product : String → Spec → ℕ → ProductType
new_product currency spec id = record {
  id = id;
  code = spec.code;
  name = spec.name;
  description = spec.description;
  is_active = true;
  default_cover = spec.default_cover;
  min_cover = spec.min_cover;
  max_cover = spec.max_cover;
  min_age = spec.min_age;
  max_age = spec.max_age;
  currency = currency;
}

-- `ProductType.objects.update_or_create(code=…)`, with the key of the row.
unfoldable pub put_product : String → Spec → Catalogue → Catalogue × ℕ
put_product currency spec c =
    elim (find (λ (p : ProductType). str_eq p.code spec.code) c.products) [
      | some p ↦ (
        record c {
          products =
              update (λ (q : ProductType). str_eq q.code spec.code) (product_columns spec)
                c.products;
        },
        p.id,
      )
      | none ↦ (
        record c {
          products = c.products ++ (new_product currency spec c.next_product ∷ []);
          next_product = suc c.next_product;
        },
        c.next_product,
      )
    ]

-- `product=…, age_band_min=…, age_band_max=…, valid_from=SEED_FROM`
abbrev pub is_band : ℕ → Band → RatingRule → Bool
is_band product_id b r =
    r.product_id == product_id
    && r.age_band_min == b.low
    && r.age_band_max == b.high
    && date_leb r.valid_from seed_from
    && date_leb seed_from r.valid_from

abbrev pub seeded_rule : ℕ → Band → ℕ → RatingRule
seeded_rule product_id b id = record {
  id = id;
  product_id = product_id;
  age_band_min = b.low;
  age_band_max = b.high;
  rate_per_1000_cover = b.rate;
  loading_factor = pos 10_000;
  min_premium = b.floor;
  valid_from = seed_from;
  valid_to = none;
  is_active = true;
}

-- `RatingRule.objects.update_or_create(…)`
unfoldable pub put_rule : ℕ → Band → Catalogue → Catalogue
put_rule product_id b c = elim (find (is_band product_id b) c.rules) [
  | some r ↦ record c {
    rules = update (is_band product_id b) (λ row. seeded_rule product_id b row.id) c.rules;
  }
  | none ↦ record c {
    rules = c.rules ++ (seeded_rule product_id b c.next_rule ∷ []);
    next_rule = suc c.next_rule;
  }
]

unfoldable pub put_rules : ℕ → List Band → Catalogue → Catalogue
unfolding put_rule
put_rules product_id [] c = c
put_rules product_id (b ∷ bands) c = put_rules product_id bands (put_rule product_id b c)

unfoldable pub seed_specs : String → List Spec → Catalogue → Catalogue
unfolding put_product put_rules
seed_specs currency [] c = c
seed_specs currency (spec ∷ specs) c =
    let (c', id) = put_product currency spec c in
    seed_specs currency specs (put_rules id spec.bands c')

-- `seed`
unfoldable pub seed : String → Catalogue → Catalogue
unfolding seed_specs
seed currency c = seed_specs currency specs c

abbrev pub empty : Catalogue
empty = record { products = []; rules = []; next_product = 1; next_rule = 1 }

abbrev pub fresh : String → Catalogue
fresh currency = seed currency empty

pub seeded_products :
    (currency : String)
    → (fresh currency).products
      ≡ new_product currency personal_accident 1 ∷ new_product currency travel 2 ∷ []
unfolding seed seed_specs put_product put_rules put_rule date_leb
seeded_products currency = refl

abbrev pub all_rules : List RatingRule
all_rules =
    seeded_rule 1 (band 18 25 (pos 13_000) (pos 5_000)) 1
    ∷ seeded_rule 1 (band 26 30 (pos 11_500) (pos 5_000)) 2
    ∷ seeded_rule 1 (band 31 40 (pos 10_000) (pos 5_000)) 3
    ∷ seeded_rule 1 (band 41 50 (pos 14_000) (pos 5_000)) 4
    ∷ seeded_rule 1 (band 51 60 (pos 20_000) (pos 5_000)) 5
    ∷ seeded_rule 1 (band 61 70 (pos 31_000) (pos 5_000)) 6
    ∷ seeded_rule 2 (band 18 40 (pos 6_000) (pos 2_500)) 7
    ∷ seeded_rule 2 (band 41 65 (pos 9_500) (pos 2_500)) 8
    ∷ []

pub seeded_rules : (currency : String) → (fresh currency).rules ≡ all_rules
unfolding seed seed_specs put_product put_rules put_rule date_leb
seeded_rules currency = refl
