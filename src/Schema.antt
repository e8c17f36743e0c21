-- ===== src/Schema.antt =====
-- The tables that the migrations of apps/accounts, apps/customers, apps/products, apps/policies and
-- apps/payments create, and what NOT NULL and UNIQUE ask of their rows.
pub mod Tables
pub mod Cells
pub mod Distinct
use democrance_insurance_api.Prelude.{
  ℕ, ◌≡◌, Bool, true, false, not, String, List, [], ◌∷◌, All, In, filter, str_eq, ◌==◌,
}

pub data OnDelete : Type 0 where
  cascade protect set_null : OnDelete

-- The class of a field.
pub data Kind : Type 0 where
  big_auto datetime date uuid boolean text slug email json small_integer : Kind
  char : ℕ → Kind
  -- `max_digits` and `decimal_places`
  decimal : ℕ → ℕ → Kind
  foreign_key one_to_one : String → OnDelete → Kind

pub record Column : Type 0 where
  pub name : String
  pub kind : Kind
  pub nullable : Bool
  pub is_unique : Bool

-- What a row holds in a column. Values that no constraint compares are `other`.
pub data Cell : Type 0 where
  null other : Cell
  number : ℕ → Cell
  word : String → Cell

abbrev pub is_null : Cell → Bool
is_null null = true
is_null _ = false

-- SQL's `=`: NULL equals nothing.
abbrev pub same : Cell → Cell → Bool
same (number a) (number b) = a == b
same (word a) (word b) = str_eq a b
same _ _ = false

-- UNIQUE
abbrev pub IsDistinct : {A : Type 0} → (A → Cell) → List A → Type 0
IsDistinct cell [] = Unit
IsDistinct cell (x ∷ xs) = All (λ y. same (cell y) (cell x) ≡ false) xs × IsDistinct cell xs

abbrev pub required : List Column → List Column
required columns = filter (λ c. not c.nullable) columns

abbrev pub unique_columns : List Column → List Column
unique_columns columns = filter (λ c. c.is_unique) columns

-- The rows that a table takes: a value where one is required, and no value twice where that is
-- forbidden.
pub record IsConforming {A : Type 0} (columns : List Column) (cell : A → String → Cell)
    (rows : List A) : Type 0 where
  pub filled :
      (r : A) → In r rows → All (λ (c : Column). is_null (cell r c.name) ≡ false) (required columns)
  pub distinct : All (λ (c : Column). IsDistinct (λ r. cell r c.name) rows) (unique_columns columns)
