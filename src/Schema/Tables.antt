-- ===== src/Schema/Tables.antt =====
-- The `fields` of the first migration of each app. The two many-to-many fields of `User` have tables
-- of their own and are left out.
use democrance_insurance_api.Prelude.{true, false, String, List, [], ◌∷◌}
use democrance_insurance_api.Schema.{
  cascade, protect, set_null, Kind, big_auto, datetime, date, uuid, boolean, text, slug, email,
  json, small_integer, char, decimal, foreign_key, one_to_one, Column,
}

-- A column that holds a value in every row.
abbrev column : String → Kind → Column
column name kind = record { name = name; kind = kind; nullable = false; is_unique = false }

-- `unique=True`, `primary_key=True`, and a one-to-one field.
abbrev unique_column : String → Kind → Column
unique_column name kind = record (column name kind) { is_unique = true }

-- `null=True`
abbrev optional : Column → Column
optional c = record c { nullable = true }

-- `User`
abbrev pub user_table : List Column
user_table =
    unique_column "id" big_auto
    ∷ column "password" (char 128)
    ∷ optional (column "last_login" datetime)
    ∷ column "is_superuser" boolean
    ∷ unique_column "email" email
    ∷ column "role" (char 20)
    ∷ column "first_name" (char 100)
    ∷ column "last_name" (char 100)
    ∷ column "is_active" boolean
    ∷ column "is_staff" boolean
    ∷ column "date_joined" datetime
    ∷ []

-- `Customer`
abbrev pub customer_table : List Column
customer_table =
    unique_column "id" big_auto
    ∷ column "created_at" datetime
    ∷ column "updated_at" datetime
    ∷ unique_column "reference" uuid
    ∷ column "first_name" (char 100)
    ∷ column "last_name" (char 100)
    ∷ column "dob" date
    ∷ optional (unique_column "email" email)
    ∷ column "phone" (char 32)
    ∷ optional (unique_column "user_id" (one_to_one "accounts.user" set_null))
    ∷ []

-- `ProductType`
abbrev pub product_type_table : List Column
product_type_table =
    unique_column "id" big_auto
    ∷ column "created_at" datetime
    ∷ column "updated_at" datetime
    ∷ unique_column "code" slug
    ∷ column "name" (char 200)
    ∷ column "description" text
    ∷ column "is_active" boolean
    ∷ column "default_cover" (decimal 12 2)
    ∷ column "min_cover" (decimal 12 2)
    ∷ column "max_cover" (decimal 12 2)
    ∷ column "min_age" small_integer
    ∷ column "max_age" small_integer
    ∷ column "currency" (char 3)
    ∷ []

-- `RatingRule`
abbrev pub rating_rule_table : List Column
rating_rule_table =
    unique_column "id" big_auto
    ∷ column "created_at" datetime
    ∷ column "updated_at" datetime
    ∷ column "age_band_min" small_integer
    ∷ column "age_band_max" small_integer
    ∷ column "rate_per_1000_cover" (decimal 6 4)
    ∷ column "loading_factor" (decimal 5 4)
    ∷ column "min_premium" (decimal 10 2)
    ∷ column "valid_from" date
    ∷ optional (column "valid_to" date)
    ∷ column "is_active" boolean
    ∷ column "product_id" (foreign_key "products.producttype" cascade)
    ∷ []

-- `Policy`
abbrev pub policy_table : List Column
policy_table =
    unique_column "id" big_auto
    ∷ column "created_at" datetime
    ∷ column "updated_at" datetime
    ∷ unique_column "quote_reference" (char 32)
    ∷ optional (column "premium" (decimal 10 2))
    ∷ column "cover" (decimal 12 2)
    ∷ column "currency" (char 3)
    ∷ column "state" (char 20)
    ∷ optional (column "rated_age" small_integer)
    ∷ optional (column "rated_at" datetime)
    ∷ optional (column "quoted_at" datetime)
    ∷ optional (column "accepted_at" datetime)
    ∷ optional (column "activated_at" datetime)
    ∷ optional (column "quote_expires_at" datetime)
    ∷ optional (column "created_by_id" (foreign_key "accounts.user" set_null))
    ∷ column "customer_id" (foreign_key "customers.customer" protect)
    ∷ column "product_id" (foreign_key "products.producttype" protect)
    ∷ optional (column "rating_rule_id" (foreign_key "products.ratingrule" set_null))
    ∷ []

-- `PolicyStateTransition`
abbrev pub policy_state_transition_table : List Column
policy_state_transition_table =
    unique_column "id" big_auto
    ∷ column "created_at" datetime
    ∷ column "updated_at" datetime
    ∷ optional (column "from_state" (char 20))
    ∷ column "to_state" (char 20)
    ∷ column "source" (char 10)
    ∷ column "reason" (char 255)
    ∷ column "metadata" json
    ∷ optional (column "actor_id" (foreign_key "accounts.user" set_null))
    ∷ column "policy_id" (foreign_key "policies.policy" cascade)
    ∷ []

-- `Payment`
abbrev pub payment_table : List Column
payment_table =
    unique_column "id" big_auto
    ∷ column "created_at" datetime
    ∷ column "updated_at" datetime
    ∷ unique_column "reference" uuid
    ∷ column "amount" (decimal 12 2)
    ∷ column "currency" (char 3)
    ∷ column "method" (char 20)
    ∷ column "status" (char 20)
    ∷ optional (unique_column "idempotency_key" (char 255))
    ∷ column "provider_payload" json
    ∷ optional (column "settled_at" datetime)
    ∷ column "policy_id" (foreign_key "policies.policy" protect)
    ∷ []
