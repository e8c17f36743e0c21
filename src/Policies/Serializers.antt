-- ===== src/Policies/Serializers.antt =====
-- apps/policies/serializers.py and apps/common/serializers.py: the strict inputs of the quote
-- endpoints. What a DRF field accepts is a parameter; the loop over the fields is DRF's: every
-- field is read, and the names of those that fail are raised together.
use democrance_insurance_api.Prelude.{
  ℤ, pos, eqb_ℤ, Bool, not, Option, none, some, String, List, [], ◌∷◌, ◌++◌, any, find, filter, map,
  str_eq, if◌then◌else◌,
}
use democrance_insurance_api.Customers.{Customer}
use democrance_insurance_api.Products.{ProductType}
use democrance_insurance_api.Common.Errors.{
  invalid, unknown_fields, bad_fields, expected_object, missing, customer_id, product_type,
}
use democrance_insurance_api.Database.{Db, Action, ◌>>=◌, ◌>>◌, pure, raise, gets, or_raise}

-- A parsed JSON value, as far as the handlers look into it.
pub data Json : Type 0 where
  null : Json
  bool : Bool → Json
  int : ℤ → Json
  str : String → Json
  -- anything else, and whether it counts as true: a list or an object that is not empty does
  other : Bool → Json

-- `request.data` when it is a `dict`, in the order of the body.
abbrev pub Dict : Type 0
Dict = List (String × Json)

-- `request.data`
pub data Body : Type 0 where
  dict : Dict → Body
  not_dict : Body

abbrev pub has_key : String → Dict → Bool
has_key key payload = any (λ e. str_eq e.0 key) payload

-- `data.get(key)`
abbrev pub lookup : String → Dict → Option Json
lookup key [] = none
lookup key ((k, v) ∷ payload) = if str_eq k key then some v else lookup key payload

-- What the DRF fields accept: IntegerField, SlugField, DecimalField(12, 2), and a ChoiceField
-- over the given texts.
pub record Fields : Type 0 where
  pub integer : Json → Option ℤ
  pub slug : Json → Option String
  pub decimal : Json → Option ℤ
  pub choice : List String → Json → Option String

-- `StrictFieldsMixin.to_internal_value`: the keys that are no field.
abbrev pub unknown_keys : List String → Dict → List String
unknown_keys fields payload =
    filter (λ key. not (any (λ f. str_eq f key) fields)) (map (λ e. e.0) payload)

-- The error names every such key; the source sorts them, here they keep the order of the body.
abbrev pub reject_unknown : List String → Action (Unit {0})
reject_unknown [] = pure tt
reject_unknown (key ∷ keys) = raise (invalid (unknown_fields (key ∷ keys)))

module _ {A : Type 0} where
  -- A field that is required: missing and unreadable fail alike.
  abbrev pub required : (Json → Option A) → Option Json → Option A
  required read none = none
  required read (some v) = read v

  -- A field with `required=False`: outer `none` is a failure, inner `none` is absence.
  abbrev pub optional : (Json → Option A) → Option Json → Option (Option A)
  optional read none = some none
  optional read (some v) = elim (read v) [ none ↦ none | some a ↦ some (some a) ]

  -- The name of a field that failed.
  abbrev pub failed : String → Option A → List String
  failed name none = name ∷ []
  failed name (some a) = []

abbrev pub create_fields : List String
create_fields = "customer_id" ∷ "type" ∷ "cover" ∷ []

abbrev pub transition_fields : List String
transition_fields = "quote_id" ∷ "status" ∷ "payment_method" ∷ []

pub record CreateInput : Type 0 where
  pub customer : Customer
  pub product : ProductType
  pub cover : Option ℤ

pub record TransitionInput : Type 0 where
  pub quote_id : ℤ
  pub status : String
  pub payment_method : Option String

-- `Customer.objects.get(pk=…)` and `ProductType.objects.get(code=…)`
abbrev pub customer_by_key : ℤ → Db → Option Customer
customer_by_key key db = find (λ c. eqb_ℤ (pos c.id) key) db.customers

abbrev pub product_by_code : String → Db → Option ProductType
product_by_code code db = find (λ p. str_eq p.code code) db.products

module _ (fields : Fields) where
  -- The fields of a create payload that were read, or the names of those that failed.
  abbrev pub read_create :
      Option ℤ → Option String → Option (Option ℤ) → Action (ℤ × String × Option ℤ)
  read_create (some id) (some code) (some cover) = pure (id, code, cover)
  read_create id code cover =
      raise (
        invalid
          (bad_fields (failed "customer_id" id ++ failed "type" code ++ failed "cover" cover)))

  -- The part of `QuoteCreateSerializer` after the check of the keys: the fields, then `validate`.
  unfoldable pub create_input : Dict → Action CreateInput
  create_input payload = do
    (id, code, cover) ←
        read_create (required fields.integer (lookup "customer_id" payload))
          (required fields.slug (lookup "type" payload))
          (optional fields.decimal (lookup "cover" payload))
    found ← gets (customer_by_key id)
    customer ← or_raise found (missing (customer_id id))
    sold ← gets (product_by_code code)
    product ← or_raise sold (missing (product_type code))
    pure (record { customer = customer; product = product; cover = cover })

  -- `QuoteCreateSerializer`, run to `validated_data`.
  unfoldable pub validate_create : Body → Action CreateInput
  validate_create not_dict = raise (invalid expected_object)
  validate_create (dict payload) =
      reject_unknown (unknown_keys create_fields payload) >> create_input payload

  abbrev pub read_transition :
      Option ℤ → Option String → Option (Option String) → Action TransitionInput
  read_transition (some id) (some status) (some method) =
      pure (record { quote_id = id; status = status; payment_method = method })
  read_transition id status method = raise (
      invalid (
        bad_fields
          (failed "quote_id" id ++ failed "status" status ++ failed "payment_method" method)))

  unfoldable pub transition_input : Dict → Action TransitionInput
  transition_input payload =
      read_transition (required fields.integer (lookup "quote_id" payload))
        (required (fields.choice ("accepted" ∷ "active" ∷ [])) (lookup "status" payload))
        (optional (fields.choice ("simulated_card" ∷ "invoice" ∷ []))
          (lookup "payment_method" payload))

  -- `QuoteTransitionSerializer`, run to `validated_data`.
  unfoldable pub validate_transition : Body → Action TransitionInput
  validate_transition not_dict = raise (invalid expected_object)
  validate_transition (dict payload) =
      reject_unknown (unknown_keys transition_fields payload) >> transition_input payload
