-- ===== src/Routing.antt =====
-- The urls.py files of config/ and apps/, and apps/common/schema.py. A path is the list of its
-- segments, the last one empty where the path ends with a slash. The converter `int` of Django is
-- a parameter.
pub mod Spellings
use democrance_insurance_api.Prelude.{
  ℕ, Bool, true, false, Option, none, some, String, List, [], ◌∷◌, ◌++◌, filter, str_eq,
  if◌then◌else◌,
}

-- A segment of a pattern: a fixed text, or `<int:pk>`.
pub data Part : Type 0 where
  fixed : String → Part
  pk : Part

-- The views of the API.
pub data Endpoint : Type 0 where
  login_view refresh_view verify_view logout_view me_view : Endpoint
  create_customer_view customers_view : Endpoint
  dispatch_view collection_view accept_view pay_view policy_list_view policy_history_view
        policy_detail_view :
      Endpoint
  search_view : Endpoint

-- `path(pattern, view)`
abbrev pub Route : Type 0
Route = List Part × Endpoint

abbrev pub account_routes : List Route
account_routes =
    (fixed "auth" ∷ fixed "token" ∷ fixed "" ∷ [], login_view)
    ∷ (fixed "auth" ∷ fixed "token" ∷ fixed "refresh" ∷ fixed "" ∷ [], refresh_view)
    ∷ (fixed "auth" ∷ fixed "token" ∷ fixed "verify" ∷ fixed "" ∷ [], verify_view)
    ∷ (fixed "auth" ∷ fixed "logout" ∷ fixed "" ∷ [], logout_view)
    ∷ (fixed "auth" ∷ fixed "me" ∷ fixed "" ∷ [], me_view)
    ∷ []

abbrev pub customer_routes : List Route
customer_routes =
    (fixed "create_customer" ∷ fixed "" ∷ [], create_customer_view)
    ∷ (fixed "create_customer" ∷ [], create_customer_view)
    ∷ (fixed "customers" ∷ fixed "" ∷ [], customers_view)
    ∷ (fixed "customers" ∷ [], customers_view)
    ∷ []

abbrev pub policy_routes : List Route
policy_routes =
    (fixed "quote" ∷ fixed "" ∷ [], dispatch_view)
    ∷ (fixed "quote" ∷ [], dispatch_view)
    ∷ (fixed "quotes" ∷ fixed "" ∷ [], collection_view)
    ∷ (fixed "quotes" ∷ [], collection_view)
    ∷ (fixed "quotes" ∷ pk ∷ fixed "accept" ∷ fixed "" ∷ [], accept_view)
    ∷ (fixed "quotes" ∷ pk ∷ fixed "accept" ∷ [], accept_view)
    ∷ (fixed "quotes" ∷ pk ∷ fixed "pay" ∷ fixed "" ∷ [], pay_view)
    ∷ (fixed "quotes" ∷ pk ∷ fixed "pay" ∷ [], pay_view)
    ∷ (fixed "policies" ∷ fixed "" ∷ [], policy_list_view)
    ∷ (fixed "policies" ∷ [], policy_list_view)
    ∷ (fixed "policies" ∷ pk ∷ fixed "history" ∷ fixed "" ∷ [], policy_history_view)
    ∷ (fixed "policies" ∷ pk ∷ fixed "history" ∷ [], policy_history_view)
    ∷ (fixed "policies" ∷ pk ∷ fixed "" ∷ [], policy_detail_view)
    ∷ (fixed "policies" ∷ pk ∷ [], policy_detail_view)
    ∷ []

abbrev pub search_routes : List Route
search_routes =
    (fixed "search" ∷ fixed "" ∷ [], search_view) ∷ (fixed "search" ∷ [], search_view) ∷ []

-- The three tables with both spellings, in the order in which config/urls.py includes them.
unfoldable pub public_routes : List Route
public_routes = customer_routes ++ (policy_routes ++ search_routes)

-- What config/urls.py has under "api/v1/".
unfoldable pub api_routes : List Route
unfolding public_routes
api_routes = account_routes ++ public_routes

-- `endpoint[0].endswith("/")`
abbrev pub ends_with_slash : List Part → Bool
ends_with_slash [] = false
ends_with_slash (fixed t ∷ []) = str_eq t ""
ends_with_slash (pk ∷ []) = false
ends_with_slash (part ∷ more ∷ parts) = ends_with_slash (more ∷ parts)

-- `drop_slashless_paths`
abbrev pub drop_slashless_paths : List Route → List Route
drop_slashless_paths endpoints = filter (λ (r : Route). ends_with_slash r.0) endpoints

module _ (int_of : String → Option ℕ) where
  abbrev pub with_pk : Option ℕ → Option (List ℕ) → Option (List ℕ)
  with_pk none ids = none
  with_pk (some n) none = none
  with_pk (some n) (some ids) = some (n ∷ ids)

  -- The arguments that a pattern takes from a path, where it matches.
  unfoldable pub matches : List Part → List String → Option (List ℕ)
  matches [] [] = some []
  matches [] (s ∷ path) = none
  matches (part ∷ parts) [] = none
  matches (fixed t ∷ parts) (s ∷ path) = if str_eq t s then matches parts path else none
  matches (pk ∷ parts) (s ∷ path) = with_pk (int_of s) (matches parts path)

  abbrev pub or_next :
      Endpoint → Option (List ℕ) → Option (Endpoint × List ℕ) → Option (Endpoint × List ℕ)
  or_next view none rest = rest
  or_next view (some ids) rest = some (view, ids)

  -- The first route that matches.
  unfoldable pub resolve : List Route → List String → Option (Endpoint × List ℕ)
  resolve [] path = none
  resolve ((parts, view) ∷ routes) path = or_next view (matches parts path) (resolve routes path)
