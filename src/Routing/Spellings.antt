-- ===== src/Routing/Spellings.antt =====
-- Both spellings of a path, with and without the last slash, reach the same view.
use democrance_insurance_api.Prelude.{
  ℕ, ◌≡◌, refl, ap, false, Option, none, String, List, [], ◌∷◌, ◌++◌, All, map, str_eq,
  if◌then◌else◌, arith,
}
use democrance_insurance_api.Routing.{
  Part, fixed, pk, create_customer_view, customers_view, dispatch_view, collection_view,
  accept_view, pay_view, policy_list_view, policy_history_view, policy_detail_view, search_view,
  Route, public_routes, api_routes, login_view, refresh_view, verify_view, logout_view, me_view,
  drop_slashless_paths, with_pk, matches, or_next, resolve,
}

-- The last slash.
abbrev pub slashed : List String → List String
slashed path = path ++ ("" ∷ [])

abbrev slash_part : List Part → List Part
slash_part parts = parts ++ (fixed "" ∷ [])

-- A table with both spellings of each stem.
abbrev twins : List Route → List Route
twins [] = []
twins ((parts, view) ∷ stems) = (slash_part parts, view) ∷ (parts, view) ∷ twins stems

-- The stems of the three tables.
abbrev stems : List Route
stems =
    (fixed "create_customer" ∷ [], create_customer_view)
    ∷ (fixed "customers" ∷ [], customers_view)
    ∷ (fixed "quote" ∷ [], dispatch_view)
    ∷ (fixed "quotes" ∷ [], collection_view)
    ∷ (fixed "quotes" ∷ pk ∷ fixed "accept" ∷ [], accept_view)
    ∷ (fixed "quotes" ∷ pk ∷ fixed "pay" ∷ [], pay_view)
    ∷ (fixed "policies" ∷ [], policy_list_view)
    ∷ (fixed "policies" ∷ pk ∷ fixed "history" ∷ [], policy_history_view)
    ∷ (fixed "policies" ∷ pk ∷ [], policy_detail_view)
    ∷ (fixed "search" ∷ [], search_view)
    ∷ []

public_routes-twins : public_routes ≡ twins stems
unfolding public_routes
public_routes-twins = refl

drop_slashless-public :
    drop_slashless_paths public_routes ≡ map (λ (r : Route). (slash_part r.0, r.1)) stems
unfolding public_routes
drop_slashless-public = refl

abbrev account_stems : List Route
account_stems =
    (fixed "auth" ∷ fixed "token" ∷ [], login_view)
    ∷ (fixed "auth" ∷ fixed "token" ∷ fixed "refresh" ∷ [], refresh_view)
    ∷ (fixed "auth" ∷ fixed "token" ∷ fixed "verify" ∷ [], verify_view)
    ∷ (fixed "auth" ∷ fixed "logout" ∷ [], logout_view)
    ∷ (fixed "auth" ∷ fixed "me" ∷ [], me_view)
    ∷ []

api_routes-eq :
    api_routes ≡ map (λ (r : Route). (slash_part r.0, r.1)) account_stems ++ public_routes
unfolding api_routes
api_routes-eq = refl

-- No empty segment.
abbrev pub IsPlain : List String → Type 0
IsPlain path = All (λ s. str_eq "" s ≡ false) path

abbrev IsNamed : Part → Type 0
IsNamed (fixed t) = str_eq t "" ≡ false
IsNamed pk = Unit

module _ (int_of : String → Option ℕ) (no_digits : int_of "" ≡ none) where
  matches-slash_part :
      (parts : List Part) (path : List String)
      → All IsNamed parts
      → IsPlain path
      → matches int_of (slash_part parts) (slashed path) ≡ matches int_of parts path
  unfolding matches
  matches-slash_part [] [] named plain = refl
  matches-slash_part [] (s ∷ path) named plain = rw plain.0 refl
  matches-slash_part (fixed t ∷ parts) [] named plain = rw named.0 refl
  matches-slash_part (pk ∷ parts) [] named plain = rw no_digits refl
  matches-slash_part (fixed t ∷ parts) (s ∷ path) named plain =
      ap (λ z. if str_eq t s then z else none) (matches-slash_part parts path named.1 plain.1)
  matches-slash_part (pk ∷ parts) (s ∷ path) named plain =
      ap (with_pk int_of (int_of s)) (matches-slash_part parts path named.1 plain.1)

  -- A pattern with the slash does not match a path without it.
  matches-slash_part-none :
      (parts : List Part) (path : List String)
      → IsPlain path
      → matches int_of (slash_part parts) path ≡ none
  unfolding matches
  matches-slash_part-none [] [] plain = refl
  matches-slash_part-none [] (s ∷ path) plain = rw plain.0 refl
  matches-slash_part-none (part ∷ parts) [] plain = refl
  matches-slash_part-none (fixed t ∷ parts) (s ∷ path) plain =
      ground (arith, matches-slash_part-none parts path plain.1)
  matches-slash_part-none (pk ∷ parts) (s ∷ path) plain =
      ground (arith, matches-slash_part-none parts path plain.1)

  -- And the other way round.
  matches-slashed-none :
      (parts : List Part) (path : List String)
      → All IsNamed parts
      → matches int_of parts (slashed path) ≡ none
  unfolding matches
  matches-slashed-none [] [] named = refl
  matches-slashed-none [] (s ∷ path) named = refl
  matches-slashed-none (fixed t ∷ parts) [] named = rw named.0 refl
  matches-slashed-none (pk ∷ parts) [] named = rw no_digits refl
  matches-slashed-none (fixed t ∷ parts) (s ∷ path) named =
      ground (arith, matches-slashed-none parts path named.1)
  matches-slashed-none (pk ∷ parts) (s ∷ path) named =
      ground (arith, matches-slashed-none parts path named.1)

  resolve-twins :
      (routes : List Route) (path : List String)
      → All (λ (r : Route). All IsNamed r.0) routes
      → IsPlain path
      → resolve int_of (twins routes) path ≡ resolve int_of (twins routes) (slashed path)
  unfolding resolve
  resolve-twins [] path named plain = refl
  resolve-twins ((parts, view) ∷ routes) path named plain =
      rw
        (
          matches-slash_part-none parts path plain,
          matches-slash_part parts path named.0 plain,
          matches-slashed-none parts path named.0,
        )
        (ap (or_next int_of view (matches int_of parts path))
          (resolve-twins routes path named.1 plain))

  -- The canonical routes alone.
  resolve-canonical :
      (routes : List Route) (path : List String)
      → All (λ (r : Route). All IsNamed r.0) routes
      → resolve int_of (map (λ (r : Route). (slash_part r.0, r.1)) routes) (slashed path)
        ≡ resolve int_of (twins routes) (slashed path)
  unfolding resolve
  resolve-canonical [] path named = refl
  resolve-canonical ((parts, view) ∷ routes) path named =
      rw (matches-slashed-none parts path named.0) (
        ap (or_next int_of view (matches int_of (slash_part parts) (slashed path)))
          (resolve-canonical routes path named.1))

  stems-IsNamed : All (λ (r : Route). All IsNamed r.0) stems
  stems-IsNamed = (
    (refl, tt),
    (
      (refl, tt),
      (
        (refl, tt),
        (
          (refl, tt),
          (
            (refl, (tt, (refl, tt))),
            (
              (refl, (tt, (refl, tt))),
              ((refl, tt), ((refl, (tt, (refl, tt))), ((refl, (tt, tt)), ((refl, tt), tt)))),
            ),
          ),
        ),
      ),
    ),
  )

  -- Routes that all end with a slash do not see a path without one.
  resolve-slash_only :
      (routes rest : List Route) (path : List String)
      → IsPlain path
      → resolve int_of (map (λ (r : Route). (slash_part r.0, r.1)) routes ++ rest) path
        ≡ resolve int_of rest path
  unfolding resolve
  resolve-slash_only [] rest path plain = refl
  resolve-slash_only ((parts, view) ∷ routes) rest path plain =
      rw (matches-slash_part-none parts path plain) (resolve-slash_only routes rest path plain)

  -- Provided that the empty text is no integer, a path without an empty segment reaches the same
  -- view with the same arguments with and without a last slash, in the tables of customers,
  -- policies and search; the routes that the schema keeps answer the slash spelling alike; and a
  -- path without the slash never reaches the account routes.
  pub resolve-slashed :
      (path : List String)
      → IsPlain path
      → (resolve int_of public_routes path ≡ resolve int_of public_routes (slashed path))
        × (resolve int_of (drop_slashless_paths public_routes) (slashed path)
            ≡ resolve int_of public_routes (slashed path))
        × (resolve int_of api_routes path ≡ resolve int_of public_routes path)
  resolve-slashed path plain = (
    rw public_routes-twins (resolve-twins stems path stems-IsNamed plain),
    rw drop_slashless-public (rw public_routes-twins (resolve-canonical stems path stems-IsNamed)),
    rw api_routes-eq (resolve-slash_only account_stems public_routes path plain),
  )
