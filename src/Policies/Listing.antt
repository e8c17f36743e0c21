-- ===== src/Policies/Listing.antt =====
-- apps/policies/views.py: the order of the list of policies, the default one and those that a
-- client may choose. Where a database puts NULL is a parameter.
use democrance_insurance_api.Prelude.{
  ℕ, ℤ, Bool, true, false, not, Option, none, some, String, List, [], ◌∷◌, leb, str_eq,
  if◌then◌else◌, leb_ℤ,
}
use democrance_insurance_api.Policies.Rows.{Policy}
use democrance_insurance_api.Policies.StateMachine.{State}
use democrance_insurance_api.Policies.Read.{listed_before}

-- `ordering_fields`
pub data Column : Type 0 where
  created_at premium state : Column

unfoldable pub column_of : String → Option Column
column_of name =
    if str_eq name "created_at"
    then some Column.created_at
    else if str_eq name "premium"
    then some Column.premium
    else if str_eq name "state"
    then some Column.state
    else none

-- The states by the alphabetical order of their texts.
abbrev pub state_rank : State → ℕ
state_rank State.accepted = 0
state_rank State.active = 1
state_rank State.cancelled = 2
state_rank State.declined = 3
state_rank State.expired = 4
state_rank State.new = 5
state_rank State.quoted = 6

abbrev pub premium_leb : Bool → Option ℤ → Option ℤ → Bool
premium_leb nulls_first none none = true
premium_leb nulls_first none (some b) = nulls_first
premium_leb nulls_first (some a) none = not nulls_first
premium_leb nulls_first (some a) (some b) = leb_ℤ a b

-- A column ascending: `p` is not after `q`.
abbrev pub column_leb : Bool → Column → Policy → Policy → Bool
column_leb nulls_first Column.created_at p q = leb p.created_at q.created_at
column_leb nulls_first Column.premium p q = premium_leb nulls_first p.premium q.premium
column_leb nulls_first Column.state p q = leb (state_rank p.state) (state_rank q.state)

-- A column with its direction: `true` is descending.
abbrev pub Term : Type 0
Term = Bool × Column

abbrev pub term_leb : Bool → Term → Policy → Policy → Bool
term_leb nulls_first (true, c) p q = column_leb nulls_first c q p
term_leb nulls_first (false, c) p q = column_leb nulls_first c p q

-- `ORDER BY` several terms.
unfoldable pub terms_leb : Bool → List Term → Policy → Policy → Bool
terms_leb nulls_first [] p q = true
terms_leb nulls_first (t ∷ ts) p q =
    let rest = terms_leb nulls_first ts p q in
    if term_leb nulls_first t p q
    then (if term_leb nulls_first t q p then rest else true)
    else false

abbrev pub term_of : Bool → Option Column → List Term → List Term
term_of descending none ts = ts
term_of descending (some c) ts = (descending, c) ∷ ts

-- The terms of `?ordering=` that `ordering_fields` allows.
unfoldable pub allowed_terms : List (Bool × String) → List Term
allowed_terms [] = []
allowed_terms ((descending, name) ∷ asked) =
    term_of descending (column_of name) (allowed_terms asked)

abbrev pub order_by : Bool → List Term → Policy → Policy → Bool
order_by nulls_first [] = listed_before
order_by nulls_first (t ∷ ts) = terms_leb nulls_first (t ∷ ts)

-- The order of the list: the terms that were asked for, or `ordering` when none is left.
abbrev pub list_order : Bool → List (Bool × String) → Policy → Policy → Bool
list_order nulls_first asked = order_by nulls_first (allowed_terms asked)
