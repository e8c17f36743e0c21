-- ===== src/Search/Names.antt =====
-- The list of customers of apps/customers/views.py, in its default order.
use democrance_insurance_api.Prelude.{
  ◌≡◌, ◌↔◌, Bool, true, false, String, In, In-filter, In-sort_by, IsSorted, sort_by-IsSorted,
  filter, arith,
}
use democrance_insurance_api.Accounts.{Principal, scope_customers}
use democrance_insurance_api.Accounts.Scoping.{MaySee, In-scope_customers}
use democrance_insurance_api.Customers.{Customer}
use democrance_insurance_api.Database.{Db}
use democrance_insurance_api.Search.{
  CustomerFilter, is_chosen, named_before, filter_customers, list_customers,
}

module _ (text_leb : String → String → Bool)
    (text_total : (a b : String) → text_leb a b ≡ false → text_leb b a ≡ true)
    (text_trans : (a b c : String)
      → text_leb a b ≡ true
      → text_leb b c ≡ true
      → text_leb a c ≡ true) where
  named_total :
      (c d : Customer) → named_before text_leb c d ≡ false → named_before text_leb d c ≡ true
  named_total c d h =
      let last = text_total c.last_name d.last_name in
      let first = text_total c.first_name d.first_name in ground (arith, last, first)

  named_trans :
      (c d e : Customer)
      → named_before text_leb c d ≡ true
      → named_before text_leb d e ≡ true
      → named_before text_leb c e ≡ true
  named_trans c d e h k =
      let last = text_trans c.last_name d.last_name e.last_name in
      let last_back = text_trans e.last_name c.last_name d.last_name in
      let last_there = text_trans d.last_name e.last_name c.last_name in
      let first = text_trans c.first_name d.first_name e.first_name in
      let first_back = text_trans e.first_name c.first_name d.first_name in
      let first_there = text_trans d.first_name e.first_name c.first_name in
      ground (arith, last, last_back, last_there, first, first_back, first_there)

  -- For a total and transitive order of texts, the list of customers comes by last name, first
  -- name and key, and it holds exactly the customers that the principal may see and that every
  -- given filter accepts.
  pub list_customers-IsSorted :
      (icontains : String → String → Bool) (f : CustomerFilter) (db : Db) (who : Principal)
      → IsSorted (named_before text_leb) (list_customers icontains text_leb f db who)
        × ((c : Customer)
            → In c (list_customers icontains text_leb f db who)
              ↔ (In c db.customers × MaySee who c.user × (is_chosen icontains f db c ≡ true)))
  unfolding list_customers filter_customers
  list_customers-IsSorted icontains f db who = (
    sort_by-IsSorted (named_before text_leb) named_total named_trans _,
    λ c.
        let rows = scope_customers db.customers who in
        let listed =
          In-sort_by (named_before text_leb) c (filter (is_chosen icontains f db) rows) in
        let kept = In-filter (is_chosen icontains f db) c rows in
        let seen = In-scope_customers db.customers who c in ground (arith, listed, kept, seen),
  )
