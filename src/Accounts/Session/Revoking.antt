-- ===== src/Accounts/Session/Revoking.antt =====
-- What logging out through apps/accounts/views.py leaves, and whom `/auth/me/` names.
use democrance_insurance_api.Prelude.{
  ℕ, List, find, sym, ◌∙◌, ◌≡◌, ap, Option, none, some, In, find-In, Option-cases, inl, inr, arith,
}
use democrance_insurance_api.Customers.{Customer}
use democrance_insurance_api.Accounts.{User, linked_to, scope_customers}
use democrance_insurance_api.Accounts.Scoping.{In-scope_customers, linked_to_iff}
use democrance_insurance_api.Policies.Serializers.{Json, Body}
use democrance_insurance_api.Common.Errors.{invalid, refresh_invalid}
use democrance_insurance_api.Database.{World, ok, err}
use democrance_insurance_api.Accounts.Session.{
  Tokens, Me, given_refresh, log_out, logout, profile_id, get_customer_id, me,
}

module _ {T S : Type 0} (tokens : Tokens T S)
    (revoked : (s : S) (raw : Json) (token : T)
      → tokens.refresh_token s raw ≡ some token
      → tokens.refresh_token (tokens.blacklist token s) raw ≡ none) where
  log_out-twice :
      (raw : Option Json) (s : S)
      → (log_out tokens raw s).0 ≡ ok tt
      → log_out tokens raw (log_out tokens raw s).1
        ≡ (err (invalid refresh_invalid), (log_out tokens raw s).1)
  log_out-twice none s done = cc
  log_out-twice (some raw) s done = elim (Option-cases (tokens.refresh_token s raw)) [
    | inl bad ↦ absurd (never raw s bad done)
    | inr (token, good) ↦ ground (arith, good, revoked s raw token good, done)
  ]
    where
      never :
          (raw : Json) (s : S)
          → tokens.refresh_token s raw ≡ none
          → ¬ ((log_out tokens (some raw) s).0 ≡ ok tt)
      never raw s bad h = ground (arith, bad, h)

  -- Provided that a token that is blacklisted is not taken any more, after a logout that went
  -- through, a second one with the same body, by any login, is refused as an invalid refresh token
  -- and changes nothing.
  pub logout-revokes :
      (body : Body) (user other : User) (s : S)
      → (logout tokens body (some user) s).0 ≡ ok tt
      → logout tokens body (some other) (logout tokens body (some user) s).1
        ≡ (err (invalid refresh_invalid), (logout tokens body (some user) s).1)
  unfolding logout
  logout-revokes body user other s done = log_out-twice (given_refresh body) s done

profile_found :
    (user : User) (customers : List Customer) (id : ℕ)
    → get_customer_id user customers ≡ some id
    → (x : Customer) × (x.id ≡ id) × (x.user ≡ some user.id) × In x customers
profile_found user customers id e =
    elim (Option-cases (find (λ (c : Customer). linked_to user c.user) customers)) [
      | inl missing ↦ absurd (no_profile missing)
      | inr (x, at) ↦
          let row = find-In (λ (c : Customer). linked_to user c.user) x customers at in
          let same : some x.id ≡ some id = sym (ap profile_id at) ∙ e in
          (x, cc, (linked_to_iff user x.user).0 row.1, row.0)
    ]
  where
    no_profile : ¬ (find (λ (c : Customer). linked_to user c.user) customers ≡ none)
    no_profile missing = cc (ap profile_id missing, e)

-- The customer that a login is told to be is one that it may see.
pub me_scoped :
    (user : User) (w : World) (m : Me) (id : ℕ)
    → (me (some user) w).0 ≡ ok m
    → m.customer_id ≡ some id
    → (x : Customer) × (x.id ≡ id)
      × (x.user ≡ some user.id)
      × In x (scope_customers w.db.customers (some user))
unfolding me
me_scoped user w m id e is =
    let own : get_customer_id user w.db.customers ≡ some id = cc in
    let (x, key, link, listed) = profile_found user w.db.customers id own in
    (x, key, link, (In-scope_customers w.db.customers (some user) x).1 (listed, inr link))
