-- ===== src/Accounts/Session.antt =====
-- apps/accounts/views.py and serializers.py: logging out and `/auth/me/`, and the liveness probe of
-- apps/common/views.py. The tokens of rest_framework_simplejwt are a parameter.
pub mod Revoking
use democrance_insurance_api.Prelude.{
  ℕ, pos, eqb_ℤ, Bool, true, false, not, Option, none, some, String, List, find, str_eq,
  if◌then◌else◌,
}
use democrance_insurance_api.Accounts.{User, Principal, Role, linked_to}
use democrance_insurance_api.Customers.{Customer}
use democrance_insurance_api.Policies.Serializers.{
  Json, null, bool, int, str, other, Body, dict, not_dict, lookup,
}
use democrance_insurance_api.Common.Errors.{
  Error, invalid, refresh_missing, refresh_invalid, not_authenticated,
}
use democrance_insurance_api.Database.{Action, ◌>>=◌, pure, raise, gets, Result, ok, err}

-- `RefreshToken(raw)`, `none` where it raises TokenError, and its method `blacklist`, on the
-- table of the tokens.
pub record Tokens (T S : Type 0) : Type 0 where
  pub refresh_token : S → Json → Option T
  pub blacklist : T → S → S

-- `bool(raw)`
abbrev pub is_true : Json → Bool
is_true null = false
is_true (bool b) = b
is_true (int n) = not (eqb_ℤ n (pos 0))
is_true (str s) = not (str_eq s "")
is_true (other b) = b

-- `request.data.get("refresh") if isinstance(request.data, dict) else None`
abbrev pub given_refresh : Body → Option Json
given_refresh not_dict = none
given_refresh (dict payload) = lookup "refresh" payload

module _ {T S : Type 0} (tokens : Tokens T S) where
  open tokens use {refresh_token, blacklist}

  abbrev pub revoke : Option T → S → Result (Unit {0}) × S
  revoke none s = (err (invalid refresh_invalid), s)
  revoke (some token) s = (ok tt, blacklist token s)

  abbrev pub log_out : Option Json → S → Result (Unit {0}) × S
  log_out none s = (err (invalid refresh_missing), s)
  log_out (some raw) s =
      if is_true raw then revoke (refresh_token s raw) s else (err (invalid refresh_missing), s)

  -- `LogoutView.post`, behind `IsAuthenticated`.
  unfoldable pub logout : Body → Principal → S → Result (Unit {0}) × S
  logout body none s = (err not_authenticated, s)
  logout body (some user) s = log_out (given_refresh body) s

-- `MeSerializer`
pub record Me : Type 0 where
  pub id : ℕ
  pub email : String
  pub role : Role
  pub customer_id : Option ℕ

abbrev pub profile_id : Option Customer → Option ℕ
profile_id none = none
profile_id (some c) = some c.id

-- `MeSerializer.get_customer_id`: the one customer that is linked to the login.
abbrev pub get_customer_id : User → List Customer → Option ℕ
get_customer_id user customers =
    profile_id (find (λ (c : Customer). linked_to user c.user) customers)

-- `MeView.get`, behind `IsAuthenticated`.
unfoldable pub me : Principal → Action Me
me none = raise not_authenticated
me (some user) = do
  customers ← gets (λ db. db.customers)
  pure (record {
    id = user.id;
    email = user.email;
    role = user.role;
    customer_id = get_customer_id user customers;
  })

-- The answer of the probe.
pub record Health : Type 0 where
  pub status : String
  pub database : String
  pub code : ℕ

-- `healthz`, given whether "SELECT 1" went through.
unfoldable pub healthz : Bool → Health
healthz database_ok = record {
  status = if database_ok then "ok" else "error";
  database = if database_ok then "ok" else "error";
  code = if database_ok then 200 else 503;
}
