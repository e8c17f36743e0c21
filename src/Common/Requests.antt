-- ===== src/Common/Requests.antt =====
-- A request through Django REST framework: the default permission class, the view, and the status
-- and code of the answer that apps/common/exceptions.py gives to what the view raises.
use democrance_insurance_api.Prelude.{ℕ, not, Option, none, some, String}
use democrance_insurance_api.Accounts.{Principal, demo_or_authenticated}
use democrance_insurance_api.Common.Errors.{
  Error, not_authenticated, permission_denied, status_code, error_code, code_for,
}
use democrance_insurance_api.Database.{Env, Action, Result, ok, err, ◌>>◌, raise_if}

-- `IsAuthenticated` and the like fail with 401 where nobody is logged in, and else with 403.
abbrev pub denied : Principal → Error
denied none = not_authenticated
denied (some user) = permission_denied

-- The default permission class, then the view.
unfoldable pub request : {A : Type 0} → Env → Principal → Action A → Action A
request env who view = raise_if (not (demo_or_authenticated env.demo_open who)) (denied who) >> view

-- How a request ends: with the view's answer, with the envelope of an error under a status and a
-- code, or with an exception that no handler knows.
pub data Outcome (A : Type 0) : Type 0 where
  answered : A → Outcome A
  refused : ℕ → String → Outcome A
  crashed : Outcome A

abbrev pub refusal : {A : Type 0} → Error → Option ℕ → Outcome A
refusal e none = crashed
refusal e (some status) = refused status (code_for (error_code e) status)

unfoldable pub outcome : {A : Type 0} → Result A → Outcome A
outcome (ok a) = answered a
outcome (err e) = refusal e (status_code e)
