-- ===== src/Policies/Admin.antt =====
-- apps/policies/admin.py: the two actions on the selected policies.
use democrance_insurance_api.Prelude.{
  ℕ, suc, Bool, true, false, Option, none, some, List, [], ◌∷◌, if◌then◌else◌,
}
use democrance_insurance_api.Policies.Rows.{Policy, admin}
use democrance_insurance_api.Policies.Services.{By, accept_quote, activate_policy}
use democrance_insurance_api.Common.Errors.{ErrorCode, Error, error_code}
use democrance_insurance_api.Database.{Env, Action, ◌>>=◌, pure, raise, Result, ok, err}

-- `isinstance(exc, DomainError)`: those classes declare a code.
abbrev pub is_some : Option ErrorCode → Bool
is_some none = false
is_some (some code) = true

-- What the messages on the page report: the policies that failed, with their errors, and the
-- number of those that went through.
pub record Report : Type 0 where
  pub done : ℕ
  pub failures : List (ℕ × Error)

-- `try: fn(…) except DomainError`: the error when one was caught.
abbrev pub caught : Result Policy → Action (Option Error)
caught (ok policy) = pure none
caught (err e) = if is_some (error_code e) then pure (some e) else raise e

abbrev pub attempt : Action Policy → Action (Option Error)
attempt m w = let (r, w') = m w in caught r w'

abbrev pub count : ℕ → Option Error → Report → Report
count id none report = record report { done = suc report.done }
count id (some e) report = record report { failures = (id, e) ∷ report.failures }

-- `_run` on the keys of the selected policies.
unfoldable pub run : (ℕ → Action Policy) → List ℕ → Action Report
run fn [] = pure (record { done = 0; failures = [] })
run fn (id ∷ ids) = do
  outcome ← attempt (fn id)
  report ← run fn ids
  pure (count id outcome report)

-- `actor=request.user, source="admin"`
abbrev pub by_admin : ℕ → By
by_admin user = record { actor = some user; source = admin }

-- `accept_selected_quotes`
unfoldable pub accept_selected_quotes : Env → ℕ → List ℕ → Action Report
accept_selected_quotes env user ids = run (λ id. accept_quote env id (by_admin user)) ids

-- `bind_selected_policies`
unfoldable pub bind_selected_policies : Env → ℕ → List ℕ → Action Report
bind_selected_policies env user ids = run (λ id. activate_policy env id (by_admin user) []) ids
