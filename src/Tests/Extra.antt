-- ===== src/Tests/Extra.antt =====
-- Runs of apps/policies/admin.py, the rendered policies, the search and the seeded catalogue.
use democrance_insurance_api.Prelude.{
  sort_by, insert_by, ◌≤◌, ◌≡◌, ◌⊎◌, inl, refl, true, none, some, String, Bool, [], ◌∷◌, In, length,
}
use democrance_insurance_api.Dates.{date, date_leb}
use democrance_insurance_api.Accounts.{scope_policies, is_agent_or_staff}
use democrance_insurance_api.Products.Seed.{seed_from}
use democrance_insurance_api.Policies.StateMachine.{accepted, active}
use democrance_insurance_api.Policies.Rows.{Policy}
use democrance_insurance_api.Policies.Admin.{bind_selected_policies}
use democrance_insurance_api.Policies.Read.{listed_before}
use democrance_insurance_api.Database.{Db, World, policy_by_id}
use democrance_insurance_api.Lifecycle.Selected.{bind_selected-unpaid}
use democrance_insurance_api.Search.{section, search_policies}
use democrance_insurance_api.Search.Scope.{Matches, search_policies_sound}
use democrance_insurance_api.Tests.World.{outside, start, user_of_ben}
use democrance_insurance_api.Tests.Quotes.{bound_policy, receipt}

begun : date_leb seed_from (date 2026 6 15) ≡ true
unfolding date_leb
begun = refl

-- A world with one accepted policy.
abbrev accepted_policy : Policy
accepted_policy = record bound_policy { state = accepted; activated_at = none }

abbrev one_accepted : World
one_accepted = record start {
  db = record start.db { policies = accepted_policy ∷ []; next_policy = 2 };
}

bind_selected-unpaid_example :
    ((q : Policy) × (policy_by_id 1 (bind_selected_policies outside 3 (1 ∷ []) one_accepted).1.db
        ≡ some q)
      × (q.state ≡ active))
    × ((bind_selected_policies outside 3 (1 ∷ []) one_accepted).1.db.payments ≡ [])
bind_selected-unpaid_example =
    bind_selected-unpaid outside 3 1 one_accepted accepted_policy refl refl

abbrev paid_db : Db
paid_db = record one_accepted.db { policies = bound_policy ∷ []; payments = receipt ∷ [] }

-- A text that is in every other.
abbrev anything : String → String → Bool
anything a b = true

ben_found :
    In bound_policy (section (search_policies anything "QT" paid_db (some user_of_ben))).results
unfolding search_policies scope_policies is_agent_or_staff sort_by insert_by
ben_found = inl refl

search_policies_sound_example :
    Matches anything "QT" paid_db (some user_of_ben) bound_policy
    × (length (section (search_policies anything "QT" paid_db (some user_of_ben))).results ≤ 20)
    × ((r : Policy)
        → Matches anything "QT" paid_db (some user_of_ben) r
        → In r (section (search_policies anything "QT" paid_db (some user_of_ben))).results
          ⊎ (listed_before bound_policy r ≡ true))
search_policies_sound_example =
    search_policies_sound anything "QT" paid_db (some user_of_ben) bound_policy ben_found
