-- ===== src/Policies/Timeline.antt =====
-- apps/policies/serializers.py and views.py: the history of a policy as the API tells it.
use democrance_insurance_api.Prelude.{
  ℕ, pos, Bool, Option, none, some, String, List, map, find, sort_by, leb, ltb, ◌==◌, if◌then◌else◌,
}
use democrance_insurance_api.Accounts.{User, Principal}
use democrance_insurance_api.Policies.StateMachine.{State}
use democrance_insurance_api.Policies.Rows.{PolicyStateTransition, Source}
use democrance_insurance_api.Policies.History.{history}
use democrance_insurance_api.Policies.Views.{get_policy}
use democrance_insurance_api.Database.{Db, Action, ◌>>=◌, pure, gets}

-- `TransitionSerializer`
pub record TransitionRead : Type 0 where
  pub from_state : Option State
  pub to_state : State
  pub source : Source
  pub actor : Option String
  pub reason : String
  pub at : ℕ

abbrev pub email_of : Option User → Option String
email_of none = none
email_of (some user) = some user.email

-- `TransitionSerializer.get_actor`
abbrev pub get_actor : List User → Option ℕ → Option String
get_actor users none = none
get_actor users (some id) = email_of (find (λ (u : User). u.id == id) users)

abbrev pub read_row : List User → PolicyStateTransition → TransitionRead
read_row users t = record {
  from_state = t.from_state;
  to_state = t.to_state;
  source = t.source;
  actor = get_actor users t.actor;
  reason = t.reason;
  at = t.created_at;
}

-- `PolicyStateTransition.Meta.ordering`
abbrev pub told_before : PolicyStateTransition → PolicyStateTransition → Bool
told_before t u =
    if t.created_at == u.created_at then leb t.id u.id else ltb t.created_at u.created_at

abbrev pub timeline : ℕ → Db → List PolicyStateTransition
timeline id db = sort_by told_before (history id db)

pub record HistoryView : Type 0 where
  pub policy_id : ℕ
  pub current_state : State
  pub transitions : List TransitionRead

-- `PolicyHistoryView.get`, given the table of the logins.
unfoldable pub get_history : List User → ℕ → Principal → Action HistoryView
get_history users pk who = do
  policy ← get_policy (pos pk) who
  rows ← gets (timeline policy.id)
  pure (record {
    policy_id = policy.id;
    current_state = policy.state;
    transitions = map (read_row users) rows;
  })
