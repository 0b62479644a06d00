-- ===== src/Response/Workflow.antt =====
-- engine/response_service.py: the state machine of an action.
use test_m_backend.Common.{
  ℕ, ◌+◌, String, Bool, true, false, not, Option, none, some, List, [], ◌∷◌, ◌++◌, ◌==◌, nat_eq,
  string_eq, if◌then◌else◌,
}
use test_m_backend.AccessControl.Models.{Error}
use test_m_backend.AccessControl.Service.Monad.{Result, ok, err}
use test_m_backend.Response.Sandbox.{
  Status, ActionType, ExecutionResult, Verification, RollbackResult, TransitionDetails,
  ResponseAction, LogDetails, Desk,
}
use test_m_backend.Response.Adapter.{execute, release}

-- ALLOWED_TRANSITIONS
unfoldable pub permitted : Status → Status → Bool
permitted Status.proposed Status.auto_authorized = true
permitted Status.proposed Status.awaiting_approval = true
permitted Status.proposed Status.rejected = true
permitted Status.auto_authorized Status.executing = true
permitted Status.auto_authorized Status.expired = true
permitted Status.auto_authorized Status.rejected = true
permitted Status.awaiting_approval Status.approved = true
permitted Status.awaiting_approval Status.rejected = true
permitted Status.approved Status.executing = true
permitted Status.approved Status.expired = true
permitted Status.executing Status.active = true
permitted Status.executing Status.failed = true
permitted Status.active Status.expired = true
permitted Status.active Status.rolled_back = true
permitted Status.active Status.failed = true
permitted _ _ = false

unfoldable pub is_failed : Status → Bool
is_failed Status.failed = true
is_failed _ = false

unfoldable pub is_running : Status → Bool
is_running Status.active = true
is_running _ = false

unfoldable pub is_executing : Status → Bool
is_executing Status.executing = true
is_executing _ = false

unfoldable pub is_waiting_approval : Status → Bool
is_waiting_approval Status.awaiting_approval = true
is_waiting_approval _ = false

-- the writes of `_transition`, once its check has passed
unfoldable pub moved : Status → String → Option String → TransitionDetails → ℕ → Desk → Desk
unfolding is_failed
moved to principal note details now d = record d {
  action = record d.action {
    status = to;
    transitions =
        d.action.transitions
        ++ (record {
          from_status = some d.action.status;
          to_status = to;
          principal = principal;
          timestamp = now;
          note = note;
          details = details;
        })
          ∷ [];
  };
  logs =
      d.logs
      ++ (record {
        timestamp = now;
        principal = principal;
        resource_id = d.action.action_id;
        details = LogDetails.change d.action.status note details;
        succeeded = not (is_failed to);
      })
        ∷ [];
}

unfoldable pub move :
    Status → String → Option String → TransitionDetails → ℕ → Desk → Result (Unit {0}) × Desk
move to principal note details now d =
    if permitted d.action.status to
    then (ok tt, moved to principal note details now d)
    else (err Error.value_error, d)

-- `try ... except Exception as e`, on what a call answers and leaves
unfoldable pub settled :
    {A : Type 0}
    → Result A × Desk
    → (A → Desk → Result (Unit {0}) × Desk)
    → (Error → Desk → Result (Unit {0}) × Desk)
    → Result (Unit {0}) × Desk
settled (ok a, d) f g = f a d
settled (err e, d) f g = g e d

-- What `preview_action` answers, of what `create_action` reads.
pub record Preview : Type 0 where
  pub entity_ref : String
  pub policy_rule_id : String
  pub allow : Bool
  pub reasons : List String
  pub target_scope : List (String × String)
  pub approval_required : Bool
  pub automatic : Bool
  pub ttl : Option ℕ

unfoldable pub expiry : ℕ → Option ℕ → Option ℕ
expiry now none = none
expiry now (some ttl) = if ttl == 0 then none else some (now + ttl)

unfoldable pub new_action :
    ℕ → ℕ → ActionType → String → String → Option String → ℕ → Preview → ResponseAction
unfolding expiry
new_action id case_id kind key requested_by note now p = record {
  action_id = id;
  case_id = case_id;
  entity_ref = p.entity_ref;
  action_type = kind;
  status = Status.proposed;
  requested_by = requested_by;
  requested_at = now;
  approved_by = none;
  approved_at = none;
  executed_at = none;
  expires_at = expiry now p.ttl;
  rolled_back_at = none;
  failed_at = none;
  policy_rule_id = p.policy_rule_id;
  policy_decision = p.allow;
  policy_reasons = p.reasons;
  target_scope = p.target_scope;
  approval_required = p.approval_required;
  automatic = p.automatic;
  idempotency_key = key;
  execution_result = none;
  verification_result = none;
  rollback_result = none;
  failure_reason = none;
  transitions =
      (record {
        from_status = none;
        to_status = Status.proposed;
        principal = requested_by;
        timestamp = now;
        note = note;
        details = TransitionDetails.nothing;
      })
      ∷ [];
}

-- the first transition of a new action
unfoldable pub route : String → Option String → ℕ → Preview → Desk → Result (Unit {0}) × Desk
route requested_by note now p d =
    if not p.allow
    then move Status.rejected requested_by note (TransitionDetails.policy_reasons p.reasons) now d
    else if p.approval_required
    then move Status.awaiting_approval requested_by note TransitionDetails.nothing now d
    else move Status.auto_authorized "response-policy" none
        (TransitionDetails.policy_rule p.policy_rule_id) now d

unfoldable pub approve_action : String → String → ℕ → Desk → Result (Unit {0}) × Desk
approve_action approved_by note now d =
    if d.action.requested_by == approved_by
    then (err Error.permission_error, d)
    else if is_waiting_approval d.action.status
    then move Status.approved approved_by (some note) TransitionDetails.nothing now (record d {
      action = record d.action { approved_by = some approved_by; approved_at = some now };
    })
    else (err Error.value_error, d)

unfoldable pub reject_action : String → String → ℕ → Desk → Result (Unit {0}) × Desk
reject_action rejected_by note now d =
    move Status.rejected rejected_by (some note) TransitionDetails.nothing now d

-- `except Exception`
unfoldable pub give_up : String → ℕ → Error → Desk → Result (Unit {0}) × Desk
give_up principal now e d =
    move Status.failed principal none (TransitionDetails.failure_reason e) now
      (record d { action = record d.action { failed_at = some now; failure_reason = some e } })

-- the rest of the `try`, after the adapter has answered
unfoldable pub conclude :
    String → ℕ → ExecutionResult × Verification → Desk → Result (Unit {0}) × Desk
conclude principal now answer d =
    let held : Desk = record d {
      action = record d.action {
        execution_result = some answer.0;
        verification_result = some answer.1;
      };
    } in
    if answer.1.verified
    then settled
        (move Status.active principal none (TransitionDetails.verification answer.1) now
          (record held { action = record held.action { executed_at = some now } }))
        (λ u e. (ok u, e)) (give_up principal now)
    else give_up principal now Error.runtime_error held

unfoldable pub attempt : String → ℕ → Bool → Bool → Desk → Result (Unit {0}) × Desk
attempt principal now inject_failure inject_verification_failure d =
    settled (execute now inject_failure inject_verification_failure d) (conclude principal now)
      (give_up principal now)

unfoldable pub execute_action : String → ℕ → Bool → Bool → Desk → Result (Unit {0}) × Desk
unfolding attempt
execute_action principal now inject_failure inject_verification_failure d =
    if is_running d.action.status
    then (ok tt, d)
    else if is_executing d.action.status
    then attempt principal now inject_failure inject_verification_failure d
    else settled (move Status.executing principal none TransitionDetails.nothing now d)
        (λ _ e. attempt principal now inject_failure inject_verification_failure e)
        (λ e d'. (err e, d'))

-- the end of a rollback, after the adapter has answered
unfoldable pub rolled_back :
    String → Option String → ℕ → RollbackResult → Desk → Result (Unit {0}) × Desk
rolled_back principal note now result d =
    move Status.rolled_back principal note TransitionDetails.nothing now (record d {
      action = record d.action { rollback_result = some result; rolled_back_at = some now };
    })

unfoldable pub rollback_action : String → Option String → ℕ → Desk → Result (Unit {0}) × Desk
unfolding rolled_back
rollback_action principal note now d =
    if is_running d.action.status
    then settled (release now d) (rolled_back principal note now) (λ e d'. (err e, d'))
    else (err Error.value_error, d)
