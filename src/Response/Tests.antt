-- ===== src/Response/Tests.antt =====
-- The response workflow at concrete inputs.
use test_m_backend.Common.{true, false, refl, inl, none, some, List, [], ◌∷◌}
use test_m_backend.Response.Sandbox.{Status, ActionType, Desk}
use test_m_backend.Response.Workflow.{permitted, Preview, new_action, route, execute_action}
use test_m_backend.Response.Authority.{IsAuthorised}
use test_m_backend.Response.Reach.{Call, perform_all, workflow-IsAuthorised}
use test_m_backend.Response.Outcome.{HasEnded, execute_action-HasEnded}

abbrev isolation : Preview
isolation = record {
  entity_ref = "ent";
  policy_rule_id = "rule";
  allow = true;
  reasons = [];
  target_scope = ("device", "laptop") ∷ [];
  approval_required = true;
  automatic = false;
  ttl = some 900;
}

abbrev calls : List Call
calls =
    Call.approve "ria" "fine" 2
    ∷ Call.execution "op" 3 false false
    ∷ Call.expiry 4
    ∷ Call.rollback "op" none 5
    ∷ Call.expiry 2000
    ∷ []

workflow-IsAuthorised_example :
    IsAuthorised
      (perform_all calls
        (route "op" none 1 isolation (record {
          action = new_action 7 1 ActionType.isolate_device "key" "op" none 1 isolation;
          controls = [];
          logs = [];
        })).1).action
workflow-IsAuthorised_example =
    workflow-IsAuthorised 7 1 ActionType.isolate_device "key" "op" none 1 isolation [] [] calls

abbrev ready : Desk
ready = record {
  action = record {
    action_id = 7;
    case_id = 1;
    entity_ref = "ent";
    action_type = ActionType.isolate_device;
    status = Status.approved;
    requested_by = "op";
    requested_at = 1;
    approved_by = some "ria";
    approved_at = some 2;
    executed_at = none;
    expires_at = none;
    rolled_back_at = none;
    failed_at = none;
    policy_rule_id = "rule";
    policy_decision = true;
    policy_reasons = [];
    target_scope = ("device", "laptop") ∷ [];
    approval_required = true;
    automatic = false;
    idempotency_key = "key";
    execution_result = none;
    verification_result = none;
    rollback_result = none;
    failure_reason = none;
    transitions = [];
  };
  controls = [];
  logs = [];
}

execute_action-HasEnded_example : HasEnded (execute_action "op" 3 false false ready)
execute_action-HasEnded_example =
    execute_action-HasEnded "op" 3 false false ready (inl (unfold permitted in refl))
