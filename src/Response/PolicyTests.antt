-- ===== src/Response/PolicyTests.antt =====
-- The policy, the creation and the expiry of response actions at concrete inputs.
use test_m_backend.Common.{
  ◌≡◌, refl, ap, ◌↔◌, ◌⊎◌, String, true, false, ◌&&◌, not, none, some, List, [], ◌∷◌, string_eq,
  find, any, filter, when, no_items, if◌then◌else◌, Exists,
}
use test_m_backend.Common.Order.{sorted, sorted_set}
use test_m_backend.AccessControl.Service.Monad.{Result, ok}
use test_m_backend.Response.Sandbox.{Status, ActionType, ResponseAction}
use test_m_backend.Response.Adapter.{target}
use test_m_backend.Response.Graph.{
  NodeKind, EvidenceGraph, BlastRadius, text_in, preview_blast_radius, valid_scope_values,
}
use test_m_backend.Response.Policy.{
  Assessment, Reason, PolicyDecision, in_set, tier0, tier1, tier2, tier3,
}
use test_m_backend.Response.Decide.{evaluate_response_policy}
use test_m_backend.Response.Controls.{IsEquivalent, IsConflicting}
use test_m_backend.Response.Workflow.{route, move, moved, permitted, new_action}
use test_m_backend.Response.Safety.{IsGrounded, evaluate_response_policy-allow}
use test_m_backend.Response.Approval.{evaluate_response_policy-human}
use test_m_backend.Response.Creation.{CaseRow, Store, action_name, create_action}
use test_m_backend.Response.Created.{create_action-again, create_action-human}
use test_m_backend.Response.Expiry.{expire_due_actions}
use test_m_backend.Response.Lapsed.{IsComplete, expire_due_actions-IsComplete}

-- an upload to an unknown place on a case of high priority
abbrev assessment : Assessment
assessment = record {
  event_risk_breakdown =
      (record {
        event_id = 5;
        context_credit = some 0;
        raw_risk = some 600000;
        critical_reasons = "external_upload" ∷ [];
        categories = ("volume", 7000) ∷ ("destination", 0) ∷ [];
      })
      ∷ [];
  residual_risk = 800000;
  confidence = "moderate";
  data_quality = "sufficient";
  context_coverage = 0;
}

abbrev scope : List (String × String)
scope = ("device", "laptop") ∷ []

abbrev graph : EvidenceGraph
graph = record {
  nodes = (record { id = "device:laptop"; kind = NodeKind.device; label = "laptop" }) ∷ [];
  edges = [];
  evidence_paths = [];
  generated_at = 9;
}

abbrev blast : BlastRadius
blast = preview_blast_radius graph scope []

evaluate_response_policy-allow_example :
    ((evaluate_response_policy assessment scope blast "isolate_device" []).allow ≡ true) ↔ (
      (¬ Exists (IsEquivalent "isolate_device" scope) [])
      × (¬ Exists (IsConflicting "isolate_device" scope) [])
      × ((in_set tier0 "isolate_device" ≡ true)
          ⊎ (in_set tier1 "isolate_device" ≡ true)
          ⊎ (((in_set tier2 "isolate_device" ≡ true) ⊎ (in_set tier3 "isolate_device" ≡ true))
              × IsGrounded assessment scope)))
evaluate_response_policy-allow_example =
    evaluate_response_policy-allow assessment scope blast "isolate_device" []

evaluate_response_policy-human_example :
    let d : PolicyDecision = evaluate_response_policy assessment scope blast "isolate_device" [] in
    (d.automatic ≡ (d.allow && not d.approval_required))
    × ((d.allow && d.approval_required) ≡ (d.allow && in_set tier3 "isolate_device"))
    × (d.ttl_seconds
        ≡ (if d.allow then some (if in_set tier1 "isolate_device" then 300 else 900) else none))
evaluate_response_policy-human_example =
    evaluate_response_policy-human assessment scope blast "isolate_device" []

abbrev message : Reason → String
message _ = "reason"

abbrev case_row : CaseRow
case_row = record {
  id = 1;
  pseudonymous_id = "ent";
  event_ids = 5 ∷ [];
  assessment = assessment;
  explanation_breakdown = [];
}

abbrev nothing_yet : Store
nothing_yet = record { actions = []; controls = []; logs = [] }

abbrev isolated : Result ResponseAction × Store
isolated =
    create_action message graph [] case_row ActionType.isolate_device scope "key-0001" "op" none 7 1
      nothing_yet

-- a control in effect whose time runs out at 5
abbrev held : ResponseAction
held = record {
  action_id = 3;
  case_id = 2;
  entity_ref = "ent";
  action_type = ActionType.disable_account;
  status = Status.active;
  requested_by = "op";
  requested_at = 1;
  approved_by = some "ria";
  approved_at = some 2;
  executed_at = some 3;
  expires_at = some 5;
  rolled_back_at = none;
  failed_at = none;
  policy_rule_id = "RP-HUMAN-CONTAINMENT-001";
  policy_decision = true;
  policy_reasons = [];
  target_scope = [];
  approval_required = true;
  automatic = false;
  idempotency_key = "key-0003";
  execution_result = none;
  verification_result = none;
  rollback_result = none;
  failure_reason = none;
  transitions = [];
}

abbrev answer : Result ResponseAction → ResponseAction
answer (ok a) = a
answer _ = held

isolated_runs :
    (isolated.0 ≡ ok (answer isolated.0)) × ((answer isolated.0).status ≡ Status.awaiting_approval)
unfolding create_action find no_items sorted filter text_in any valid_scope_values route
    evaluate_response_policy when sorted_set move permitted new_action moved
isolated_runs = (refl, refl)

create_action-again_example :
    create_action message graph [] case_row ActionType.isolate_device [] "key-0001" "op"
      (some "again")
      8
      2
      isolated.1
    ≡ (ok (answer isolated.0), isolated.1)
create_action-again_example =
    create_action-again message graph [] case_row ActionType.isolate_device "key-0001" "op" scope
      none 7 1 nothing_yet isolated.1 (answer isolated.0) [] (some "again") 8 2
      (ap (λ r. (r, isolated.1)) isolated_runs.0)

create_action-human_example :
    ((answer isolated.0).status ≡ Status.rejected)
    ⊎ ((answer isolated.0).status ≡ Status.awaiting_approval)
create_action-human_example =
    create_action-human message graph [] case_row ActionType.isolate_device "key-0001" "op" scope
      none 7 1 nothing_yet isolated.1 (answer isolated.0) (unfold find in refl)
      (unfold in_set any action_name in refl) (ap (λ r. (r, isolated.1)) isolated_runs.0)

expire_due_actions-IsComplete_example :
    IsComplete 6 (expire_due_actions 6 (record { actions = held ∷ []; controls = []; logs = [] }))
expire_due_actions-IsComplete_example =
    expire_due_actions-IsComplete 6 (record { actions = held ∷ []; controls = []; logs = [] })
      ((λ _. (("account_status", "ent"), unfold target in refl)), tt)
