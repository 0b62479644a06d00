-- ===== src/Routes/Answers.antt =====
-- api/access_routes.py: what the routes show of a request. `created_at` of a request is not kept.
use test_m_backend.Common.{
  ℕ, String, Bool, true, false, ◌&&◌, Option, none, some, List, [], ◌∷◌, ◌++◌, if◌then◌else◌, when,
}
use test_m_backend.AccessControl.Policy.Values.{
  Sensitivity, VerificationStatus, Role, AccessPolicyDecision,
}
use test_m_backend.AccessControl.Models.{
  Workflow, ExternalStatus, AiStatus, Enforcement, Grant, AccessRequest,
}
use test_m_backend.AccessControl.Service.Methods.{approver_roles_of}
use test_m_backend.Routes.Scopes.{Principal, has_scope}

pub data OfferedAction : Type 0 where
  attach_evidence evaluate request_ai_review approve deny revoke : OfferedAction

-- the sets of states in `_available_actions`
unfoldable pub takes_evidence : Workflow → Bool
takes_evidence Workflow.paused = true
takes_evidence Workflow.more_context_required = true
takes_evidence _ = false

unfoldable pub takes_evaluation : Workflow → Bool
takes_evaluation Workflow.paused = true
takes_evaluation Workflow.evidence_ready = true
takes_evaluation Workflow.more_context_required = true
takes_evaluation _ = false

unfoldable pub takes_review : Workflow → Bool
takes_review Workflow.evidence_ready = true
takes_review _ = false

unfoldable pub takes_approval : Workflow → Bool
takes_approval Workflow.evidence_ready = true
takes_approval Workflow.ai_reviewed = true
takes_approval Workflow.awaiting_approval = true
takes_approval _ = false

unfoldable pub takes_revocation : Workflow → Bool
takes_revocation Workflow.active = true
takes_revocation _ = false

unfoldable pub available_actions : AccessRequest → Principal → List OfferedAction
unfolding takes_evidence takes_evaluation takes_review takes_approval takes_revocation has_scope
available_actions r p =
    when (has_scope "access:evidence" p.scopes && takes_evidence r.workflow_state)
      OfferedAction.attach_evidence
    ++ when (has_scope "access:evaluate" p.scopes && takes_evaluation r.workflow_state)
        OfferedAction.evaluate
    ++ when (has_scope "access:ai_review" p.scopes && takes_review r.workflow_state)
        OfferedAction.request_ai_review
    ++ (if has_scope "access:approve" p.scopes && takes_approval r.workflow_state
        then OfferedAction.approve ∷ OfferedAction.deny ∷ []
        else [])
    ++ when (has_scope "access:revoke" p.scopes && takes_revocation r.workflow_state)
        OfferedAction.revoke

pub record EnforcementView : Type 0 where
  pub state : Enforcement
  pub connector_reference : Option String
  pub activated_at : Option ℕ
  pub expires_at : Option ℕ

pub record RequestedScope : Type 0 where
  pub resource : String
  pub action : String
  pub permission : String
  pub duration_seconds : ℕ

pub record ApprovedScope : Type 0 where
  pub resource : String
  pub permission : Option String
  pub allowed_actions : List String
  pub maximum_ttl_seconds : ℕ

-- the answer of `_out`
pub record AccessRequestOut : Type 0 where
  pub id : ℕ
  pub tenant_id : String
  pub subject_identity : String
  pub requester_identity : String
  pub resource_id : String
  pub resource_sensitivity : Sensitivity
  pub requested_action : String
  pub requested_permission : String
  pub business_justification : List ℕ
  pub requested_duration_seconds : ℕ
  pub linked_case_id : Option ℕ
  pub external_status : ExternalStatus
  pub workflow_state : Workflow
  pub updated_at : ℕ
  pub resolved_at : Option ℕ
  pub version : ℕ
  pub policy_decision : Option AccessPolicyDecision
  pub ai_review_status : AiStatus
  pub ai_advisory_only : Bool
  pub required_approvers : List Role
  pub available_actions : List OfferedAction
  pub requested_scope : RequestedScope
  pub approved_scope : Option ApprovedScope
  pub unaffected_resources : List String
  pub enforcement_verification : Option EnforcementView

unfoldable pub verification_of : Option Grant → Option EnforcementView
verification_of none = none
verification_of (some g) = some (record {
  state = g.enforcement_state;
  connector_reference = g.connector_reference;
  activated_at = g.activated_at;
  expires_at = g.expires_at;
})

unfoldable pub approved_scope_of : Option Grant → Option ApprovedScope
approved_scope_of none = none
approved_scope_of (some g) = some (record {
  resource = g.exact_resource;
  permission = g.exact_permission;
  allowed_actions = g.allowed_actions;
  maximum_ttl_seconds = g.maximum_ttl_seconds;
})

-- `_out`
unfoldable pub shown : AccessRequest → Principal → AccessRequestOut
unfolding available_actions verification_of approved_scope_of
shown r p = record {
  id = r.id;
  tenant_id = r.tenant_id;
  subject_identity = r.subject_identity;
  requester_identity = r.requester_identity;
  resource_id = r.resource_id;
  resource_sensitivity = r.resource_sensitivity;
  requested_action = r.requested_action;
  requested_permission = r.requested_permission;
  business_justification = r.business_justification;
  requested_duration_seconds = r.requested_duration_seconds;
  linked_case_id = r.linked_case_id;
  external_status = r.external_status;
  workflow_state = r.workflow_state;
  updated_at = r.updated_at;
  resolved_at = r.resolved_at;
  version = r.version;
  policy_decision = r.policy_decision;
  ai_review_status = r.ai_review_status;
  ai_advisory_only = true;
  required_approvers = approver_roles_of r.policy_decision;
  available_actions = available_actions r p;
  requested_scope = record {
    resource = r.resource_id;
    action = r.requested_action;
    permission = r.requested_permission;
    duration_seconds = r.requested_duration_seconds;
  };
  approved_scope = approved_scope_of r.grant;
  unaffected_resources = [];
  enforcement_verification = verification_of r.grant;
}

-- the dictionaries that the mutating routes return
pub data ResponseBody : Type 0 where
  of_evidence : ℕ → ℕ → VerificationStatus → String → ResponseBody
  of_decision : AccessRequestOut → AccessPolicyDecision → ResponseBody
  of_review : ℕ → Workflow → ResponseBody
  of_request : AccessRequestOut → ResponseBody
  of_acknowledgement : ℕ → ℕ → ResponseBody
