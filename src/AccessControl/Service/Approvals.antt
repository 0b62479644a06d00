-- ===== src/AccessControl/Service/Approvals.antt =====
-- `record_approval` and `create_grant` of access_control/service.py.
use test_m_backend.Common.{
  ℕ, min, String, Bool, true, false, not, ◌&&◌, ◌||◌, none, some, List, [], ◌∷◌, map, ◌==◌, nat_eq,
  string_eq, any, all, filter, if◌then◌else◌,
}
use test_m_backend.AccessControl.Policy.Values.{AuthStrength, Role, Control, AccessPolicyDecision}
use test_m_backend.AccessControl.Models.{
  Workflow, Verdict, Enforcement, Metadata, Approval, Grant, AccessRequest, AuditAction,
  AggregateType, Details, JobType, Payload, DedupKey, Env, Error,
}
use test_m_backend.AccessControl.Service.Monad.{
  Action, pure, raise, gets, ◌>>=◌, ◌>>◌, given, guard, only_if, modify, uuid4,
}
use test_m_backend.AccessControl.Service.Transition.{transition}
use test_m_backend.AccessControl.Service.Methods.{
  role_beq, is_approve, is_reviewable, is_awaiting, is_eligible, approver_roles_of, approval_added,
  granted, audit, post,
}

unfoldable pub is_phishing_control : Control → Bool
is_phishing_control Control.phishing_resistant_auth = true
is_phishing_control _ = false

unfoldable pub approving : List Approval → List Approval
approving = filter (λ a. is_approve a.decision)

-- The grant that `create_grant` builds from a request and its decision.
unfoldable pub least_grant : ℕ → AccessPolicyDecision → AccessRequest → Grant
least_grant id d r = record {
  id = id;
  exact_resource = r.resource_id;
  exact_permission = d.maximum_permission;
  allowed_actions = r.requested_action ∷ [];
  denied_actions = if r.requested_action == "" then "*" ∷ [] else [];
  maximum_ttl_seconds = min r.requested_duration_seconds d.maximum_duration_seconds;
  activated_at = none;
  expires_at = none;
  required_authentication_strength =
      if any is_phishing_control d.required_controls
      then AuthStrength.phishing_resistant
      else AuthStrength.mfa;
  approvers = map (λ a. (a.approver_identity, a.approver_role)) (approving r.approvals);
  enforcement_state = Enforcement.pending;
  connector_reference = none;
  revocation_reason = none;
}

-- The constraint of the table on (request, identity, role).
unfoldable pub is_repeated : String → Role → List Approval → Bool
is_repeated actor role = any (λ a. a.approver_identity == actor && role_beq a.approver_role role)

-- `required.issubset(approvals)`, the role of the caller among the approvals
unfoldable pub is_complete : List Role → List Approval → Role → Bool
unfolding approving
is_complete required approvals role =
    all (λ q. role_beq q role || any (λ a. role_beq q a.approver_role) (approving approvals))
      required

module _ (env : Env) where
  unfoldable pub issue_grant : String → AccessRequest → AccessPolicyDecision → Action Grant
  issue_grant actor r d = do
    id ← uuid4 env
    modify (granted (least_grant id d r))
    transition env Workflow.enforcing actor (some "Least-privilege grant prepared") Metadata.nothing
    post env AggregateType.access_grant id JobType.enforcement (Payload.for_grant r.id id)
        (DedupKey.enforce id)
    pure (least_grant id d r)

  -- the part of `create_grant` that runs if there is no grant yet
  unfoldable pub prepare_grant : String → AccessRequest → Action Grant
  prepare_grant actor r = given r.policy_decision (raise Error.type_error) (issue_grant actor r)

  unfoldable pub create_grant : String → Action Grant
  create_grant actor = do r ← gets (λ s. s.request); given r.grant (prepare_grant actor r) pure

  -- the row of an approval, and what it leads to
  unfoldable pub file_approval : String → Role → Verdict → String → Action Approval
  file_approval actor role decision note = do
    id ← uuid4 env
    r ← gets (λ s. s.request)
    guard (not (is_repeated actor role r.approvals)) Error.integrity_error
    let row : Approval = record {
      id = id;
      approver_identity = actor;
      approver_role = role;
      decision = decision;
      note = note;
    }
    modify (approval_added row)
    audit env actor (AuditAction.approval_recorded decision) (Details.approval role id)
    r' ← gets (λ s. s.request)
    if is_approve decision
        then only_if (is_complete (approver_roles_of r'.policy_decision) r'.approvals role) (do
          transition env Workflow.approved actor (some "Required approvals complete")
              Metadata.nothing
          create_grant actor
          pure tt)
        else transition env Workflow.denied actor (some note) Metadata.nothing
    pure row

  unfoldable pub record_approval : String → Role → Verdict → String → ℕ → Action Approval
  record_approval actor role decision note expected_version = do
    r ← gets (λ s. s.request)
    guard (r.version == expected_version) Error.runtime_error
    guard (not (r.requester_identity == actor)) Error.permission_error
    guard (is_eligible r.policy_decision) Error.permission_error
    guard (any (role_beq role) (approver_roles_of r.policy_decision)) Error.permission_error
    only_if (is_reviewable r.workflow_state) (
        transition env Workflow.awaiting_approval actor (some "Human approval started")
          Metadata.nothing)
    r' ← gets (λ s. s.request)
    guard (is_awaiting r'.workflow_state) Error.value_error
    file_approval actor role decision note
