-- ===== src/AccessControl/Service/Methods.antt =====
-- The methods of access_control/service.py on one request.
use mathlib.Core.Option
use test_m_backend.Common.{
  ℕ, ◌+◌, String, Bool, true, false, not, ◌&&◌, Option, none, some, List, [], ◌∷◌, ◌++◌, map, ltb,
  ◌==◌, nat_eq, string_eq, find, if◌then◌else◌,
}
use test_m_backend.Common.Order.{sorted_set, text_before}
use test_m_backend.AccessControl.Policy.Values.{Role, PolicyInputs, AccessPolicyDecision}
use test_m_backend.AccessControl.Policy.Decide.{is_empty, is_verified, evaluate_access_policy}
use test_m_backend.AccessControl.Models.{
  Workflow, Verdict, AiStatus, Metadata, EvidencePayload, Evidence, Approval, Grant, AccessRequest,
  AuditAction, AggregateType, Details, JobType, Payload, DedupKey, NotificationType, Env, Error,
}
use test_m_backend.AccessControl.Audit.{append_audit}
use test_m_backend.AccessControl.Outbox.{enqueue}
use test_m_backend.AccessControl.Service.Monad.{
  Action, pure, raise, gets, ◌>>=◌, ◌>>◌, given, guard, only_if, modify, update, now_utc, uuid4,
}
use test_m_backend.AccessControl.Service.Transition.{transition, notify}

-- Rows of other parts that `policy_inputs` reads: the risk rows of a case, with the credit in
-- ten-thousandths, to which the scoring rounds it, and the number of an entity's response actions
-- that are authorised, approved, executing or active.
pub record RiskRow : Type 0 where
  pub context_credit : ℕ
  pub critical_reasons : List String

pub record Surroundings : Type 0 where
  pub case_rows : ℕ → Option (List RiskRow)
  pub active_actions : String → ℕ

unfoldable pub role_beq : Role → Role → Bool
role_beq Role.viewer Role.viewer = true
role_beq Role.ingestor Role.ingestor = true
role_beq Role.analyst Role.analyst = true
role_beq Role.reviewer Role.reviewer = true
role_beq Role.resource_owner Role.resource_owner = true
role_beq Role.context_proposer Role.context_proposer = true
role_beq Role.context_approver Role.context_approver = true
role_beq Role.response_operator Role.response_operator = true
role_beq Role.response_approver Role.response_approver = true
role_beq Role.admin Role.admin = true
role_beq _ _ = false

unfoldable pub is_approve : Verdict → Bool
is_approve Verdict.approve = true
is_approve Verdict.deny = false

-- `{"PAUSED", "EVIDENCE_READY", "MORE_CONTEXT_REQUIRED"}`
unfoldable pub can_evaluate : Workflow → Bool
can_evaluate Workflow.paused = true
can_evaluate Workflow.evidence_ready = true
can_evaluate Workflow.more_context_required = true
can_evaluate _ = false

-- `{"PAUSED", "MORE_CONTEXT_REQUIRED"}`
unfoldable pub wants_evidence : Workflow → Bool
wants_evidence Workflow.paused = true
wants_evidence Workflow.more_context_required = true
wants_evidence _ = false

-- `{"EVIDENCE_READY", "AI_REVIEWED"}`
unfoldable pub is_reviewable : Workflow → Bool
is_reviewable Workflow.evidence_ready = true
is_reviewable Workflow.ai_reviewed = true
is_reviewable _ = false

-- the states from which `request_more_context` starts
unfoldable pub can_ask_context : Workflow → Bool
can_ask_context Workflow.evidence_ready = true
can_ask_context Workflow.ai_reviewed = true
can_ask_context Workflow.awaiting_approval = true
can_ask_context Workflow.ai_review_pending = true
can_ask_context _ = false

unfoldable pub is_paused : Workflow → Bool
is_paused Workflow.paused = true
is_paused _ = false

unfoldable pub is_more_context : Workflow → Bool
is_more_context Workflow.more_context_required = true
is_more_context _ = false

unfoldable pub is_awaiting : Workflow → Bool
is_awaiting Workflow.awaiting_approval = true
is_awaiting _ = false

unfoldable pub is_active : Workflow → Bool
is_active Workflow.active = true
is_active _ = false

-- `request.policy_decision and request.policy_decision.get("eligibility")`
unfoldable pub is_eligible : Option AccessPolicyDecision → Bool
is_eligible none = false
is_eligible (some d) = d.eligibility

unfoldable pub approver_roles_of : Option AccessPolicyDecision → List Role
approver_roles_of none = []
approver_roles_of (some d) = d.required_approver_roles

unfoldable pub reasons_of : List RiskRow → List String
reasons_of [] = []
reasons_of (row ∷ rows) =
    (if ltb row.context_credit 10000 then row.critical_reasons else []) ++ reasons_of rows

unfoldable pub case_reasons : Surroundings → Option ℕ → List String
unfolding reasons_of
case_reasons w none = []
case_reasons w (some case_id) = elim (w.case_rows case_id) [
  | none ↦ []
  | some rows ↦ sorted_set text_before (reasons_of rows)
]

unfoldable pub policy_inputs : Surroundings → AccessRequest → Bool → PolicyInputs
policy_inputs w r is_admin = record {
  subject_identity = r.subject_identity;
  resource_id = r.resource_id;
  resource_sensitivity = r.resource_sensitivity;
  requested_action = r.requested_action;
  requested_permission = r.requested_permission;
  requested_duration_seconds = r.requested_duration_seconds;
  business_justification = r.business_justification;
  device_trust = r.device_trust;
  authentication_strength = r.authentication_strength;
  location_trust = r.location_trust;
  unresolved_critical_reasons = case_reasons w r.linked_case_id;
  conflicting_containment = ltb 0 (w.active_actions r.subject_identity);
  evidence =
      map
        (λ e. record {
          evidence_type = e.evidence_type;
          verification_status = e.verification_status;
          identity_scope = e.identity_scope;
          resource_scope = e.resource_scope;
          action_scope = e.action_scope;
        })
        r.evidence;
  break_glass = r.break_glass;
  is_admin = is_admin;
}

-- The writes of the methods to the request, each an assignment of the code.
unfoldable pub evidence_added : Evidence → AccessRequest → AccessRequest
evidence_added row r = record r { evidence = r.evidence ++ row ∷ [] }

unfoldable pub decided : AccessPolicyDecision → ℕ → AccessRequest → AccessRequest
decided d time r = record r { policy_decision = some d; updated_at = time; version = r.version + 1 }

unfoldable pub review_queued : AccessRequest → AccessRequest
review_queued r = record r { ai_review_status = AiStatus.pending }

unfoldable pub approval_added : Approval → AccessRequest → AccessRequest
approval_added row r = record r { approvals = r.approvals ++ row ∷ [] }

unfoldable pub granted : Grant → AccessRequest → AccessRequest
granted g r = record r { grant = some g }

-- a change of `request.grant`
unfoldable pub update_grant : (Grant → Grant) → AccessRequest → AccessRequest
update_grant f r = record r { grant = Option.map f r.grant }

abbrev pub with_reason : String → Grant → Grant
with_reason reason g = record g { revocation_reason = some reason }

module _ (env : Env) where
  -- `append_audit` on the request, at the time that it reads itself
  unfoldable pub audit : String → AuditAction → Details → Action (Unit {0})
  audit actor action details = do
    correlation ← uuid4 env
    r ← gets (λ s. s.request)
    update λ t.
        (append_audit env
          (record {
            tenant_id = r.tenant_id;
            actor = actor;
            action = action;
            aggregate_type = AggregateType.access_request;
            aggregate_id = r.id;
            correlation_id = correlation;
            details = details;
          })
          none t).1

  unfoldable pub post : AggregateType → ℕ → JobType → Payload → DedupKey → Action (Unit {0})
  post aggregate id job payload key = do
    r ← gets (λ s. s.request)
    update λ t.
        (enqueue env
          (record {
            tenant_id = r.tenant_id;
            aggregate_type = aggregate;
            aggregate_id = id;
            job_type = job;
            payload = payload;
            deduplication_key = key;
            available_at = none;
          })
          t).1

  -- the part of `add_evidence` after the search for the same evidence
  unfoldable pub attach_evidence : EvidencePayload → String → Action Evidence
  attach_evidence payload actor = do
    r ← gets (λ s. s.request)
    id ← uuid4 env
    time ← now_utc env
    let row : Evidence = record {
      id = id;
      payload = payload;
      evidence_hash = env.evidence_digest payload;
      verified_at = if is_verified payload.verification_status then some time else none;
      verifier = if is_verified payload.verification_status then some actor else none;
    }
    modify (evidence_added row)
    only_if (is_verified payload.verification_status && wants_evidence r.workflow_state) (
        transition env Workflow.evidence_ready actor (some "Verified evidence attached")
          Metadata.nothing)
    audit actor AuditAction.evidence_attached
        (Details.evidence row.id row.evidence_hash row.verification_status)
    pure row

  unfoldable pub add_evidence : EvidencePayload → String → Action Evidence
  add_evidence payload actor = do
    guard (ltb payload.effective_from payload.effective_until) Error.value_error
    r ← gets (λ s. s.request)
    given (find (λ e. e.evidence_hash == env.evidence_digest payload) r.evidence)
        (attach_evidence payload actor) pure

  -- what `evaluate_request` does with its decision
  unfoldable pub apply_decision : AccessPolicyDecision → Action (Unit {0})
  apply_decision d = do
    r ← gets (λ s. s.request)
    if not (is_empty d.blocking_reasons)
        then transition env Workflow.denied "access-policy" (some "Deterministic policy denial")
            (Metadata.decision d)
        else if not (is_empty d.missing_evidence)
        then (do
          only_if (not (is_more_context r.workflow_state)) (
              transition env Workflow.more_context_required "access-policy"
                (some "Verified scoped evidence is incomplete") (Metadata.decision d))
          notify env NotificationType.more_context_required r.requester_identity)
        else (do
          only_if (is_paused r.workflow_state) (
              transition env Workflow.evidence_ready "access-policy"
                (some "Deterministic eligibility established") (Metadata.decision d))
          notify env NotificationType.approval_required "resource-reviewers")

  unfoldable pub evaluate_request : Surroundings → Bool → Action AccessPolicyDecision
  evaluate_request w is_admin = do
    r ← gets (λ s. s.request)
    guard (can_evaluate r.workflow_state) Error.value_error
    let d = evaluate_access_policy env.policy_digest (policy_inputs w r is_admin)
    time ← now_utc env
    modify (decided d time)
    apply_decision d
    pure d

  unfoldable pub request_ai_review : String → Action (Unit {0})
  request_ai_review actor = do
    r ← gets (λ s. s.request)
    guard (is_eligible r.policy_decision) Error.value_error
    guard (is_reviewable r.workflow_state) Error.value_error
    transition env Workflow.ai_review_pending actor (some "Advisory review queued") Metadata.nothing
    modify review_queued
    version ← gets (λ s. s.request.version)
    post AggregateType.access_request r.id JobType.ai_review (Payload.for_request r.id)
        (DedupKey.ai_review r.id version)

  unfoldable pub request_revocation : String → String → Action (Unit {0})
  request_revocation actor reason = do
    r ← gets (λ s. s.request)
    guard (is_active r.workflow_state) Error.value_error
    given r.grant (raise Error.attribute_error) λ g. do
      modify (update_grant (with_reason reason))
      transition env Workflow.revoking actor (some reason) Metadata.nothing
      version ← gets (λ s. s.request.version)
      post AggregateType.access_grant g.id JobType.revocation (Payload.for_grant r.id g.id)
          (DedupKey.revoke g.id version)

  unfoldable pub request_more_context : String → String → Action (Unit {0})
  request_more_context actor note = do
    r ← gets (λ s. s.request)
    guard (can_ask_context r.workflow_state) Error.value_error
    transition env Workflow.more_context_required actor (some note) Metadata.nothing
    notify env NotificationType.more_context_required r.requester_identity
