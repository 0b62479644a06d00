-- ===== src/AccessControl/Models.antt =====
-- The rows of models/db_models.py that just-in-time access keeps, and what it calls but does not
-- implement. An identifier is "prefix_" + uuid4().hex, 32 hexadecimal digits, whose order as text
-- is that of the number: it is that number. A time is a count of microseconds. A JSON value that
-- the code builds is a data type with a constructor for each place that builds one.
use test_m_backend.Common.{ℕ, String, Bool, Option, List, ◌*◌}
use test_m_backend.AccessControl.Policy.Values.{
  Sensitivity, Trust, AuthStrength, EvidenceType, VerificationStatus, Role, Canonical,
  AccessPolicyDecision,
}

pub data Workflow : Type 0 where
  paused evidence_ready ai_review_pending ai_reviewed more_context_required : Workflow
  awaiting_approval approved enforcing active revoking denied revoked expired : Workflow
  enforcement_failed : Workflow

pub data ExternalStatus : Type 0 where
  paused in_review active denied revoked expired enforcement_failed : ExternalStatus

pub data Verdict : Type 0 where
  approve deny : Verdict

pub data AiStatus : Type 0 where
  not_requested pending completed unavailable : AiStatus

pub data Enforcement : Type 0 where
  pending active failed verification_failed revocation_failed expired revoked : Enforcement

-- What an enforcement provider answers.
pub record ProviderResult : Type 0 where
  pub success : Bool
  pub connector_reference : String
  pub verified : Bool

-- `metadata` of a transition.
pub data Metadata : Type 0 where
  nothing : Metadata
  decision : AccessPolicyDecision → Metadata
  review : ℕ → Metadata
  activation : Option String → ProviderResult → Metadata

pub record TransitionRow : Type 0 where
  pub from_state : Option Workflow
  pub to_state : Workflow
  pub actor : String
  pub timestamp : ℕ
  pub reason : Option String
  pub metadata_json : Metadata

-- The fields of `EvidenceCreate`, which the evidence hash covers.
pub record EvidencePayload : Type 0 where
  pub evidence_type : EvidenceType
  pub source : String
  pub external_reference : String
  pub source_created_at : ℕ
  pub effective_from : ℕ
  pub effective_until : ℕ
  pub identity_scope : List String
  pub resource_scope : List String
  pub action_scope : List String
  pub verification_status : VerificationStatus

pub record Evidence : Type 0 where
  pub id : ℕ
  pub payload : EvidencePayload
  pub open payload use *
  pub evidence_hash : String
  pub verified_at : Option ℕ
  pub verifier : Option String

pub record Approval : Type 0 where
  pub id : ℕ
  pub approver_identity : String
  pub approver_role : Role
  pub decision : Verdict
  pub note : String

pub record Grant : Type 0 where
  pub id : ℕ
  pub exact_resource : String
  pub exact_permission : Option String
  pub allowed_actions : List String
  pub denied_actions : List String
  pub maximum_ttl_seconds : ℕ
  pub activated_at : Option ℕ
  pub expires_at : Option ℕ
  pub required_authentication_strength : AuthStrength
  pub approvers : List (String × Role)
  pub enforcement_state : Enforcement
  pub connector_reference : Option String
  pub revocation_reason : Option String

-- An access request with the rows that its relationships reach.
pub record AccessRequest : Type 0 where
  pub id : ℕ
  pub tenant_id : String
  pub subject_identity : String
  pub requester_identity : String
  pub resource_id : String
  pub resource_sensitivity : Sensitivity
  pub requested_action : String
  pub requested_permission : String
  pub business_justification : List ℕ
  pub requested_duration_seconds : ℕ
  pub device_trust : Trust
  pub authentication_strength : AuthStrength
  pub location_trust : Trust
  pub linked_case_id : Option ℕ
  pub external_status : ExternalStatus
  pub workflow_state : Workflow
  pub updated_at : ℕ
  pub resolved_at : Option ℕ
  pub version : ℕ
  pub idempotency_key : String
  pub policy_decision : Option AccessPolicyDecision
  pub ai_review_status : AiStatus
  pub break_glass : Bool
  pub evidence : List Evidence
  pub approvals : List Approval
  pub transitions : List TransitionRow
  pub grant : Option Grant

pub data AuditAction : Type 0 where
  request_created evidence_attached : AuditAction
  state_entered : Workflow → AuditAction
  approval_recorded : Verdict → AuditAction

pub data AggregateType : Type 0 where
  access_request access_grant : AggregateType

pub data Details : Type 0 where
  state_change : Workflow → Option String → Metadata → Details
  created : String → String → Details
  evidence : ℕ → String → VerificationStatus → Details
  approval : Role → ℕ → Details

-- What `append_audit` is called with.
pub record AuditEntry : Type 0 where
  pub tenant_id : String
  pub actor : String
  pub action : AuditAction
  pub aggregate_type : AggregateType
  pub aggregate_id : ℕ
  pub correlation_id : ℕ
  pub details : Details

-- The canonical record that is hashed.
pub record AuditBody : Type 0 where
  pub entry : AuditEntry
  pub open entry use *
  pub timestamp : ℕ
  pub previous_record_hash : Option String

pub record AuditRecord : Type 0 where
  pub id : ℕ
  pub body : AuditBody
  pub open body use *
  pub record_hash : String

pub data JobType : Type 0 where
  ai_review enforcement revocation expiry notification : JobType
  other : String → JobType

pub data Payload : Type 0 where
  for_request : ℕ → Payload
  for_grant : ℕ → ℕ → Payload
  for_notification : ℕ → Payload

-- The formatted keys, `f"ai-review:{request.id}:{request.version}"` and so on.
pub data DedupKey : Type 0 where
  notify enforce expire : ℕ → DedupKey
  ai_review revoke : ℕ → ℕ → DedupKey

pub data JobStatus : Type 0 where
  pending retry processing completed failed : JobStatus

-- The exceptions of the program, by class.
pub data Error : Type 0 where
  value_error permission_error runtime_error no_result key_error type_error attribute_error
        integrity_error :
      Error

-- A row of the transactional outbox.
pub record Job : Type 0 where
  pub id : ℕ
  pub tenant_id : String
  pub aggregate_type : AggregateType
  pub aggregate_id : ℕ
  pub job_type : JobType
  pub payload : Payload
  pub status : JobStatus
  pub attempts : ℕ
  pub available_at : ℕ
  pub locked_by : Option String
  pub lease_expires_at : Option ℕ
  pub last_error : Option Error
  pub deduplication_key : DedupKey
  pub processed_at : Option ℕ

pub data NotificationType : Type 0 where
  new_paused_request more_context_required approval_required enforcement_failure : NotificationType
  access_activated access_expired access_revoked scope_violation : NotificationType

pub data Delivery : Type 0 where
  pending in_app delivered : Delivery

pub record Notification : Type 0 where
  pub id : ℕ
  pub tenant_id : String
  pub recipient : String
  pub notification_type : NotificationType
  pub request_id : ℕ
  pub delivery_status : Delivery
  pub external_reference : Option String

-- The columns that schemas.AIReviewOutput fills; the confidence is passed on unread, as its text.
pub record AiReviewOutput : Type 0 where
  pub recommendation : String
  pub risk_summary : String
  pub recommended_permission : String
  pub recommended_duration_seconds : ℕ
  pub required_controls : List String
  pub reason_codes : List String
  pub missing_evidence : List String
  pub confidence : String
  pub human_explanation : String

-- What a review provider answers.
pub record ReviewResult : Type 0 where
  pub provider : String
  pub model : String
  pub prompt_version : String
  pub sanitized_input_hash : String
  pub output : Option AiReviewOutput
  pub latency_ms : ℕ
  pub token_usage : List (String × ℕ)
  pub status : AiStatus
  pub failure_reason : Option String

pub record AccessAiReview : Type 0 where
  pub id : ℕ
  pub tenant_id : String
  pub request_id : ℕ
  pub provider : String
  pub model : String
  pub prompt_version : String
  pub sanitized_input_hash : String
  pub output : Option AiReviewOutput
  pub latency_ms : ℕ
  pub token_usage : List (String × ℕ)
  pub confidence : Option String
  pub status : AiStatus
  pub failure_reason : Option String
  pub created_at : ℕ

-- What the code calls and does not implement, `uuid4` and the clock at the n-th reading, and the
-- hash (hashlib over json.dumps) of each canonical record.
pub record Env : Type 0 where
  pub uuid : ℕ → ℕ
  pub now : ℕ → ℕ
  pub policy_digest : Canonical → String
  pub evidence_digest : EvidencePayload → String
  pub audit_digest : AuditBody → String

-- The tables that all requests share; `tick` counts the readings of `Env` so far.
pub record Tables : Type 0 where
  pub audits : List AuditRecord
  pub outbox : List Job
  pub notifications : List Notification
  pub reviews : List AccessAiReview
  pub tick : ℕ

-- `timedelta(seconds=n)`
abbrev pub seconds : ℕ → ℕ
seconds n = n * 1000000
