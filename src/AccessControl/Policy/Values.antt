-- ===== src/AccessControl/Policy/Values.antt =====
-- The inputs and the result of the policy.
use test_m_backend.Common.{ℕ, String, Bool, Option, List}

pub data Sensitivity : Type 0 where
  public internal restricted critical : Sensitivity
  other : String → Sensitivity

pub data Trust : Type 0 where
  trusted untrusted unknown : Trust

pub data AuthStrength : Type 0 where
  single_factor mfa phishing_resistant : AuthStrength

pub data EvidenceType : Type 0 where
  ticket incident project resource_owner_sponsorship identity_verification : EvidenceType
  device_attestation location_attestation : EvidenceType

pub data VerificationStatus : Type 0 where
  pending verified rejected : VerificationStatus

-- The roles of ROLE_SCOPES in security.py.
pub data Role : Type 0 where
  viewer ingestor analyst reviewer resource_owner context_proposer context_approver : Role
  response_operator response_approver admin : Role

-- An item of `inputs["evidence"]`.
pub record EvidenceItem : Type 0 where
  pub evidence_type : EvidenceType
  pub verification_status : VerificationStatus
  pub identity_scope : List String
  pub resource_scope : List String
  pub action_scope : List String

pub record PolicyInputs : Type 0 where
  pub subject_identity : String
  pub resource_id : String
  pub resource_sensitivity : Sensitivity
  pub requested_action : String
  pub requested_permission : String
  pub requested_duration_seconds : ℕ
  pub business_justification : List ℕ
  pub device_trust : Trust
  pub authentication_strength : AuthStrength
  pub location_trust : Trust
  pub unresolved_critical_reasons : List String
  pub conflicting_containment : Bool
  pub evidence : List EvidenceItem
  pub break_glass : Bool
  pub is_admin : Bool

pub data Control : Type 0 where
  mfa phishing_resistant_auth trusted_device post_event_review enhanced_monitoring : Control

pub data BlockReason : Type 0 where
  device_not_trusted step_up_auth_required mfa_required untrusted_location : BlockReason
  unresolved_critical_security_evidence active_containment_conflict : BlockReason
  unknown_resource_sensitivity break_glass_admin_required : BlockReason
  break_glass_justification_required : BlockReason

pub data MissingEvidence : Type 0 where
  verified_business_context resource_owner_sponsorship verified_scoped_evidence : MissingEvidence

-- What the decision's identifier is the hash of.
pub record Canonical : Type 0 where
  pub resource : String
  pub action : String
  pub eligible : Bool
  pub blocked : List BlockReason
  pub missing : List MissingEvidence

pub record AccessPolicyDecision : Type 0 where
  pub policy_decision_id : String
  pub eligibility : Bool
  pub maximum_permission : Option String
  pub maximum_duration_seconds : ℕ
  pub required_controls : List Control
  pub required_approver_roles : List Role
  pub missing_evidence : List MissingEvidence
  pub blocking_reasons : List BlockReason
  pub allowed_resources : List String
  pub explicitly_denied_resources : List String
