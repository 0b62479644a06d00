-- ===== src/AccessControl/Samples.antt =====
-- Data for the tests: an environment whose n-th reading of the clock and of uuid4 is n, and a
-- request for a public document.
use test_m_backend.Common.{false, refl, none, some, [], ◌∷◌, arith, filter}
use test_m_backend.AccessControl.Policy.Values.{
  Sensitivity, Trust, AuthStrength, EvidenceType, VerificationStatus, PolicyInputs,
}
use test_m_backend.AccessControl.Models.{
  Workflow, ExternalStatus, AiStatus, Metadata, AccessRequest, Tables, Env,
}
use test_m_backend.AccessControl.Audit.Chain.{Ticking}
use test_m_backend.AccessControl.Enforcement.{EnforcementProvider, sandbox_provider}
use test_m_backend.AccessControl.Service.Consistent.{IsOrderly}
use test_m_backend.AccessControl.Audit.{of_tenant, verify_from, verify_audit_chain}
use test_m_backend.Common.Order.{sorted}
use test_m_backend.AccessControl.Service.Monad.{Session}
use test_m_backend.AccessControl.Service.Methods.{Surroundings}
use test_m_backend.AccessControl.Service.Creation.{AccessRequestCreate, insert_request}

abbrev pub sample_env : Env
sample_env = record {
  uuid = λ n. n;
  now = λ n. n;
  policy_digest = λ c. "pol";
  evidence_digest = λ e. "evidence";
  audit_digest = λ b. "audit";
}

pub sample-Ticking : Ticking sample_env
sample-Ticking n = omega arith

abbrev pub no_tables : Tables
no_tables = record { audits = []; outbox = []; notifications = []; reviews = []; tick = 0 }

pub no_tables-IsOrderly : IsOrderly sample_env no_tables
no_tables-IsOrderly = record {
  chained = record {
    ascending = tt;
    verified = λ tenant. unfold verify_audit_chain verify_from of_tenant filter sorted in refl;
  };
  past = tt;
  keys = tt;
  sound = tt;
}

abbrev pub sample_payload : AccessRequestCreate
sample_payload = record {
  subject_identity = "arjun";
  resource_id = "handbook";
  resource_sensitivity = Sensitivity.public;
  requested_action = "read";
  requested_permission = "handbook:read";
  business_justification = [];
  requested_duration_seconds = 600;
  linked_case_id = none;
  device_trust = Trust.unknown;
  authentication_strength = AuthStrength.mfa;
  location_trust = Trust.trusted;
  break_glass = false;
}

abbrev pub sample_request : AccessRequest
sample_request = record {
  id = 1;
  tenant_id = "tenant";
  subject_identity = sample_payload.subject_identity;
  requester_identity = "arjun";
  resource_id = sample_payload.resource_id;
  resource_sensitivity = sample_payload.resource_sensitivity;
  requested_action = sample_payload.requested_action;
  requested_permission = sample_payload.requested_permission;
  business_justification = sample_payload.business_justification;
  requested_duration_seconds = sample_payload.requested_duration_seconds;
  device_trust = sample_payload.device_trust;
  authentication_strength = sample_payload.authentication_strength;
  location_trust = sample_payload.location_trust;
  linked_case_id = sample_payload.linked_case_id;
  external_status = ExternalStatus.paused;
  workflow_state = Workflow.paused;
  updated_at = 0;
  resolved_at = none;
  version = 1;
  idempotency_key = "key";
  policy_decision = none;
  ai_review_status = AiStatus.not_requested;
  break_glass = sample_payload.break_glass;
  evidence = [];
  approvals = [];
  transitions =
      (record {
        from_state = none;
        to_state = Workflow.paused;
        actor = "arjun";
        timestamp = 0;
        reason = some "Access is paused before exposure";
        metadata_json = Metadata.nothing;
      })
      ∷ [];
  grant = none;
}

abbrev pub quiet : Surroundings
quiet = record { case_rows = λ n. none; active_actions = λ e. 0 }

abbrev pub sandbox : EnforcementProvider
sandbox = sandbox_provider (λ n. "sandbox")

abbrev pub new_session : Session
new_session = (insert_request sample_env "tenant" "arjun" sample_payload "key" no_tables).1

abbrev pub sample_inputs : PolicyInputs
sample_inputs = record {
  subject_identity = "arjun";
  resource_id = "payroll";
  resource_sensitivity = Sensitivity.restricted;
  requested_action = "read";
  requested_permission = "payroll:read";
  requested_duration_seconds = 20000;
  business_justification = [];
  device_trust = Trust.trusted;
  authentication_strength = AuthStrength.mfa;
  location_trust = Trust.trusted;
  unresolved_critical_reasons = [];
  conflicting_containment = false;
  evidence =
      (record {
        evidence_type = EvidenceType.ticket;
        verification_status = VerificationStatus.verified;
        identity_scope = [];
        resource_scope = "payroll" ∷ [];
        action_scope = [];
      })
      ∷ [];
  break_glass = false;
  is_admin = false;
}
