-- ===== src/AccessControl/Service/Creation.antt =====
-- `create_request` of access_control/service.py.
use test_m_backend.Common.{
  ℕ, String, Bool, not, ◌&&◌, Option, none, some, List, [], ◌∷◌, ◌++◌, ◌==◌, string_eq, find,
  if◌then◌else◌,
}
use test_m_backend.AccessControl.Policy.Values.{Sensitivity, Trust, AuthStrength}
use test_m_backend.AccessControl.Models.{
  Workflow, ExternalStatus, AiStatus, Metadata, AccessRequest, AuditAction, Details,
  NotificationType, Env, Tables, Error,
}
use test_m_backend.AccessControl.Service.Monad.{
  Session, Result, ok, err, ticked, gets, ◌>>=◌, ◌>>◌, Action, pure,
}
use test_m_backend.AccessControl.Service.Transition.{notify}
use test_m_backend.AccessControl.Service.Methods.{audit}

-- The fields of schemas.AccessRequestCreate.
pub record AccessRequestCreate : Type 0 where
  pub subject_identity : String
  pub resource_id : String
  pub resource_sensitivity : Sensitivity
  pub requested_action : String
  pub requested_permission : String
  pub business_justification : List ℕ
  pub requested_duration_seconds : ℕ
  pub linked_case_id : Option ℕ
  pub device_trust : Trust
  pub authentication_strength : AuthStrength
  pub location_trust : Trust
  pub break_glass : Bool

unfoldable pub has_idempotency_key : String → String → AccessRequest → Bool
has_idempotency_key tenant key r = r.tenant_id == tenant && r.idempotency_key == key

-- The row of a new request and its first transition, with the defaults of the columns.
unfoldable pub new_request : ℕ → ℕ → String → String → AccessRequestCreate → String → AccessRequest
new_request id time tenant requester payload key = record {
  id = id;
  tenant_id = tenant;
  subject_identity = payload.subject_identity;
  requester_identity = requester;
  resource_id = payload.resource_id;
  resource_sensitivity = payload.resource_sensitivity;
  requested_action = payload.requested_action;
  requested_permission = payload.requested_permission;
  business_justification = payload.business_justification;
  requested_duration_seconds = payload.requested_duration_seconds;
  device_trust = payload.device_trust;
  authentication_strength = payload.authentication_strength;
  location_trust = payload.location_trust;
  linked_case_id = payload.linked_case_id;
  external_status = ExternalStatus.paused;
  workflow_state = Workflow.paused;
  updated_at = time;
  resolved_at = none;
  version = 1;
  idempotency_key = key;
  policy_decision = none;
  ai_review_status = AiStatus.not_requested;
  break_glass = payload.break_glass;
  evidence = [];
  approvals = [];
  transitions =
      (record {
        from_state = none;
        to_state = Workflow.paused;
        actor = requester;
        timestamp = time;
        reason = some "Access is paused before exposure";
        metadata_json = Metadata.nothing;
      })
      ∷ [];
  grant = none;
}

module _ (env : Env) where
  -- the audit entry and the notification of a new request
  unfoldable pub announce : String → Action AccessRequest
  announce requester = do
    r ← gets (λ s. s.request)
    audit env requester AuditAction.request_created
        (Details.created r.resource_id r.requested_permission)
    notify env NotificationType.new_paused_request "resource-reviewers"
    pure r

  -- what follows the two checks
  unfoldable pub insert_request :
      String → String → AccessRequestCreate → String → Tables → Result AccessRequest × Session
  insert_request tenant requester payload key t = announce requester (record {
    request = new_request (env.uuid t.tick) (env.now t.tick) tenant requester payload key;
    tables = ticked t;
  })

-- What `create_request` answers, the requests and the tables afterwards.
unfoldable pub create_request :
    Env
    → String
    → String
    → AccessRequestCreate
    → String
    → Bool
    → List AccessRequest
    → Tables
    → Result AccessRequest × List AccessRequest × Tables
unfolding has_idempotency_key insert_request
create_request env tenant requester payload key is_admin requests t =
    elim (find (has_idempotency_key tenant key) requests) [
      | some existing ↦ (ok existing, requests, t)
      | none ↦
          if payload.break_glass && not is_admin
          then (err Error.permission_error, requests, t)
          else let (r, s) = insert_request env tenant requester payload key t in
            (r, requests ++ s.request ∷ [], s.tables)
    ]
