-- ===== src/AccessControl/Service/Transition.antt =====
-- ALLOWED_TRANSITIONS, `transition` and `notify` of access_control/service.py.
use test_m_backend.Common.{
  ℕ, suc, ◌+◌, String, Bool, true, false, Option, none, some, [], ◌∷◌, ◌++◌, if◌then◌else◌,
}
use test_m_backend.AccessControl.Models.{
  Workflow, ExternalStatus, Metadata, AccessRequest, AuditAction, AggregateType, Details,
  AuditEntry, JobType, Payload, DedupKey, NotificationType, Notification, Delivery, Env, Tables,
  Error,
}
use test_m_backend.AccessControl.Audit.{append_audit}
use test_m_backend.AccessControl.Outbox.{enqueue}
use test_m_backend.AccessControl.Service.Monad.{Session, ok, err, Action, ticked}

unfoldable pub allowed : Workflow → Workflow → Bool
allowed Workflow.paused Workflow.evidence_ready = true
allowed Workflow.paused Workflow.more_context_required = true
allowed Workflow.paused Workflow.denied = true
allowed Workflow.evidence_ready Workflow.ai_review_pending = true
allowed Workflow.evidence_ready Workflow.more_context_required = true
allowed Workflow.evidence_ready Workflow.awaiting_approval = true
allowed Workflow.evidence_ready Workflow.denied = true
allowed Workflow.ai_review_pending Workflow.ai_reviewed = true
allowed Workflow.ai_review_pending Workflow.more_context_required = true
allowed Workflow.ai_review_pending Workflow.denied = true
allowed Workflow.ai_reviewed Workflow.more_context_required = true
allowed Workflow.ai_reviewed Workflow.awaiting_approval = true
allowed Workflow.ai_reviewed Workflow.denied = true
allowed Workflow.more_context_required Workflow.evidence_ready = true
allowed Workflow.more_context_required Workflow.denied = true
allowed Workflow.awaiting_approval Workflow.approved = true
allowed Workflow.awaiting_approval Workflow.more_context_required = true
allowed Workflow.awaiting_approval Workflow.denied = true
allowed Workflow.approved Workflow.enforcing = true
allowed Workflow.enforcing Workflow.active = true
allowed Workflow.enforcing Workflow.enforcement_failed = true
allowed Workflow.active Workflow.revoking = true
allowed Workflow.active Workflow.expired = true
allowed Workflow.revoking Workflow.revoked = true
allowed Workflow.revoking Workflow.enforcement_failed = true
allowed Workflow.enforcement_failed Workflow.revoking = true
allowed _ _ = false

unfoldable pub external : Workflow → ExternalStatus
external Workflow.paused = ExternalStatus.paused
external Workflow.active = ExternalStatus.active
external Workflow.denied = ExternalStatus.denied
external Workflow.revoked = ExternalStatus.revoked
external Workflow.expired = ExternalStatus.expired
external Workflow.enforcement_failed = ExternalStatus.enforcement_failed
external _ = ExternalStatus.in_review

-- `state in {"DENIED", "REVOKED", "EXPIRED"}`
unfoldable pub is_resolved : Workflow → Bool
is_resolved Workflow.denied = true
is_resolved Workflow.revoked = true
is_resolved Workflow.expired = true
is_resolved _ = false

module _ (env : Env) (state : Workflow) (actor : String) (reason : Option String)
    (metadata : Metadata) where
  unfoldable pub entered : ℕ → AccessRequest → AccessRequest
  unfolding external is_resolved
  entered time r = record r {
    workflow_state = state;
    external_status = external state;
    updated_at = time;
    version = r.version + 1;
    resolved_at = if is_resolved state then some time else r.resolved_at;
    transitions =
        r.transitions
        ++ (record {
          from_state = some r.workflow_state;
          to_state = state;
          actor = actor;
          timestamp = time;
          reason = reason;
          metadata_json = metadata;
        }
            ∷ []);
  }

  unfoldable pub state_entry : AccessRequest → ℕ → AuditEntry
  state_entry r correlation = record {
    tenant_id = r.tenant_id;
    actor = actor;
    action = AuditAction.state_entered state;
    aggregate_type = AggregateType.access_request;
    aggregate_id = r.id;
    correlation_id = correlation;
    details = Details.state_change r.workflow_state reason metadata;
  }

  -- the writes of `transition`, once its check has passed
  unfoldable pub enter : Session → Session
  enter s =
      let time = env.now s.tables.tick in
      let correlation = env.uuid s.tables.tick in
      record {
        request = entered time s.request;
        tables =
            (append_audit env (state_entry s.request correlation) (some time) (ticked s.tables)).1;
      }

  unfoldable pub transition : Action (Unit {0})
  transition s =
      if allowed s.request.workflow_state state
      then (ok tt, enter s)
      else (err Error.value_error, s)

module _ (env : Env) (kind : NotificationType) (recipient : String) where
  -- the row of `notify`, and the job that delivers it
  unfoldable pub notified : AccessRequest → Tables → Tables
  notified r t =
      let row : Notification = record {
        id = env.uuid t.tick;
        tenant_id = r.tenant_id;
        recipient = recipient;
        notification_type = kind;
        request_id = r.id;
        delivery_status = Delivery.pending;
        external_reference = none;
      } in
      (enqueue env
        (record {
          tenant_id = r.tenant_id;
          aggregate_type = AggregateType.access_request;
          aggregate_id = r.id;
          job_type = JobType.notification;
          payload = Payload.for_notification row.id;
          deduplication_key = DedupKey.notify row.id;
          available_at = none;
        })
        (record t { notifications = t.notifications ++ row ∷ []; tick = suc t.tick })).1

  unfoldable pub notify : Action (Unit {0})
  notify s = (ok tt, record s { tables = notified s.request s.tables })
