-- ===== src/AccessControl/Service/Preserved.antt =====
-- Every method of access_control/service.py keeps a session consistent, whether it returns or raises.
use test_m_backend.Common.{ℕ, String, Bool, Option, Bool-cases, inl, inr}
use test_m_backend.AccessControl.Policy.Values.{Role, AccessPolicyDecision}
use test_m_backend.AccessControl.Models.{
  Workflow, Verdict, Metadata, EvidencePayload, Evidence, Approval, Grant, AuditAction, Details,
  AggregateType, JobType, Payload, DedupKey, NotificationType, Tables, Env,
}
use test_m_backend.AccessControl.Audit.Chain.{Ticking}
use test_m_backend.AccessControl.Service.Monad.{Action, modify, update, now_utc, uuid4}
use test_m_backend.AccessControl.Service.Transition.{allowed, transition, notify}
use test_m_backend.AccessControl.Service.Keeps.{Keeps, keeps_rules}
use test_m_backend.AccessControl.Service.Consistent.{
  IsOrderly, IsConsistent, ticked-IsOrderly, enqueue-IsOrderly, append_audit_now-IsOrderly,
  notified-IsOrderly, enter-IsConsistent,
}
use test_m_backend.AccessControl.Service.Methods.{
  Surroundings, evidence_added, decided, review_queued, approval_added, granted, update_grant,
  audit, post, attach_evidence, add_evidence, apply_decision, evaluate_request, request_ai_review,
  request_revocation, request_more_context,
}
use test_m_backend.AccessControl.Service.Approvals.{
  issue_grant, prepare_grant, create_grant, file_approval, record_approval,
}

module _ (env : Env) (ticking : Ticking env) where
  abbrev pub Safe : {A : Type 0} → Action A → Type 0
  Safe = Keeps (IsConsistent env)

  pub transition-Safe :
      (state : Workflow) (actor : String) (reason : Option String) (metadata : Metadata)
      → Safe (transition env state actor reason metadata)
  unfolding transition
  transition-Safe state actor reason metadata = record {
    at = λ s h. elim (Bool-cases (allowed s.request.workflow_state state)) [
      | inl a ↦ rw a (enter-IsConsistent env ticking state actor reason metadata s a h)
      | inr a ↦ rw a h
    ];
  }

  pub update-Safe :
      (f : Tables → Tables)
      → ((t : Tables) → IsOrderly env t → IsOrderly env (f t))
      → Safe (update f)
  unfolding update
  update-Safe f keep = record {
    at = λ s h. record { history = h.history; orderly = keep s.tables h.orderly };
  }

  pub notify-Safe :
      (kind : NotificationType) (recipient : String) → Safe (notify env kind recipient)
  unfolding notify
  notify-Safe kind recipient = record {
    at = λ s h. record {
      history = h.history;
      orderly = notified-IsOrderly env ticking kind recipient s.request s.tables h.orderly;
    };
  }

  pub now_utc-Safe : Safe (now_utc env)
  unfolding now_utc
  now_utc-Safe = record {
    at = λ s h. record {
      history = h.history;
      orderly = ticked-IsOrderly env ticking s.tables h.orderly;
    };
  }

  pub uuid4-Safe : Safe (uuid4 env)
  unfolding uuid4
  uuid4-Safe = record {
    at = λ s h. record {
      history = h.history;
      orderly = ticked-IsOrderly env ticking s.tables h.orderly;
    };
  }

  pub audit-Safe :
      (actor : String) (action : AuditAction) (details : Details)
      → Safe (audit env actor action details)
  unfolding audit
  audit-Safe actor action details =
      search (keeps_rules, uuid4-Safe, update-Safe, append_audit_now-IsOrderly env ticking)

  post-Safe :
      (a : AggregateType) (id : ℕ) (job : JobType) (payload : Payload) (key : DedupKey)
      → Safe (post env a id job payload key)
  unfolding post
  post-Safe a id job payload key = search (keeps_rules, update-Safe, enqueue-IsOrderly env ticking)

  evidence_added-Safe : (row : Evidence) → Safe (modify (evidence_added row))
  unfolding modify evidence_added
  evidence_added-Safe row = record {
    at = λ s h. record { history = h.history; orderly = h.orderly };
  }

  decided-Safe : (d : AccessPolicyDecision) (time : ℕ) → Safe (modify (decided d time))
  unfolding modify decided
  decided-Safe d time = record { at = λ s h. record { history = h.history; orderly = h.orderly } }

  review_queued-Safe : Safe (modify review_queued)
  unfolding modify review_queued
  review_queued-Safe = record { at = λ s h. record { history = h.history; orderly = h.orderly } }

  approval_added-Safe : (row : Approval) → Safe (modify (approval_added row))
  unfolding modify approval_added
  approval_added-Safe row = record {
    at = λ s h. record { history = h.history; orderly = h.orderly };
  }

  granted-Safe : (g : Grant) → Safe (modify (granted g))
  unfolding modify granted
  granted-Safe g = record { at = λ s h. record { history = h.history; orderly = h.orderly } }

  pub update_grant-Safe : (f : Grant → Grant) → Safe (modify (update_grant f))
  unfolding modify update_grant
  update_grant-Safe f = record { at = λ s h. record { history = h.history; orderly = h.orderly } }

  ruleset safe_rules = (
    keeps_rules, transition-Safe, notify-Safe, now_utc-Safe, uuid4-Safe, audit-Safe, post-Safe,
    evidence_added-Safe, decided-Safe, review_queued-Safe, approval_added-Safe, granted-Safe,
    update_grant-Safe,
  )

  attach_evidence-Safe :
      (payload : EvidencePayload) (actor : String) → Safe (attach_evidence env payload actor)
  unfolding attach_evidence
  attach_evidence-Safe payload actor = search safe_rules depth 30

  pub add_evidence-Safe :
      (payload : EvidencePayload) (actor : String) → Safe (add_evidence env payload actor)
  unfolding add_evidence
  add_evidence-Safe payload actor = search (safe_rules, attach_evidence-Safe) depth 30

  apply_decision-Safe : (d : AccessPolicyDecision) → Safe (apply_decision env d)
  unfolding apply_decision
  apply_decision-Safe d = search safe_rules depth 30

  pub evaluate_request-Safe :
      (w : Surroundings) (is_admin : Bool) → Safe (evaluate_request env w is_admin)
  unfolding evaluate_request
  evaluate_request-Safe w is_admin = search (safe_rules, apply_decision-Safe) depth 30

  pub request_ai_review-Safe : (actor : String) → Safe (request_ai_review env actor)
  unfolding request_ai_review
  request_ai_review-Safe actor = search safe_rules depth 30

  pub request_revocation-Safe : (actor reason : String) → Safe (request_revocation env actor reason)
  unfolding request_revocation
  request_revocation-Safe actor reason = search safe_rules depth 30

  pub request_more_context-Safe : (actor note : String) → Safe (request_more_context env actor note)
  unfolding request_more_context
  request_more_context-Safe actor note = search safe_rules depth 30

  create_grant-Safe : (actor : String) → Safe (create_grant env actor)
  unfolding create_grant prepare_grant issue_grant
  create_grant-Safe actor = search safe_rules depth 30

  file_approval-Safe :
      (actor : String) (role : Role) (decision : Verdict) (note : String)
      → Safe (file_approval env actor role decision note)
  unfolding file_approval
  file_approval-Safe actor role decision note = search (safe_rules, create_grant-Safe) depth 40

  pub record_approval-Safe :
      (actor : String) (role : Role) (decision : Verdict) (note : String) (version : ℕ)
      → Safe (record_approval env actor role decision note version)
  unfolding record_approval
  record_approval-Safe actor role decision note version =
      search (safe_rules, file_approval-Safe) depth 40
