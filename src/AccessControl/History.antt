-- ===== src/AccessControl/History.antt =====
-- Nothing that a call does is undone or rewritten by a later one: the histories only grow, the terms
-- of a request are fixed, and a resolved request stays as it was resolved.
pub mod Extension
mod Updates
use mathlib.Core.List.{append_assoc, append-nil}
use test_m_backend.Common.{
  ℕ, ◌≤◌, String, Bool, true, false, ◌≡◌, refl, sym, ap, ◌∙◌, subst, Option, none, List, [], ◌∷◌,
  ◌++◌, arith, Bool-cases, Option-cases, inl, inr, find,
}
use test_m_backend.AccessControl.Policy.Values.{Role, AccessPolicyDecision}
use test_m_backend.AccessControl.Models.{
  Workflow, Verdict, Metadata, EvidencePayload, Evidence, Approval, Grant, AccessRequest,
  AuditAction, Details, AggregateType, JobType, Payload, DedupKey, NotificationType, Tables, Env,
  ReviewResult, AccessAiReview, AiStatus, AuditEntry,
}
use test_m_backend.AccessControl.Audit.{append_audit}
use test_m_backend.AccessControl.Outbox.{JobSpec, has_key, enqueue}
use test_m_backend.AccessControl.Outbox.Unique.{enqueue_present, enqueue_absent}
use test_m_backend.AccessControl.Enforcement.{EnforcementProvider}
use test_m_backend.AccessControl.Service.Monad.{
  Session, Result, Action, modify, update, now_utc, uuid4, pure,
}
use test_m_backend.AccessControl.Service.Transition.{
  allowed, is_resolved, transition, enter, entered, notify, notified,
}
use test_m_backend.AccessControl.Service.Keeps.{Keeps, keeps_rules}
use test_m_backend.AccessControl.Service.Methods.{
  Surroundings, evidence_added, decided, review_queued, approval_added, granted, update_grant,
  audit, post, attach_evidence, add_evidence, apply_decision, evaluate_request, request_ai_review,
  request_revocation, request_more_context,
}
use test_m_backend.AccessControl.Service.Approvals.{
  issue_grant, prepare_grant, create_grant, file_approval, record_approval,
}
use test_m_backend.AccessControl.Worker.{
  review_added, reviewed, conclude_review, process_ai, confirm, activate_grant, process_enforcement,
  withdraw, process_revoke, process_job,
}
use test_m_backend.AccessControl.Worker.Preserved.{Keeps-call}
use test_m_backend.AccessControl.Reach.{Call, perform, perform_all}
use test_m_backend.AccessControl.History.Extension.{Extends, Extends-self}
use test_m_backend.AccessControl.History.Updates.{Grows, grow_rules}

module _ (env : Env) (o : Session) where
  audit-Grows :
      (actor : String) (action : AuditAction) (details : Details)
      → Grows o (audit env actor action details)
  unfolding audit
  audit-Grows actor action details = search grow_rules depth 30

  post-Grows :
      (a : AggregateType) (id : ℕ) (job : JobType) (payload : Payload) (key : DedupKey)
      → Grows o (post env a id job payload key)
  unfolding post
  post-Grows a id job payload key = search grow_rules depth 30

  add_evidence-Grows :
      (payload : EvidencePayload) (actor : String) → Grows o (add_evidence env payload actor)
  unfolding add_evidence attach_evidence
  add_evidence-Grows payload actor = search (grow_rules, audit-Grows) depth 40

  evaluate_request-Grows :
      (w : Surroundings) (is_admin : Bool) → Grows o (evaluate_request env w is_admin)
  unfolding evaluate_request apply_decision
  evaluate_request-Grows w is_admin = search grow_rules depth 40

  request_ai_review-Grows : (actor : String) → Grows o (request_ai_review env actor)
  unfolding request_ai_review
  request_ai_review-Grows actor = search (grow_rules, post-Grows) depth 40

  request_revocation-Grows : (actor reason : String) → Grows o (request_revocation env actor reason)
  unfolding request_revocation
  request_revocation-Grows actor reason = search (grow_rules, post-Grows) depth 40

  request_more_context-Grows : (actor note : String) → Grows o (request_more_context env actor note)
  unfolding request_more_context
  request_more_context-Grows actor note = search grow_rules depth 40

  create_grant-Grows : (actor : String) → Grows o (create_grant env actor)
  unfolding create_grant prepare_grant issue_grant
  create_grant-Grows actor = search (grow_rules, post-Grows) depth 40

  record_approval-Grows :
      (actor : String) (role : Role) (decision : Verdict) (note : String) (version : ℕ)
      → Grows o (record_approval env actor role decision note version)
  unfolding record_approval file_approval
  record_approval-Grows actor role decision note version =
      search (grow_rules, audit-Grows, create_grant-Grows) depth 50

  process_ai-Grows :
      (review : AccessRequest → Result ReviewResult) → Grows o (process_ai env review)
  unfolding process_ai conclude_review
  process_ai-Grows review = search grow_rules depth 40

  process_enforcement-Grows :
      (provider : EnforcementProvider) → Grows o (process_enforcement env provider)
  unfolding process_enforcement activate_grant confirm
  process_enforcement-Grows provider = search grow_rules depth 40

  process_revoke-Grows :
      (provider : EnforcementProvider) (expired : Bool)
      → Grows o (process_revoke env provider expired)
  unfolding process_revoke withdraw
  process_revoke-Grows provider expired = search grow_rules depth 40

  process_job-Grows :
      (review : AccessRequest → Result ReviewResult) (provider : EnforcementProvider)
      (kind : JobType)
      → Grows o (process_job env review provider (pure tt) kind)
  unfolding process_job
  process_job-Grows review provider JobType.ai_review = process_ai-Grows review
  process_job-Grows review provider JobType.enforcement = process_enforcement-Grows provider
  process_job-Grows review provider JobType.revocation = process_revoke-Grows provider _
  process_job-Grows review provider JobType.expiry = process_revoke-Grows provider _
  process_job-Grows review provider JobType.notification = search keeps_rules
  process_job-Grows review provider (JobType.other _) = search keeps_rules

  perform-Extends : (c : Call) (s : Session) → Extends o s → Extends o (perform env c s)
  unfolding perform
  perform-Extends (Call.evidence payload actor) = (add_evidence-Grows payload actor).at
  perform-Extends (Call.evaluation w is_admin) = (evaluate_request-Grows w is_admin).at
  perform-Extends (Call.ai_review actor) = (request_ai_review-Grows actor).at
  perform-Extends (Call.approval actor role decision note version) =
      (record_approval-Grows actor role decision note version).at
  perform-Extends (Call.revocation actor reason) = (request_revocation-Grows actor reason).at
  perform-Extends (Call.more_context actor note) = (request_more_context-Grows actor note).at
  perform-Extends (Call.job review provider kind) = (process_job-Grows review provider kind).at

  all-Extends : (cs : List Call) (s : Session) → Extends o s → Extends o (perform_all env cs s)
  unfolding perform_all
  all-Extends [] s h = h
  all-Extends (c ∷ cs) s h = all-Extends cs (perform env c s) (perform-Extends c s h)

-- After any calls in any order, the version is no lower, the transitions, the evidence, the
-- approvals and the audit records begin with those of before, the terms of the request are those of
-- before, and a request that was denied, revoked or expired is in the same state.
pub perform_all-Extends :
    (env : Env) (cs : List Call) (s : Session) → Extends s (perform_all env cs s)
perform_all-Extends env cs s = all-Extends env s cs s (Extends-self s)
