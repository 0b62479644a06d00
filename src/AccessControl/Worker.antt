-- ===== src/AccessControl/Worker.antt =====
-- access_control/worker.py: what the worker does with a job, on the request that the job names.
pub mod Preserved
pub mod Authority
pub mod Outcomes
use mathlib.Core.Option
use test_m_backend.Common.{
  ℕ, suc, ◌+◌, String, Bool, true, false, not, ◌&&◌, ◌≡◌, Option, none, some, List, [], ◌∷◌, ◌++◌,
  leb, ◌==◌, string_eq, filter, if◌then◌else◌,
}
use test_m_backend.Common.Order.{sorted}
use test_m_backend.AccessControl.Policy.Values.{Sensitivity}
use test_m_backend.AccessControl.Policy.Decide.{is_critical}
use test_m_backend.AccessControl.Models.{
  Workflow, AiStatus, Enforcement, ProviderResult, Metadata, AiReviewOutput, ReviewResult,
  AccessAiReview, Grant, AccessRequest, AggregateType, JobType, Payload, DedupKey, NotificationType,
  Env, Tables, Error, Job, seconds,
}
use test_m_backend.AccessControl.Outbox.{JobSpec, enqueue, complete_job, retry_job}
use test_m_backend.AccessControl.Enforcement.{EnforcementProvider}
use test_m_backend.AccessControl.Service.Monad.{
  Session, Result, ok, err, Action, pure, raise, gets, ◌>>=◌, ◌>>◌, given, guard, only_if, modify,
  update, now_utc, uuid4,
}
use test_m_backend.AccessControl.Service.Transition.{transition, notify}
use test_m_backend.AccessControl.Service.Methods.{update_grant}

-- A call of a provider: its answer, or the exception that it raises.
unfoldable pub call : {A : Type 0} → Result A → Action A
call r s = (r, s)

unfoldable pub is_completed : AiStatus → Bool
is_completed AiStatus.completed = true
is_completed _ = false

unfoldable pub is_revoking : Workflow → Bool
is_revoking Workflow.revoking = true
is_revoking _ = false

-- `{"REVOKED", "EXPIRED"}`
unfoldable pub is_withdrawn : Workflow → Bool
is_withdrawn Workflow.revoked = true
is_withdrawn Workflow.expired = true
is_withdrawn _ = false

unfoldable pub first : List AccessAiReview → Option AccessAiReview
first [] = none
first (row ∷ _) = some row

-- The latest completed review of a tenant on the same sanitized input.
unfoldable pub cached_review : String → String → List AccessAiReview → Option AccessAiReview
unfolding first is_completed
cached_review tenant hash rows = first (
    sorted (λ a b. leb b.created_at a.created_at)
      (filter
        (λ r. r.tenant_id == tenant && (r.sanitized_input_hash == hash && is_completed r.status))
        rows))

-- The row of a review, copied from a cached one if there is one.
unfoldable pub review_row :
    ℕ → ℕ → AccessRequest → ReviewResult → Option AccessAiReview → AccessAiReview
review_row id time r result cached =
    let output : Option AiReviewOutput = elim cached [
      | none ↦ result.output
      | some row ↦ row.output
    ] in
    record {
      id = id;
      tenant_id = r.tenant_id;
      request_id = r.id;
      provider = elim cached [ none ↦ result.provider | some _ ↦ "cache" ];
      model = result.model;
      prompt_version = result.prompt_version;
      sanitized_input_hash = result.sanitized_input_hash;
      output = output;
      latency_ms = elim cached [ none ↦ result.latency_ms | some _ ↦ 0 ];
      token_usage = elim cached [ none ↦ result.token_usage | some _ ↦ [] ];
      confidence = Option.map (λ o. o.confidence) output;
      status = elim cached [ none ↦ result.status | some _ ↦ AiStatus.completed ];
      failure_reason = result.failure_reason;
      created_at = time;
    }

unfoldable pub review_added : AccessAiReview → Tables → Tables
review_added row t = record t { reviews = t.reviews ++ row ∷ [] }

unfoldable pub reviewed : AiStatus → AccessRequest → AccessRequest
reviewed status r = record r { ai_review_status = status }

-- The assignments to `grant`.
unfoldable pub with_enforcement : Enforcement → Grant → Grant
with_enforcement state g = record g { enforcement_state = state }

unfoldable pub activated : String → ℕ → Grant → Grant
activated reference time g = record g {
  connector_reference = some reference;
  enforcement_state = Enforcement.active;
  activated_at = some time;
  expires_at = some (time + seconds g.maximum_ttl_seconds);
}

-- `grant.revocation_reason or "Reviewer revoked grant"`
unfoldable pub reason_or : String → Option String → String
reason_or default none = default
reason_or default (some reason) = if reason == "" then default else reason

module _ (env : Env) where
  -- after the row of the review, what becomes of the request
  unfoldable pub conclude_review : AccessAiReview → Action (Unit {0})
  conclude_review row = do
    modify (reviewed row.status)
    transition env Workflow.ai_reviewed "jit-worker"
        (some (
          if is_completed row.status
          then "Advisory AI review completed"
          else "AI review unavailable; no result fabricated"))
        (Metadata.review row.id)
    r ← gets (λ s. s.request)
    if not (is_completed row.status) && is_critical r.resource_sensitivity
        then transition env Workflow.more_context_required "jit-worker"
            (some "Critical access fails closed when advisory review is unavailable")
            Metadata.nothing
        else transition env Workflow.awaiting_approval "jit-worker"
            (some "Deterministic policy remains authoritative") Metadata.nothing

  -- `provider.review(_ai_payload(request))` is the argument, as what the provider answers
  unfoldable pub process_ai : (AccessRequest → Result ReviewResult) → Action (Unit {0})
  process_ai review = do
    r ← gets (λ s. s.request)
    result ← call (review r)
    rows ← gets (λ s. s.tables.reviews)
    id ← uuid4 env
    time ← now_utc env
    let row =
        review_row id time r result (cached_review r.tenant_id result.sanitized_input_hash rows)
    update (review_added row)
    conclude_review row

  -- the end of an activation that the provider has accepted
  unfoldable pub confirm : Grant → ProviderResult → Action (Unit {0})
  confirm g verification =
      if verification.verified
      then (do
        transition env Workflow.active "jit-worker" (some "Grant activated and verified")
            (Metadata.activation g.connector_reference verification)
        r ← gets (λ s. s.request)
        update λ t.
            (enqueue env
              (record {
                tenant_id = r.tenant_id;
                aggregate_type = AggregateType.access_grant;
                aggregate_id = g.id;
                job_type = JobType.expiry;
                payload = Payload.for_grant r.id g.id;
                deduplication_key = DedupKey.expire g.id;
                available_at = g.expires_at;
              })
              t).1
        notify env NotificationType.access_activated r.requester_identity)
      else (do
        modify (update_grant (with_enforcement Enforcement.verification_failed))
        transition env Workflow.enforcement_failed "jit-worker"
            (some "Enforcement verification failed") Metadata.nothing)

  -- what follows the answer of `provider.activate`
  unfoldable pub activate_grant :
      EnforcementProvider → Grant → ℕ → ProviderResult → Action (Unit {0})
  activate_grant provider g correlation result =
      if result.success
      then (do
        time ← now_utc env
        modify (update_grant (activated result.connector_reference time))
        verification ←
            call (provider.verify (activated result.connector_reference time g) correlation)
        confirm (activated result.connector_reference time g) verification)
      else (do
        modify (update_grant (with_enforcement Enforcement.failed))
        transition env Workflow.enforcement_failed "jit-worker"
            (some "Enforcement provider rejected activation") Metadata.nothing
        r ← gets (λ s. s.request)
        notify env NotificationType.enforcement_failure r.requester_identity)

  unfoldable pub process_enforcement : EnforcementProvider → Action (Unit {0})
  process_enforcement provider = do
    r ← gets (λ s. s.request)
    correlation ← uuid4 env
    given r.grant (raise Error.attribute_error) λ g. do
      result ← call (provider.activate g correlation)
      activate_grant provider g correlation result

  -- what follows the answer of `provider.revoke`
  unfoldable pub withdraw : Bool → Grant → ProviderResult → Action (Unit {0})
  withdraw expired g result =
      if result.verified
      then (do
        modify (
            update_grant
              (with_enforcement (if expired then Enforcement.expired else Enforcement.revoked)))
        if expired
            then transition env Workflow.expired "jit-worker" (some "Grant TTL expired")
                Metadata.nothing
            else transition env Workflow.revoked "jit-worker"
                (some (reason_or "Reviewer revoked grant" g.revocation_reason)) Metadata.nothing
        r ← gets (λ s. s.request)
        notify env
            (if expired then NotificationType.access_expired else NotificationType.access_revoked)
            r.requester_identity)
      else (do
        modify (update_grant (with_enforcement Enforcement.revocation_failed))
        r ← gets (λ s. s.request)
        only_if (not (is_revoking r.workflow_state)) (
            transition env Workflow.revoking "jit-worker" (some "Expiry revocation started")
              Metadata.nothing)
        transition env Workflow.enforcement_failed "jit-worker"
            (some "Revocation verification failed") Metadata.nothing)

  unfoldable pub process_revoke : EnforcementProvider → Bool → Action (Unit {0})
  process_revoke provider expired = do
    r ← gets (λ s. s.request)
    if is_withdrawn r.workflow_state then pure tt else (do
      correlation ← uuid4 env
      given r.grant (raise Error.attribute_error)
          λ g. do result ← call (provider.revoke g correlation); withdraw expired g result)

  -- the dispatch on `job.job_type`, with `deliver` for `_deliver_notification`
  unfoldable pub process_job :
      (AccessRequest → Result ReviewResult)
      → EnforcementProvider
      → Action (Unit {0})
      → JobType
      → Action (Unit {0})
  process_job review provider deliver JobType.ai_review = process_ai review
  process_job review provider deliver JobType.enforcement = process_enforcement provider
  process_job review provider deliver JobType.revocation = process_revoke provider false
  process_job review provider deliver JobType.expiry = process_revoke provider true
  process_job review provider deliver JobType.notification = deliver
  process_job review provider deliver (JobType.other _) = raise Error.value_error

-- the row of the job after `try ... except Exception`
unfoldable pub settle : ℕ → Result (Unit {0}) → Job → Job
settle now (ok _) j = complete_job now j
settle now (err e) j = retry_job e now j
