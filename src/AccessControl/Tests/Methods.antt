-- ===== src/AccessControl/Tests/Methods.antt =====
-- The outcomes of methods and of jobs, at concrete inputs.
use test_m_backend.Common.{true, false, ◌≡◌, refl, Option, none, some, [], ◌∷◌, when, any, filter}
use test_m_backend.Common.Order.{sorted_set, insert_once}
use test_m_backend.AccessControl.Policy.Values.{Role, AuthStrength}
use test_m_backend.AccessControl.Policy.Decide
use test_m_backend.AccessControl.Policy.Decide.{evaluate_access_policy}
use test_m_backend.AccessControl.Models.{
  Workflow, Verdict, Enforcement, ProviderResult, Grant, Error,
}
use test_m_backend.AccessControl.Enforcement.{sandbox_provider}
use test_m_backend.AccessControl.Service.Monad.{Session, ok, err}
use test_m_backend.AccessControl.Service.Methods.{
  policy_inputs, can_evaluate, case_reasons, evaluate_request,
}
use test_m_backend.AccessControl.Service.Approvals.{record_approval}
use test_m_backend.AccessControl.Service.Outcomes.{
  outcome, approval_refused, evaluation_outcome, context_stuck,
}
use test_m_backend.AccessControl.Worker.{
  activated, with_enforcement, process_enforcement, process_revoke, is_withdrawn,
}
use test_m_backend.AccessControl.Worker.Outcomes.{
  HasConcluded, enforcement_confirmed, enforcement_ends, enforcement_verified, expiry_stuck,
}
use test_m_backend.AccessControl.Samples.{sample_env, quiet, sandbox, no_tables, sample_request}

abbrev in_state : Workflow → Option Grant → Session
in_state state grant = record {
  request = record sample_request { workflow_state = state; grant = grant };
  tables = no_tables;
}

abbrev some_grant : Grant
some_grant = record {
  id = 3;
  exact_resource = "handbook";
  exact_permission = some "handbook:read";
  allowed_actions = "read" ∷ [];
  denied_actions = [];
  maximum_ttl_seconds = 600;
  activated_at = none;
  expires_at = none;
  required_authentication_strength = AuthStrength.mfa;
  approvers = ("ria", Role.reviewer) ∷ [];
  enforcement_state = Enforcement.pending;
  connector_reference = none;
  revocation_reason = none;
}

abbrev accepted : ProviderResult
accepted = record { success = true; connector_reference = "sandbox"; verified = true }

approval_refused_example :
    (e : Error) × (record_approval sample_env "arjun" Role.reviewer Verdict.approve "mine" 1
        (in_state Workflow.evidence_ready none)
      ≡ (err e, in_state Workflow.evidence_ready none))
approval_refused_example =
    approval_refused sample_env "arjun" Role.reviewer Verdict.approve "mine" 1
      (in_state Workflow.evidence_ready none) (λ may. may.1 refl)

evaluation_outcome_example :
    let s = in_state Workflow.paused none in
    let d = evaluate_access_policy sample_env.policy_digest (policy_inputs quiet s.request false) in
    let (r, s') = evaluate_request sample_env quiet false s in
    (r ≡ ok d)
    × (s'.request.workflow_state ≡ outcome d Workflow.paused)
    × (s'.request.policy_decision ≡ some d)
evaluation_outcome_example =
    evaluation_outcome sample_env quiet false (in_state Workflow.paused none)
      (unfold can_evaluate in refl)

confirmed_run :
    let (r, s') =
      process_enforcement sample_env sandbox (in_state Workflow.enforcing (some some_grant)) in
    let active = activated "sandbox" 1 some_grant in
    (r ≡ ok tt) × (s'.request.workflow_state ≡ Workflow.active) × (s'.request.grant ≡ some active)
confirmed_run =
    enforcement_confirmed sample_env sandbox some_grant
      (in_state Workflow.enforcing (some some_grant)) accepted accepted refl refl
      (unfold sandbox_provider in refl) refl (unfold sandbox_provider activated in refl) refl

enforcement_ends_example :
    let s = in_state Workflow.enforcing (some some_grant) in
    HasConcluded sample_env sandbox some_grant s (process_enforcement sample_env sandbox s)
enforcement_ends_example =
    enforcement_ends sample_env sandbox some_grant (in_state Workflow.enforcing (some some_grant))
      refl refl

enforcement_verified_example :
    (a : ProviderResult) × (v : ProviderResult) × (sandbox.activate some_grant 0 ≡ ok a)
    × (a.success ≡ true)
    × (sandbox.verify (activated a.connector_reference 1 some_grant) 0 ≡ ok v)
    × (v.verified ≡ true)
enforcement_verified_example =
    enforcement_verified sample_env sandbox some_grant
      (in_state Workflow.enforcing (some some_grant)) refl refl confirmed_run.1

expiry_stuck_example :
    let s = in_state Workflow.revoking (some some_grant) in
    let (r, s') = process_revoke sample_env sandbox true s in
    (r ≡ err Error.value_error)
    × (s'.request.workflow_state ≡ Workflow.revoking)
    × (s'.request.grant ≡ some (with_enforcement Enforcement.expired some_grant))
expiry_stuck_example =
    expiry_stuck sample_env sandbox some_grant (in_state Workflow.revoking (some some_grant))
      accepted (unfold is_withdrawn in refl) (λ e. cc) refl (unfold sandbox_provider in refl) refl

context_stuck_example :
    let s = in_state Workflow.more_context_required none in
    let d = evaluate_access_policy sample_env.policy_digest (policy_inputs quiet s.request false) in
    let (r, s') = evaluate_request sample_env quiet false s in
    (r ≡ ok d)
    × ((e : Error) × (record_approval sample_env "ria" Role.reviewer Verdict.approve "fine" 2 s'
          ≡ (err e, s')))
unfolding evaluate_access_policy policy_inputs case_reasons Decide.blocked Decide.missing sorted_set
    insert_once when any filter Decide.is_empty Decide.sensitivity_ttl Decide.is_critical
    Decide.is_public Decide.is_guarded Decide.is_listed Decide.is_trusted Decide.is_untrusted
    Decide.resists_phishing Decide.is_multi_factor Decide.scoped Decide.scoped_type
context_stuck_example =
    context_stuck sample_env quiet false (in_state Workflow.more_context_required none) "ria"
      Role.reviewer Verdict.approve "fine" 2 refl refl refl
