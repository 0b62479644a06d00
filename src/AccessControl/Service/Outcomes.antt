-- ===== src/AccessControl/Service/Outcomes.antt =====
-- What the methods of access_control/service.py answer, and which state they leave.
use test_m_backend.Common.{
  ℕ, String, Bool, true, not, ◌≡◌, ◌≢◌, refl, sym, subst, ◌∙◌, inl, inr, some, [], arith, ◌==◌,
  nat_eq, string_eq, any, Bool-cases, if◌then◌else◌,
}
use test_m_backend.AccessControl.Policy.Values.{Role, AccessPolicyDecision}
use test_m_backend.AccessControl.Policy.Decide.{is_empty, evaluate_access_policy}
use test_m_backend.AccessControl.Models.{Workflow, Verdict, AccessRequest, Env, Error}
use test_m_backend.AccessControl.Service.Monad.{
  Session, ok, err, pure, raise, gets, ◌>>=◌, guard, only_if, modify, now_utc,
}
use test_m_backend.AccessControl.Service.Transition.{allowed, transition, enter, entered, notify}
use test_m_backend.AccessControl.Service.Methods.{
  Surroundings, role_beq, can_evaluate, is_reviewable, is_paused, is_more_context, is_awaiting,
  is_eligible, approver_roles_of, policy_inputs, decided, apply_decision, evaluate_request,
}
use test_m_backend.AccessControl.Service.Approvals.{record_approval}

-- What `record_approval` asks before it does anything.
abbrev pub MayApprove : AccessRequest → String → Role → ℕ → Type 0
MayApprove r actor role version =
    (r.version ≡ version)
    × (r.requester_identity ≢ actor)
    × (is_eligible r.policy_decision ≡ true)
    × (any (role_beq role) (approver_roles_of r.policy_decision) ≡ true)

-- An approval on another version, by the requester, without an eligible decision or in a role that
-- the decision does not ask for raises, and leaves the session as it was.
pub approval_refused :
    (env : Env) (actor : String) (role : Role) (decision : Verdict) (note : String) (version : ℕ)
    (s : Session)
    → ¬ MayApprove s.request actor role version
    → (e : Error) × (record_approval env actor role decision note version s ≡ (err e, s))
unfolding record_approval ◌>>=◌ guard gets pure raise
approval_refused env actor role decision note version s h =
    elim (Bool-cases (s.request.version == version)) [
      | inr v ↦ (Error.runtime_error, rw v refl)
      | inl v ↦ elim (Bool-cases (s.request.requester_identity == actor)) [
        | inl same ↦ (Error.permission_error, rw (v, same) refl)
        | inr differs ↦ elim (Bool-cases (is_eligible s.request.policy_decision)) [
          | inr denied ↦ (Error.permission_error, rw (v, differs, denied) refl)
          | inl eligible ↦
              elim (Bool-cases
                (any (role_beq role) (approver_roles_of s.request.policy_decision))) [
                  | inr unasked ↦ (Error.permission_error, rw (v, differs, eligible, unasked) refl)
                  | inl asked ↦ absurd (
                      h (
                        (nat_eq.equal_iff _ _).0 v,
                        (λ same. cc (differs, (string_eq.equal_iff _ _).1 same)),
                        eligible,
                        asked,
                      ))
                ]
        ]
      ]
    ]

-- In MORE_CONTEXT_REQUIRED an approval raises and leaves the session as it was.
approval_unready :
    (env : Env) (actor : String) (role : Role) (decision : Verdict) (note : String) (version : ℕ)
    (s : Session)
    → s.request.workflow_state ≡ Workflow.more_context_required
    → (e : Error) × (record_approval env actor role decision note version s ≡ (err e, s))
unfolding record_approval ◌>>=◌ guard gets pure raise only_if is_reviewable is_awaiting
approval_unready env actor role decision note version s h =
    elim (Bool-cases (s.request.version == version)) [
      | inr v ↦ (Error.runtime_error, rw v refl)
      | inl v ↦ elim (Bool-cases (s.request.requester_identity == actor)) [
        | inl same ↦ (Error.permission_error, rw (v, same) refl)
        | inr differs ↦ elim (Bool-cases (is_eligible s.request.policy_decision)) [
          | inr denied ↦ (Error.permission_error, rw (v, differs, denied) refl)
          | inl eligible ↦
              elim (Bool-cases
                (any (role_beq role) (approver_roles_of s.request.policy_decision))) [
                  | inr unasked ↦ (Error.permission_error, rw (v, differs, eligible, unasked) refl)
                  | inl asked ↦ (Error.value_error, rw (v, differs, eligible, asked, h) refl)
                ]
        ]
      ]
    ]

-- The state in which an evaluation leaves a request.
abbrev pub outcome : AccessPolicyDecision → Workflow → Workflow
outcome d from =
    if not (is_empty d.blocking_reasons)
    then Workflow.denied
    else if not (is_empty d.missing_evidence)
    then Workflow.more_context_required
    else if is_paused from
    then Workflow.evidence_ready
    else from

module _ (env : Env) (w : Surroundings) (is_admin : Bool) (s : Session) where
  -- From PAUSED, EVIDENCE_READY and MORE_CONTEXT_REQUIRED an evaluation returns the decision of the
  -- policy and records it, and the request is denied if something blocks it, waits for context if
  -- evidence is missing, and otherwise goes from PAUSED to EVIDENCE_READY and stays in the other two.
  pub evaluation_outcome :
      can_evaluate s.request.workflow_state ≡ true
      → let d = evaluate_access_policy env.policy_digest (policy_inputs w s.request is_admin) in
        let (r, s') = evaluate_request env w is_admin s in
        (r ≡ ok d)
        × (s'.request.workflow_state ≡ outcome d s.request.workflow_state)
        × (s'.request.policy_decision ≡ some d)
  unfolding evaluate_request apply_decision ◌>>=◌ guard gets pure raise only_if modify now_utc
      transition enter entered notify allowed can_evaluate decided is_paused is_more_context
  evaluation_outcome h = ground arith

  -- An eligible evaluation in MORE_CONTEXT_REQUIRED returns, and leaves the request in a state in
  -- which every approval raises.
  pub context_stuck :
      (actor : String) (role : Role) (decision : Verdict) (note : String) (version : ℕ)
      → s.request.workflow_state ≡ Workflow.more_context_required
      → (evaluate_access_policy env.policy_digest
          (policy_inputs w s.request is_admin)).blocking_reasons
        ≡ []
      → (evaluate_access_policy env.policy_digest
          (policy_inputs w s.request is_admin)).missing_evidence
        ≡ []
      → let (r, s') = evaluate_request env w is_admin s in
        (r ≡ ok (evaluate_access_policy env.policy_digest (policy_inputs w s.request is_admin)))
        × ((e : Error) × (record_approval env actor role decision note version s' ≡ (err e, s')))
  context_stuck actor role decision note version m b e =
      let (returned, state, recorded) =
        evaluation_outcome
          (subst (λ x. can_evaluate x ≡ true) (sym m) (unfold can_evaluate in refl)) in
      (returned, approval_unready env actor role decision note version _ (state ∙ waits))
    where
      waits :
          outcome
            (evaluate_access_policy env.policy_digest (policy_inputs w s.request is_admin))
            s.request.workflow_state
          ≡ Workflow.more_context_required
      waits = rw (b, e, m) (unfold is_empty is_paused in refl)
