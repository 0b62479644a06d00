-- ===== src/AccessControl/Service/Clearance.antt =====
-- The approvals of a request and its grant, in record_approval and create_grant, keep it governed.
use test_m_backend.Common.{
  String, true, ◌≡◌, ◌≢◌, refl, sym, ap, subst, ◌∙◌, Option, none, some, arith, Bool-cases,
  Option-cases, inl, inr, string_eq,
}
use test_m_backend.AccessControl.Policy.Values.{Role, AccessPolicyDecision}
use test_m_backend.AccessControl.Policy.Limits.{wanted_roles}
use test_m_backend.AccessControl.Models.{
  Workflow, Metadata, Grant, AccessRequest, AggregateType, JobType, Payload, DedupKey, Env, Error,
}
use test_m_backend.AccessControl.Service.Monad.{
  Session, pure, raise, gets, modify, uuid4, given, ◌>>=◌,
}
use test_m_backend.AccessControl.Service.Transition.{allowed, entered, enter, transition}
use test_m_backend.AccessControl.Service.Keeps.{keeps_rules}
use test_m_backend.AccessControl.Service.Methods.{is_eligible, approver_roles_of, granted, post}
use test_m_backend.AccessControl.Service.Approvals.{
  least_grant, is_complete, issue_grant, prepare_grant, create_grant,
}
use test_m_backend.AccessControl.Service.Governed.{
  IsGoverned, ApprovedBy, approved-IsGoverned, enforcing-IsGoverned, granted-IsGoverned,
}
use test_m_backend.AccessControl.Service.Rulings.{least_grant-Fits, complete_approved}
use test_m_backend.AccessControl.Service.Stays.{SameTerms, bind_after, GovernedAnd, post-Stays}

undecided_not_eligible : (o : Option AccessPolicyDecision) → o ≡ none → is_eligible o ≡ true → ⊥
unfolding is_eligible
undecided_not_eligible o e h = ground arith

-- The roles that an eligible decision on a governed request names.
roles_wanted :
    (r : AccessRequest)
    → IsGoverned r
    → is_eligible r.policy_decision ≡ true
    → approver_roles_of r.policy_decision ≡ wanted_roles r.break_glass r.resource_sensitivity
unfolding approver_roles_of
roles_wanted r h e = elim (Option-cases r.policy_decision) [
  | inl undecided ↦ absurd (undecided_not_eligible _ undecided e)
  | inr (d, q) ↦ ap approver_roles_of q ∙ (h.ruled d q).roles
]

some_ne_none : (g : Grant) → some g ≢ none
some_ne_none g e = cc

module _ (env : Env) (Q : AccessRequest → Type 0)
    (stable : (r q : AccessRequest) → SameTerms r q → Q r → Q q)
    (eligible : (r : AccessRequest) → Q r → is_eligible r.policy_decision ≡ true) where
  enforcing-Stays :
      (actor : String) (reason : Option String) (s : Session)
      → GovernedAnd env Q stable s
      → s.request.workflow_state ≡ Workflow.approved
      → s.request.grant ≢ none
      → GovernedAnd env Q stable
          (transition env Workflow.enforcing actor reason Metadata.nothing s).1
  unfolding transition enter entered
  enforcing-Stays actor reason s h a g =
      elim (Bool-cases (allowed s.request.workflow_state Workflow.enforcing)) [
        | inr stuck ↦ rw stuck h
        | inl step ↦ rw step (
          enforcing-IsGoverned env Workflow.enforcing actor reason Metadata.nothing _ s.request a g
              h.0,
          stable s.request _ (refl, refl, refl, refl, refl, refl) h.1,
        )
      ]

  issue_grant-Stays :
      (actor : String) (d : AccessPolicyDecision) (s : Session)
      → GovernedAnd env Q stable s
      → s.request.workflow_state ≡ Workflow.approved
      → s.request.policy_decision ≡ some d
      → GovernedAnd env Q stable (issue_grant env actor s.request d s).1
  unfolding issue_grant ◌>>=◌ uuid4 modify granted
  issue_grant-Stays actor d s h a e =
      let can : d.eligibility ≡ true =
        unfold is_eligible in (ap is_eligible (sym e) ∙ eligible s.request h.1) in
      let id = env.uuid s.tables.tick in
      let g = least_grant id d s.request in
      bind_after {P = GovernedAnd env Q stable}
        (transition env Workflow.enforcing actor (some "Least-privilege grant prepared")
          Metadata.nothing)
        (λ _.
          post env AggregateType.access_grant id JobType.enforcement
            (Payload.for_grant s.request.id id) (DedupKey.enforce id)
          >>= λ _. pure g)
        _
        (enforcing-Stays actor (some "Least-privilege grant prepared") _
          (
            granted-IsGoverned s.request h.0 _ (least_grant-Fits _ d s.request can (h.0.ruled d e)),
            stable s.request _ (refl, refl, refl, refl, refl, refl) h.1,
          )
          a (some_ne_none _))
        (λ _. search (keeps_rules, post-Stays env Q stable))

  -- In APPROVED the grant is prepared under the eligible decision, and enforcement begins.
  prepare_grant-Stays :
      (actor : String) (s : Session)
      → GovernedAnd env Q stable s
      → s.request.workflow_state ≡ Workflow.approved
      → GovernedAnd env Q stable (prepare_grant env actor s.request s).1
  unfolding prepare_grant given
  prepare_grant-Stays actor s h a = elim (Option-cases s.request.policy_decision) [
    | inl undecided ↦ absurd (undecided_not_eligible _ undecided (eligible s.request h.1))
    | inr (d, e) ↦
        subst
          (λ o.
            GovernedAnd env Q stable
              (given o (raise Error.type_error) (issue_grant env actor s.request) s).1)
          (sym e) (issue_grant-Stays actor d s h a e)
  ]

  create_grant-Stays :
      (actor : String) (s : Session)
      → GovernedAnd env Q stable s
      → s.request.workflow_state ≡ Workflow.approved
      → GovernedAnd env Q stable (create_grant env actor s).1
  unfolding create_grant given gets ◌>>=◌
  create_grant-Stays actor s h a = elim (Option-cases s.request.grant) [
    | inl absent ↦
        subst (λ o. GovernedAnd env Q stable (given o (prepare_grant env actor s.request) pure s).1)
          (sym absent) (prepare_grant-Stays actor s h a)
    | inr (g, present) ↦
        subst (λ o. GovernedAnd env Q stable (given o (prepare_grant env actor s.request) pure s).1)
          (sym present) (unfold pure in h)
  ]

  -- If every wanted role has approved, the request is cleared and its grant issued.
  pub clear-Stays :
      (actor : String) (role : Role) (s : Session)
      → GovernedAnd env Q stable s
      → ApprovedBy s.request.approvals role
      → is_complete (approver_roles_of s.request.policy_decision) s.request.approvals role ≡ true
      → GovernedAnd env Q stable
          ((transition env Workflow.approved actor
                (some "Required approvals complete")
                Metadata.nothing
              >>= λ _. create_grant env actor >>= λ _. pure tt)
            s).1
  unfolding transition enter entered ◌>>=◌
  clear-Stays actor role s h by c =
      elim (Bool-cases (allowed s.request.workflow_state Workflow.approved)) [
        | inr stuck ↦ rw stuck h
        | inl step ↦ rw step (
            bind_after {P = GovernedAnd env Q stable} (create_grant env actor) (λ _. pure tt) _
              (create_grant-Stays actor _
                (
                  approved-IsGoverned env Workflow.approved actor _ Metadata.nothing _ s.request
                      refl
                      (complete_approved _ s.request.approvals role
                        (subst (λ roles. is_complete roles s.request.approvals role ≡ true)
                          (roles_wanted s.request h.0 (eligible s.request h.1)) c)
                        by)
                      h.0,
                  stable s.request _ (refl, refl, refl, refl, refl, refl) h.1,
                )
                refl)
              (λ _. search keeps_rules))
      ]
