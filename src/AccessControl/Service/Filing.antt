-- ===== src/AccessControl/Service/Filing.antt =====
-- The row of an approval in record_approval, and what follows it, keep a request governed.
use test_m_backend.Common.{
  ℕ, String, true, ◌≡◌, ◌≢◌, refl, subst, some, Bool-cases, inl, inr, Exists-last, string_eq,
  if◌then◌else◌,
}
use test_m_backend.AccessControl.Policy.Values.{Role}
use test_m_backend.AccessControl.Models.{
  Workflow, Verdict, Metadata, Approval, AccessRequest, AuditAction, Details, Env,
}
use test_m_backend.AccessControl.Service.Monad.{Session, Action, pure, gets, only_if, ◌>>=◌}
use test_m_backend.AccessControl.Service.Transition.{transition}
use test_m_backend.AccessControl.Service.Keeps.{Keeps-guard, Keeps-bind, Keeps-pure}
use test_m_backend.AccessControl.Service.Methods.{
  is_eligible, approver_roles_of, is_approve, approval_added, audit,
}
use test_m_backend.AccessControl.Service.Approvals.{is_complete, create_grant, file_approval}
use test_m_backend.AccessControl.Service.Governed.{ApprovedBy, approval_added-IsGoverned}
use test_m_backend.AccessControl.Service.Stays.{
  SameTerms, Keeps-reading, Keeps-writing, bind_after, GovernedAnd, Stays, uuid4-Stays, audit-Stays,
  plain-Stays,
}
use test_m_backend.AccessControl.Service.Clearance.{clear-Stays}

-- The approvals of the request hold one by the role, if the verdict was to approve.
abbrev FiledBy : (AccessRequest → Type 0) → Verdict → Role → AccessRequest → Type 0
FiledBy Q decision role r = Q r × (decision ≡ Verdict.approve → ApprovedBy r.approvals role)

filed_stable :
    (Q : AccessRequest → Type 0)
    → ((r q : AccessRequest) → SameTerms r q → Q r → Q q)
    → (decision : Verdict) (role : Role) (r q : AccessRequest) → SameTerms r q
    → FiledBy Q decision role r
    → FiledBy Q decision role q
filed_stable Q stable decision role r q k h =
    let (_, _, _, _, _, same) = k in
    (stable r q k h.0, λ e. subst (λ l. ApprovedBy l role) same (h.1 e))

-- The caller's own row is among the approvals once it has been added.
ApprovedBy-row :
    (row : Approval) (r : AccessRequest)
    → row.decision ≡ Verdict.approve
    → ApprovedBy (approval_added row r).approvals row.approver_role
unfolding approval_added
ApprovedBy-row row r e = Exists-last _ r.approvals row (refl, e)

module _ (env : Env) (Q : AccessRequest → Type 0)
    (stable : (r q : AccessRequest) → SameTerms r q → Q r → Q q)
    (eligible : (r : AccessRequest) → Q r → is_eligible r.policy_decision ≡ true)
    (again : (row : Approval) (r : AccessRequest) → Q r → Q (approval_added row r)) (actor : String)
    (independent : (r : AccessRequest) → Q r → actor ≢ r.requester_identity) (role : Role)
    (note : String) where
  -- what follows the row of the approval
  conclude : Verdict → AccessRequest → Action (Unit {0})
  conclude decision r =
      if is_approve decision
      then only_if (is_complete (approver_roles_of r.policy_decision) r.approvals role) (
          transition env Workflow.approved actor (some "Required approvals complete")
            Metadata.nothing
          >>= λ _. create_grant env actor >>= λ _. pure tt)
      else transition env Workflow.denied actor (some note) Metadata.nothing

  conclude-Stays :
      (decision : Verdict) (s : Session)
      → GovernedAnd env (FiledBy Q decision role) (filed_stable Q stable decision role) s
      → GovernedAnd env
          (FiledBy Q decision role)
          (filed_stable Q stable decision role)
          (conclude decision s.request s).1
  unfolding conclude is_approve only_if pure
  conclude-Stays Verdict.deny s h =
      (plain-Stays env (FiledBy Q Verdict.deny role) (filed_stable Q stable Verdict.deny role)
          Workflow.denied actor (some note) Metadata.nothing refl).at
        s h
  conclude-Stays Verdict.approve s h =
      elim (Bool-cases
        (is_complete (approver_roles_of s.request.policy_decision) s.request.approvals role)) [
          | inr short ↦ rw short h
          | inl full ↦ rw full (
              clear-Stays env (FiledBy Q Verdict.approve role)
                (filed_stable Q stable Verdict.approve role) (λ r k. eligible r k.0) actor role s h
                (h.1.1 refl) full)
        ]

  -- the row of the approval, and what follows it
  filed : ℕ → Verdict → Approval
  filed id decision = record {
    id = id;
    approver_identity = actor;
    approver_role = role;
    decision = decision;
    note = note;
  }

  after_row : ℕ → Verdict → Action Approval
  after_row id decision =
      audit env actor (AuditAction.approval_recorded decision) (Details.approval role id) >>= λ _.
      gets (λ s. s.request) >>= λ r. conclude decision r >>= λ _. pure (filed id decision)

  after_row-Stays :
      (id : ℕ) (decision : Verdict)
      → Stays env
          (FiledBy Q decision role)
          (filed_stable Q stable decision role)
          (after_row id decision)
  unfolding after_row
  after_row-Stays id decision =
      let R = FiledBy Q decision role in
      let keep = filed_stable Q stable decision role in
      Keeps-bind _ _ (audit-Stays env R keep actor _ _) (λ _. Keeps-reading _ (λ s h.
        bind_after {P = GovernedAnd env R keep} (conclude decision s.request) _ s
          (conclude-Stays decision s h) (λ _. Keeps-pure _)))

  pub file_approval-Stays :
      (decision : Verdict) → Stays env Q stable (file_approval env actor role decision note)
  unfolding file_approval conclude after_row filed
  file_approval-Stays decision = Keeps-bind _ _ (uuid4-Stays env Q stable) (λ id.
      Keeps-reading _ (λ s h.
        (Keeps-bind _ _ (Keeps-guard _ _) (λ _. Keeps-writing _ _ (λ s h. with_row id s h))).at s
          h))
    where
      with_row :
          (id : ℕ) (s : Session)
          → GovernedAnd env Q stable s
          → GovernedAnd env Q stable
              (after_row id decision
                (record s { request = approval_added (filed id decision) s.request })).1
      with_row id s h =
          let row = filed id decision in
          let k =
            (after_row-Stays id decision).at (record s { request = approval_added row s.request })
              (
                approval_added-IsGoverned s.request h.0 row (independent s.request h.1),
                (again row s.request h.1, ApprovedBy-row row s.request),
              ) in
          (k.0, k.1.0)
