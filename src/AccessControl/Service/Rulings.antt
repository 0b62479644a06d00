-- ===== src/AccessControl/Service/Rulings.antt =====
-- The decisions of the policy, the grants of the service and its check of the approvals are what a
-- governed request has.
use test_m_backend.Common.{
  ℕ, Bool, true, ◌&&◌, ◌||◌, any-filter, ◌≡◌, ◌↔◌, refl, sym, subst, ◌∙◌, inl, inr, List, [], ◌∷◌,
  arith, any, all, All, Exists-map, Bool-cases,
}
use test_m_backend.AccessControl.Policy.Values.{Role, AccessPolicyDecision}
use test_m_backend.AccessControl.Policy.Decide.{
  ttl_or_zero, is_critical, approvers, maximum_duration, evaluate_access_policy,
}
use test_m_backend.AccessControl.Models.{Verdict, Approval, Grant, AccessRequest, Env}
use test_m_backend.AccessControl.Service.Methods.{Surroundings, role_beq, is_approve, policy_inputs}
use test_m_backend.AccessControl.Service.Approvals.{least_grant, approving, is_complete}
use test_m_backend.AccessControl.Service.Governed.{ApprovedBy, Rules, Fits}

-- A decision of the policy on a request rules it.
pub policy-Rules :
    (env : Env) (w : Surroundings) (r : AccessRequest) (is_admin : Bool)
    → Rules r (evaluate_access_policy env.policy_digest (policy_inputs w r is_admin))
unfolding evaluate_access_policy policy_inputs approvers is_critical maximum_duration ttl_or_zero
policy-Rules env w r is_admin = ground arith

-- The grant that is built under an eligible decision fits.
pub least_grant-Fits :
    (id : ℕ) (d : AccessPolicyDecision) (r : AccessRequest)
    → d.eligibility ≡ true
    → Rules r d
    → Fits r (least_grant id d r)
unfolding least_grant
least_grant-Fits id d r e k = record {
  on_resource = refl;
  for_permission = k.allowance e;
  for_action = refl;
  within_asked = omega arith;
  within_limit = omega (arith, k.duration);
}

role_beq_iff : (a b : Role) → (role_beq a b ≡ true) ↔ (a ≡ b)
unfolding role_beq
role_beq_iff a b = ground arith

is_approve_iff : (v : Verdict) → (is_approve v ≡ true) ↔ (v ≡ Verdict.approve)
unfolding is_approve
is_approve_iff v = ground arith

and_true : (a b : Bool) → (a && b) ≡ true → (a ≡ true) × (b ≡ true)
and_true a b h = ground arith

one_approved :
    (q : Role) (approvals : List Approval) (role : Role)
    → (role_beq q role || any (λ a. role_beq q a.approver_role) (approving approvals)) ≡ true
    → ApprovedBy approvals role
    → ApprovedBy approvals q
unfolding approving
one_approved q approvals role c h = elim (Bool-cases (role_beq q role)) [
  | inl same ↦ subst (ApprovedBy approvals) (sym ((role_beq_iff q role).0 same)) h
  | inr differs ↦
      Exists-map _ _ approvals
        (λ a k. (sym ((role_beq_iff q a.approver_role).0 k.1), (is_approve_iff a.decision).0 k.0))
        ((any-filter (λ a. is_approve a.decision) (λ a. role_beq q a.approver_role) approvals).0
          (rw differs at c))
]

-- If the check of the code passes on approvals that hold the caller's, every role has approved.
pub complete_approved :
    (required : List Role) (approvals : List Approval) (role : Role)
    → is_complete required approvals role ≡ true
    → ApprovedBy approvals role
    → All (ApprovedBy approvals) required
unfolding is_complete approving all
complete_approved [] approvals role c h = tt
complete_approved (q ∷ required) approvals role c h =
    let p =
      and_true (role_beq q role || any (λ a. role_beq q a.approver_role) (approving approvals)) _
        c in
    (one_approved q approvals role p.0 h, complete_approved required approvals role p.1 h)

-- A grant of the same resource, permission, action and duration is as little.
abbrev pub SameScope : Grant → Grant → Type 0
SameScope g q =
    (q.exact_resource ≡ g.exact_resource)
    × (q.exact_permission ≡ g.exact_permission)
    × (q.allowed_actions ≡ g.allowed_actions)
    × (q.maximum_ttl_seconds ≡ g.maximum_ttl_seconds)

pub SameScope-Fits : (r : AccessRequest) (g q : Grant) → SameScope g q → Fits r g → Fits r q
SameScope-Fits r g q (resource, permission, actions, ttl) k = record {
  on_resource = resource ∙ k.on_resource;
  for_permission = permission ∙ k.for_permission;
  for_action = actions ∙ k.for_action;
  within_asked = omega (arith, ttl, k.within_asked);
  within_limit = omega (arith, ttl, k.within_limit);
}
