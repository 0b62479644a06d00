-- ===== src/AccessControl/Service/Authority.antt =====
-- Every method of access_control/service.py keeps a request governed, whether it returns or raises.
use test_m_backend.Common.{
  ℕ, String, Bool, true, not, ◌≡◌, ◌≢◌, refl, sym, ap, subst, ◌∙◌, some, string_eq, ◌==◌,
}
use test_m_backend.AccessControl.Policy.Values.{Role, AccessPolicyDecision}
use test_m_backend.AccessControl.Policy.Decide.{evaluate_access_policy}
use test_m_backend.AccessControl.Models.{
  Workflow, Verdict, Metadata, EvidencePayload, AccessRequest, Env,
}
use test_m_backend.AccessControl.Service.Monad.{Session, Action}
use test_m_backend.AccessControl.Service.Keeps.{
  Keeps, Keeps-guard, Keeps-bind, Keeps-gets, Keeps-only_if,
}
use test_m_backend.AccessControl.Service.Methods.{
  Surroundings, is_eligible, policy_inputs, decided, approval_added, add_evidence, evaluate_request,
  request_ai_review, request_revocation, request_more_context,
}
use test_m_backend.AccessControl.Service.Approvals.{record_approval}
use test_m_backend.AccessControl.Service.Governed.{IsRuling, Rules, IsGoverned}
use test_m_backend.AccessControl.Service.Rulings.{policy-Rules}
use test_m_backend.AccessControl.Service.Stays.{
  SameTerms, Keeps-reading, Keeps-guarded, Stays, plain-Stays, stay_rules, add_evidence-Stays,
  ruling-Stays,
}
use test_m_backend.AccessControl.Service.Filing.{file_approval-Stays}

-- Governed requests, with nothing more known.
abbrev pub Governed : Session → Type 0
Governed s = IsGoverned s.request

abbrev pub Anything : AccessRequest → Type 0
Anything _ = Unit {0}

pub anything_stable : (r q : AccessRequest) → SameTerms r q → Anything r → Anything q
anything_stable r q k h = tt

-- Nothing more known, nothing more shown.
pub forget :
    (env : Env) {A : Type 0} (m : Action A)
    → Stays env Anything anything_stable m
    → Keeps Governed m
forget env m k = record { at = λ s h. (k.at s (h, tt)).0 }

Rules-stable :
    (d : AccessPolicyDecision) (r q : AccessRequest) → SameTerms r q → Rules r d → Rules q d
Rules-stable d r q k h =
    let (_, glass, sensitivity, permission, _, _) = k in
    subst (λ x. IsRuling x q.resource_sensitivity q.requested_permission d) glass
      (subst (λ x. IsRuling r.break_glass x q.requested_permission d) sensitivity
        (subst (λ x. IsRuling r.break_glass r.resource_sensitivity x d) permission h))

-- The requester and the decision of a given request.
abbrev HasTermsOf : AccessRequest → AccessRequest → Type 0
HasTermsOf r q =
    (q.requester_identity ≡ r.requester_identity) × (q.policy_decision ≡ r.policy_decision)

terms_stable : (o r q : AccessRequest) → SameTerms r q → HasTermsOf o r → HasTermsOf o q
terms_stable o r q k h =
    let (requester, _, _, _, decision, _) = k in (sym requester ∙ h.0, sym decision ∙ h.1)

not_equal : (a b : String) → not (a == b) ≡ true → b ≢ a
not_equal a b h e = cc (h, ap not ((string_eq.equal_iff a b).1 (sym e)))

module _ (env : Env) where
  pub add_evidence-Governed :
      (payload : EvidencePayload) (actor : String) → Keeps Governed (add_evidence env payload actor)
  add_evidence-Governed payload actor =
      forget env _ (add_evidence-Stays env Anything anything_stable payload actor)

  pub evaluate_request-Governed :
      (w : Surroundings) (is_admin : Bool) → Keeps Governed (evaluate_request env w is_admin)
  unfolding evaluate_request
  evaluate_request-Governed w is_admin = Keeps-reading _ (λ s h.
      let d = evaluate_access_policy env.policy_digest (policy_inputs w s.request is_admin) in
      let k = Keeps-bind _ _ (Keeps-guard _ _) (λ _.
        ruling-Stays env (λ q. Rules q d) (Rules-stable d) d (λ q k. k)
          (λ time q k. unfold decided in k)) in
      (k.at s (h, policy-Rules env w s.request is_admin)).0)

  pub request_ai_review-Governed : (actor : String) → Keeps Governed (request_ai_review env actor)
  unfolding request_ai_review
  request_ai_review-Governed actor = forget env _ (
      search
        (
          stay_rules,
          plain-Stays env Anything anything_stable Workflow.ai_review_pending actor _ _ refl,
        )
        depth 30)

  pub request_revocation-Governed :
      (actor reason : String) → Keeps Governed (request_revocation env actor reason)
  unfolding request_revocation
  request_revocation-Governed actor reason = forget env _ (
      search (stay_rules, plain-Stays env Anything anything_stable Workflow.revoking actor _ _ refl)
        depth 30)

  pub request_more_context-Governed :
      (actor note : String) → Keeps Governed (request_more_context env actor note)
  unfolding request_more_context
  request_more_context-Governed actor note = forget env _ (
      search
        (
          stay_rules,
          plain-Stays env Anything anything_stable Workflow.more_context_required actor _ _ refl,
        )
        depth 30)

  pub record_approval-Governed :
      (actor : String) (role : Role) (decision : Verdict) (note : String) (version : ℕ)
      → Keeps Governed (record_approval env actor role decision note version)
  unfolding record_approval
  record_approval-Governed actor role decision note version = Keeps-reading _ (λ s h.
      let o = s.request in
      let Q = HasTermsOf o in
      let started =
        plain-Stays env Q (terms_stable o) Workflow.awaiting_approval actor
          (some "Human approval started") Metadata.nothing refl in
      let k = Keeps-bind _ _ (Keeps-guard _ _) (λ _. Keeps-guarded _ _ _ (λ differs.
        Keeps-guarded _ _ _ (λ can. Keeps-bind _ _ (Keeps-guard _ _) (λ _.
          Keeps-bind _ _ (Keeps-only_if _ _ started) (λ _. Keeps-bind _ _ (Keeps-gets _) (λ r.
            Keeps-bind _ _ (Keeps-guard _ _) (λ _.
              file_approval-Stays env Q (terms_stable o) (λ q k. ap is_eligible k.1 ∙ can)
                (λ row q k. unfold approval_added in k) actor
                (λ q k. λ e. not_equal o.requester_identity actor differs (e ∙ k.0)) role note
                decision))))))) in
      (k.at s (h, (refl, refl))).0)
