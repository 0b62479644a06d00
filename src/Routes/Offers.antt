-- ===== src/Routes/Offers.antt =====
-- What the list of available actions offers.
use test_m_backend.Common.{
  ℕ, ◌≡◌, refl, sym, ap, subst, Option, List, ◌∙◌, String, Bool, true, false, ◌&&◌, ◌||◌, [], ◌∷◌,
  ◌++◌, arith, string_eq, if◌then◌else◌, any, when,
}
use test_m_backend.AccessControl.Models.{Workflow, AccessRequest}
use test_m_backend.AccessControl.Service.Methods.{
  can_evaluate, is_reviewable, is_awaiting, is_active,
}
use test_m_backend.AccessControl.Service.Transition.{allowed}
use test_m_backend.AccessControl.Policy.Values.{Role}
use test_m_backend.Routes.Scopes.{
  role_scopes, Principal, answered, KeyRecord, Claims, Settings, Credentials, authenticate,
  has_scope,
}
use test_m_backend.Routes.Separation.{IsGranted, authenticate-IsGranted}
use test_m_backend.Routes.Answers.{
  OfferedAction, takes_evidence, takes_evaluation, takes_review, takes_approval, takes_revocation,
  available_actions,
}

abbrev same_offer : OfferedAction → OfferedAction → Bool
same_offer OfferedAction.attach_evidence OfferedAction.attach_evidence = true
same_offer OfferedAction.evaluate OfferedAction.evaluate = true
same_offer OfferedAction.request_ai_review OfferedAction.request_ai_review = true
same_offer OfferedAction.approve OfferedAction.approve = true
same_offer OfferedAction.deny OfferedAction.deny = true
same_offer OfferedAction.revoke OfferedAction.revoke = true
same_offer _ _ = false

abbrev choice : OfferedAction → Bool → Bool → Bool → Bool → Bool → Bool
choice OfferedAction.attach_evidence b c d e f = b
choice OfferedAction.evaluate b c d e f = c
choice OfferedAction.request_ai_review b c d e f = d
choice OfferedAction.approve b c d e f = e
choice OfferedAction.deny b c d e f = e
choice OfferedAction.revoke b c d e f = f

-- The list holds the action.
abbrev pub offers : OfferedAction → AccessRequest → Principal → Bool
offers a r p = any (same_offer a) (available_actions r p)

-- The scope that the route of an action requires.
abbrev pub scope_of : OfferedAction → String
scope_of OfferedAction.attach_evidence = "access:evidence"
scope_of OfferedAction.evaluate = "access:evaluate"
scope_of OfferedAction.request_ai_review = "access:ai_review"
scope_of OfferedAction.approve = "access:approve"
scope_of OfferedAction.deny = "access:deny"
scope_of OfferedAction.revoke = "access:revoke"

-- The states in which an action leads on: for evidence those from which the request may become ready, as
-- the service itself takes evidence in every state; for the others those that the guards of the service
-- admit, and for a review those from which its transition is allowed as well.
abbrev pub can_follow : OfferedAction → Workflow → Bool
can_follow OfferedAction.attach_evidence s = allowed s Workflow.evidence_ready
can_follow OfferedAction.evaluate s = can_evaluate s
can_follow OfferedAction.request_ai_review s =
    is_reviewable s && allowed s Workflow.ai_review_pending
can_follow OfferedAction.approve s = is_reviewable s || is_awaiting s
can_follow OfferedAction.deny s = is_reviewable s || is_awaiting s
can_follow OfferedAction.revoke s = is_active s

offers-Bool :
    (a : OfferedAction) (b c d e f : Bool)
    → any (same_offer a) (
        when b OfferedAction.attach_evidence
        ++ when c OfferedAction.evaluate
        ++ when d OfferedAction.request_ai_review
        ++ (if e then OfferedAction.approve ∷ OfferedAction.deny ∷ [] else [])
        ++ when f OfferedAction.revoke)
      ≡ choice a b c d e f
unfolding any when
offers-Bool a b c d e f = ground arith

-- The states that the routes list for an action are those in which it leads on, for a caller who may
-- deny exactly if it may approve.
followed :
    (a : OfferedAction) (s : Workflow) (has : String → Bool)
    → has "access:deny" ≡ has "access:approve"
    → choice a
        (has "access:evidence" && takes_evidence s)
        (has "access:evaluate" && takes_evaluation s)
        (has "access:ai_review" && takes_review s)
        (has "access:approve" && takes_approval s)
        (has "access:revoke" && takes_revocation s)
      ≡ (has (scope_of a) && can_follow a s)
unfolding takes_evidence takes_evaluation takes_review takes_approval takes_revocation can_evaluate
    is_reviewable is_awaiting is_active allowed
followed a s has same = ground arith

-- The roles that may approve are those that may deny.
deny_as_approve :
    (r : Role)
    → has_scope "access:deny" (role_scopes r) ≡ has_scope "access:approve" (role_scopes r)
unfolding has_scope role_scopes any
deny_as_approve Role.viewer = refl
deny_as_approve Role.ingestor = refl
deny_as_approve Role.analyst = refl
deny_as_approve Role.reviewer = refl
deny_as_approve Role.resource_owner = refl
deny_as_approve Role.context_proposer = refl
deny_as_approve Role.context_approver = refl
deny_as_approve Role.response_operator = refl
deny_as_approve Role.response_approver = refl
deny_as_approve Role.admin = refl

-- Whoever is authenticated is offered an action exactly when it holds the scope that the route of the
-- action requires and the request is in a state in which the action leads on: evidence where it can make
-- the request ready, a review where its transition is allowed, and all but evidence where the guard of
-- the service admits it.
pub available_actions-offers :
    (lower : String → String) (parse_keys : String → Option (List (String × KeyRecord)))
    (verify : String → Option Claims) (settings : Settings) (now : ℕ) (c : Option Credentials)
    (p : Principal) (a : OfferedAction) (r : AccessRequest)
    → authenticate lower parse_keys verify settings now c ≡ answered p
    → offers a r p ≡ (has_scope (scope_of a) p.scopes && can_follow a r.workflow_state)
unfolding available_actions
available_actions-offers lower parse_keys verify settings now c p a r e =
    let own : p.scopes ≡ role_scopes p.role =
      subst IsGranted e (authenticate-IsGranted lower parse_keys verify settings now c) in
    offers-Bool a _ _ _ _ _
    ∙ followed a r.workflow_state (λ t. has_scope t p.scopes)
        (ap (has_scope "access:deny") own
          ∙ (deny_as_approve p.role ∙ sym (ap (has_scope "access:approve") own)))
