-- ===== src/AccessControl/History/Extension.antt =====
-- What a session keeps of an earlier one.
use mathlib.Core.List.{append_assoc, append-nil}
use test_m_backend.Common.{◌≤◌, true, ◌≡◌, refl, sym, ap, ◌∙◌, subst, none, List, [], ◌++◌, arith}
use test_m_backend.AccessControl.Models.{AiStatus}
use test_m_backend.AccessControl.Service.Monad.{Session}
use test_m_backend.AccessControl.Service.Transition.{is_resolved}

abbrev pub IsPrefix : {A : Type 0} → List A → List A → Type 0
IsPrefix {A} xs ys = (rest : List A) × (ys ≡ xs ++ rest)

pub IsPrefix-self : {A : Type 0} (xs : List A) → IsPrefix xs xs
IsPrefix-self xs = ([], sym (append-nil xs))

pub IsPrefix-append : {A : Type 0} (xs ys zs : List A) → IsPrefix xs ys → IsPrefix xs (ys ++ zs)
IsPrefix-append xs ys zs (rest, e) = (rest ++ zs, ap (λ l. l ++ zs) e ∙ append_assoc xs rest zs)

pub IsPrefix-trans :
    {A : Type 0} (xs ys zs : List A) → IsPrefix xs ys → IsPrefix ys zs → IsPrefix xs zs
IsPrefix-trans xs ys zs (r, e) (q, k) = (r ++ q, k ∙ (ap (λ l. l ++ q) e ∙ append_assoc xs r q))

-- What a session keeps of an earlier one.
pub record Extends (s q : Session) : Type 0 where
  pub version : s.request.version ≤ q.request.version
  pub transitions : IsPrefix s.request.transitions q.request.transitions
  pub evidence : IsPrefix s.request.evidence q.request.evidence
  pub approvals : IsPrefix s.request.approvals q.request.approvals
  pub audits : IsPrefix s.tables.audits q.tables.audits
  pub terms :
      (q.request.id ≡ s.request.id)
      × (q.request.tenant_id ≡ s.request.tenant_id)
      × (q.request.subject_identity ≡ s.request.subject_identity)
      × (q.request.requester_identity ≡ s.request.requester_identity)
      × (q.request.resource_id ≡ s.request.resource_id)
      × (q.request.resource_sensitivity ≡ s.request.resource_sensitivity)
      × (q.request.requested_action ≡ s.request.requested_action)
      × (q.request.requested_permission ≡ s.request.requested_permission)
      × (q.request.requested_duration_seconds ≡ s.request.requested_duration_seconds)
      × (q.request.break_glass ≡ s.request.break_glass)
  pub resolution :
      is_resolved s.request.workflow_state ≡ true
      → q.request.workflow_state ≡ s.request.workflow_state

pub Extends-self : (s : Session) → Extends s s
Extends-self s = record {
  version = omega arith;
  transitions = IsPrefix-self _;
  evidence = IsPrefix-self _;
  approvals = IsPrefix-self _;
  audits = IsPrefix-self _;
  terms = (refl, refl, refl, refl, refl, refl, refl, refl, refl, refl);
  resolution = λ r. refl;
}

-- The session without what the relation does not read.
abbrev core : Session → Session
core s =
    let r = s.request in
    let t = s.tables in
    record {
      request = record r {
        grant = none;
        policy_decision = none;
        ai_review_status = AiStatus.not_requested;
      };
      tables = record t { outbox = []; notifications = []; reviews = []; tick = 0 };
    }

module _ {o : Session} where
  to_core : (s : Session) → Extends o s → Extends o (core s)
  to_core s h = record {
    version = h.version;
    transitions = h.transitions;
    evidence = h.evidence;
    approvals = h.approvals;
    audits = h.audits;
    terms = h.terms;
    resolution = h.resolution;
  }

  from_core : (s : Session) → Extends o (core s) → Extends o s
  from_core s h = record {
    version = h.version;
    transitions = h.transitions;
    evidence = h.evidence;
    approvals = h.approvals;
    audits = h.audits;
    terms = h.terms;
    resolution = h.resolution;
  }

  -- A step that changes nothing else keeps the relation.
  pub Extends-unchanged : (s q : Session) → core q ≡ core s → Extends o s → Extends o q
  Extends-unchanged s q e h = from_core q (subst (Extends o) (sym e) (to_core s h))
