-- ===== src/AccessControl/Service/Stays.antt =====
-- What keeps a request governed whatever more is known of its terms: every step of the service but
-- those that approve it and grant it.
use test_m_backend.Common.{
  ℕ, String, Bool, true, false, ◌≡◌, ◌≢◌, refl, ap, Option, Bool-cases, inl, inr, string_eq,
}
use test_m_backend.AccessControl.Policy.Values.{AccessPolicyDecision}
use test_m_backend.AccessControl.Models.{
  Grant, Workflow, Metadata, EvidencePayload, Evidence, AccessRequest, AuditAction, Details,
  AggregateType, JobType, Payload, DedupKey, NotificationType, Tables, Env, Error,
}
use test_m_backend.AccessControl.Service.Monad.{
  Session, Result, ok, err, continue, Action, pure, gets, guard, modify, update, now_utc, uuid4,
  ◌>>=◌,
}
use test_m_backend.AccessControl.Service.Transition.{allowed, entered, enter, transition, notify}
use test_m_backend.AccessControl.Service.Keeps.{Keeps, Keeps-guard, keeps_rules}
use test_m_backend.AccessControl.Service.Methods.{
  evidence_added, decided, review_queued, update_grant, with_reason, audit, post, attach_evidence,
  add_evidence, apply_decision,
}
use test_m_backend.AccessControl.Service.Governed.{
  Rules, IsGoverned, entered-IsGoverned, evidence_added-IsGoverned, review_queued-IsGoverned,
  decided-IsGoverned, update_grant-IsGoverned,
}
use test_m_backend.AccessControl.Service.Rulings.{SameScope, SameScope-Fits}

-- The terms of a request that its transitions leave alone.
abbrev pub SameTerms : AccessRequest → AccessRequest → Type 0
SameTerms r q =
    (r.requester_identity ≡ q.requester_identity)
    × (r.break_glass ≡ q.break_glass)
    × (r.resource_sensitivity ≡ q.resource_sensitivity)
    × (r.requested_permission ≡ q.requested_permission)
    × (r.policy_decision ≡ q.policy_decision)
    × (r.approvals ≡ q.approvals)

abbrev pub is_plain : Workflow → Bool
is_plain Workflow.approved = false
is_plain Workflow.enforcing = false
is_plain _ = true

-- A state may be read, and the rest be judged at the session that it was read from.
pub Keeps-reading :
    {A : Type 0} {P : Session → Type 0} (k : AccessRequest → Action A)
    → ((s : Session) → P s → P (k s.request s).1)
    → Keeps P (gets (λ s. s.request) >>= k)
unfolding ◌>>=◌ gets
Keeps-reading k h = record { at = h }

pub Keeps-guarded :
    {A : Type 0} {P : Session → Type 0} (b : Bool) (e : Error) (m : Action A)
    → (b ≡ true → Keeps P m)
    → Keeps P (guard b e >>= λ _. m)
unfolding ◌>>=◌ guard
Keeps-guarded true e m h = record { at = λ s p. (h refl).at s p }
Keeps-guarded false e m h = record { at = λ s p. p }

pub Keeps-writing :
    {A : Type 0} {P : Session → Type 0} (f : AccessRequest → AccessRequest) (m : Action A)
    → ((s : Session) → P s → P (m (record s { request = f s.request })).1)
    → Keeps P (modify f >>= λ _. m)
unfolding ◌>>=◌ modify
Keeps-writing f m h = record { at = h }

-- What follows a first action that has left the invariant intact.
pub bind_after :
    {A B : Type 0} {P : Session → Type 0} (m : Action A) (f : A → Action B) (s : Session)
    → P (m s).1
    → ((a : A) → Keeps P (f a))
    → P ((m >>= f) s).1
unfolding ◌>>=◌
bind_after {A} {B} {P} m f s h k = go (m s).0 (m s).1 h
  where
    go : (r : Result A) (s' : Session) → P s' → P (continue r f s').1
    go (ok a) s' h = (k a).at s' h
    go (err e) s' h = h

module _ (env : Env) (Q : AccessRequest → Type 0)
    (stable : (r q : AccessRequest) → SameTerms r q → Q r → Q q) where
  -- Governed, and more that depends on the terms alone.
  abbrev pub GovernedAnd : Session → Type 0
  GovernedAnd s = IsGoverned s.request × Q s.request

  abbrev pub Stays : {A : Type 0} → Action A → Type 0
  Stays = Keeps GovernedAnd

  pub transition-Stays :
      (state : Workflow) (actor : String) (reason : Option String) (metadata : Metadata)
      → state ≢ Workflow.approved
      → state ≢ Workflow.enforcing
      → Stays (transition env state actor reason metadata)
  unfolding transition enter entered
  transition-Stays state actor reason metadata na ne = record {
    at = λ s h. elim (Bool-cases (allowed s.request.workflow_state state)) [
      | inl a ↦ rw a (
        entered-IsGoverned env state actor reason metadata _ s.request a na ne h.0,
        stable s.request _ (refl, refl, refl, refl, refl, refl) h.1,
      )
      | inr a ↦ rw a h
    ];
  }

  pub update-Stays : (f : Tables → Tables) → Stays (update f)
  unfolding update
  update-Stays f = record { at = λ s h. h }

  pub notify-Stays :
      (kind : NotificationType) (recipient : String) → Stays (notify env kind recipient)
  unfolding notify
  notify-Stays kind recipient = record { at = λ s h. h }

  pub now_utc-Stays : Stays (now_utc env)
  unfolding now_utc
  now_utc-Stays = record { at = λ s h. h }

  pub uuid4-Stays : Stays (uuid4 env)
  unfolding uuid4
  uuid4-Stays = record { at = λ s h. h }

  pub audit-Stays :
      (actor : String) (action : AuditAction) (details : Details)
      → Stays (audit env actor action details)
  unfolding audit
  audit-Stays actor action details = search (keeps_rules, uuid4-Stays, update-Stays)

  pub post-Stays :
      (a : AggregateType) (id : ℕ) (job : JobType) (payload : Payload) (key : DedupKey)
      → Stays (post env a id job payload key)
  unfolding post
  post-Stays a id job payload key = search (keeps_rules, update-Stays)

  pub evidence_added-Stays : (row : Evidence) → Stays (modify (evidence_added row))
  unfolding modify evidence_added
  evidence_added-Stays row = record {
    at = λ s h. (
      evidence_added-IsGoverned s.request h.0 row,
      stable s.request _ (refl, refl, refl, refl, refl, refl) h.1,
    );
  }

  pub review_queued-Stays : Stays (modify review_queued)
  unfolding modify review_queued
  review_queued-Stays = record {
    at = λ s h. (
      review_queued-IsGoverned s.request h.0,
      stable s.request _ (refl, refl, refl, refl, refl, refl) h.1,
    );
  }

  -- A change of the grant that leaves its scope alone.
  pub regrant-Stays :
      (f : Grant → Grant) → ((g : Grant) → SameScope g (f g)) → Stays (modify (update_grant f))
  unfolding modify update_grant
  regrant-Stays f same = record {
    at = λ s h. (
      update_grant-IsGoverned s.request h.0 f (λ g k. SameScope-Fits s.request g (f g) (same g) k),
      stable s.request _ (refl, refl, refl, refl, refl, refl) h.1,
    );
  }

  pub with_reason-Stays : (reason : String) → Stays (modify (update_grant (with_reason reason)))
  with_reason-Stays reason = regrant-Stays (with_reason reason) (λ g. (refl, refl, refl, refl))

  -- the states that the service enters other than APPROVED and ENFORCING
  pub plain-Stays :
      (state : Workflow) (actor : String) (reason : Option String) (metadata : Metadata)
      → is_plain state ≡ true
      → Stays (transition env state actor reason metadata)
  plain-Stays state actor reason metadata p =
      transition-Stays state actor reason metadata (λ e. cc (p, ap is_plain e))
        (λ e. cc (p, ap is_plain e))

  pub ruleset stay_rules = (
    keeps_rules, notify-Stays, now_utc-Stays, uuid4-Stays, audit-Stays, post-Stays,
    evidence_added-Stays, review_queued-Stays, with_reason-Stays,
  )

  attach_evidence-Stays :
      (payload : EvidencePayload) (actor : String) → Stays (attach_evidence env payload actor)
  unfolding attach_evidence
  attach_evidence-Stays payload actor =
      search (stay_rules, plain-Stays Workflow.evidence_ready actor _ _ refl) depth 30

  pub add_evidence-Stays :
      (payload : EvidencePayload) (actor : String) → Stays (add_evidence env payload actor)
  unfolding add_evidence
  add_evidence-Stays payload actor = search (stay_rules, attach_evidence-Stays) depth 30

  pub apply_decision-Stays : (d : AccessPolicyDecision) → Stays (apply_decision env d)
  unfolding apply_decision
  apply_decision-Stays d =
      search
        (
          stay_rules,
          plain-Stays Workflow.denied "access-policy" _ _ refl,
          plain-Stays Workflow.more_context_required "access-policy" _ _ refl,
          plain-Stays Workflow.evidence_ready "access-policy" _ _ refl,
        )
        depth 30

  module _ (d : AccessPolicyDecision) (ruled : (r : AccessRequest) → Q r → Rules r d)
      (again : (time : ℕ) (r : AccessRequest) → Q r → Q (decided d time r)) where
    decided-Stays : (time : ℕ) → Stays (modify (decided d time))
    unfolding modify
    decided-Stays time = record {
      at = λ s h.
          (decided-IsGoverned s.request h.0 d time (ruled s.request h.1), again time s.request h.1);
    }

    pub ruling-Stays : Stays (
        now_utc env >>= λ time.
        modify (decided d time) >>= λ _. apply_decision env d >>= λ _. pure d)
    ruling-Stays = search (stay_rules, decided-Stays, apply_decision-Stays) depth 30
