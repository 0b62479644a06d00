-- ===== src/AccessControl/History/Updates.antt =====
-- The single changes of a session, each of which keeps what the session was.
use mathlib.Core.List.{append-nil}
use test_m_backend.Common.{
  ℕ, String, true, false, ◌≡◌, refl, sym, ap, ◌∙◌, subst, Option, none, [], arith, Bool-cases,
  Option-cases, inl, inr, find,
}
use test_m_backend.AccessControl.Policy.Values.{AccessPolicyDecision}
use test_m_backend.AccessControl.Models.{
  Workflow, Metadata, Evidence, Approval, Grant, NotificationType, Tables, Env, AccessAiReview,
  AiStatus, AuditEntry,
}
use test_m_backend.AccessControl.Audit.{append_audit}
use test_m_backend.AccessControl.Outbox.{JobSpec, has_key, enqueue}
use test_m_backend.AccessControl.Outbox.Unique.{enqueue_present, enqueue_absent}
use test_m_backend.AccessControl.Service.Monad.{Session, Action, modify, update, now_utc, uuid4}
use test_m_backend.AccessControl.Service.Transition.{
  allowed, is_resolved, transition, enter, entered, notify, notified,
}
use test_m_backend.AccessControl.Service.Keeps.{Keeps, keeps_rules}
use test_m_backend.AccessControl.Service.Methods.{
  evidence_added, decided, review_queued, approval_added, granted, update_grant,
}
use test_m_backend.AccessControl.Worker.{review_added, reviewed}
use test_m_backend.AccessControl.Worker.Preserved.{Keeps-call}
use test_m_backend.AccessControl.History.Extension.{
  IsPrefix, IsPrefix-self, IsPrefix-append, IsPrefix-trans, Extends, Extends-unchanged,
}

enqueue-audits :
    (env : Env) (spec : JobSpec) (t : Tables) → (enqueue env spec t).1.audits ≡ t.audits
enqueue-audits env spec t =
    elim (Option-cases (find (has_key spec.tenant_id spec.deduplication_key) t.outbox)) [
      | inl absent ↦ ap (λ p. p.1.audits) (enqueue_absent env spec t absent)
      | inr (j, present) ↦ ap (λ p. p.1.audits) (enqueue_present env spec t j present)
    ]

resolved_stuck : (from to : Workflow) → is_resolved from ≡ true → allowed from to ≡ false
unfolding is_resolved allowed
resolved_stuck from to r = ground arith

abbrev pub Grows : Session → {A : Type 0} → Action A → Type 0
Grows o = Keeps (Extends o)

module _ (env : Env) (o : Session) where
  pub transition-Grows :
      (state : Workflow) (actor : String) (reason : Option String) (metadata : Metadata)
      → Grows o (transition env state actor reason metadata)
  unfolding transition enter entered append_audit
  transition-Grows state actor reason metadata = record {
    at = λ s h. elim (Bool-cases (allowed s.request.workflow_state state)) [
      | inr a ↦ rw a h
      | inl a ↦ rw a (record {
        version = omega (arith, h.version);
        transitions = IsPrefix-append _ _ _ h.transitions;
        evidence = h.evidence;
        approvals = h.approvals;
        audits = IsPrefix-append _ _ _ h.audits;
        terms = h.terms;
        resolution = λ r.
            let stuck =
              resolved_stuck s.request.workflow_state state
                (subst (λ w. is_resolved w ≡ true) (sym (h.resolution r)) r) in
            cc;
      })
    ];
  }

  -- a change of the tables that leaves the audit records, or adds to them
  pub update-Grows :
      (f : Tables → Tables) → ((t : Tables) → IsPrefix t.audits (f t).audits) → Grows o (update f)
  unfolding update
  update-Grows f more = record {
    at = λ s h. record {
      version = h.version;
      transitions = h.transitions;
      evidence = h.evidence;
      approvals = h.approvals;
      audits = IsPrefix-trans _ _ _ h.audits (more s.tables);
      terms = h.terms;
      resolution = h.resolution;
    };
  }

  pub enqueue-grows :
      (spec : JobSpec) (t : Tables) → IsPrefix t.audits (enqueue env spec t).1.audits
  enqueue-grows spec t = ([], enqueue-audits env spec t ∙ sym (append-nil _))

  pub append_audit-grows :
      (entry : AuditEntry) (t : Tables) → IsPrefix t.audits (append_audit env entry none t).1.audits
  unfolding append_audit
  append_audit-grows entry t = IsPrefix-append _ _ _ (IsPrefix-self t.audits)

  pub review_added-grows :
      (row : AccessAiReview) (t : Tables) → IsPrefix t.audits (review_added row t).audits
  unfolding review_added
  review_added-grows row t = IsPrefix-self t.audits

  pub notify-Grows :
      (kind : NotificationType) (recipient : String) → Grows o (notify env kind recipient)
  unfolding notify notified
  notify-Grows kind recipient = record {
    at = λ s h. record {
      version = h.version;
      transitions = h.transitions;
      evidence = h.evidence;
      approvals = h.approvals;
      audits = (h.audits.0, enqueue-audits env _ _ ∙ h.audits.1);
      terms = h.terms;
      resolution = h.resolution;
    };
  }

  pub now_utc-Grows : Grows o (now_utc env)
  unfolding now_utc
  now_utc-Grows = record { at = λ s h. Extends-unchanged s _ refl h }

  pub uuid4-Grows : Grows o (uuid4 env)
  unfolding uuid4
  uuid4-Grows = record { at = λ s h. Extends-unchanged s _ refl h }

  pub evidence_added-Grows : (row : Evidence) → Grows o (modify (evidence_added row))
  unfolding modify evidence_added
  evidence_added-Grows row = record {
    at = λ s h. record {
      version = h.version;
      transitions = h.transitions;
      evidence = IsPrefix-append _ _ _ h.evidence;
      approvals = h.approvals;
      audits = h.audits;
      terms = h.terms;
      resolution = h.resolution;
    };
  }

  pub decided-Grows : (d : AccessPolicyDecision) (time : ℕ) → Grows o (modify (decided d time))
  unfolding modify decided
  decided-Grows d time = record {
    at = λ s h. record {
      version = omega (arith, h.version);
      transitions = h.transitions;
      evidence = h.evidence;
      approvals = h.approvals;
      audits = h.audits;
      terms = h.terms;
      resolution = h.resolution;
    };
  }

  pub review_queued-Grows : Grows o (modify review_queued)
  unfolding modify review_queued
  review_queued-Grows = record { at = λ s h. Extends-unchanged s _ refl h }

  pub approval_added-Grows : (row : Approval) → Grows o (modify (approval_added row))
  unfolding modify approval_added
  approval_added-Grows row = record {
    at = λ s h. record {
      version = h.version;
      transitions = h.transitions;
      evidence = h.evidence;
      approvals = IsPrefix-append _ _ _ h.approvals;
      audits = h.audits;
      terms = h.terms;
      resolution = h.resolution;
    };
  }

  pub granted-Grows : (g : Grant) → Grows o (modify (granted g))
  unfolding modify granted
  granted-Grows g = record { at = λ s h. Extends-unchanged s _ refl h }

  pub update_grant-Grows : (f : Grant → Grant) → Grows o (modify (update_grant f))
  unfolding modify update_grant
  update_grant-Grows f = record { at = λ s h. Extends-unchanged s _ refl h }

  pub reviewed-Grows : (status : AiStatus) → Grows o (modify (reviewed status))
  unfolding modify reviewed
  reviewed-Grows status = record { at = λ s h. Extends-unchanged s _ refl h }

  pub ruleset grow_rules = (
    keeps_rules, Keeps-call, transition-Grows, update-Grows, enqueue-grows, append_audit-grows,
    review_added-grows, notify-Grows, now_utc-Grows, uuid4-Grows, evidence_added-Grows,
    decided-Grows, review_queued-Grows, approval_added-Grows, granted-Grows, update_grant-Grows,
    reviewed-Grows,
  )
