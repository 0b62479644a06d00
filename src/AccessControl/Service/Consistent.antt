-- ===== src/AccessControl/Service/Consistent.antt =====
-- What holds of a session between two calls: the request's transitions are a path of
-- ALLOWED_TRANSITIONS from PAUSED to its state, every tenant's audit chain verifies, and the outbox
-- is sound and lists no deduplication key twice.
use test_m_backend.Common.{
  ℕ, suc, ◌<◌, String, true, ◌≡◌, refl, sym, ◌∙◌, subst, inl, inr, Option, none, some, List, [],
  ◌∷◌, ◌++◌, arith, All, All-map, All-append, find, Option-cases,
}
use test_m_backend.AccessControl.Models.{
  Workflow, Metadata, TransitionRow, AccessRequest, AuditEntry, NotificationType, Env, Tables, Job,
  Notification,
}
use test_m_backend.AccessControl.Audit.{audit_record, append_audit}
use test_m_backend.AccessControl.Audit.Chain.{IsChained, IsPast, Ticking, append_audit-IsChained}
use test_m_backend.AccessControl.Outbox.{JobSpec, has_key, enqueue}
use test_m_backend.AccessControl.Outbox.Lifecycle.{IsSound, enqueue-IsSound}
use test_m_backend.AccessControl.Outbox.Unique.{
  HasUniqueKeys, enqueue_present, enqueue_absent, enqueue-HasUniqueKeys,
}
use test_m_backend.AccessControl.Service.Monad.{Session, ticked}
use test_m_backend.AccessControl.Service.Transition.{allowed, entered, enter, notified}

-- A step of the state machine; a request begins in PAUSED.
abbrev pub IsStep : Option Workflow → Workflow → Type 0
IsStep none to = to ≡ Workflow.paused
IsStep (some from) to = allowed from to ≡ true

-- The rows lead from one state to another, each by a step from where the last one ended.
abbrev pub Leads : Option Workflow → List TransitionRow → Option Workflow → Type 0
Leads from [] to = from ≡ to
Leads from (row ∷ rows) to =
    (row.from_state ≡ from) × IsStep from row.to_state × Leads (some row.to_state) rows to

pub Leads-snoc :
    (from : Option Workflow) (rows : List TransitionRow) (row : TransitionRow) (state : Workflow)
    → Leads from rows (some state)
    → row.from_state ≡ some state
    → allowed state row.to_state ≡ true
    → Leads from (rows ++ row ∷ []) (some row.to_state)
Leads-snoc from [] row state h e a = (e ∙ sym h, subst (λ f. IsStep f row.to_state) (sym h) a, refl)
Leads-snoc from (r ∷ rows) row state h e a =
    (h.0, h.1, Leads-snoc (some r.to_state) rows row state h.2 e a)

pub record IsOrderly (env : Env) (t : Tables) : Type 0 where
  pub chained : IsChained env t
  pub past : IsPast (env.now t.tick) t.audits
  pub keys : HasUniqueKeys t.outbox
  pub sound : All IsSound t.outbox

pub record IsConsistent (env : Env) (s : Session) : Type 0 where
  pub history : Leads none s.request.transitions (some s.request.workflow_state)
  pub orderly : IsOrderly env s.tables

module _ (env : Env) (ticking : Ticking env) where
  IsPast-tick :
      (t : Tables) → IsPast (env.now t.tick) t.audits → IsPast (env.now (suc t.tick)) t.audits
  IsPast-tick t h = All-map _ _ t.audits (λ r k. omega (arith, k, ticking t.tick)) h

  -- Tables that differ in the outbox and the notifications alone, one reading later.
  later-IsOrderly :
      (t : Tables) (jobs : List Job) (rows : List Notification)
      → IsOrderly env t
      → HasUniqueKeys jobs
      → All IsSound jobs
      → IsOrderly env (record t { outbox = jobs; notifications = rows; tick = suc t.tick })
  later-IsOrderly t jobs rows h keys sound = record {
    chained = record { ascending = h.chained.ascending; verified = h.chained.verified };
    past = IsPast-tick t h.past;
    keys = keys;
    sound = sound;
  }

  pub ticked-IsOrderly : (t : Tables) → IsOrderly env t → IsOrderly env (ticked t)
  ticked-IsOrderly t h = later-IsOrderly t t.outbox t.notifications h h.keys h.sound

  pub enqueue-IsOrderly :
      (spec : JobSpec) (t : Tables) → IsOrderly env t → IsOrderly env (enqueue env spec t).1
  enqueue-IsOrderly spec t h =
      elim (Option-cases (find (has_key spec.tenant_id spec.deduplication_key) t.outbox)) [
        | inr (j, present) ↦
            subst (λ p. IsOrderly env p.1) (sym (enqueue_present env spec t j present)) h
        | inl absent ↦
            let e = enqueue_absent env spec t absent in
            subst (λ p. IsOrderly env p.1) (sym e)
              (later-IsOrderly t _ t.notifications h
                (subst (λ p. HasUniqueKeys p.1.outbox) e (enqueue-HasUniqueKeys env spec t h.keys))
                (subst (λ p. All IsSound p.1.outbox) e (enqueue-IsSound env spec t h.sound)))
      ]

  -- An entry at a time that is after all records and before the next reading of the clock.
  append_audit-IsOrderly :
      (entry : AuditEntry) (now : Option ℕ) (t : Tables)
      → IsPast (audit_record env entry now t).timestamp t.audits
      → (audit_record env entry now t).timestamp < env.now (suc t.tick)
      → IsOrderly env t
      → IsOrderly env (append_audit env entry now t).1
  append_audit-IsOrderly entry now t past fits h = record {
    chained = append_audit-IsChained env entry now t h.chained past;
    past = unfold append_audit in All-append _ t.audits _ (IsPast-tick t h.past) (fits, tt);
    keys = unfold append_audit in h.keys;
    sound = unfold append_audit in h.sound;
  }

  pub append_audit_now-IsOrderly :
      (entry : AuditEntry) (t : Tables)
      → IsOrderly env t
      → IsOrderly env (append_audit env entry none t).1
  unfolding audit_record
  append_audit_now-IsOrderly entry t h =
      append_audit-IsOrderly entry none t h.past (ticking t.tick) h

  pub notified-IsOrderly :
      (kind : NotificationType) (recipient : String) (r : AccessRequest) (t : Tables)
      → IsOrderly env t
      → IsOrderly env (notified env kind recipient r t)
  unfolding notified
  notified-IsOrderly kind recipient r t h =
      enqueue-IsOrderly _ _ (later-IsOrderly t t.outbox _ h h.keys h.sound)

  pub enter-IsConsistent :
      (state : Workflow) (actor : String) (reason : Option String) (metadata : Metadata)
      (s : Session)
      → allowed s.request.workflow_state state ≡ true
      → IsConsistent env s
      → IsConsistent env (enter env state actor reason metadata s)
  unfolding enter entered audit_record
  enter-IsConsistent state actor reason metadata s a h = record {
    history = Leads-snoc none s.request.transitions _ s.request.workflow_state h.history refl a;
    orderly =
        append_audit-IsOrderly _ _ (ticked s.tables) h.orderly.past
          (omega (arith, ticking s.tables.tick, ticking (suc s.tables.tick)))
          (ticked-IsOrderly s.tables h.orderly);
  }
