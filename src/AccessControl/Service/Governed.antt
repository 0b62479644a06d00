-- ===== src/AccessControl/Service/Governed.antt =====
-- No grant without its approvals, and none wider than the request and the policy allow: what holds of
-- a request between two calls, and that each write of the service keeps it.
use test_m_backend.Common.{
  ℕ, ◌≤◌, String, Bool, true, false, ◌≡◌, ◌≢◌, refl, sym, subst, Option, none, some, List, [], ◌∷◌,
  arith, All, All-map, All-append, Exists-append, Exists,
}
use mathlib.Core.Option
use mathlib.Core.Option.{some-injective}
use test_m_backend.AccessControl.Policy.Values.{Sensitivity, Role, AccessPolicyDecision}
use test_m_backend.AccessControl.Policy.Limits.{wanted_roles, longest}
use test_m_backend.AccessControl.Models.{
  Workflow, Verdict, Metadata, Evidence, Approval, Grant, AccessRequest, Env,
}
use test_m_backend.AccessControl.Service.Transition.{allowed, entered}
use test_m_backend.AccessControl.Service.Methods.{
  evidence_added, decided, review_queued, approval_added, granted, update_grant,
}

-- Someone approved in a role.
abbrev pub ApprovedBy : List Approval → Role → Type 0
ApprovedBy approvals role =
    Exists (λ a. (a.approver_role ≡ role) × (a.decision ≡ Verdict.approve)) approvals

-- The states from APPROVED on, and those in which a grant exists.
abbrev pub is_cleared : Workflow → Bool
is_cleared Workflow.approved = true
is_cleared Workflow.enforcing = true
is_cleared Workflow.active = true
is_cleared Workflow.revoking = true
is_cleared Workflow.revoked = true
is_cleared Workflow.expired = true
is_cleared Workflow.enforcement_failed = true
is_cleared _ = false

-- A decision of the policy on this request.
pub record IsRuling (glass : Bool) (sensitivity : Sensitivity) (permission : String)
    (d : AccessPolicyDecision) : Type 0 where
  pub roles : d.required_approver_roles ≡ wanted_roles glass sensitivity
  pub duration : d.maximum_duration_seconds ≤ longest glass sensitivity
  pub allowance : d.eligibility ≡ true → d.maximum_permission ≡ some permission

-- The grant gives the one resource, permission and action of the request, for no longer than the
-- request and the policy say.
pub record IsLeast (resource permission action : String) (asked limit : ℕ) (g : Grant)
    : Type 0 where
  pub on_resource : g.exact_resource ≡ resource
  pub for_permission : g.exact_permission ≡ some permission
  pub for_action : g.allowed_actions ≡ action ∷ []
  pub within_asked : g.maximum_ttl_seconds ≤ asked
  pub within_limit : g.maximum_ttl_seconds ≤ limit

abbrev pub Rules : AccessRequest → AccessPolicyDecision → Type 0
Rules r = IsRuling r.break_glass r.resource_sensitivity r.requested_permission

abbrev pub Fits : AccessRequest → Grant → Type 0
Fits r =
    IsLeast r.resource_id r.requested_permission r.requested_action r.requested_duration_seconds
      (longest r.break_glass r.resource_sensitivity)

-- The requester approved nothing; from APPROVED on every wanted role has approved, and after
-- APPROVED there is a grant; every grant is least.
pub record IsGoverned (r : AccessRequest) : Type 0 where
  pub independent : All (λ a. a.approver_identity ≢ r.requester_identity) r.approvals
  pub ruled : (d : AccessPolicyDecision) → r.policy_decision ≡ some d → Rules r d
  pub least : (g : Grant) → r.grant ≡ some g → Fits r g
  pub cleared :
      is_cleared r.workflow_state ≡ true
      → All (ApprovedBy r.approvals) (wanted_roles r.break_glass r.resource_sensitivity)
  pub backed :
      is_cleared r.workflow_state ≡ true → r.workflow_state ≢ Workflow.approved → r.grant ≢ none

-- The clearance of a state comes from the state before, but for APPROVED and ENFORCING.
clear_before :
    (from to : Workflow)
    → allowed from to ≡ true
    → is_cleared to ≡ true
    → to ≢ Workflow.approved
    → (is_cleared from ≡ true) × (to ≢ Workflow.enforcing → from ≢ Workflow.approved)
unfolding allowed
clear_before from to a c n = ground arith

module _ (env : Env) (state : Workflow) (actor : String) (reason : Option String)
    (metadata : Metadata) (time : ℕ) (r : AccessRequest) where
  -- A transition other than those to APPROVED and ENFORCING needs nothing more.
  pub entered-IsGoverned :
      allowed r.workflow_state state ≡ true
      → state ≢ Workflow.approved
      → state ≢ Workflow.enforcing
      → IsGoverned r
      → IsGoverned (entered env state actor reason metadata time r)
  unfolding entered
  entered-IsGoverned a na ne h = record {
    independent = h.independent;
    ruled = h.ruled;
    least = h.least;
    cleared = λ c. h.cleared (clear_before r.workflow_state state a c na).0;
    backed = λ c _. let k = clear_before r.workflow_state state a c na in h.backed k.0 (k.1 ne);
  }

  pub approved-IsGoverned :
      state ≡ Workflow.approved
      → All (ApprovedBy r.approvals) (wanted_roles r.break_glass r.resource_sensitivity)
      → IsGoverned r
      → IsGoverned (entered env state actor reason metadata time r)
  unfolding entered
  approved-IsGoverned e c h = record {
    independent = h.independent;
    ruled = h.ruled;
    least = h.least;
    cleared = λ _. c;
    backed = λ _ n. absurd (n e);
  }

  pub enforcing-IsGoverned :
      r.workflow_state ≡ Workflow.approved
      → r.grant ≢ none
      → IsGoverned r
      → IsGoverned (entered env state actor reason metadata time r)
  unfolding entered
  enforcing-IsGoverned e g h = record {
    independent = h.independent;
    ruled = h.ruled;
    least = h.least;
    cleared = λ _. h.cleared (subst (λ w. is_cleared w ≡ true) (sym e) refl);
    backed = λ _ _. g;
  }

module _ (r : AccessRequest) (h : IsGoverned r) where
  pub evidence_added-IsGoverned : (row : Evidence) → IsGoverned (evidence_added row r)
  unfolding evidence_added
  evidence_added-IsGoverned row = record {
    independent = h.independent;
    ruled = h.ruled;
    least = h.least;
    cleared = h.cleared;
    backed = h.backed;
  }

  pub review_queued-IsGoverned : IsGoverned (review_queued r)
  unfolding review_queued
  review_queued-IsGoverned = record {
    independent = h.independent;
    ruled = h.ruled;
    least = h.least;
    cleared = h.cleared;
    backed = h.backed;
  }

  pub decided-IsGoverned :
      (d : AccessPolicyDecision) (time : ℕ) → Rules r d → IsGoverned (decided d time r)
  unfolding decided
  decided-IsGoverned d time k = record {
    independent = h.independent;
    ruled = λ e q. subst (Rules r) (some-injective d e q) k;
    least = h.least;
    cleared = h.cleared;
    backed = h.backed;
  }

  pub approval_added-IsGoverned :
      (row : Approval)
      → row.approver_identity ≢ r.requester_identity
      → IsGoverned (approval_added row r)
  unfolding approval_added
  approval_added-IsGoverned row n = record {
    independent = All-append _ r.approvals (row ∷ []) h.independent (n, tt);
    ruled = h.ruled;
    least = h.least;
    cleared = λ c.
        All-map _ _ (wanted_roles r.break_glass r.resource_sensitivity)
          (λ role k. Exists-append _ r.approvals (row ∷ []) k) (h.cleared c);
    backed = h.backed;
  }

  pub granted-IsGoverned : (g : Grant) → Fits r g → IsGoverned (granted g r)
  unfolding granted
  granted-IsGoverned g k = record {
    independent = h.independent;
    ruled = h.ruled;
    least = λ q e. subst (Fits r) (some-injective g q e) k;
    cleared = h.cleared;
    backed = λ _ _. λ e. cc;
  }

  -- A change of the grant that leaves its scope alone.
  pub update_grant-IsGoverned :
      (f : Grant → Grant) → ((g : Grant) → Fits r g → Fits r (f g)) → IsGoverned (update_grant f r)
  unfolding update_grant
  update_grant-IsGoverned f keep = record {
    independent = h.independent;
    ruled = h.ruled;
    least = mapped r.grant h.least;
    cleared = h.cleared;
    backed = λ c n. map-ne-none r.grant (h.backed c n);
  }
    where
      mapped :
          (o : Option Grant)
          → ((g : Grant) → o ≡ some g → Fits r g)
          → (g : Grant) → Option.map f o ≡ some g
          → Fits r g
      mapped none k g e = cc
      mapped (some q) k g e = subst (Fits r) (some-injective (f q) g e) (keep q (k q refl))

      map-ne-none : (o : Option Grant) → o ≢ none → Option.map f o ≢ none
      map-ne-none none n e = n refl
      map-ne-none (some q) n e = cc
