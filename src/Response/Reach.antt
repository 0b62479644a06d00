-- ===== src/Response/Reach.antt =====
-- Every sequence of calls on a response action, from its first transition on.
use test_m_backend.Common.{
  ℕ, String, Bool, refl, Option, List, [], ◌∷◌, string_eq, if◌then◌else◌, Bool-cases, inl, inr,
}
use test_m_backend.Response.Sandbox.{Status, ActionType, AuditLog, SandboxEnforcementState, Desk}
use test_m_backend.Response.Workflow.{
  Preview, new_action, route, approve_action, reject_action, execute_action, rollback_action,
}
use test_m_backend.Response.Expiry.{is_due, expire_one}
use test_m_backend.Response.Authority.{
  IsAuthorised, move-IsAuthorised, execute_action-IsAuthorised, rollback_action-IsAuthorised,
  expire_one-IsAuthorised, approve_action-IsAuthorised, route-IsAuthorised,
}

-- A call on an action.
pub data Call : Type 0 where
  approve : String → String → ℕ → Call
  reject : String → String → ℕ → Call
  execution : String → ℕ → Bool → Bool → Call
  rollback : String → Option String → ℕ → Call
  expiry : ℕ → Call

-- What the call leaves, whether it raises or not. The loop of `expire_due_actions` takes the actions that
-- are due, and leaves the others.
unfoldable pub perform : Call → Desk → Desk
perform (Call.approve by remark now) d = (approve_action by remark now d).1
perform (Call.reject by remark now) d = (reject_action by remark now d).1
perform (Call.execution principal now f v) d = (execute_action principal now f v d).1
perform (Call.rollback principal remark now) d = (rollback_action principal remark now d).1
perform (Call.expiry now) d = if is_due now d.action then (expire_one now d).1 else d

unfoldable pub perform_all : List Call → Desk → Desk
perform_all [] d = d
perform_all (c ∷ cs) d = perform_all cs (perform c d)

perform-IsAuthorised :
    (c : Call) (d : Desk) → IsAuthorised d.action → IsAuthorised (perform c d).action
unfolding perform reject_action
perform-IsAuthorised (Call.approve by remark now) d h =
    approve_action-IsAuthorised by remark now d h
perform-IsAuthorised (Call.reject by remark now) d h =
    move-IsAuthorised Status.rejected by _ _ now d (λ k. cc) h
perform-IsAuthorised (Call.execution principal now f v) d h =
    execute_action-IsAuthorised principal now f v d h
perform-IsAuthorised (Call.rollback principal remark now) d h =
    rollback_action-IsAuthorised principal remark now d h
perform-IsAuthorised (Call.expiry now) d h = elim (Bool-cases (is_due now d.action)) [
  | inl due ↦ rw due (expire_one-IsAuthorised now d h)
  | inr early ↦ rw early h
]

all-IsAuthorised :
    (cs : List Call) (d : Desk) → IsAuthorised d.action → IsAuthorised (perform_all cs d).action
unfolding perform_all
all-IsAuthorised [] d h = h
all-IsAuthorised (c ∷ cs) d h = all-IsAuthorised cs (perform c d) (perform-IsAuthorised c d h)

-- Whatever is called on a new action, its expiry included, and in whatever order, it is approved, in execution, active,
-- failed, rolled back or expired only if the policy allowed it and, where the policy asked for an
-- approval, someone other than the requester gave it.
pub workflow-IsAuthorised :
    (id case_id : ℕ) (kind : ActionType) (key by : String) (remark : Option String) (now : ℕ)
    (p : Preview) (controls : List SandboxEnforcementState) (logs : List AuditLog) (cs : List Call)
    → IsAuthorised
        (perform_all cs
          (route by remark now p (record {
            action = new_action id case_id kind key by remark now p;
            controls = controls;
            logs = logs;
          })).1).action
unfolding new_action
workflow-IsAuthorised id case_id kind key by remark now p controls logs cs =
    all-IsAuthorised cs _ (route-IsAuthorised by remark now p _ refl refl refl)
