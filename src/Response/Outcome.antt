-- ===== src/Response/Outcome.antt =====
-- Where an execution ends.
use test_m_backend.Common.{
  subst, sym, ℕ, String, Bool, true, false, ◌≡◌, ◌⊎◌, refl, ap, ◌∙◌, Bool-cases, inl, inr, arith,
}
use test_m_backend.AccessControl.Models.{Error}
use test_m_backend.AccessControl.Service.Monad.{Result, ok, err}
use test_m_backend.Response.Sandbox.{Status, ExecutionResult, Verification, Desk}
use test_m_backend.Response.Adapter.{execute}
use test_m_backend.Response.Workflow.{
  permitted, moved, move, settled, give_up, conclude, attempt, execute_action, is_running,
  is_executing,
}
use test_m_backend.Response.Authority.{execute-action}

-- The call returned, and the action is active or failed.
abbrev pub HasEnded : Result (Unit {0}) × Desk → Type 0
HasEnded r =
    (r.0 ≡ ok tt) × ((r.1.action.status ≡ Status.active) ⊎ (r.1.action.status ≡ Status.failed))

give_up-HasEnded :
    (principal : String) (now : ℕ) (e : Error) (d : Desk)
    → d.action.status ≡ Status.executing
    → HasEnded (give_up principal now e d)
unfolding give_up move moved permitted
give_up-HasEnded principal now e d st = rw st (refl, inr refl)

conclude-HasEnded :
    (principal : String) (now : ℕ) (answer : ExecutionResult × Verification) (d : Desk)
    → d.action.status ≡ Status.executing
    → HasEnded (conclude principal now answer d)
unfolding conclude settled move moved permitted
conclude-HasEnded principal now answer d st = elim (Bool-cases answer.1.verified) [
  | inl seen ↦ rw (seen, st) (refl, inl refl)
  | inr unseen ↦ rw unseen (give_up-HasEnded principal now Error.runtime_error _ st)
]

attempt-HasEnded :
    (principal : String) (now : ℕ) (f v : Bool) (d : Desk)
    → d.action.status ≡ Status.executing
    → HasEnded (attempt principal now f v d)
unfolding attempt settled
attempt-HasEnded principal now f v d st =
    go (execute now f v d) (ap (λ a. a.status) (execute-action now f v d) ∙ st)
  where
    go :
        (r : Result (ExecutionResult × Verification) × Desk)
        → r.1.action.status ≡ Status.executing
        → HasEnded (settled r (conclude principal now) (give_up principal now))
    go (ok a, e) k = conclude-HasEnded principal now a e k
    go (err x, e) k = give_up-HasEnded principal now x e k

-- An execution of an action that is authorised, approved or already in execution returns, whatever
-- the adapter does, and leaves the action active or failed.
pub execute_action-HasEnded :
    (principal : String) (now : ℕ) (inject_failure inject_verification_failure : Bool) (d : Desk)
    → (permitted d.action.status Status.executing ≡ true) ⊎ (d.action.status ≡ Status.executing)
    → HasEnded (execute_action principal now inject_failure inject_verification_failure d)
unfolding execute_action is_running is_executing
execute_action-HasEnded principal now f v d (inr st) =
    rw
      (
        subst (λ w. is_running w ≡ false) (sym st) refl,
        subst (λ w. is_executing w ≡ true) (sym st) refl,
      )
      (attempt-HasEnded principal now f v d st)
execute_action-HasEnded principal now f v d (inl p) =
    rw (idle d.action.status p, unbegun d.action.status p)
      (unfold settled move moved in rw p (attempt-HasEnded principal now f v _ refl))
  where
    idle : (w : Status) → permitted w Status.executing ≡ true → is_running w ≡ false
    idle w p = unfold permitted is_running in ground arith

    unbegun : (w : Status) → permitted w Status.executing ≡ true → is_executing w ≡ false
    unbegun w p = unfold permitted is_executing in ground arith
