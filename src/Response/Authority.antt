-- ===== src/Response/Authority.antt =====
-- No response is executed without its authorisation: every step of the workflow keeps an action
-- authorised.
use test_m_backend.Common.{
  ℕ, String, Bool, true, false, ◌≡◌, ◌≢◌, ◌⊎◌, refl, sym, subst, ◌∙◌, Option, none, some, arith,
  ◌==◌, string_eq, Bool-cases, inl, inr,
}
use test_m_backend.AccessControl.Models.{Error}
use test_m_backend.AccessControl.Service.Monad.{Result, ok, err}
use test_m_backend.Response.Sandbox.{
  Status, ExecutionResult, Verification, TransitionDetails, ResponseAction, Desk,
}
use test_m_backend.Response.Adapter.{target, execute, apply_control, release}
use test_m_backend.Response.Expiry.{lapse, expire_one}
use test_m_backend.Response.Workflow.{
  permitted, moved, move, settled, Preview, route, approve_action, give_up, conclude, attempt,
  execute_action, rolled_back, rollback_action, is_running, is_executing, is_waiting_approval,
}

-- The states that an authorisation leads to.
abbrev pub is_authorised : Status → Bool
is_authorised Status.proposed = false
is_authorised Status.awaiting_approval = false
is_authorised Status.rejected = false
is_authorised _ = true

-- The policy allowed the action, and if it asked for an approval, someone other than the requester
-- gave it.
abbrev pub HasAuthority : ResponseAction → Type 0
HasAuthority a =
    (a.policy_decision ≡ true)
    × ((a.approval_required ≡ false)
        ⊎ ((p : String) × (a.approved_by ≡ some p) × (p ≢ a.requested_by)))

pub record IsAuthorised (a : ResponseAction) : Type 0 where
  pub offered : a.status ≡ Status.awaiting_approval → a.policy_decision ≡ true
  pub fresh : a.status ≢ Status.proposed
  pub held : is_authorised a.status ≡ true → HasAuthority a

-- What a step leaves alone.
abbrev SameOrder : ResponseAction → ResponseAction → Type 0
SameOrder a b =
    (b.policy_decision ≡ a.policy_decision)
    × (b.approval_required ≡ a.approval_required)
    × (b.approved_by ≡ a.approved_by)
    × (b.requested_by ≡ a.requested_by)

step_back :
    (from to : Status)
    → permitted from to ≡ true
    → from ≢ Status.proposed
    → to ≢ Status.approved
    → is_authorised to ≡ true
    → is_authorised from ≡ true
unfolding permitted
step_back from to p n a c = ground arith

step_fresh : (from to : Status) → permitted from to ≡ true → to ≢ Status.proposed
unfolding permitted
step_fresh from to p = ground arith

step_offered :
    (from to : Status)
    → permitted from to ≡ true
    → from ≢ Status.proposed
    → to ≢ Status.awaiting_approval
unfolding permitted
step_offered from to p n = ground arith

-- A step other than the approval.
pub move-IsAuthorised :
    (to : Status) (principal : String) (remark : Option String) (details : TransitionDetails)
    (now : ℕ) (d : Desk)
    → to ≢ Status.approved
    → IsAuthorised d.action
    → IsAuthorised (move to principal remark details now d).1.action
unfolding move moved
move-IsAuthorised to principal remark details now d n h =
    elim (Bool-cases (permitted d.action.status to)) [
      | inr stuck ↦ rw stuck h
      | inl step ↦ rw step (record {
        offered = λ e. absurd (step_offered d.action.status to step h.fresh e);
        fresh = step_fresh d.action.status to step;
        held = λ c. h.held (step_back d.action.status to step h.fresh n c);
      })
    ]

settled-IsAuthorised :
    {A : Type 0} (r : Result A × Desk) (f : A → Desk → Result (Unit {0}) × Desk)
    (g : Error → Desk → Result (Unit {0}) × Desk)
    → IsAuthorised r.1.action
    → ((a : A) (d : Desk) → IsAuthorised d.action → IsAuthorised (f a d).1.action)
    → ((e : Error) (d : Desk) → IsAuthorised d.action → IsAuthorised (g e d).1.action)
    → IsAuthorised (settled r f g).1.action
unfolding settled
settled-IsAuthorised (ok a, d) f g h kf kg = kf a d h
settled-IsAuthorised (err e, d) f g h kf kg = kg e d h

give_up-IsAuthorised :
    (principal : String) (now : ℕ) (e : Error) (d : Desk)
    → IsAuthorised d.action
    → IsAuthorised (give_up principal now e d).1.action
unfolding give_up
give_up-IsAuthorised principal now e d h =
    move-IsAuthorised Status.failed principal none _ now _ (λ k. cc)
      (record { offered = h.offered; fresh = h.fresh; held = h.held })

-- The adapter leaves the action alone.
pub execute-action : (now : ℕ) (f v : Bool) (d : Desk) → (execute now f v d).1.action ≡ d.action
unfolding execute apply_control
execute-action now true v d = refl
execute-action now false v d =
    elim (target d.action)
      as (λ t.
        (elim t as (λ _. Result (ExecutionResult × Verification) × Desk) [
          | err e ↦ (err e, d)
          | ok p ↦ (ok (apply_control now v p.0 p.1 d).0, (apply_control now v p.0 p.1 d).1)
        ]).1.action
        ≡ d.action) [ err e ↦ refl | ok p ↦ refl ]

release-action : (now : ℕ) (d : Desk) → (release now d).1.action ≡ d.action
unfolding release
release-action now d = elim (Result-cases (target d.action)) [
  | inl (p, e) ↦ rw (e, release) refl
  | inr (x, e) ↦ rw (e, release) refl
]
  where
    Result-cases :
        {A : Type 0} (r : Result A) → ((a : A) × (r ≡ ok a)) ⊎ ((e : Error) × (r ≡ err e))
    Result-cases (ok a) = inl (a, refl)
    Result-cases (err e) = inr (e, refl)

conclude-IsAuthorised :
    (principal : String) (now : ℕ) (answer : ExecutionResult × Verification) (d : Desk)
    → IsAuthorised d.action
    → IsAuthorised (conclude principal now answer d).1.action
unfolding conclude
conclude-IsAuthorised principal now answer d h = elim (Bool-cases answer.1.verified) [
  | inl seen ↦ rw seen (
      settled-IsAuthorised _ _ _
        (move-IsAuthorised Status.active principal none _ now _ (λ k. cc)
          (record { offered = h.offered; fresh = h.fresh; held = h.held }))
        (λ u e k. k) (λ e d' k. give_up-IsAuthorised principal now e d' k))
  | inr unseen ↦ rw unseen (
      give_up-IsAuthorised principal now Error.runtime_error _
        (record { offered = h.offered; fresh = h.fresh; held = h.held }))
]

attempt-IsAuthorised :
    (principal : String) (now : ℕ) (f v : Bool) (d : Desk)
    → IsAuthorised d.action
    → IsAuthorised (attempt principal now f v d).1.action
unfolding attempt
attempt-IsAuthorised principal now f v d h =
    settled-IsAuthorised (execute now f v d) _ _
      (subst IsAuthorised (sym (execute-action now f v d)) h)
      (λ a d' k. conclude-IsAuthorised principal now a d' k)
      (λ e d' k. give_up-IsAuthorised principal now e d' k)

pub execute_action-IsAuthorised :
    (principal : String) (now : ℕ) (f v : Bool) (d : Desk)
    → IsAuthorised d.action
    → IsAuthorised (execute_action principal now f v d).1.action
unfolding execute_action
execute_action-IsAuthorised principal now f v d h = elim (Bool-cases (is_running d.action.status)) [
  | inl running ↦ rw running h
  | inr idle ↦ elim (Bool-cases (is_executing d.action.status)) [
    | inl begun ↦ rw (idle, begun) (attempt-IsAuthorised principal now f v d h)
    | inr ready ↦
        rw (idle, ready)
          (settled-IsAuthorised _ _ _
            (move-IsAuthorised Status.executing principal none _ now d (λ k. cc) h)
            (λ u d' k. attempt-IsAuthorised principal now f v d' k) (λ e d' k. k))
  ]
]

pub rollback_action-IsAuthorised :
    (principal : String) (remark : Option String) (now : ℕ) (d : Desk)
    → IsAuthorised d.action
    → IsAuthorised (rollback_action principal remark now d).1.action
unfolding rollback_action rolled_back
rollback_action-IsAuthorised principal remark now d h =
    elim (Bool-cases (is_running d.action.status)) [
      | inr idle ↦ rw idle h
      | inl running ↦ rw running (
          settled-IsAuthorised (release now d) _ _
            (subst IsAuthorised (sym (release-action now d)) h)
            (λ r d' k.
              move-IsAuthorised Status.rolled_back principal remark _ now _ (λ k. cc)
                (record { offered = k.offered; fresh = k.fresh; held = k.held }))
            (λ e d' k. k))
    ]

pub expire_one-IsAuthorised :
    (now : ℕ) (d : Desk) → IsAuthorised d.action → IsAuthorised (expire_one now d).1.action
unfolding expire_one lapse
expire_one-IsAuthorised now d h =
    settled-IsAuthorised (release now d) _ _ (subst IsAuthorised (sym (release-action now d)) h)
      (λ r d' k.
        move-IsAuthorised Status.expired "response-expiry" none _ now _ (λ e. cc)
          (record { offered = k.offered; fresh = k.fresh; held = k.held }))
      (λ e d' k. k)

pub approve_action-IsAuthorised :
    (by remark : String) (now : ℕ) (d : Desk)
    → IsAuthorised d.action
    → IsAuthorised (approve_action by remark now d).1.action
unfolding approve_action move moved permitted
approve_action-IsAuthorised by remark now d h = elim (Bool-cases (d.action.requested_by == by)) [
  | inl own ↦ rw own h
  | inr other ↦ elim (Bool-cases (is_waiting_approval d.action.status)) [
    | inr early ↦ rw (other, early) h
    | inl waits ↦
        rw (other, waits, waiting_status d.action.status waits)
          (record {
            offered = λ e. cc;
            fresh = λ e. cc;
            held = λ c. (
              h.offered (waiting_status d.action.status waits),
              inr (
                by,
                refl,
                λ same. cc (other, (string_eq.equal_iff d.action.requested_by by).1 (sym same)),
              ),
            );
          })
  ]
]
  where
    waiting_status : (w : Status) → is_waiting_approval w ≡ true → w ≡ Status.awaiting_approval
    waiting_status w e = unfold is_waiting_approval in ground arith

pub route-IsAuthorised :
    (by : String) (remark : Option String) (now : ℕ) (p : Preview) (d : Desk)
    → d.action.status ≡ Status.proposed
    → d.action.policy_decision ≡ p.allow
    → d.action.approval_required ≡ p.approval_required
    → IsAuthorised (route by remark now p d).1.action
unfolding route move moved permitted
route-IsAuthorised by remark now p d st allows asks = elim (Bool-cases p.allow) [
  | inr refused ↦ rw (refused, st) (record { offered = λ e. cc; fresh = λ e. cc; held = λ c. cc })
  | inl allowed ↦ elim (Bool-cases p.approval_required) [
    | inl required ↦
        rw (allowed, required, st)
          (record { offered = λ e. allows ∙ allowed; fresh = λ e. cc; held = λ c. cc })
    | inr automatic ↦
        rw (allowed, automatic, st)
          (record {
            offered = λ e. cc;
            fresh = λ e. cc;
            held = λ c. (allows ∙ allowed, inl (asks ∙ automatic));
          })
  ]
]
