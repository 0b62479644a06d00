-- ===== src/Response/Lapsed.antt =====
-- After engine/response_service.py has expired what is due, nothing is.
use test_m_backend.Common.{
  ℕ, ◌≡◌, refl, sym, ap, subst, inl, inr, String, true, false, List, [], ◌∷◌, arith, ◌==◌, nat_eq,
  string_eq, ==_self, if◌then◌else◌, any, any-Exists, filter, Exists-map, Exists-filter, All,
  All-map, All-mapped, All-filter_when, own-members, Bool-cases,
}
use test_m_backend.Common.Order.{sorted, All-sorted, Exists-sorted}
use test_m_backend.AccessControl.Service.Monad.{Result, ok}
use test_m_backend.Response.Sandbox.{Status, ResponseAction, Desk}
use test_m_backend.Response.Adapter.{target, release}
use test_m_backend.Response.Workflow.{is_running, move, moved, settled, permitted}
use test_m_backend.Response.Creation.{Store}
use test_m_backend.Response.Expiry.{
  is_due, id_first, due_actions, expire_one, put, collect, resume, expire_loop, expire_due_actions,
}

-- The adapter finds the control of the action.
abbrev pub HasTarget : ResponseAction → Type 0
HasTarget a = (place : String × String) × (target a ≡ ok place)

-- An action in effect whose control is found expires.
expire_one-expired :
    (now : ℕ) (d : Desk)
    → HasTarget d.action
    → d.action.status ≡ Status.active
    → ((expire_one now d).0 ≡ ok tt)
      × ((expire_one now d).1.action.status ≡ Status.expired)
      × ((expire_one now d).1.action.action_id ≡ d.action.action_id)
unfolding expire_one release move moved permitted settled
expire_one-expired now d h e = let k = h.1 in ground arith

active_of_due : (now : ℕ) (a : ResponseAction) → is_due now a ≡ true → a.status ≡ Status.active
unfolding is_due is_running
active_of_due now a h = ground arith

expired-not-due : (now : ℕ) (a : ResponseAction) → a.status ≡ Status.expired → is_due now a ≡ false
unfolding is_due is_running
expired-not-due now a h = ground arith

-- Every row that is due stands among the actions that are still to expire.
abbrev IsListed : ℕ → List ResponseAction → ResponseAction → Type 0
IsListed now due r =
    is_due now r ≡ true → any (λ (a : ResponseAction). a.action_id == r.action_id) due ≡ true

-- A row with another identifier is listed without the head of the list.
IsListed-later :
    (now : ℕ) (a : ResponseAction) (due : List ResponseAction) (r : ResponseAction)
    → (a.action_id == r.action_id) ≡ false
    → IsListed now (a ∷ due) r
    → IsListed now due r
unfolding any
IsListed-later now a due r k h e = rw k at (h e)

put-IsListed :
    (now : ℕ) (a : ResponseAction) (due : List ResponseAction) (d : Desk) (s : Store)
    → d.action.action_id ≡ a.action_id
    → d.action.status ≡ Status.expired
    → All (IsListed now (a ∷ due)) s.actions
    → All (IsListed now due) (put d s).actions
unfolding put
put-IsListed now a due d s i e h =
    All-mapped (IsListed now due) _ s.actions (All-map _ _ s.actions listed h)
  where
    listed :
        (r : ResponseAction)
        → IsListed now (a ∷ due) r
        → IsListed now due (if d.action.action_id == r.action_id then d.action else r)
    listed r k = elim (Bool-cases (d.action.action_id == r.action_id)) [
      | inl q ↦ rw q (λ w. absurd (let v = expired-not-due now d.action e in cc))
      | inr q ↦ rw q (IsListed-later now a due r (subst (λ n. (n == r.action_id) ≡ false) i q) k)
    ]

-- The call returns, and leaves nothing that is due.
abbrev pub IsComplete : ℕ → Result (List ResponseAction) × Store → Type 0
IsComplete now r =
    ((done : List ResponseAction) × (r.0 ≡ ok done)) × All (λ a. is_due now a ≡ false) r.1.actions

resume-IsComplete :
    (now : ℕ) (d : Desk) (s : Store) (later : Result (List ResponseAction) × Store)
    → IsComplete now later
    → IsComplete now (resume (ok tt) d s later)
unfolding resume collect
resume-IsComplete now d s later h = ((d.action ∷ h.0.0, ap (collect d.action) h.0.1), h.1)

unlisted : (now : ℕ) (r : ResponseAction) → IsListed now [] r → is_due now r ≡ false
unfolding any
unlisted now r h = elim (Bool-cases (is_due now r)) [
  | inl e ↦ absurd (let k = h e in cc)
  | inr e ↦ e
]

expire_loop-IsComplete :
    (now : ℕ) (due : List ResponseAction) (s : Store)
    → All (λ a. HasTarget a × (a.status ≡ Status.active)) due
    → All (IsListed now due) s.actions
    → IsComplete now (expire_loop now due s)
unfolding expire_loop
expire_loop-IsComplete now [] s t h = (([], refl), All-map _ _ s.actions (unlisted now) h)
expire_loop-IsComplete now (a ∷ due) s t h =
    let d : Desk = record { action = a; controls = s.controls; logs = s.logs } in
    let one = expire_one-expired now d t.0.0 t.0.1 in
    let next : Store = put (expire_one now d).1 s in
    let rest =
      expire_loop-IsComplete now due next t.1
        (put-IsListed now a due (expire_one now d).1 s one.2 one.1 h) in
    subst (λ r. IsComplete now (resume r (expire_one now d).1 s (expire_loop now due next)))
      (sym one.0) (resume-IsComplete now (expire_one now d).1 s (expire_loop now due next) rest)

-- Every row that is due is among the due ones.
due-IsListed :
    (now : ℕ) (rows : List ResponseAction) → All (IsListed now (due_actions now rows)) rows
unfolding due_actions
due-IsListed now rows =
    All-map _ _ rows
      (λ r m e. any-Exists _ (sorted id_first (filter (is_due now) rows)) (
        (Exists-sorted _ id_first (filter (is_due now) rows)).1 (
          (Exists-filter _ (is_due now) rows).1 (
            Exists-map _ _ rows
              (λ y k. (
                subst (λ x. is_due now x ≡ true) (sym k) e,
                subst (λ x. (y.action_id == x.action_id) ≡ true) k (==_self y.action_id),
              ))
              m))))
      (own-members rows)

due-HasTarget :
    (now : ℕ) (rows : List ResponseAction)
    → All (λ a. is_due now a ≡ true → HasTarget a) rows
    → All (λ a. HasTarget a × (a.status ≡ Status.active)) (due_actions now rows)
unfolding due_actions
due-HasTarget now rows h = All-sorted _ id_first _ (
    All-filter_when (is_due now) _ rows
      (All-map _ _ rows (λ a f e. (f e, active_of_due now a e)) h))

-- If the adapter finds the control of every action that is due, then all of them expire: the call
-- returns, and no action that it leaves is due.
pub expire_due_actions-IsComplete :
    (now : ℕ) (s : Store)
    → All (λ a. is_due now a ≡ true → HasTarget a) s.actions
    → IsComplete now (expire_due_actions now s)
unfolding expire_due_actions
expire_due_actions-IsComplete now s h =
    expire_loop-IsComplete now (due_actions now s.actions) s (due-HasTarget now s.actions h)
      (due-IsListed now s.actions)
