-- ===== src/Response/Expiry.antt =====
-- engine/response_service.py: the controls whose time has run out.
use test_m_backend.Common.{
  ℕ, Bool, false, ◌&&◌, none, some, List, [], ◌∷◌, map, ◌==◌, nat_eq, string_eq, if◌then◌else◌, leb,
  filter,
}
use test_m_backend.Common.Order.{sorted}
use test_m_backend.AccessControl.Service.Monad.{Result, ok, err}
use test_m_backend.Response.Sandbox.{
  Status, ResponseAction, RollbackResult, TransitionDetails, Desk,
}
use test_m_backend.Response.Adapter.{release}
use test_m_backend.Response.Workflow.{is_running, move, settled}
use test_m_backend.Response.Creation.{Store}

-- the query
unfoldable pub is_due : ℕ → ResponseAction → Bool
is_due now a = is_running a.status && (elim a.expires_at [ none ↦ false | some t ↦ leb t now ])

unfoldable pub id_first : ResponseAction → ResponseAction → Bool
id_first a b = leb a.action_id b.action_id

unfoldable pub due_actions : ℕ → List ResponseAction → List ResponseAction
unfolding is_due id_first
due_actions now rows = sorted id_first (filter (is_due now) rows)

-- the transition, with the answer of the adapter
unfoldable pub lapse : ℕ → RollbackResult → Desk → Result (Unit {0}) × Desk
lapse now result d =
    move Status.expired "response-expiry" none TransitionDetails.nothing now
      (record d { action = record d.action { rollback_result = some result } })

-- the body of the loop
unfoldable pub expire_one : ℕ → Desk → Result (Unit {0}) × Desk
unfolding lapse
expire_one now d = settled (release now d) (lapse now) (λ e d'. (err e, d'))

-- the store with what a desk holds
unfoldable pub put : Desk → Store → Store
put d s = record {
  actions =
      map (λ (r : ResponseAction). if d.action.action_id == r.action_id then d.action else r)
        s.actions;
  controls = d.controls;
  logs = d.logs;
}

unfoldable pub collect :
    ResponseAction → Result (List ResponseAction) → Result (List ResponseAction)
collect a (err e) = err e
collect a (ok rest) = ok (a ∷ rest)

-- the rest of the loop, unless the body raised
unfoldable pub resume :
    Result (Unit {0})
    → Desk
    → Store
    → Result (List ResponseAction) × Store
    → Result (List ResponseAction) × Store
unfolding put collect
resume (err e) d s later = (err e, put d s)
resume (ok _) d s later = (collect d.action later.0, later.1)

unfoldable pub expire_loop : ℕ → List ResponseAction → Store → Result (List ResponseAction) × Store
unfolding expire_one put resume
expire_loop now [] s = (ok [], s)
expire_loop now (a ∷ due) s =
    let r = expire_one now (record { action = a; controls = s.controls; logs = s.logs }) in
    resume r.0 r.1 s (expire_loop now due (put r.1 s))

unfoldable pub expire_due_actions : ℕ → Store → Result (List ResponseAction) × Store
unfolding due_actions expire_loop
expire_due_actions now s = expire_loop now (due_actions now s.actions) s
