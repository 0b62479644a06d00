-- ===== src/AccessControl/Worker/Outcomes.antt =====
-- Where an enforcement and a revocation of access_control/worker.py end.
use test_m_backend.Common.{
  ℕ, suc, ◌+◌, true, false, ◌≡◌, ◌≢◌, refl, ◌⊎◌, inl, inr, some, arith, Bool-cases,
}
use test_m_backend.AccessControl.Models.{
  Workflow, Enforcement, ProviderResult, Grant, Env, Error, seconds,
}
use test_m_backend.AccessControl.Enforcement.{EnforcementProvider}
use test_m_backend.AccessControl.Service.Monad.{
  Session, Result, ok, err, pure, gets, ◌>>=◌, given, modify, update, now_utc, uuid4,
}
use test_m_backend.AccessControl.Service.Transition.{allowed, transition, enter, entered, notify}
use test_m_backend.AccessControl.Service.Methods.{update_grant}
use test_m_backend.AccessControl.Worker.{
  call, with_enforcement, activated, confirm, activate_grant, process_enforcement, is_withdrawn,
  withdraw, process_revoke,
}

Result-cases : {A : Type 0} (r : Result A) → ((a : A) × (r ≡ ok a)) ⊎ ((e : Error) × (r ≡ err e))
Result-cases (ok a) = inl (a, refl)
Result-cases (err e) = inr (e, refl)

module _ (env : Env) (provider : EnforcementProvider) (g : Grant) (s : Session) where
  -- An enforcement that both answers of the provider confirm returns, with the request active under
  -- the activated grant.
  pub enforcement_confirmed :
      (a v : ProviderResult)
      → s.request.workflow_state ≡ Workflow.enforcing
      → s.request.grant ≡ some g
      → let active = activated a.connector_reference (env.now (suc s.tables.tick)) g in
        provider.activate g (env.uuid s.tables.tick) ≡ ok a
        → a.success ≡ true
        → provider.verify active (env.uuid s.tables.tick) ≡ ok v
        → v.verified ≡ true
        → let (r, s') = process_enforcement env provider s in
          (r ≡ ok tt)
          × (s'.request.workflow_state ≡ Workflow.active)
          × (s'.request.grant ≡ some active)
  unfolding process_enforcement activate_grant confirm ◌>>=◌ gets pure given call modify update
      now_utc uuid4 transition enter entered notify allowed update_grant activated
  enforcement_confirmed a v st gr ea sa ev sv = rw (gr, ea, sa, ev, sv, st) (refl, refl, refl)

  -- How an enforcement of the grant ends: the request is active under a grant that ends its longest time
  -- after it began; or its enforcement failed and its grant is not active; or the provider raised, the
  -- error is the one that it raised, and the request is in the state it was in.
  abbrev pub HasConcluded : Result (Unit {0}) × Session → Type 0
  HasConcluded (r, s') =
      ((r ≡ ok tt)
        × (s'.request.workflow_state ≡ Workflow.active)
        × ((h : Grant) × (time : ℕ) × (s'.request.grant ≡ some h)
            × (h.enforcement_state ≡ Enforcement.active)
            × (h.activated_at ≡ some time)
            × (h.expires_at ≡ some (time + seconds g.maximum_ttl_seconds))))
      ⊎ (((r ≡ ok tt)
            × (s'.request.workflow_state ≡ Workflow.enforcement_failed)
            × ((h : Grant) × (s'.request.grant ≡ some h)
                × (h.enforcement_state ≢ Enforcement.active)))
          ⊎ ((e : Error) × (r ≡ err e)
              × (s'.request.workflow_state ≡ Workflow.enforcing)
              × ((provider.activate g (env.uuid s.tables.tick) ≡ err e)
                  ⊎ ((h : Grant) × (provider.verify h (env.uuid s.tables.tick) ≡ err e)))))

  -- Whatever the provider answers, an enforcement of a request in ENFORCING that has a grant returns with
  -- the request active or its enforcement failed, or raises what the provider raised; it is never stopped
  -- by a transition that the table refuses, and never leaves an active grant on a failed enforcement.
  pub enforcement_ends :
      s.request.workflow_state ≡ Workflow.enforcing
      → s.request.grant ≡ some g
      → HasConcluded (process_enforcement env provider s)
  unfolding process_enforcement activate_grant confirm ◌>>=◌ gets pure given call modify update
      now_utc uuid4 transition enter entered notify allowed update_grant activated with_enforcement
  enforcement_ends st gr = elim (Result-cases (provider.activate g (env.uuid s.tables.tick))) [
    | inr (e, ea) ↦ rw (gr, ea) (inr (inr (e, refl, st, inl refl)))
    | inl (a, ea) ↦ elim (Bool-cases a.success) [
      | inr fails ↦ rw (gr, ea, fails, st) (inr (inl (refl, refl, (_, refl, λ k. cc))))
      | inl sa ↦
          elim (Result-cases (
            provider.verify (activated a.connector_reference (env.now (suc s.tables.tick)) g)
              (env.uuid s.tables.tick))) [
                | inr (e, ev) ↦ rw (gr, ea, sa, ev) (inr (inr (e, refl, st, inr (_, ev))))
                | inl (v, ev) ↦ elim (Bool-cases v.verified) [
                  | inl sv ↦
                      rw (gr, ea, sa, ev, sv, st) (inl (refl, refl, (_, _, refl, refl, refl, refl)))
                  | inr fails ↦
                      rw (gr, ea, sa, ev, fails, st) (inr (inl (refl, refl, (_, refl, λ k. cc))))
                ]
              ]
    ]
  ]

  -- A request that an enforcement makes active has had both answers of the provider.
  pub enforcement_verified :
      s.request.workflow_state ≡ Workflow.enforcing
      → s.request.grant ≡ some g
      → (process_enforcement env provider s).1.request.workflow_state ≡ Workflow.active
      → (a : ProviderResult) × (v : ProviderResult) × (provider.activate g (env.uuid s.tables.tick)
          ≡ ok a)
        × (a.success ≡ true)
        × (provider.verify
              (activated a.connector_reference (env.now (suc s.tables.tick)) g)
              (env.uuid s.tables.tick)
            ≡ ok v)
        × (v.verified ≡ true)
  unfolding process_enforcement activate_grant confirm ◌>>=◌ gets pure given call modify update
      now_utc uuid4 transition enter entered notify allowed update_grant
  enforcement_verified st gr h =
      elim (Result-cases (provider.activate g (env.uuid s.tables.tick))) [
        | inr (e, ea) ↦ absurd (not_active s.request.workflow_state st (rw (gr, ea) at h))
        | inl (a, ea) ↦ elim (Bool-cases a.success) [
          | inr fails ↦ absurd (rejected (rw (gr, ea, fails, st) at h))
          | inl sa ↦
              elim (Result-cases (
                provider.verify (activated a.connector_reference (env.now (suc s.tables.tick)) g)
                  (env.uuid s.tables.tick))) [
                    | inr (e, ev) ↦
                        absurd (not_active s.request.workflow_state st (rw (gr, ea, sa, ev) at h))
                    | inl (v, ev) ↦ elim (Bool-cases v.verified) [
                      | inl sv ↦ (a, v, ea, sa, ev, sv)
                      | inr fails ↦ absurd (rejected (rw (gr, ea, sa, ev, fails, st) at h))
                    ]
                  ]
        ]
      ]
    where
      not_active : (w : Workflow) → w ≡ Workflow.enforcing → w ≡ Workflow.active → ⊥
      not_active w e k = cc

      rejected : Workflow.enforcement_failed ≡ Workflow.active → ⊥
      rejected k = cc

  -- An expiry of a request with a grant that is neither active, revoked nor expired raises once the
  -- provider has confirmed it: the request stays in its state and the grant is marked as expired.
  pub expiry_stuck :
      (a : ProviderResult)
      → is_withdrawn s.request.workflow_state ≡ false
      → s.request.workflow_state ≢ Workflow.active
      → s.request.grant ≡ some g
      → provider.revoke g (env.uuid s.tables.tick) ≡ ok a
      → a.verified ≡ true
      → let (r, s') = process_revoke env provider true s in
        (r ≡ err Error.value_error)
        × (s'.request.workflow_state ≡ s.request.workflow_state)
        × (s'.request.grant ≡ some (with_enforcement Enforcement.expired g))
  unfolding process_revoke withdraw ◌>>=◌ gets pure given call modify update uuid4 transition
      update_grant
  expiry_stuck a w na gr er va =
      rw (w, gr, er, va, unexpired s.request.workflow_state na) (refl, refl, refl)
    where
      unexpired : (from : Workflow) → from ≢ Workflow.active → allowed from Workflow.expired ≡ false
      unexpired from n = unfold allowed in ground arith
