-- ===== src/AccessControl/Outbox/Lifecycle.antt =====
-- What every row of the outbox satisfies, whatever the program does to it.
use test_m_backend.Common.{
  ℕ, zero, suc, ◌+◌, ◌^◌, ◌≤◌, ◌<◌, String, ◌≡◌, ◌≢◌, ◌⊎◌, inl, inr, true, none, [], ◌∷◌, arith,
  nat_eq, find, All, All-append, Option-cases,
}
use test_m_backend.AccessControl.Models.{JobStatus, Error, Job, Env, Tables, seconds}
use test_m_backend.AccessControl.Outbox.{
  JobSpec, has_key, new_job, enqueue, is_waiting, is_claimable, claim, complete_job, retry_job,
}

-- A row that waits is unlocked and has been tried at most four times; one in processing is locked,
-- leased and in its first to fifth try; a failed one has had five; a finished one is unlocked.
pub record IsSound (j : Job) : Type 0 where
  pub waiting :
      is_waiting j.status ≡ true
      → (j.attempts < 5) × (j.locked_by ≡ none) × (j.lease_expires_at ≡ none)
  pub processing :
      j.status ≡ JobStatus.processing
      → (0 < j.attempts) × (j.attempts ≤ 5) × (j.locked_by ≢ none) × (j.lease_expires_at ≢ none)
  pub failed : j.status ≡ JobStatus.failed → (j.attempts ≡ 5) × (j.lease_expires_at ≡ none)
  pub completed : j.status ≡ JobStatus.completed → j.attempts ≤ 5 × (j.lease_expires_at ≡ none)

pub claim-IsSound :
    (worker : String) (now lease : ℕ) (j : Job)
    → is_claimable now j ≡ true
    → IsSound j
    → IsSound (claim worker now lease j)
unfolding claim is_claimable
claim-IsSound worker now lease j c h = ground arith

complete_job-IsSound :
    (now : ℕ) (j : Job) → j.status ≡ JobStatus.processing → IsSound j → IsSound (complete_job now j)
unfolding complete_job is_waiting
complete_job-IsSound now j p h = ground arith

retry_job-IsSound :
    (e : Error) (now : ℕ) (j : Job)
    → j.status ≡ JobStatus.processing
    → IsSound j
    → IsSound (retry_job e now j)
unfolding retry_job is_waiting
retry_job-IsSound e now j p h = ground arith

new_job-IsSound : (env : Env) (s : JobSpec) (t : Tables) → IsSound (new_job env s t)
unfolding new_job is_waiting
new_job-IsSound env s t = ground arith

-- An enqueued job is sound, and the rows that were there stay as they are.
pub enqueue-IsSound :
    (env : Env) (s : JobSpec) (t : Tables)
    → All IsSound t.outbox
    → All IsSound (enqueue env s t).1.outbox
unfolding enqueue
enqueue-IsSound env s t h =
    elim (Option-cases (find (has_key s.tenant_id s.deduplication_key) t.outbox)) [
      | inl absent ↦
          rw (absent, enqueue)
            (All-append IsSound t.outbox (new_job env s t ∷ []) h (new_job-IsSound env s t, tt))
      | inr (j, present) ↦ rw (present, enqueue) h
    ]

pow_bound : (n : ℕ) → n ≤ 5 → 2 ^ n ≤ 32
pow_bound zero h = omega arith
pow_bound (suc zero) h = omega arith
pow_bound (suc (suc zero)) h = omega arith
pow_bound (suc (suc (suc zero))) h = omega arith
pow_bound (suc (suc (suc (suc zero)))) h = omega arith
pow_bound (suc (suc (suc (suc (suc zero))))) h = omega arith
pow_bound (suc (suc (suc (suc (suc (suc n)))))) h = absurd (omega arith)

pow_bound_early : (n : ℕ) → n < 5 → 2 ^ n ≤ 16
pow_bound_early zero h = omega arith
pow_bound_early (suc zero) h = omega arith
pow_bound_early (suc (suc zero)) h = omega arith
pow_bound_early (suc (suc (suc zero))) h = omega arith
pow_bound_early (suc (suc (suc (suc zero)))) h = omega arith
pow_bound_early (suc (suc (suc (suc (suc n))))) h = absurd (omega arith)

-- A sound job in processing that fails waits for the next try 2, 4, 8 or 16 seconds later, the bound of
-- 300 seconds being never met, and is given up at its fifth try.
pub retry_schedule :
    (e : Error) (now : ℕ) (j : Job)
    → IsSound j
    → j.status ≡ JobStatus.processing
    → let r = retry_job e now j in
      (r.attempts ≡ j.attempts)
      × (r.available_at ≡ now + seconds (2 ^ j.attempts))
      × (((j.attempts < 5) × (r.status ≡ JobStatus.retry) × (r.available_at ≤ now + seconds 16))
          ⊎ ((j.attempts ≡ 5) × (r.status ≡ JobStatus.failed)))
unfolding retry_job
retry_schedule e now j h p = ground (arith, pow_bound j.attempts, pow_bound_early j.attempts)
