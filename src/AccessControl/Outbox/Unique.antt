-- ===== src/AccessControl/Outbox/Unique.antt =====
-- `enqueue` inserts a job once for each tenant and deduplication key.
use test_m_backend.Common.{
  suc, ◌≡◌, sym, subst, Bool, true, false, not, none, some, List, [], ◌∷◌, ◌++◌, arith, ==_self,
  string_eq, find, All, All-map, Option-cases, inl, inr,
}
use test_m_backend.Common.Order.{Ascending, Ascending-snoc}
use test_m_backend.AccessControl.Models.{Job, Env, Tables}
use test_m_backend.AccessControl.Outbox.{
  JobSpec, dedup_beq_iff, dedup_eq, has_key, new_job, enqueue,
}

-- No two rows of a tenant have the same deduplication key.
abbrev pub HasUniqueKeys : List Job → Type 0
HasUniqueKeys = Ascending (λ a b. not (has_key a.tenant_id a.deduplication_key b))

find-none : (p : Job → Bool) (js : List Job) → find p js ≡ none → All (λ j. p j ≡ false) js
unfolding find
find-none p [] h = tt
find-none p (j ∷ js) h = ground (arith, find-none p js)

find-snoc :
    (p : Job → Bool) (js : List Job) (j : Job)
    → find p js ≡ none
    → p j ≡ true
    → find p (js ++ j ∷ []) ≡ some j
unfolding find
find-snoc p [] j h k = rw k
find-snoc p (i ∷ js) j h k = ground (arith, find-snoc p js j)

has_key_symm :
    (a b : Job)
    → has_key b.tenant_id b.deduplication_key a ≡ false
    → not (has_key a.tenant_id a.deduplication_key b) ≡ true
unfolding has_key
has_key_symm a b h = ground (
  arith,
  string_eq.equal_iff b.tenant_id a.tenant_id,
  string_eq.equal_iff a.tenant_id b.tenant_id,
  dedup_beq_iff a.deduplication_key b.deduplication_key,
  dedup_beq_iff b.deduplication_key a.deduplication_key,
)

pub enqueue_present :
    (env : Env) (s : JobSpec) (t : Tables) (j : Job)
    → find (has_key s.tenant_id s.deduplication_key) t.outbox ≡ some j
    → enqueue env s t ≡ (j, t)
unfolding enqueue
enqueue_present env s t j e = rw (e, enqueue)

pub enqueue_absent :
    (env : Env) (s : JobSpec) (t : Tables)
    → find (has_key s.tenant_id s.deduplication_key) t.outbox ≡ none
    → enqueue env s t
      ≡ (new_job env s t, record t { outbox = t.outbox ++ new_job env s t ∷ []; tick = suc t.tick })
unfolding enqueue
enqueue_absent env s t e = rw (e, enqueue)

module _ (env : Env) (s : JobSpec) (t : Tables) where
  new_job-has_key : has_key s.tenant_id s.deduplication_key (new_job env s t) ≡ true
  unfolding has_key new_job
  new_job-has_key =
      ground (arith, ==_self s.tenant_id, dedup_beq_iff s.deduplication_key s.deduplication_key)

  -- The key of the call finds the job in the tables, and a further call changes nothing.
  abbrev pub IsSettled : Job × Tables → Type 0
  IsSettled p =
      (find (has_key s.tenant_id s.deduplication_key) p.1.outbox ≡ some p.0)
      × (enqueue env s p.1 ≡ p)

  -- The job that `enqueue` returns is the one that its key finds afterwards, and a second call
  -- returns it again and changes nothing.
  pub enqueue_idem : IsSettled (enqueue env s t)
  enqueue_idem = elim (Option-cases (find (has_key s.tenant_id s.deduplication_key) t.outbox)) [
    | inl absent ↦
        let e =
          find-snoc (has_key s.tenant_id s.deduplication_key) t.outbox (new_job env s t) absent
            new_job-has_key in
        subst IsSettled (sym (enqueue_absent env s t absent)) (e, enqueue_present env s _ _ e)
    | inr (j, present) ↦
        subst IsSettled (sym (enqueue_present env s t j present))
          (present, enqueue_present env s t j present)
  ]

  -- If no key is listed twice for a tenant, none is after `enqueue`.
  pub enqueue-HasUniqueKeys : HasUniqueKeys t.outbox → HasUniqueKeys (enqueue env s t).1.outbox
  unfolding enqueue new_job
  enqueue-HasUniqueKeys h =
      elim (Option-cases (find (has_key s.tenant_id s.deduplication_key) t.outbox)) [
        | inl absent ↦
            rw (absent, enqueue)
              (Ascending-snoc _ t.outbox (new_job env s t) h (
                All-map _ _ t.outbox (λ j k. has_key_symm j (new_job env s t) k)
                  (find-none _ t.outbox absent)))
        | inr (j, present) ↦ rw (present, enqueue) h
      ]
