-- ===== src/AccessControl/Outbox/Claims.antt =====
-- What `claim_jobs` takes.
use test_m_backend.Common.{
  ℕ, zero, suc, ◌≤◌, String, ◌≡◌, refl, subst, ◌⊎◌, inl, inr, Bool, true, false, List, [], ◌∷◌,
  Memᴰ, arith, ◌==◌, nat_eq, eq_of_==, any, filter, length, length-map, All, All-map, Bool-cases,
  if◌then◌else◌,
}
use test_m_backend.Common.Order.{insert, sorted}
use test_m_backend.AccessControl.Models.{Job}
use test_m_backend.AccessControl.Outbox.{
  is_claimable, due_before, take, claim, due_jobs, update_jobs, claim_jobs,
}
use test_m_backend.AccessControl.Outbox.Lifecycle.{IsSound, claim-IsSound}

-- An identifier names one row.
abbrev pub HasUniqueIds : List Job → Type 0
HasUniqueIds js = (i j : Job) → Memᴰ i js → Memᴰ j js → i.id ≡ j.id → i ≡ j

module _ (P : Job → Type 0) where
  All-take : (n : ℕ) (js : List Job) → All P js → All P (take n js)
  unfolding take
  All-take zero js h = tt
  All-take (suc n) [] h = tt
  All-take (suc n) (j ∷ js) h = (h.0, All-take n js h.1)

  All-insert :
      (before : Job → Job → Bool) (j : Job) (js : List Job)
      → P j
      → All P js
      → All P (insert before j js)
  unfolding insert
  All-insert before j [] p h = (p, tt)
  All-insert before j (i ∷ js) p h =
      elim (before j i) as (λ b. All P (if b then j ∷ i ∷ js else i ∷ insert before j js)) [
        | true ↦ (p, h)
        | false ↦ (h.0, All-insert before j js p h.1)
      ]

  All-sorted : (before : Job → Job → Bool) (js : List Job) → All P js → All P (sorted before js)
  unfolding sorted
  All-sorted before [] h = tt
  All-sorted before (j ∷ js) h =
      All-insert before j (sorted before js) h.0 (All-sorted before js h.1)

-- A row of the table that is due.
abbrev IsDue : ℕ → List Job → Job → Type 0
IsDue now js j = (is_claimable now j ≡ true) × Memᴰ j js

filter-IsDue : (now : ℕ) (js : List Job) → All (IsDue now js) (filter (is_claimable now) js)
unfolding filter
filter-IsDue now [] = tt
filter-IsDue now (j ∷ js) = elim (Bool-cases (is_claimable now j)) [
  | inl due ↦
      rw due
        ((due, Memᴰ.head refl), All-map _ _ _ (λ i k. (k.0, Memᴰ.tail k.1)) (filter-IsDue now js))
  | inr not_due ↦ rw not_due (All-map _ _ _ (λ i k. (k.0, Memᴰ.tail k.1)) (filter-IsDue now js))
]

-- Every row that is returned stands in the table and was due.
due_jobs-IsDue : (limit now : ℕ) (js : List Job) → All (IsDue now js) (due_jobs limit now js)
unfolding due_jobs
due_jobs-IsDue limit now js = All-take _ limit _ (All-sorted _ due_before _ (filter-IsDue now js))

length-take-le : (n : ℕ) (js : List Job) → length (take n js) ≤ n
unfolding take
length-take-le zero js = omega arith
length-take-le (suc n) [] = omega arith
length-take-le (suc n) (j ∷ js) = omega (arith, length-take-le n js)

-- A row whose identifier is among those claimed was due.
claimed_due :
    (now : ℕ) (js rows : List Job) (j : Job)
    → HasUniqueIds js
    → All (IsDue now js) rows
    → Memᴰ j js
    → any (λ r. r.id == j.id) rows ≡ true
    → is_claimable now j ≡ true
unfolding any
claimed_due now js [] j u h m a = cc
claimed_due now js (r ∷ rows) j u h m a = elim (Bool-cases (r.id == j.id)) [
  | inl same ↦
      subst (λ i. is_claimable now i ≡ true) (u r j h.0.1 m (eq_of_== r.id j.id same)) h.0.0
  | inr differs ↦ claimed_due now js rows j u h.1 m (rw differs at a)
]

module _ (worker : String) (limit now lease : ℕ) where
  -- A claimed row is in processing under a lease, one try further; it is no longer claimable at any
  -- time, until it is completed or retried.
  claim-locks : (later : ℕ) (j : Job) → is_claimable later (claim worker now lease j) ≡ false
  unfolding claim is_claimable
  claim-locks later j = refl

  -- Each row of the table, before and after: a claimed one was due and no later claim can take it,
  -- the others stay as they were.
  abbrev pub ClaimedOrKept : Job → Job → Type 0
  ClaimedOrKept j j' =
      ((is_claimable now j ≡ true)
        × (j' ≡ claim worker now lease j)
        × ((later : ℕ) → is_claimable later j' ≡ false))
      ⊎ (j' ≡ j)

  abbrev pub EachClaimedOrKept : List Job → List Job → Type 0
  EachClaimedOrKept [] [] = Unit
  EachClaimedOrKept (j ∷ js) (j' ∷ js') = ClaimedOrKept j j' × EachClaimedOrKept js js'
  EachClaimedOrKept _ _ = ⊥

  update_jobs-each :
      (js rows part : List Job)
      → HasUniqueIds js
      → All (IsDue now js) rows
      → All (λ j. Memᴰ j js) part
      → EachClaimedOrKept part (update_jobs (claim worker now lease) rows part)
  unfolding update_jobs
  update_jobs-each js rows [] u h m = tt
  update_jobs-each js rows (j ∷ part) u h m = (
    elim (Bool-cases (any (λ r. r.id == j.id) rows)) [
      | inl taken ↦
          rw taken
            (inl (claimed_due now js rows j u h m.0 taken, refl, λ later. claim-locks later j))
      | inr free ↦ rw free (inr refl)
    ],
    update_jobs-each js rows part u h m.1,
  )

  All-Memᴰ : (js : List Job) → All (λ j. Memᴰ j js) js
  All-Memᴰ [] = tt
  All-Memᴰ (j ∷ js) = (Memᴰ.head refl, All-map _ _ js (λ i k. Memᴰ.tail k) (All-Memᴰ js))

  -- If identifiers are unique, a claim takes at most `limit` rows; each row of the table is claimed, and
  -- then it was due and no claim at any time can take it again as it is, whether or not its lease has
  -- run out, or it is left alone.
  pub claim_jobs_each :
      (js : List Job)
      → HasUniqueIds js
      → (length (claim_jobs worker limit now lease js).0 ≤ limit)
        × EachClaimedOrKept js (claim_jobs worker limit now lease js).1
  unfolding claim_jobs due_jobs
  claim_jobs_each js u = (
    rw length-map (length-take-le limit _),
    update_jobs-each js _ js u (due_jobs-IsDue limit now js) (All-Memᴰ js),
  )

  -- If identifiers are unique and every row is sound, every row is sound after a claim.
  pub claim_jobs-IsSound :
      (js : List Job)
      → HasUniqueIds js
      → All IsSound js
      → All IsSound (claim_jobs worker limit now lease js).1
  unfolding claim_jobs
  claim_jobs-IsSound js u h =
      each js _ (update_jobs-each js _ js u (due_jobs-IsDue limit now js) (All-Memᴰ js)) h
    where
      each : (js js' : List Job) → EachClaimedOrKept js js' → All IsSound js → All IsSound js'
      each [] [] e h = tt
      each [] (j ∷ js) e h = elim e [ ]
      each (j ∷ js) [] e h = elim e [ ]
      each (j ∷ js) (j' ∷ js') (inl (c, e, _), es) h =
          (rw e (claim-IsSound worker now lease j c h.0), each js js' es h.1)
      each (j ∷ js) (j' ∷ js') (inr e, es) h = (rw e h.0, each js js' es h.1)
