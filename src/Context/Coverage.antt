-- ===== src/Context/Coverage.antt =====
-- What engine/context.py counts over the events of a case, and which context it counts.
use test_m_backend.Common.{
  ℕ, ◌+◌, ◌*◌, ◌≤◌, ◌<◌, ◌≡◌, refl, sym, ap, ◌∙◌, ◌⊎◌, inl, inr, Bool, true, Option, none, some,
  List, [], ◌∷◌, arith, nat_eq, string_eq, leb, filter, length, length-map,
}
use native.Mathlib.Nat.{mul-le-mul_left}
use test_m_backend.Common.Order.{length-sorted}
use test_m_backend.Context.Rows.{ExplanationStatus, Event, ContextLedgerEntry, Classification}
use test_m_backend.Context.Evaluate.{
  Compatibility, event_before, has_status, same_status, coverage_sum, in_scope, coverage,
  evaluate_context_compatibility,
}

-- Each classification stands in one bucket.
buckets :
    (bs : List Classification)
    → length (filter (has_status ExplanationStatus.explained) bs)
        + length (filter (has_status ExplanationStatus.partially_explained) bs)
        + length (filter (has_status ExplanationStatus.unexplained) bs)
        + length (filter (has_status ExplanationStatus.indeterminate) bs)
      ≡ length bs
unfolding filter has_status same_status
buckets [] = refl
buckets (b ∷ bs) = ground (arith, buckets bs)

credits :
    (bs : List Classification)
    → coverage_sum bs
      ≡ 2 * length (filter (has_status ExplanationStatus.explained) bs)
        + length (filter (has_status ExplanationStatus.partially_explained) bs)
unfolding filter has_status same_status coverage_sum
credits [] = refl
credits (b ∷ bs) = ground (arith, credits bs)

-- An event no later than `as_of`, where there is one.
abbrev pub up_to : Option ℕ → Event → Bool
up_to none e = true
up_to (some as_of) e = leb e.timestamp as_of

filter_all {ℓ} : {A : Type ℓ} (xs : List A) → filter (λ _. true) xs ≡ xs
unfolding filter
filter_all [] = refl
filter_all (x ∷ xs) = ap (λ ys. x ∷ ys) (filter_all xs)

length-in_scope :
    (as_of : Option ℕ) (events : List Event)
    → length (in_scope as_of events) ≡ length (filter (up_to as_of) events)
unfolding in_scope
length-in_scope none events =
    length-sorted event_before events ∙ sym (ap length (filter_all events))
length-in_scope (some as_of) events = length-sorted event_before _

-- `round4 a b` is within half a ten-thousandth of `a / b`.
abbrev pub IsRounding : (ℕ → ℕ → ℕ) → Type 0
IsRounding round4 =
    (a b : ℕ)
    → 0 < b
    → (2 * (b * round4 a b) ≤ 20000 * a + b) × (20000 * a ≤ 2 * (b * round4 a b) + b)

module _ (round4 : ℕ → ℕ → ℕ) (h : IsRounding round4) where
  round-most : (a b : ℕ) → 0 < b → a ≤ b → round4 a b ≤ 10000
  round-most a b p k = elim (compare-cases (round4 a b)) [
    | inl q ↦ q
    | inr q ↦ absurd (let w = mul-le-mul_left b q in let r = h a b p in omega arith)
  ]
    where
      compare-cases : (n : ℕ) → (n ≤ 10000) ⊎ (10001 ≤ n)
      compare-cases n = ground arith

  coverage-bounds :
      (bs : List Classification)
      → (coverage round4 bs ≤ 10000)
        × (2 * (2 * length bs * coverage round4 bs) ≤ 20000 * coverage_sum bs + 2 * length bs)
        × (20000 * coverage_sum bs ≤ 2 * (2 * length bs * coverage round4 bs) + 2 * length bs)
  unfolding coverage
  coverage-bounds [] = (omega arith, omega arith, unfold coverage_sum in omega arith)
  coverage-bounds (b ∷ bs) =
      let sum = credits (b ∷ bs) in
      let parts = buckets (b ∷ bs) in
      let near = h (coverage_sum (b ∷ bs)) (2 * length (b ∷ bs)) (omega arith) in
      (
        round-most (coverage_sum (b ∷ bs)) (2 * length (b ∷ bs)) (omega arith) (omega arith),
        near.0,
        near.1,
      )

module _ (round4 : ℕ → ℕ → ℕ) (table : List Event) (ledger : List ContextLedgerEntry)
    (now actor_id : ℕ) (events : List Event) (as_of : Option ℕ) where
  abbrev report : Compatibility
  report = evaluate_context_compatibility round4 table ledger now actor_id events as_of

  -- Each event up to the given time is counted, with exactly one status.
  pub evaluate-counts :
      (report.counts.explained + report.counts.partially_explained + report.counts.unexplained
          + report.counts.indeterminate
        ≡ report.counts.total)
      × (report.counts.total ≡ length (filter (up_to as_of) events))
  unfolding evaluate_context_compatibility
  evaluate-counts = (buckets _, length-map _ (in_scope as_of events) ∙ length-in_scope as_of events)

  -- The coverage is at most 1, and within half a ten-thousandth of the mean credit, where an
  -- explained event counts whole, a partly explained one half, and any other nothing.
  pub evaluate-coverage :
      IsRounding round4
      → let n : ℕ = 2 * report.counts.total in
        let credit : ℕ = 2 * report.counts.explained + report.counts.partially_explained in
        (report.c_t ≤ 10000)
        × (2 * (n * report.c_t) ≤ 20000 * credit + n)
        × (20000 * credit ≤ 2 * (n * report.c_t) + n)
  unfolding evaluate_context_compatibility
  evaluate-coverage h = rw (← credits report.breakdown) (coverage-bounds round4 h report.breakdown)
