-- ===== src/Context/Ranking.antt =====
-- The best of the evaluations of an event: its status is the best status that any of them has.
use test_m_backend.Common.{
  ◌≤◌, ◌≡◌, ◌≢◌, refl, sym, subst, ◌↔◌, inl, inr, true, false, List, [], ◌∷◌, map, arith, nat_eq,
  if◌then◌else◌, Exists, Exists-map, All,
}
use test_m_backend.Context.Rows.{ExplanationStatus, Event, ContextLedgerEntry, Match}
use test_m_backend.Context.Matching.{match_event_against_entry}
use test_m_backend.Context.Admission.{score_of, score_lem, match-decides}
use test_m_backend.Context.Classify.{above, best, by_evaluations}

-- An element of one kind, in a list whose elements are all of another.
meet {ℓ} :
    {A : Type ℓ} {R : Type 0} (P Q : A → Type 0) (xs : List A)
    → ((x : A) → P x → Q x → R)
    → Exists P xs
    → All Q xs
    → R
meet P Q [] f h k = elim h [ ]
meet P Q (x ∷ xs) f (inl p) k = f x p k.0
meet P Q (x ∷ xs) f (inr h) k = meet P Q xs f h k.1

pub Exists-mapped {ℓ κ} :
    {A : Type ℓ} {B : Type κ} (P : B → Type 0) (f : A → B) (xs : List A)
    → Exists P (map f xs) ↔ Exists (λ x. P (f x)) xs
Exists-mapped P f [] = (λ h. h, λ h. h)
Exists-mapped P f (x ∷ xs) = ground (arith, Exists-mapped P f xs)

best-In : (m : Match) (ms : List Match) → Exists (λ x. x ≡ best m ms) (m ∷ ms)
unfolding best
best-In m [] = inl refl
best-In m (x ∷ xs) =
    elim (above x m) as (λ b. Exists (λ y. y ≡ best (if b then x else m) xs) (m ∷ x ∷ xs)) [
      | true ↦ inr (best-In x xs)
      | false ↦ ground (arith, best-In m xs)
    ]

above_le :
    (x m : Match)
    → (m.score ≤ (if above x m then x else m).score)
      × (x.score ≤ (if above x m then x else m).score)
unfolding above
above_le x m = ground arith

best-Max : (m : Match) (ms : List Match) → All (λ x. x.score ≤ (best m ms).score) (m ∷ ms)
unfolding best
best-Max m [] = (omega arith, tt)
best-Max m (x ∷ xs) =
    let h = best-Max (if above x m then x else m) xs in
    let k = above_le x m in (omega arith, (omega arith, h.1))

-- The score and the status agree, and the status is one that a single entry leads to.
abbrev pub Scored : Match → Type 0
Scored m = (m.score ≡ score_of m.status) × (m.status ≢ ExplanationStatus.indeterminate)

pub evaluations-Scored :
    (event : Event) (entries : List ContextLedgerEntry)
    → All Scored (map (match_event_against_entry event) entries)
evaluations-Scored event [] = tt
evaluations-Scored event (e ∷ es) =
    ((score_lem event e, match-decides event e), evaluations-Scored event es)

best-Scored : (m : Match) (ms : List Match) → All Scored (m ∷ ms) → Scored (best m ms)
best-Scored m ms h =
    meet (λ x. x ≡ best m ms) Scored (m ∷ ms) (λ x e k. subst Scored e k) (best-In m ms) h

-- A match of the greatest score has the status of the best one.
score-top :
    (m : Match) (ms : List Match) (s : ExplanationStatus)
    → All Scored (m ∷ ms)
    → Exists (λ x. x.status ≡ s) (m ∷ ms)
    → score_of s ≤ score_of (best m ms).status
score-top m ms s h e =
    meet (λ x. x.status ≡ s) (λ x. Scored x × (x.score ≤ (best m ms).score)) (m ∷ ms)
      (λ x k q.
        let b = best-Scored m ms h in
        subst (λ t. score_of t ≤ score_of (best m ms).status) k (omega (arith, q.0.0, b.0)))
      e (zip (m ∷ ms) h (best-Max m ms))
  where
    zip :
        (xs : List Match)
        → All Scored xs
        → All (λ x. x.score ≤ (best m ms).score) xs
        → All (λ x. Scored x × (x.score ≤ (best m ms).score)) xs
    zip [] _ _ = tt
    zip (x ∷ xs) p q = ((p.0, q.0), zip xs p.1 q.1)

best-status :
    (m : Match) (ms : List Match) (s : ExplanationStatus)
    → (best m ms).status ≡ s
    → Exists (λ x. x.status ≡ s) (m ∷ ms)
best-status m ms s h =
    Exists-map _ _ (m ∷ ms) (λ x e. subst (λ y. y.status ≡ s) (sym e) h) (best-In m ms)

-- Over the evaluations, the best status wins.
pub verdict-explained :
    (event : Event) (ms : List Match)
    → All Scored ms
    → ((by_evaluations event ms).status ≡ ExplanationStatus.explained)
      ↔ Exists (λ x. x.status ≡ ExplanationStatus.explained) ms
unfolding by_evaluations
verdict-explained event [] h = (λ k. cc, λ e. elim e [ ])
verdict-explained event (m ∷ ms) h = (
  best-status m ms _,
  λ e. let k = score-top m ms ExplanationStatus.explained h e in ground arith,
)

pub verdict-partly :
    (event : Event) (ms : List Match)
    → All Scored ms
    → ((by_evaluations event ms).status ≡ ExplanationStatus.partially_explained) ↔ (
        (¬ Exists (λ x. x.status ≡ ExplanationStatus.explained) ms)
        × Exists (λ x. x.status ≡ ExplanationStatus.partially_explained) ms)
unfolding by_evaluations
verdict-partly event [] h = (λ k. cc, λ e. elim e.1 [ ])
verdict-partly event (m ∷ ms) h = (
  λ k. (
    λ e. let q = score-top m ms ExplanationStatus.explained h e in ground arith,
    best-status m ms _ k,
  ),
  λ p.
      let k = score-top m ms ExplanationStatus.partially_explained h p.1 in
      let b = best-status m ms ExplanationStatus.explained in ground arith,
)

pub verdict-not-indeterminate :
    (event : Event) (ms : List Match)
    → All Scored ms
    → (by_evaluations event ms).status ≢ ExplanationStatus.indeterminate
unfolding by_evaluations
verdict-not-indeterminate event [] h = λ k. cc
verdict-not-indeterminate event (m ∷ ms) h = (best-Scored m ms h).1
