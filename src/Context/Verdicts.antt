-- ===== src/Context/Verdicts.antt =====
-- The status of an event against all entries, told by which of them explain it.
use test_m_backend.Common.{
  ℕ, ◌<◌, ◌≡◌, ◌≢◌, refl, ◌↔◌, ◌⊎◌, inl, inr, Bool, true, false, ◌&&◌, not, ltb, none, List, map,
  arith, nat_eq, filter, no_items, filter-no_items, Exists, Exists-map, Bool-cases, Option-cases,
}
use test_m_backend.Common.Order.{sorted, Exists-sorted}
use test_m_backend.Context.Rows.{ExplanationStatus, Event, ContextLedgerEntry, Match}
use test_m_backend.Context.Matching.{present, time_match, match_event_against_entry}
use test_m_backend.Context.Admission.{
  InForce, AllowsAccess, AllowsDestination, explained_iff, partially_iff, time_match_iff,
}
use test_m_backend.Context.Classify.{
  is_some, by_evaluations, entry_before, classify_event, min_personal_history,
}
use test_m_backend.Context.Ranking.{
  evaluations-Scored, Exists-mapped, verdict-explained, verdict-partly, verdict-not-indeterminate,
}

-- The event carries what the matching needs: a resource is classified.
abbrev pub IsComplete : Event → Type 0
IsComplete event =
    (present event.resource_id ≡ none) ⊎ (present event.resource_classification ≢ none)

-- The entry explains the event, or all of it but its destination.
abbrev pub Explains : Event → ContextLedgerEntry → Type 0
Explains event entry =
    InForce event entry × AllowsAccess event entry × AllowsDestination event entry

abbrev pub PartlyExplains : Event → ContextLedgerEntry → Type 0
PartlyExplains event entry =
    InForce event entry × AllowsAccess event entry × ¬ AllowsDestination event entry

IsComplete-iff :
    (event : Event)
    → ((is_some (present event.resource_id)
          && not (is_some (present event.resource_classification)))
        ≡ false)
      ↔ IsComplete event
unfolding is_some
IsComplete-iff event = elim (Option-cases (present event.resource_id)) [
  | inl e ↦ (λ _. inl e, λ _. rw e refl)
  | inr p ↦ elim (Option-cases (present event.resource_classification)) [
    | inl f ↦ rw (p.1, f) (λ h. cc, λ w. ground arith)
    | inr q ↦ rw (p.1, q.1) (λ _. inr (λ k. cc), λ _. refl)
  ]
]

IsComplete-cases : (event : Event) → IsComplete event ⊎ ¬ IsComplete event
IsComplete-cases event = ground (arith, IsComplete-iff event)

-- The evaluations of one status, as the entries with one property.
evaluated :
    (event : Event) (s : ExplanationStatus) (P : ContextLedgerEntry → Type 0)
    → ((e : ContextLedgerEntry) → ((match_event_against_entry event e).status ≡ s) ↔ P e)
    → (entries : List ContextLedgerEntry)
    → Exists
        (λ (m : Match). m.status ≡ s)
        (map (match_event_against_entry event) (sorted entry_before entries))
      ↔ Exists P entries
evaluated event s P h entries = ground (
  arith,
  Exists-mapped (λ (m : Match). m.status ≡ s) (match_event_against_entry event)
      (sorted entry_before entries),
  Exists-sorted (λ e. (match_event_against_entry event e).status ≡ s) entry_before entries,
  Exists-map (λ e. (match_event_against_entry event e).status ≡ s) P entries (λ e. (h e).0),
  Exists-map P (λ e. (match_event_against_entry event e).status ≡ s) entries (λ e. (h e).1),
)

in_force :
    (event : Event) (entries : List ContextLedgerEntry)
    → (no_items (filter (time_match event) (sorted entry_before entries)) ≡ true)
      ↔ (¬ Exists (InForce event) entries)
in_force event entries = ground (
  arith,
  filter-no_items (time_match event) (sorted entry_before entries),
  Exists-sorted (λ e. time_match event e ≡ true) entry_before entries,
  Exists-map (λ e. time_match event e ≡ true) (InForce event) entries
      (λ e. (time_match_iff event e).0),
  Exists-map (InForce event) (λ e. time_match event e ≡ true) entries
      (λ e. (time_match_iff event e).1),
)

-- The two tests of `classify_event` that end it early.
abbrev pub unclassified : Event → Bool
unclassified event =
    is_some (present event.resource_id) && not (is_some (present event.resource_classification))

abbrev pub unfamiliar : Event → List ContextLedgerEntry → ℕ → Bool
unfamiliar event entries history =
    ltb history min_personal_history
    && no_items (filter (time_match event) (sorted entry_before entries))

abbrev evaluations : Event → List ContextLedgerEntry → List Match
evaluations event entries = map (match_event_against_entry event) (sorted entry_before entries)

classify-early :
    (event : Event) (entries : List ContextLedgerEntry) (history : ℕ)
    → (unclassified event ≡ true) ⊎ (unfamiliar event entries history ≡ true)
    → (classify_event event entries history).status ≡ ExplanationStatus.indeterminate
unfolding classify_event
classify-early event entries history (inl h) = rw h refl
classify-early event entries history (inr h) = elim (Bool-cases (unclassified event)) [
  | inl e ↦ rw e refl
  | inr e ↦ rw (e, h) refl
]

classify-late :
    (event : Event) (entries : List ContextLedgerEntry) (history : ℕ)
    → unclassified event ≡ false
    → unfamiliar event entries history ≡ false
    → classify_event event entries history ≡ by_evaluations event (evaluations event entries)
unfolding classify_event
classify-late event entries history h k = rw (h, k) refl

-- An event is explained exactly when it carries what the matching needs and some entry explains it,
-- whatever the order of the entries and the length of the history.
classify_event-explained :
    (event : Event) (entries : List ContextLedgerEntry) (history : ℕ)
    → ((classify_event event entries history).status ≡ ExplanationStatus.explained)
      ↔ (IsComplete event × Exists (Explains event) entries)
classify_event-explained event entries history = ground (
  arith,
  classify-early event entries history,
  classify-late event entries history,
  IsComplete-iff event,
  in_force event entries,
  Exists-map (Explains event) (InForce event) entries (λ e h. h.0),
  verdict-explained event (evaluations event entries)
      (evaluations-Scored event (sorted entry_before entries)),
  evaluated event ExplanationStatus.explained (Explains event) (explained_iff event) entries,
)

-- An event is partly explained exactly when it carries what the matching needs, no entry explains
-- it and some entry explains all of it but its destination.
classify_event-partly :
    (event : Event) (entries : List ContextLedgerEntry) (history : ℕ)
    → ((classify_event event entries history).status ≡ ExplanationStatus.partially_explained) ↔ (
        IsComplete event
        × (¬ Exists (Explains event) entries)
        × Exists (PartlyExplains event) entries)
classify_event-partly event entries history = ground (
  arith,
  classify-early event entries history,
  classify-late event entries history,
  IsComplete-iff event,
  in_force event entries,
  Exists-map (PartlyExplains event) (InForce event) entries (λ e h. h.0),
  verdict-partly event (evaluations event entries)
      (evaluations-Scored event (sorted entry_before entries)),
  evaluated event ExplanationStatus.explained (Explains event) (explained_iff event) entries,
  evaluated event ExplanationStatus.partially_explained (PartlyExplains event) (partially_iff event)
      entries,
)

-- An event stays indeterminate exactly when it lacks a field that the matching needs, or its actor's
-- history is below the minimum and no entry is in force at its time.
classify_event-indeterminate :
    (event : Event) (entries : List ContextLedgerEntry) (history : ℕ)
    → ((classify_event event entries history).status ≡ ExplanationStatus.indeterminate) ↔ (
        (¬ IsComplete event)
        ⊎ ((history < min_personal_history) × (¬ Exists (InForce event) entries)))
classify_event-indeterminate event entries history = ground (
  arith,
  classify-early event entries history,
  classify-late event entries history,
  IsComplete-iff event,
  in_force event entries,
  verdict-not-indeterminate event (evaluations event entries)
      (evaluations-Scored event (sorted entry_before entries)),
)

-- What each status means: some entry explains the event; none does, and one explains all of it but
-- its destination; neither; or the event or the history does not suffice to tell.
abbrev pub Judged : Event → List ContextLedgerEntry → ℕ → ExplanationStatus → Type 0
Judged event entries history ExplanationStatus.explained =
    IsComplete event × Exists (Explains event) entries
Judged event entries history ExplanationStatus.partially_explained =
    IsComplete event × (¬ Exists (Explains event) entries) × Exists (PartlyExplains event) entries
Judged event entries history ExplanationStatus.unexplained =
    IsComplete event
    × (¬ Exists (Explains event) entries)
    × (¬ Exists (PartlyExplains event) entries)
    × ((history < min_personal_history) → ¬ ¬ Exists (InForce event) entries)
Judged event entries history ExplanationStatus.indeterminate =
    (¬ IsComplete event) ⊎ ((history < min_personal_history) × (¬ Exists (InForce event) entries))

-- An event gets a status exactly when it meets what the status means.
pub classify_event-Judged :
    (event : Event) (entries : List ContextLedgerEntry) (history : ℕ) (s : ExplanationStatus)
    → ((classify_event event entries history).status ≡ s) ↔ Judged event entries history s
classify_event-Judged event entries history ExplanationStatus.explained =
    classify_event-explained event entries history
classify_event-Judged event entries history ExplanationStatus.partially_explained =
    classify_event-partly event entries history
classify_event-Judged event entries history ExplanationStatus.indeterminate =
    classify_event-indeterminate event entries history
classify_event-Judged event entries history ExplanationStatus.unexplained = ground (
  arith,
  classify_event-explained event entries history,
  classify_event-partly event entries history,
  classify_event-indeterminate event entries history,
  IsComplete-cases event,
)
