-- ===== src/Context/Sources.antt =====
-- Which entries of the ledger engine/context.py counts as matched context.
use test_m_backend.Common.{
  ℕ, ◌≤◌, ◌≡◌, ap, inl, inr, true, Option, List, [], ◌∷◌, map, arith, nat_eq, string_eq, leb,
  eq_of_==, filter, filter-members, Exists, Exists-map, All, All-map, All-mapped, All-append,
  All-filter, Bool-cases,
}
use test_m_backend.Common.Order.{All-sorted, All-sorted_set}
use test_m_backend.Context.Rows.{Event, ContextLedgerEntry, Match}
use test_m_backend.Context.Matching.{match_event_against_entry}
use test_m_backend.Context.Classify.{matched_ids, by_evaluations, classify_event, entry_before}
use test_m_backend.Context.Evaluate.{
  all_matched, considers, considered, Compatibility, evaluate_context_compatibility,
}
use test_m_backend.Context.Verdicts.{unclassified, unfamiliar}

module _ (Q : ℕ → Type 0) where
  matched_ids-All :
      (ms : List Match) → All (λ (m : Match). Q m.entry_id) ms → All Q (matched_ids ms)
  unfolding matched_ids
  matched_ids-All ms h =
      All-sorted Q leb _ (All-mapped Q (λ (m : Match). m.entry_id) _ (All-filter _ _ ms h))

  by_evaluations-All :
      (event : Event) (ms : List Match)
      → All (λ (m : Match). Q m.entry_id) ms
      → All Q (by_evaluations event ms).matched_context_ids
  unfolding by_evaluations
  by_evaluations-All event [] h = tt
  by_evaluations-All event (m ∷ ms) h = matched_ids-All (m ∷ ms) h

  evaluated-All :
      (event : Event) (es : List ContextLedgerEntry)
      → All (λ (e : ContextLedgerEntry). Q e.id) es
      → All (λ (m : Match). Q m.entry_id) (map (match_event_against_entry event) es)
  unfolding match_event_against_entry
  evaluated-All event es h = All-mapped _ (match_event_against_entry event) es h

  classify_event-All :
      (event : Event) (entries : List ContextLedgerEntry) (history : ℕ)
      → All (λ (e : ContextLedgerEntry). Q e.id) entries
      → All Q (classify_event event entries history).matched_context_ids
  unfolding classify_event
  classify_event-All event entries history h = elim (Bool-cases (unclassified event)) [
    | inl e ↦ rw e tt
    | inr e ↦ elim (Bool-cases (unfamiliar event entries history)) [
      | inl f ↦ rw (e, f) tt
      | inr f ↦
          rw (e, f)
            (by_evaluations-All event _
              (evaluated-All event _ (All-sorted _ entry_before entries h)))
    ]
  ]

  all_matched-All :
      (events : List Event) (entries : List ContextLedgerEntry) (history : ℕ)
      → All (λ (e : ContextLedgerEntry). Q e.id) entries
      → All Q (all_matched (map (λ e. classify_event e entries history) events))
  unfolding all_matched
  all_matched-All [] entries history h = tt
  all_matched-All (e ∷ es) entries history h =
      All-append Q (classify_event e entries history).matched_context_ids _
        (classify_event-All e entries history h) (all_matched-All es entries history h)

-- An approved entry of the actor, valid from a time no later than `as_of`.
abbrev pub IsApproved : ℕ → ℕ → ContextLedgerEntry → Type 0
IsApproved actor_id as_of e =
    (e.actor_id ≡ actor_id) × (e.valid_from ≤ as_of) × (e.approval_state ≡ "approved")

considers-IsApproved :
    (actor_id as_of : ℕ) (e : ContextLedgerEntry)
    → considers actor_id as_of e ≡ true
    → IsApproved actor_id as_of e
unfolding considers
considers-IsApproved actor_id as_of e h = (
  ground (arith, eq_of_== e.actor_id actor_id),
  ground arith,
  ground (arith, eq_of_== e.approval_state "approved"),
)

considered-All :
    (ledger : List ContextLedgerEntry) (actor_id as_of : ℕ)
    → All
        (λ (e : ContextLedgerEntry).
          Exists (λ (s : ContextLedgerEntry). (s.id ≡ e.id) × IsApproved actor_id as_of s) ledger)
        (considered ledger actor_id as_of)
unfolding considered
considered-All ledger actor_id as_of = All-sorted _ entry_before _ (
    All-map _ _ (filter (considers actor_id as_of) ledger)
      (λ e h.
        Exists-map _ _ ledger
          (λ s p.
            (ap (λ (x : ContextLedgerEntry). x.id) p.0, considers-IsApproved actor_id as_of s p.1))
          h)
      (filter-members (considers actor_id as_of) ledger))

-- Every context that is reported as matched is an approved entry of the actor that was valid from a
-- time no later than that of the evaluation.
pub evaluate-IsApproved :
    (round4 : ℕ → ℕ → ℕ) (table : List Event) (ledger : List ContextLedgerEntry) (now actor_id : ℕ)
    (events : List Event) (as_of : Option ℕ)
    → let r : Compatibility =
        evaluate_context_compatibility round4 table ledger now actor_id events as_of in
      All
        (λ k.
          Exists (λ (s : ContextLedgerEntry). (s.id ≡ k) × IsApproved actor_id r.as_of s) ledger)
        r.matched_context_ids
unfolding evaluate_context_compatibility
evaluate-IsApproved round4 table ledger now actor_id events as_of =
    All-sorted_set _ leb _ (all_matched-All _ _ _ _ (considered-All ledger actor_id _))
