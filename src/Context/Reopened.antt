-- ===== src/Context/Reopened.antt =====
-- Which cases engine/context.py reopens.
use test_m_backend.Common.{
  ◌<◌, ℕ, ◌≡◌, refl, inl, inr, Bool, true, false, ◌&&◌, ◌||◌, List, [], ◌∷◌, map, arith,
  if◌then◌else◌, filter, no_items, Exists, filter-none, filter-quiet, All, Bool-cases,
}
use test_m_backend.Common.Order.{sorted, All-sorted}
use test_m_backend.Context.Rows.{Event, ContextLedgerEntry}
use test_m_backend.Context.Classify.{min_personal_history}
use test_m_backend.Context.Admission.{InForce, AllowsAccess}
use test_m_backend.Context.Verdicts.{IsComplete}
use test_m_backend.Context.Evaluate.{event_before, actor_history_at, latest_or}
use test_m_backend.Context.Reopen.{
  Case, is_resolved_case, approved_for, relevant, outside, reopen, id_before, check_auto_reopen,
}

-- The event carries what the matching needs, its actor has the history or an entry is in force at its
-- time, and no entry that is in force then allows its resource and its action.
abbrev pub IsUncovered : Event → List ContextLedgerEntry → ℕ → Type 0
IsUncovered event entries history =
    IsComplete event
    × (¬ Exists (λ e. InForce event e × AllowsAccess event e) entries)
    × ((history < min_personal_history) → ¬ ¬ Exists (InForce event) entries)

module _ (table : List Event) (ledger : List ContextLedgerEntry) (actor_id : ℕ)
    (news : List Event) where
  -- The history of the actor at the latest of the new events.
  abbrev pub history_then : ℕ
  history_then = actor_history_at table actor_id (latest_or 0 (sorted event_before news))

  -- A resolved case of the actor, whatever resolved it, with a new event that the context of the case
  -- does not cover.
  abbrev pub IsOutside : Case → Type 0
  IsOutside c =
      (c.actor_id ≡ actor_id)
      × (c.status ≡ "resolved")
      × Exists (λ e. IsUncovered e (relevant (approved_for ledger actor_id) c) history_then) news

  abbrev out : Case → Bool
  out = outside table ledger actor_id news

  -- What the call does to one row of the cases.
  abbrev revised : Case → Case
  revised c = if is_resolved_case actor_id c && out c then reopen c else c

  revised-quiet : (c : Case) → (is_resolved_case actor_id (revised c) && out (revised c)) ≡ false
  unfolding is_resolved_case reopen
  revised-quiet c = by_guard (is_resolved_case actor_id c && out c) refl
    where
      by_guard :
          (b : Bool)
          → (is_resolved_case actor_id c && out c) ≡ b
          → (is_resolved_case actor_id (if b then reopen c else c)
              && out (if b then reopen c else c))
            ≡ false
      by_guard true e = ground arith
      by_guard false e = e

  none_outside :
      (cs : List Case)
      → All (λ c. (is_resolved_case actor_id c && out c) ≡ false) cs
      → filter out (sorted id_before (filter (is_resolved_case actor_id) cs)) ≡ []
  none_outside cs h =
      filter-none out _
        (All-sorted _ id_before _ (filter-quiet (is_resolved_case actor_id) out cs h))

  none_revised :
      (cs : List Case)
      → All (λ c. (is_resolved_case actor_id c && out c) ≡ false) cs
      → map revised cs ≡ cs
  none_revised [] h = refl
  none_revised (c ∷ cs) h = rw (h.0, none_revised cs h.1) refl

  settled :
      (cs : List Case)
      → All (λ c. (is_resolved_case actor_id c && out c) ≡ false) cs
      → check_auto_reopen table ledger actor_id news cs ≡ ([], cs)
  unfolding check_auto_reopen
  settled cs h =
      elim (Bool-cases
        (no_items (sorted id_before (filter (is_resolved_case actor_id) cs)) || no_items news)) [
          | inl e ↦ rw e refl
          | inr e ↦ rw (e, none_outside cs h, none_revised cs h) refl
        ]

  revised_settle :
      (cs : List Case) → All (λ c. (is_resolved_case actor_id c && out c) ≡ false) (map revised cs)
  revised_settle [] = tt
  revised_settle (c ∷ cs) = (revised-quiet c, revised_settle cs)

  -- A second call with the same events returns no case and changes none.
  pub check_auto_reopen-settles :
      (cases : List Case)
      → let left : List Case = (check_auto_reopen table ledger actor_id news cases).1 in
        check_auto_reopen table ledger actor_id news left ≡ ([], left)
  unfolding check_auto_reopen
  check_auto_reopen-settles cases =
      elim (Bool-cases
        (no_items (sorted id_before (filter (is_resolved_case actor_id) cases)) || no_items news)) [
          | inl e ↦ rw (e, e) refl
          | inr e ↦ rw e (settled (map revised cases) (revised_settle cases))
        ]
