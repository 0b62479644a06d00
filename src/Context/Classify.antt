-- ===== src/Context/Classify.antt =====
-- engine/context.py: one event against all the entries of its actor.
use test_m_backend.Common.{
  ℕ, ◌*◌, Bool, true, false, ◌&&◌, not, Option, none, some, List, [], ◌∷◌, map, ◌==◌, nat_eq,
  string_eq, if◌then◌else◌, leb, ltb, no_items, filter,
}
use test_m_backend.Common.Order.{sorted}
use test_m_backend.Context.Rows.{
  ExplanationStatus, Event, ContextLedgerEntry, Match, MatchDetails, Classification,
}
use test_m_backend.Context.Matching.{present, time_match, match_event_against_entry}

-- MIN_PERSONAL_HISTORY_DAYS, in microseconds
abbrev pub min_personal_history : ℕ
min_personal_history = 14 * 86400 * 1000000

-- the key (valid_from, id)
unfoldable pub entry_before : ContextLedgerEntry → ContextLedgerEntry → Bool
entry_before a b =
    if a.valid_from == b.valid_from then leb a.id b.id else ltb a.valid_from b.valid_from

unfoldable pub rank : ExplanationStatus → ℕ
rank ExplanationStatus.explained = 3
rank ExplanationStatus.partially_explained = 2
rank ExplanationStatus.unexplained = 1
rank ExplanationStatus.indeterminate = 0

-- the key (score, rank, -entry_id) of `a` is above that of `b`
unfoldable pub above : Match → Match → Bool
unfolding rank
above a b =
    if a.score == b.score
    then (if rank a.status == rank b.status
        then ltb a.entry_id b.entry_id
        else ltb (rank b.status) (rank a.status))
    else ltb b.score a.score

-- `max`, which keeps the first of equal keys
unfoldable pub best : Match → List Match → Match
unfolding above
best m [] = m
best m (x ∷ xs) = best (if above x m then x else m) xs

unfoldable pub is_some {ℓ} : {A : Type ℓ} → Option A → Bool
is_some none = false
is_some (some _) = true

-- the statuses that count a context as matched
unfoldable pub is_match : ExplanationStatus → Bool
is_match ExplanationStatus.explained = true
is_match ExplanationStatus.partially_explained = true
is_match _ = false

unfoldable pub classified : Event → ExplanationStatus → List ℕ → MatchDetails → ℕ → Classification
classified event status ids details score = record {
  event_id = event.id;
  timestamp = event.timestamp;
  action = event.action;
  resource_id = event.resource_id;
  destination = event.destination;
  status = status;
  matched_context_ids = ids;
  match_details = details;
  best_score = score;
}

unfoldable pub indeterminate_result : Event → MatchDetails → Classification
unfolding classified
indeterminate_result event details = classified event ExplanationStatus.indeterminate [] details 0

unfoldable pub matched_ids : List Match → List ℕ
unfolding is_match
matched_ids evaluations =
    sorted leb (map (λ (m : Match). m.entry_id) (filter (λ m. is_match m.status) evaluations))

-- from the test `if not sorted_entries` on
unfoldable pub by_evaluations : Event → List Match → Classification
unfolding best matched_ids classified
by_evaluations event [] =
    classified event ExplanationStatus.unexplained [] MatchDetails.no_context_entries 0
by_evaluations event (m ∷ ms) =
    let top : Match = best m ms in
    classified event top.status (matched_ids (m ∷ ms)) (MatchDetails.best_match top) top.score

unfoldable pub classify_event : Event → List ContextLedgerEntry → ℕ → Classification
unfolding entry_before is_some no_items indeterminate_result by_evaluations
classify_event event entries history =
    let ordered : List ContextLedgerEntry = sorted entry_before entries in
    if is_some (present event.resource_id) && not (is_some (present event.resource_classification))
    then indeterminate_result event (MatchDetails.missing_resource_classification event.resource_id)
    else if ltb history min_personal_history && no_items (filter (time_match event) ordered)
    then indeterminate_result event (MatchDetails.insufficient_history history min_personal_history)
    else by_evaluations event (map (match_event_against_entry event) ordered)
