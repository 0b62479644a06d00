-- ===== src/Context/Evaluate.antt =====
-- engine/context.py: all events of a case against the approved context of their actor.
use test_m_backend.Common.{
  ℕ, ◌+◌, ◌-◌, ◌*◌, String, Bool, true, false, ◌&&◌, Option, none, some, List, [], ◌∷◌, ◌++◌, map,
  ◌==◌, nat_eq, string_eq, if◌then◌else◌, leb, ltb, filter, length,
}
use test_m_backend.Common.Order.{sorted, sorted_set}
use test_m_backend.Context.Rows.{ExplanationStatus, Event, ContextLedgerEntry, Classification}
use test_m_backend.Context.Matching.{or_else, present}
use test_m_backend.Context.Classify.{classify_event, entry_before}

-- the key (timestamp, id)
unfoldable pub event_before : Event → Event → Bool
event_before a b = if a.timestamp == b.timestamp then leb a.id b.id else ltb a.timestamp b.timestamp

unfoldable pub first_age : ℕ → List Event → ℕ
first_age as_of [] = 0
first_age as_of (e ∷ _) = as_of - e.timestamp

-- `_actor_history_days_at`, in microseconds, over the table of events
unfoldable pub actor_history_at : List Event → ℕ → ℕ → ℕ
unfolding first_age event_before
actor_history_at table actor_id as_of = first_age as_of (
    sorted event_before
      (filter (λ (e : Event). (e.actor_id == actor_id) && leb e.timestamp as_of) table))

-- `max(..., default=...)` of the timestamps
unfoldable pub latest : ℕ → List Event → ℕ
latest m [] = m
latest m (e ∷ es) = latest (if ltb m e.timestamp then e.timestamp else m) es

unfoldable pub latest_or : ℕ → List Event → ℕ
unfolding latest
latest_or default [] = default
latest_or default (e ∷ es) = latest e.timestamp es

-- the query for the entries to consider
unfoldable pub considers : ℕ → ℕ → ContextLedgerEntry → Bool
considers actor_id as_of e =
    (e.actor_id == actor_id) && (leb e.valid_from as_of && (e.approval_state == "approved"))

unfoldable pub same_status : ExplanationStatus → ExplanationStatus → Bool
same_status ExplanationStatus.explained ExplanationStatus.explained = true
same_status ExplanationStatus.partially_explained ExplanationStatus.partially_explained = true
same_status ExplanationStatus.unexplained ExplanationStatus.unexplained = true
same_status ExplanationStatus.indeterminate ExplanationStatus.indeterminate = true
same_status _ _ = false

unfoldable pub has_status : ExplanationStatus → Classification → Bool
has_status s b = same_status s b.status

-- `score_map`, in halves
unfoldable pub credit : ExplanationStatus → ℕ
credit ExplanationStatus.explained = 2
credit ExplanationStatus.partially_explained = 1
credit _ = 0

unfoldable pub coverage_sum : List Classification → ℕ
unfolding credit
coverage_sum [] = 0
coverage_sum (b ∷ bs) = credit b.status + coverage_sum bs

unfoldable pub all_matched : List Classification → List ℕ
all_matched [] = []
all_matched (b ∷ bs) = b.matched_context_ids ++ all_matched bs

-- what the text of an unmatched behaviour is made of
pub record Behavior : Type 0 where
  pub action : String
  pub target : String
  pub timestamp : ℕ

unfoldable pub behavior : Classification → Behavior
behavior b = record {
  action = b.action;
  target = or_else (present b.resource_id) (or_else (present b.destination) "unknown");
  timestamp = b.timestamp;
}

pub record Counts : Type 0 where
  pub explained : ℕ
  pub partially_explained : ℕ
  pub unexplained : ℕ
  pub indeterminate : ℕ
  pub total : ℕ

pub record Compatibility : Type 0 where
  pub breakdown : List Classification
  pub explained_event_ids : List ℕ
  pub partial_event_ids : List ℕ
  pub unexplained_event_ids : List ℕ
  pub indeterminate_event_ids : List ℕ
  pub c_t : ℕ
  pub matched_context_ids : List ℕ
  pub considered_context_ids : List ℕ
  pub unmatched_behavior : List Behavior
  pub residual_unresolved_count : ℕ
  pub counts : Counts
  pub as_of : ℕ
  pub history : ℕ

unfoldable pub event_ids : List Classification → List ℕ
event_ids = map (λ (b : Classification). b.event_id)

-- the events up to `as_of`, in order
unfoldable pub in_scope : Option ℕ → List Event → List Event
unfolding event_before
in_scope none events = sorted event_before events
in_scope (some as_of) events =
    sorted event_before (filter (λ (e : Event). leb e.timestamp as_of) events)

unfoldable pub considered : List ContextLedgerEntry → ℕ → ℕ → List ContextLedgerEntry
unfolding considers
considered ledger actor_id as_of = sorted entry_before (filter (considers actor_id as_of) ledger)

-- `round4 a b` is round(a / b, 4) in ten-thousandths; `now` is read where no event is in scope.
module _ (round4 : ℕ → ℕ → ℕ) where
  unfoldable pub coverage : List Classification → ℕ
  unfolding coverage_sum
  coverage [] = 0
  coverage (b ∷ bs) = round4 (coverage_sum (b ∷ bs)) (2 * length (b ∷ bs))

  unfoldable pub evaluate_context_compatibility :
      List Event → List ContextLedgerEntry → ℕ → ℕ → List Event → Option ℕ → Compatibility
  unfolding in_scope latest_or considered has_status coverage all_matched behavior event_ids
  evaluate_context_compatibility table ledger now actor_id events as_of =
      let chosen : List Event = in_scope as_of events in
      let eval_as_of : ℕ = or_else as_of (latest_or now chosen) in
      let entries : List ContextLedgerEntry = considered ledger actor_id eval_as_of in
      let history : ℕ = actor_history_at table actor_id eval_as_of in
      let breakdown : List Classification = map (λ e. classify_event e entries history) chosen in
      let explained : List Classification =
        filter (has_status ExplanationStatus.explained) breakdown in
      let partial : List Classification =
        filter (has_status ExplanationStatus.partially_explained) breakdown in
      let unexplained : List Classification =
        filter (has_status ExplanationStatus.unexplained) breakdown in
      let indeterminate : List Classification =
        filter (has_status ExplanationStatus.indeterminate) breakdown in
      record {
        breakdown = breakdown;
        explained_event_ids = event_ids explained;
        partial_event_ids = event_ids partial;
        unexplained_event_ids = event_ids unexplained;
        indeterminate_event_ids = event_ids indeterminate;
        c_t = coverage breakdown;
        matched_context_ids = sorted_set leb (all_matched breakdown);
        considered_context_ids = map (λ (e : ContextLedgerEntry). e.id) entries;
        unmatched_behavior = map behavior unexplained;
        residual_unresolved_count = length indeterminate;
        counts = record {
          explained = length explained;
          partially_explained = length partial;
          unexplained = length unexplained;
          indeterminate = length indeterminate;
          total = length breakdown;
        };
        as_of = eval_as_of;
        history = history;
      }
