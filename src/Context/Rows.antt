-- ===== src/Context/Rows.antt =====
-- The rows that engine/context.py reads, and what its functions return. A time is a count of
-- microseconds, so that `_ensure_aware` is the identity; a score is a count of sixths.
use test_m_backend.Common.{ℕ, String, Bool, Option, List}

pub data ExplanationStatus : Type 0 where
  explained partially_explained unexplained indeterminate : ExplanationStatus

pub record Event : Type 0 where
  pub id : ℕ
  pub timestamp : ℕ
  pub actor_id : ℕ
  pub device_id : String
  pub action : String
  pub resource_id : Option String
  pub resource_classification : Option String
  pub destination : Option String

pub record ContextLedgerEntry : Type 0 where
  pub id : ℕ
  pub actor_id : ℕ
  pub valid_from : ℕ
  pub valid_until : ℕ
  pub effective_from : Option ℕ
  pub effective_until : Option ℕ
  pub allowed_resources : List String
  pub allowed_actions : List String
  pub approved_destinations : Option (List String)
  pub approval_state : String
  pub proposed_at : Option ℕ
  pub reviewed_at : Option ℕ

-- what a constraint of an entry is named after
pub data Criterion : Type 0 where
  by_time by_resource by_action by_destination : Criterion

-- the answer of `match_event_against_entry`
pub record Match : Type 0 where
  pub entry_id : ℕ
  pub time_match : Bool
  pub resource_match : Option Bool
  pub action_match : Option Bool
  pub destination_match : Option Bool
  pub applicable : List Criterion
  pub matched : List Criterion
  pub status : ExplanationStatus
  pub score : ℕ
  pub late_context : Bool

-- `match_details` of a classification; the history is not rounded to days
pub data MatchDetails : Type 0 where
  missing_resource_classification : Option String → MatchDetails
  insufficient_history : ℕ → ℕ → MatchDetails
  no_context_entries : MatchDetails
  best_match : Match → MatchDetails

-- the answer of `classify_event`
pub record Classification : Type 0 where
  pub event_id : ℕ
  pub timestamp : ℕ
  pub action : String
  pub resource_id : Option String
  pub destination : Option String
  pub status : ExplanationStatus
  pub matched_context_ids : List ℕ
  pub match_details : MatchDetails
  pub best_score : ℕ
