-- ===== src/Response/Policy.antt =====
-- engine/response_policy.py: the facts that the policy of response actions reads. A number with four decimals is a
-- count of ten-thousandths; a dictionary is a list of its items.
use test_m_backend.Common.{
  ℕ, String, Bool, ◌&&◌, ◌||◌, not, Option, none, some, List, [], ◌∷◌, ◌++◌, map, ◌==◌, nat_eq,
  string_eq, if◌then◌else◌, leb, ltb, any, filter, no_items, when,
}
use test_m_backend.Common.Order.{sorted_set, text_before}
use test_m_backend.Response.Sandbox.{Status}
use test_m_backend.Response.Graph.{BlastRadius}

-- a row of `event_risk_breakdown`
pub record EventRiskRow : Type 0 where
  pub event_id : ℕ
  pub context_credit : Option ℕ
  pub raw_risk : Option ℕ
  pub critical_reasons : List String
  pub categories : List (String × ℕ)

-- the committed facts of the case that the policy reads
pub record Assessment : Type 0 where
  pub event_risk_breakdown : List EventRiskRow
  pub residual_risk : ℕ
  pub confidence : String
  pub data_quality : String
  pub context_coverage : ℕ

-- an item of `existing_active_actions`
pub record Existing : Type 0 where
  pub action_id : ℕ
  pub action_type : String
  pub target_scope : List (String × String)
  pub status : Status

pub data Reason : Type 0 where
  equivalent_exists conflicts_with : ℕ → Reason
  observation_only step_up_is_narrow : Reason
  priority_below : ℕ → Reason
  no_event not_independent low_confidence sparse_history fully_covered no_scope : Reason
  priority_met evidence_present scope_bounded evidence_independent : Reason
  needs_human unsupported_type : Reason

pub data RollbackPlan : Type 0 where
  no_plan expire clear_step_up_requirement deactivate_control restore_prior_state : RollbackPlan

pub record PolicyDecision : Type 0 where
  pub recommended_action : String
  pub allow : Bool
  pub automatic : Bool
  pub approval_required : Bool
  pub policy_rule_id : String
  pub reasons : List Reason
  pub target_scope : List (String × String)
  pub blast_radius : BlastRadius
  pub ttl_seconds : Option ℕ
  pub rollback_plan : RollbackPlan
  pub evidence_categories : List String
  pub trigger_event_ids : List ℕ

-- config.py: RESPONSE_PRIORITY_THRESHOLD, RESPONSE_DEFAULT_TTL_MINUTES,
-- RESPONSE_STEP_UP_TTL_MINUTES, RESPONSE_MIN_INDEPENDENT_CATEGORIES
abbrev pub priority_threshold : ℕ
priority_threshold = 750000

abbrev pub default_ttl_minutes : ℕ
default_ttl_minutes = 15

abbrev pub step_up_ttl_minutes : ℕ
step_up_ttl_minutes = 5

abbrev pub min_independent_categories : ℕ
min_independent_categories = 2

unfoldable pub in_set : List String → String → Bool
in_set names x = any (λ n. n == x) names

abbrev pub tier0 : List String
tier0 = "observe" ∷ []

abbrev pub tier1 : List String
tier1 = "step_up_auth" ∷ []

abbrev pub tier2 : List String
tier2 = "block_external_upload" ∷ "freeze_privilege_change" ∷ "rate_limit_download" ∷ []

abbrev pub tier3 : List String
tier3 = "revoke_session" ∷ "isolate_device" ∷ "disable_account" ∷ []

unfoldable pub or_zero : Option ℕ → ℕ
or_zero none = 0
or_zero (some n) = n

unfoldable pub uncredited : EventRiskRow → Bool
unfolding or_zero
uncredited row = ltb (or_zero row.context_credit) 10000

-- the test of the loop of `_supporting_evidence`
unfoldable pub supports : EventRiskRow → Bool
unfolding uncredited no_items
supports row =
    uncredited row && (leb 5000 (or_zero row.raw_risk) || not (no_items row.critical_reasons))

unfoldable pub names_of : List (String × ℕ) → List String
names_of [] = []
names_of ((name, combined) ∷ rest) = when (ltb 0 combined) name ++ names_of rest

unfoldable pub category_names : List EventRiskRow → List String
unfolding names_of
category_names [] = []
category_names (row ∷ rows) = names_of row.categories ++ category_names rows

-- the three results of `_supporting_evidence`
unfoldable pub evidence_categories : Assessment → List String
unfolding supports category_names
evidence_categories a =
    sorted_set text_before (category_names (filter supports a.event_risk_breakdown))

unfoldable pub trigger_event_ids : Assessment → List ℕ
unfolding supports
trigger_event_ids a =
    sorted_set leb (map (λ (r : EventRiskRow). r.event_id) (filter supports a.event_risk_breakdown))

unfoldable pub decisive : Assessment → Bool
unfolding supports
decisive a =
    any (λ (r : EventRiskRow). not (no_items r.critical_reasons))
      (filter supports a.event_risk_breakdown)

unfoldable pub has_reason : Assessment → String → Bool
unfolding uncredited in_set
has_reason a reason =
    any (λ (r : EventRiskRow). in_set r.critical_reasons reason)
      (filter uncredited a.event_risk_breakdown)

unfoldable pub is_thin : Assessment → Bool
is_thin a = (a.data_quality == "sparse") || (a.data_quality == "insufficient")

unfoldable pub recommend : Assessment → String
unfolding has_reason is_thin
recommend a =
    if has_reason a "external_upload" || has_reason a "external_destination"
    then "block_external_upload"
    else if has_reason a "privilege_change"
    then "freeze_privilege_change"
    else if has_reason a "bulk_download"
    then "rate_limit_download"
    else if is_thin a || (a.confidence == "low")
    then "step_up_auth"
    else "observe"
