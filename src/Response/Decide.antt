-- ===== src/Response/Decide.antt =====
-- engine/response_policy.py: the decision, statement by statement.
use test_m_backend.Common.{
  ℕ, ◌*◌, String, Bool, true, false, ◌&&◌, ◌||◌, not, none, some, List, [], ◌∷◌, ◌++◌, ◌==◌, nat_eq,
  string_eq, if◌then◌else◌, ltb, any, all, find, when, no_items, length,
}
use test_m_backend.Response.Sandbox.{Status}
use test_m_backend.Response.Graph.{BlastRadius}
use test_m_backend.Response.Policy.{
  Assessment, Existing, Reason, RollbackPlan, PolicyDecision, priority_threshold,
  default_ttl_minutes, step_up_ttl_minutes, min_independent_categories, in_set, tier0, tier1, tier2,
  tier3, evidence_categories, trigger_event_ids, decisive, is_thin, recommend,
}

-- the statuses of a control that is in effect or about to be
unfoldable pub in_effect : Status → Bool
in_effect Status.auto_authorized = true
in_effect Status.approved = true
in_effect Status.executing = true
in_effect Status.active = true
in_effect _ = false

unfoldable pub has_item : List (String × String) → String × String → Bool
has_item items p = any (λ (q : String × String). (q.0 == p.0) && (q.1 == p.1)) items

-- equality of dictionaries
unfoldable pub same_scope : List (String × String) → List (String × String) → Bool
unfolding has_item
same_scope a b = all (has_item b) a && all (has_item a) b

unfoldable pub duplicates : String → List (String × String) → Existing → Bool
unfolding same_scope in_effect
duplicates requested scope item =
    (item.action_type == requested) && (same_scope item.target_scope scope && in_effect item.status)

unfoldable pub conflict_pair : String → String → Bool
conflict_pair a b =
    ((a == "step_up_auth") && (b == "revoke_session"))
    || (((a == "step_up_auth") && (b == "disable_account"))
        || (((a == "revoke_session") && (b == "disable_account"))
            || ((a == "isolate_device") && (b == "disable_account"))))

unfoldable pub share_value : List (String × String) → List (String × String) → Bool
share_value a b = any (λ (p : String × String). any (λ (q : String × String). q.1 == p.1) b) a

unfoldable pub conflicts : String → List (String × String) → Existing → Bool
unfolding conflict_pair share_value in_effect
conflicts requested scope item =
    in_effect item.status
    && ((conflict_pair requested item.action_type || conflict_pair item.action_type requested)
        && (share_value scope item.target_scope
            || ((requested == "disable_account") || (item.action_type == "disable_account"))))

unfoldable pub safeguards : Assessment → List (String × String) → List Reason
unfolding evidence_categories trigger_event_ids decisive is_thin no_items
safeguards a scope =
    when (ltb a.residual_risk priority_threshold) (Reason.priority_below a.residual_risk)
    ++ when (no_items (trigger_event_ids a)) Reason.no_event
    ++ when (ltb (length (evidence_categories a)) min_independent_categories && not (decisive a))
        Reason.not_independent
    ++ when ((a.confidence == "low") && not (decisive a)) Reason.low_confidence
    ++ when (is_thin a && not (decisive a)) Reason.sparse_history
    ++ when ((a.context_coverage == 10000) && no_items (trigger_event_ids a)) Reason.fully_covered
    ++ when (no_items scope) Reason.no_scope

-- `PolicyDecision(**base, ...)`
module _ (a : Assessment) (scope : List (String × String)) (blast : BlastRadius) where
  unfoldable pub denied : String → List Reason → Bool → PolicyDecision
  denied rule reasons approval_required = record {
    recommended_action = recommend a;
    allow = false;
    automatic = false;
    approval_required = approval_required;
    policy_rule_id = rule;
    reasons = reasons;
    target_scope = scope;
    blast_radius = blast;
    ttl_seconds = none;
    rollback_plan = RollbackPlan.no_plan;
    evidence_categories = evidence_categories a;
    trigger_event_ids = trigger_event_ids a;
  }

  unfoldable pub permitted_as : String → List Reason → Bool → ℕ → RollbackPlan → PolicyDecision
  permitted_as rule reasons human minutes plan = record {
    recommended_action = recommend a;
    allow = true;
    automatic = not human;
    approval_required = human;
    policy_rule_id = rule;
    reasons = reasons;
    target_scope = scope;
    blast_radius = blast;
    ttl_seconds = some (minutes * 60);
    rollback_plan = plan;
    evidence_categories = evidence_categories a;
    trigger_event_ids = trigger_event_ids a;
  }

  -- the last two tests, for the actions that contain
  unfoldable pub containment : String → PolicyDecision
  unfolding denied permitted_as in_set
  containment requested =
      if in_set tier2 requested
      then permitted_as "RP-PROTECTIVE-HOLD-001"
          (Reason.priority_met ∷ Reason.evidence_present ∷ Reason.scope_bounded
            ∷ Reason.evidence_independent ∷ [])
          false default_ttl_minutes RollbackPlan.deactivate_control
      else if in_set tier3 requested
      then permitted_as "RP-HUMAN-CONTAINMENT-001" (Reason.needs_human ∷ []) true
          default_ttl_minutes RollbackPlan.restore_prior_state
      else denied "RP-UNKNOWN-001" (Reason.unsupported_type ∷ []) false

  -- from the test for TIER0 on
  unfoldable pub by_tier : String → PolicyDecision
  unfolding containment safeguards
  by_tier requested =
      if in_set tier0 requested
      then permitted_as "RP-OBSERVE-001" (Reason.observation_only ∷ []) false default_ttl_minutes
          RollbackPlan.expire
      else if in_set tier1 requested
      then permitted_as "RP-VERIFY-001" (Reason.step_up_is_narrow ∷ []) false step_up_ttl_minutes
          RollbackPlan.clear_step_up_requirement
      else if not (no_items (safeguards a scope))
      then denied "RP-SAFETY-DENY-001" (safeguards a scope) (in_set tier3 requested)
      else containment requested

  unfoldable pub evaluate_response_policy : String → List Existing → PolicyDecision
  unfolding duplicates conflicts by_tier
  evaluate_response_policy requested existing = elim (find (duplicates requested scope) existing) [
    | some item ↦ denied "RP-DUPLICATE-001" (Reason.equivalent_exists item.action_id ∷ []) false
    | none ↦ elim (find (conflicts requested scope) existing) [
      | some item ↦ denied "RP-CONFLICT-001" (Reason.conflicts_with item.action_id ∷ []) false
      | none ↦ by_tier requested
    ]
  ]
