-- ===== src/Response/Safety.antt =====
-- What a decision of engine/response_policy.py means.
use test_m_backend.Common.{
  ℕ, ◌≤◌, ◌<◌, ◌≡◌, ◌≢◌, refl, ◌↔◌, ◌⊎◌, String, Bool, true, false, ◌&&◌, not, List, [], ◌∷◌, ◌++◌,
  map, arith, ◌==◌, nat_eq, string_eq, leb, ltb, any, filter, find, any_iff, when, no_items, length,
  no_items_iff, Exists, Exists-map, any-filter, Option-cases,
}
use test_m_backend.Common.Order.{sorted_set, nil_of_sorted_set, sorted_set-nil}
use test_m_backend.Response.Graph.{BlastRadius}
use test_m_backend.Response.Policy.{
  EventRiskRow, Assessment, Existing, Reason, priority_threshold, in_set, tier0, tier1, tier2,
  tier3, uncredited, supports, or_zero, evidence_categories, trigger_event_ids, decisive, is_thin,
}
use test_m_backend.Response.Controls.{
  IsEquivalent, IsConflicting, duplicates_iff, conflicts_iff, find-without,
}
use test_m_backend.Response.Decide.{
  duplicates, conflicts, safeguards, by_tier, evaluate_response_policy,
}

-- An event that context does not cover in full, of high risk or with a critical reason.
abbrev pub IsUnresolved : EventRiskRow → Type 0
IsUnresolved row =
    (or_zero row.context_credit < 10000)
    × ((5000 ≤ or_zero row.raw_risk) ⊎ (row.critical_reasons ≢ []))

-- An unresolved event with a critical reason.
abbrev pub IsDecisive : Assessment → Type 0
IsDecisive a =
    Exists (λ (r : EventRiskRow). IsUnresolved r × (r.critical_reasons ≢ [])) a.event_risk_breakdown

-- What containment must rest on.
abbrev pub IsGrounded : Assessment → List (String × String) → Type 0
IsGrounded a scope =
    (priority_threshold ≤ a.residual_risk)
    × Exists IsUnresolved a.event_risk_breakdown
    × ((2 ≤ length (evidence_categories a)) ⊎ IsDecisive a)
    × ((a.confidence ≢ "low") ⊎ IsDecisive a)
    × (((a.data_quality ≢ "sparse") × (a.data_quality ≢ "insufficient")) ⊎ IsDecisive a)
    × (scope ≢ [])

supports_iff : (row : EventRiskRow) → (supports row ≡ true) ↔ IsUnresolved row
unfolding supports uncredited
supports_iff row = ground (arith, no_items_iff row.critical_reasons)

no_items-sorted_set :
    (before : ℕ → ℕ → Bool) (xs : List ℕ) → no_items (sorted_set before xs) ≡ no_items xs
unfolding no_items
no_items-sorted_set before xs = ground (
  arith,
  no_items_iff xs,
  no_items_iff (sorted_set before xs),
  nil_of_sorted_set before xs,
  sorted_set-nil before,
)

no_items-mapped :
    {A B : Type 0} (f : A → B) (p : A → Bool) (xs : List A)
    → no_items (map f (filter p xs)) ≡ not (any p xs)
unfolding no_items filter any
no_items-mapped f p [] = refl
no_items-mapped f p (x ∷ xs) = ground (arith, no_items-mapped f p xs)

any-filtered :
    {A : Type 0} (p q : A → Bool) (P Q : A → Type 0) (xs : List A)
    → ((x : A) → (p x ≡ true) ↔ P x)
    → ((x : A) → (q x ≡ true) ↔ Q x)
    → (any q (filter p xs) ≡ true) ↔ Exists (λ x. P x × Q x) xs
any-filtered p q P Q xs h k = (
  λ e. Exists-map _ _ xs (λ x w. ((h x).0 w.0, (k x).0 w.1)) ((any-filter p q xs).0 e),
  λ e. (any-filter p q xs).1 (Exists-map _ _ xs (λ x w. ((h x).1 w.0, (k x).1 w.1)) e),
)

trigger_event_ids_iff :
    (a : Assessment)
    → (no_items (trigger_event_ids a) ≡ false) ↔ Exists IsUnresolved a.event_risk_breakdown
unfolding trigger_event_ids
trigger_event_ids_iff a = ground (
  arith,
  no_items-sorted_set leb
      (map (λ (r : EventRiskRow). r.event_id) (filter supports a.event_risk_breakdown)),
  no_items-mapped (λ (r : EventRiskRow). r.event_id) supports a.event_risk_breakdown,
  any_iff supports IsUnresolved a.event_risk_breakdown supports_iff,
)

has_items_iff : {A : Type 0} (xs : List A) → (not (no_items xs) ≡ true) ↔ (xs ≢ [])
has_items_iff xs = ground (arith, no_items_iff xs)

decisive_iff : (a : Assessment) → (decisive a ≡ true) ↔ IsDecisive a
unfolding decisive
decisive_iff a =
    any-filtered supports _ IsUnresolved _ a.event_risk_breakdown supports_iff
      (λ (r : EventRiskRow). has_items_iff r.critical_reasons)

is_thin_iff :
    (a : Assessment)
    → (is_thin a ≡ false) ↔ ((a.data_quality ≢ "sparse") × (a.data_quality ≢ "insufficient"))
unfolding is_thin
is_thin_iff a = ground (
  arith,
  string_eq.equal_iff a.data_quality "sparse",
  string_eq.equal_iff a.data_quality "insufficient",
)

module _ {A : Type 0} where
  no_items-append : (xs ys : List A) → no_items (xs ++ ys) ≡ (no_items xs && no_items ys)
  unfolding no_items
  no_items-append [] ys = refl
  no_items-append (x ∷ xs) ys = refl

  no_items-when : (c : Bool) (x : A) → no_items (when c x) ≡ not c
  unfolding no_items when
  no_items-when true x = refl
  no_items-when false x = refl

no_items-seven :
    (a b c d e f g : Bool) (p q r s t u v : Reason)
    → no_items (when a p ++ when b q ++ when c r ++ when d s ++ when e t ++ when f u ++ when g v)
      ≡ ((((((not a && not b) && not c) && not d) && not e) && not f) && not g)
no_items-seven a b c d e f g p q r s t u v = simp (no_items-append, no_items-when)

safeguards_lem :
    (a : Assessment) (scope : List (String × String))
    → no_items (safeguards a scope) ≡ (
        (((((not (ltb a.residual_risk priority_threshold) && not (no_items (trigger_event_ids a)))
                && not (ltb (length (evidence_categories a)) 2 && not (decisive a)))
              && not ((a.confidence == "low") && not (decisive a)))
            && not (is_thin a && not (decisive a)))
          && not ((a.context_coverage == 10000) && no_items (trigger_event_ids a)))
        && not (no_items scope))
unfolding safeguards
safeguards_lem a scope = no_items-seven _ _ _ _ _ _ _ _ _ _ _ _ _ _

safeguards_iff :
    (a : Assessment) (scope : List (String × String))
    → (no_items (safeguards a scope) ≡ true) ↔ IsGrounded a scope
safeguards_iff a scope = rw (safeguards_lem a scope) (
    ground (
      arith,
      trigger_event_ids_iff a,
      decisive_iff a,
      is_thin_iff a,
      string_eq.equal_iff a.confidence "low",
      no_items_iff scope,
    ))

by_tier-allow :
    (a : Assessment) (scope : List (String × String)) (blast : BlastRadius) (requested : String)
    → ((by_tier a scope blast requested).allow ≡ true) ↔ (
        (in_set tier0 requested ≡ true)
        ⊎ (in_set tier1 requested ≡ true)
        ⊎ (((in_set tier2 requested ≡ true) ⊎ (in_set tier3 requested ≡ true))
            × IsGrounded a scope))
unfolding by_tier
by_tier-allow a scope blast requested = ground (arith, safeguards_iff a scope)

-- An action is allowed exactly when no equivalent control and no conflicting one is in effect, and it
-- only observes or verifies, or it contains and rests on an assessment and a scope that suffice.
pub evaluate_response_policy-allow :
    (a : Assessment) (scope : List (String × String)) (blast : BlastRadius) (requested : String)
    (existing : List Existing)
    → ((evaluate_response_policy a scope blast requested existing).allow ≡ true) ↔ (
        (¬ Exists (IsEquivalent requested scope) existing)
        × (¬ Exists (IsConflicting requested scope) existing)
        × ((in_set tier0 requested ≡ true)
            ⊎ (in_set tier1 requested ≡ true)
            ⊎ (((in_set tier2 requested ≡ true) ⊎ (in_set tier3 requested ≡ true))
                × IsGrounded a scope)))
unfolding evaluate_response_policy
evaluate_response_policy-allow a scope blast requested existing = ground (
  arith,
  Option-cases (find (duplicates requested scope) existing),
  Option-cases (find (conflicts requested scope) existing),
  find-without (duplicates requested scope) (IsEquivalent requested scope) existing
      (duplicates_iff requested scope),
  find-without (conflicts requested scope) (IsConflicting requested scope) existing
      (conflicts_iff requested scope),
  by_tier-allow a scope blast requested,
)
