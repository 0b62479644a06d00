-- ===== src/Response/Approval.antt =====
-- Which decisions of engine/response_policy.py wait for a person, and for how long they hold.
use test_m_backend.Common.{
  ◌≡◌, refl, subst, String, true, false, ◌&&◌, not, Option, none, some, List, [], ◌∷◌, arith, ◌==◌,
  string_eq, if◌then◌else◌, any, find, All, Bool-cases, inl, inr, eq_of_==,
}
use test_m_backend.Response.Graph.{BlastRadius}
use test_m_backend.Response.Policy.{
  Assessment, Existing, Reason, PolicyDecision, in_set, tier0, tier1, tier2, tier3,
}
use test_m_backend.Response.Decide.{
  duplicates, conflicts, by_tier, denied, evaluate_response_policy,
}

-- What all names of a set have, a name in the set has.
in_set-All :
    (P : String → Type 0) (names : List String) (x : String)
    → All P names
    → in_set names x ≡ true
    → P x
unfolding in_set any
in_set-All P [] x h e = absurd (cc e)
in_set-All P (n ∷ names) x h e = elim (Bool-cases (n == x)) [
  | inl k ↦ subst P (eq_of_== n x k) h.0
  | inr k ↦ in_set-All P names x h.1 (rw k at e)
]

-- The tiers have no action in common.
tier0-tier1 : (x : String) → in_set tier0 x ≡ true → in_set tier1 x ≡ false
tier0-tier1 x = in_set-All (λ n. in_set tier1 n ≡ false) tier0 x (unfold in_set any in (refl, tt))

tier0-tier3 : (x : String) → in_set tier0 x ≡ true → in_set tier3 x ≡ false
tier0-tier3 x = in_set-All (λ n. in_set tier3 n ≡ false) tier0 x (unfold in_set any in (refl, tt))

tier1-tier3 : (x : String) → in_set tier1 x ≡ true → in_set tier3 x ≡ false
tier1-tier3 x = in_set-All (λ n. in_set tier3 n ≡ false) tier1 x (unfold in_set any in (refl, tt))

tier2-tier3 : (x : String) → in_set tier2 x ≡ true → in_set tier3 x ≡ false
tier2-tier3 x =
    in_set-All (λ n. in_set tier3 n ≡ false) tier2 x
      (unfold in_set any in (refl, (refl, (refl, tt))))

-- What a decision says of people and time.
abbrev IsHuman : String → PolicyDecision → Type 0
IsHuman requested d =
    (d.automatic ≡ (d.allow && not d.approval_required))
    × ((d.allow && d.approval_required) ≡ (d.allow && in_set tier3 requested))
    × (d.ttl_seconds
        ≡ (if d.allow then some (if in_set tier1 requested then 300 else 900) else none))

by_tier-IsHuman :
    (a : Assessment) (scope : List (String × String)) (blast : BlastRadius) (requested : String)
    → IsHuman requested (by_tier a scope blast requested)
unfolding by_tier
by_tier-IsHuman a scope blast requested = ground (
  arith,
  tier0-tier1 requested,
  tier0-tier3 requested,
  tier1-tier3 requested,
  tier2-tier3 requested,
)

-- A decision is automatic exactly when it allows without asking for an approval; among the allowed
-- actions those that revoke, isolate or disable are the ones that ask for one; and what is allowed
-- ends by itself, after five minutes for a verification and fifteen otherwise.
pub evaluate_response_policy-human :
    (a : Assessment) (scope : List (String × String)) (blast : BlastRadius) (requested : String)
    (existing : List Existing)
    → let d : PolicyDecision = evaluate_response_policy a scope blast requested existing in
      (d.automatic ≡ (d.allow && not d.approval_required))
      × ((d.allow && d.approval_required) ≡ (d.allow && in_set tier3 requested))
      × (d.ttl_seconds
          ≡ (if d.allow then some (if in_set tier1 requested then 300 else 900) else none))
unfolding evaluate_response_policy
evaluate_response_policy-human a scope blast requested existing =
    checked (find (duplicates requested scope) existing) (find (conflicts requested scope) existing)
  where
    checked :
        (same other : Option Existing)
        → IsHuman requested (elim same [
          | some item ↦
              denied a scope blast "RP-DUPLICATE-001"
                (Reason.equivalent_exists item.action_id ∷ [])
                false
          | none ↦ elim other [
            | some item ↦
                denied a scope blast "RP-CONFLICT-001"
                  (Reason.conflicts_with item.action_id ∷ [])
                  false
            | none ↦ by_tier a scope blast requested
          ]
        ])
    checked (some x) other = (refl, refl, refl)
    checked none (some x) = (refl, refl, refl)
    checked none none = by_tier-IsHuman a scope blast requested
