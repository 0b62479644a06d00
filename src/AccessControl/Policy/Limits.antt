-- ===== src/AccessControl/Policy/Limits.antt =====
-- What a decision grants at most, and how its parts fit together.
use test_m_backend.Common.{
  ℕ, Bool, ◌≤◌, String, ◌≡◌, refl, ◌≢◌, ◌⊎◌, ◌↔◌, true, false, none, some, List, [], ◌∷◌, arith,
}
use test_m_backend.Common.Order.{by_rank, nil_of_sorted_set, sorted_set-nil}
use test_m_backend.AccessControl.Policy.Values.{
  Sensitivity, Role, PolicyInputs, Canonical, AccessPolicyDecision,
}
use test_m_backend.AccessControl.Policy.Decide.{
  is_empty, sensitivity_ttl, ttl_or_zero, blocked, missing, maximum_duration, eligible, block_rank,
  missing_rank, evaluate_access_policy,
}

is_empty_iff {ℓ} : {A : Type ℓ} (xs : List A) → (is_empty xs ≡ true) ↔ (xs ≡ [])
unfolding is_empty
is_empty_iff [] = (λ _. refl, λ _. refl)
is_empty_iff (x ∷ xs) = (λ h. cc, λ h. cc)

-- Whose approval a request wants, and the seconds that it may last, by its own fields alone.
abbrev pub wanted_roles : Bool → Sensitivity → List Role
wanted_roles true _ = Role.admin ∷ []
wanted_roles false Sensitivity.critical = Role.resource_owner ∷ Role.reviewer ∷ []
wanted_roles false _ = Role.reviewer ∷ []

abbrev pub longest : Bool → Sensitivity → ℕ
longest true _ = 900
longest false Sensitivity.public = 86400
longest false Sensitivity.internal = 28800
longest false Sensitivity.restricted = 14400
longest false Sensitivity.critical = 3600
longest false (Sensitivity.other _) = 0

-- A decision that allows has no objection and names what was asked for alone; one that refuses has an
-- objection and names nothing but the resource that it denies.
abbrev pub IsCoherent : PolicyInputs → AccessPolicyDecision → Type 0
IsCoherent i d =
    ((d.eligibility ≡ true)
      × (d.blocking_reasons ≡ [])
      × (d.missing_evidence ≡ [])
      × (d.maximum_permission ≡ some i.requested_permission)
      × (d.allowed_resources ≡ i.resource_id ∷ [])
      × (d.explicitly_denied_resources ≡ []))
    ⊎ ((d.eligibility ≡ false)
        × ((d.blocking_reasons ≢ []) ⊎ (d.missing_evidence ≢ []))
        × (d.maximum_permission ≡ none)
        × (d.allowed_resources ≡ [])
        × (d.explicitly_denied_resources ≡ i.resource_id ∷ []))

module _ (digest : Canonical → String) (i : PolicyInputs) where
  -- Never longer than asked for, nor than the time of the sensitivity, or fifteen minutes under
  -- break glass.
  pub duration_bounds :
      let d = evaluate_access_policy digest i in
      (d.maximum_duration_seconds ≤ i.requested_duration_seconds)
      × (d.maximum_duration_seconds ≤ longest i.break_glass i.resource_sensitivity)
  unfolding evaluate_access_policy maximum_duration ttl_or_zero sensitivity_ttl
  duration_bounds = ground arith

  -- A decision is eligible exactly when both lists of objections are empty; then it names exactly
  -- the requested permission and resource, and otherwise it names none and denies the resource.
  pub evaluate_access_policy-IsCoherent : IsCoherent i (evaluate_access_policy digest i)
  unfolding evaluate_access_policy eligible
  evaluate_access_policy-IsCoherent = ground (
    arith,
    is_empty_iff (blocked i),
    is_empty_iff (missing i),
    nil_of_sorted_set (by_rank block_rank) (blocked i),
    nil_of_sorted_set (by_rank missing_rank) (missing i),
    sorted_set-nil (by_rank block_rank),
    sorted_set-nil (by_rank missing_rank),
  )
