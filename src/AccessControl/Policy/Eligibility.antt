-- ===== src/AccessControl/Policy/Eligibility.antt =====
-- When the policy finds a request eligible: an independent description, and that the code meets it.
use test_m_backend.Common.{
  ◌≤◌, String, ◌≡◌, refl, ◌≢◌, ◌↔◌, ◌⊎◌, inl, inr, Bool, true, false, ◌&&◌, none, List, [], ◌∷◌,
  arith, ◌==◌, string_eq, eq_of_==, length, Exists, Exists-any, any-Exists, Exists-map,
}
use test_m_backend.AccessControl.Policy.Values.{
  Sensitivity, Trust, AuthStrength, EvidenceType, VerificationStatus, EvidenceItem, PolicyInputs,
}
use test_m_backend.AccessControl.Policy.Decide.{
  sensitivity_ttl, is_verified, within_scope, is_scoped, is_blocking_reason, strip,
}

-- A scope admits a value if it is empty or lists it.
abbrev pub Admits : List String → String → Type 0
Admits scope value = (scope ≡ []) ⊎ Exists (λ x. value ≡ x) scope

-- Verified evidence whose scopes admit the request.
pub record Covers (i : PolicyInputs) (e : EvidenceItem) : Type 0 where
  pub verified : e.verification_status ≡ VerificationStatus.verified
  pub identity : Admits e.identity_scope i.subject_identity
  pub resource : Admits e.resource_scope i.resource_id
  pub action : Admits e.action_scope i.requested_action

abbrev pub IsGuarded : Sensitivity → Type 0
IsGuarded s = (s ≡ Sensitivity.restricted) ⊎ (s ≡ Sensitivity.critical)

abbrev pub IsBusiness : EvidenceType → Type 0
IsBusiness t =
    (t ≡ EvidenceType.ticket) ⊎ ((t ≡ EvidenceType.incident) ⊎ (t ≡ EvidenceType.project))

abbrev pub IsBlocking : String → Type 0
IsBlocking r =
    (r ≡ "external_upload")
    ⊎ ((r ≡ "external_destination") ⊎ ((r ≡ "privilege_change") ⊎ (r ≡ "credential_theft")))

-- What has to hold of a request for the policy to find it eligible.
pub record IsEligible (i : PolicyInputs) : Type 0 where
  pub listed : sensitivity_ttl i.resource_sensitivity ≢ none
  pub device : IsGuarded i.resource_sensitivity → i.device_trust ≡ Trust.trusted
  pub step_up :
      i.resource_sensitivity ≡ Sensitivity.critical
      → i.authentication_strength ≡ AuthStrength.phishing_resistant
  pub multi_factor : i.authentication_strength ≢ AuthStrength.single_factor
  pub location : i.location_trust ≢ Trust.untrusted
  pub quiet : ¬ Exists IsBlocking i.unresolved_critical_reasons
  pub uncontained : i.conflicting_containment ≡ false
  pub business :
      IsGuarded i.resource_sensitivity
      → Exists (λ e. Covers i e × IsBusiness e.evidence_type) i.evidence
  pub sponsored :
      i.resource_sensitivity ≡ Sensitivity.critical
      → Exists
          (λ e. Covers i e × (e.evidence_type ≡ EvidenceType.resource_owner_sponsorship))
          i.evidence
  pub evidenced : i.resource_sensitivity ≢ Sensitivity.public → Exists (Covers i) i.evidence
  pub admin_glass : i.break_glass ≡ true → i.is_admin ≡ true
  pub justified_glass : i.break_glass ≡ true → 20 ≤ length (strip i.business_justification)

within_scope_iff : (v : String) (xs : List String) → (within_scope v xs ≡ true) ↔ Admits xs v
unfolding within_scope
within_scope_iff v [] = (λ _. inl refl, λ _. refl)
within_scope_iff v (x ∷ xs) = (
  λ h. inr (
      Exists-map (λ y. (v == y) ≡ true) (λ y. v ≡ y) (x ∷ xs) (λ y. eq_of_== v y)
        (Exists-any (λ y. v == y) (x ∷ xs) h)),
  λ h.
      any-Exists (λ y. v == y) (x ∷ xs)
        (Exists-map (λ y. v ≡ y) (λ y. (v == y) ≡ true) (x ∷ xs)
          (λ y e. (string_eq.equal_iff v y).1 e) (listed h)),
)
  where
    listed : Admits (x ∷ xs) v → Exists (λ y. v ≡ y) (x ∷ xs)
    listed (inl e) = cc
    listed (inr e) = e

is_verified_iff :
    (v : VerificationStatus) → (is_verified v ≡ true) ↔ (v ≡ VerificationStatus.verified)
unfolding is_verified
is_verified_iff v = ground arith

and₄ :
    (a b c d : Bool)
    → (a && (b && (c && d))) ≡ true
    → (a ≡ true) × (b ≡ true) × (c ≡ true) × (d ≡ true)
and₄ a b c d h = ground arith

-- The Boolean test of an item is the description of what covers the request.
pub is_scoped_iff : (i : PolicyInputs) (e : EvidenceItem) → (is_scoped i e ≡ true) ↔ Covers i e
unfolding is_scoped
is_scoped_iff i e = (
  λ h.
      let p = and₄ _ _ _ _ h in
      record {
        verified = (is_verified_iff e.verification_status).0 p.0;
        identity = (within_scope_iff i.subject_identity e.identity_scope).0 p.1;
        resource = (within_scope_iff i.resource_id e.resource_scope).0 p.2;
        action = (within_scope_iff i.requested_action e.action_scope).0 p.3;
      },
  λ c. rw (
    (is_verified_iff e.verification_status).1 c.verified,
    (within_scope_iff i.subject_identity e.identity_scope).1 c.identity,
    (within_scope_iff i.resource_id e.resource_scope).1 c.resource,
    (within_scope_iff i.requested_action e.action_scope).1 c.action,
  ),
)

pub is_blocking_iff : (r : String) → (is_blocking_reason r ≡ true) ↔ IsBlocking r
unfolding is_blocking_reason
is_blocking_iff r = ground (
  arith,
  string_eq.equal_iff r "external_upload",
  string_eq.equal_iff r "external_destination",
  string_eq.equal_iff r "privilege_change",
  string_eq.equal_iff r "credential_theft",
)
