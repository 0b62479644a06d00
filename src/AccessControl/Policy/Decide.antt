-- ===== src/AccessControl/Policy/Decide.antt =====
-- The policy's tests and its decision, statement by statement. `digest` stands for the text that
-- `"pol_" + sha256(json.dumps(...)).hexdigest()[:20]` makes of the canonical record.
use test_m_backend.Common.{
  ℕ, String, Bool, true, false, not, ◌&&◌, ◌||◌, Option, none, some, List, [], ◌∷◌, ◌++◌, min, ltb,
  leb, ◌==◌, nat_eq, string_eq, if◌then◌else◌, any, filter, when, length,
}
use test_m_backend.Common.Order.{sorted_set, by_rank}
use test_m_backend.AccessControl.Policy.Values.{
  Sensitivity, Trust, AuthStrength, EvidenceType, VerificationStatus, Role, EvidenceItem,
  PolicyInputs, Control, BlockReason, MissingEvidence, Canonical, AccessPolicyDecision,
}

-- `not xs`
unfoldable pub is_empty {ℓ} : {A : Type ℓ} → List A → Bool
is_empty [] = true
is_empty (_ ∷ _) = false

-- SENSITIVITY_TTL
unfoldable pub sensitivity_ttl : Sensitivity → Option ℕ
sensitivity_ttl Sensitivity.public = some 86400
sensitivity_ttl Sensitivity.internal = some 28800
sensitivity_ttl Sensitivity.restricted = some 14400
sensitivity_ttl Sensitivity.critical = some 3600
sensitivity_ttl (Sensitivity.other _) = none

-- `SENSITIVITY_TTL.get(sensitivity, 0)`
unfoldable pub ttl_or_zero : Sensitivity → ℕ
unfolding sensitivity_ttl
ttl_or_zero s = elim (sensitivity_ttl s) [ some n ↦ n | none ↦ 0 ]

unfoldable pub is_critical : Sensitivity → Bool
is_critical Sensitivity.critical = true
is_critical _ = false

unfoldable pub is_public : Sensitivity → Bool
is_public Sensitivity.public = true
is_public _ = false

-- `sensitivity in {"restricted", "critical"}`
unfoldable pub is_guarded : Sensitivity → Bool
is_guarded Sensitivity.restricted = true
is_guarded Sensitivity.critical = true
is_guarded _ = false

unfoldable pub is_listed : Sensitivity → Bool
is_listed (Sensitivity.other _) = false
is_listed _ = true

unfoldable pub is_trusted : Trust → Bool
is_trusted Trust.trusted = true
is_trusted _ = false

unfoldable pub is_untrusted : Trust → Bool
is_untrusted Trust.untrusted = true
is_untrusted _ = false

unfoldable pub resists_phishing : AuthStrength → Bool
resists_phishing AuthStrength.phishing_resistant = true
resists_phishing _ = false

-- `in {"mfa", "phishing_resistant"}`
unfoldable pub is_multi_factor : AuthStrength → Bool
is_multi_factor AuthStrength.single_factor = false
is_multi_factor _ = true

unfoldable pub is_verified : VerificationStatus → Bool
is_verified VerificationStatus.verified = true
is_verified _ = false

-- `in {"ticket", "incident", "project"}`
unfoldable pub is_business : EvidenceType → Bool
is_business EvidenceType.ticket = true
is_business EvidenceType.incident = true
is_business EvidenceType.project = true
is_business _ = false

unfoldable pub is_sponsorship : EvidenceType → Bool
is_sponsorship EvidenceType.resource_owner_sponsorship = true
is_sponsorship _ = false

-- `not scope or value in scope`
unfoldable pub within_scope : String → List String → Bool
within_scope value [] = true
within_scope value (x ∷ xs) = any (λ y. value == y) (x ∷ xs)

-- An item counts if it is verified and each of its scopes admits the request.
unfoldable pub is_scoped : PolicyInputs → EvidenceItem → Bool
unfolding is_verified
is_scoped i e =
    is_verified e.verification_status
    && (within_scope i.subject_identity e.identity_scope
        && (within_scope i.resource_id e.resource_scope
            && within_scope i.requested_action e.action_scope))

unfoldable pub is_blocking_reason : String → Bool
is_blocking_reason r =
    r == "external_upload"
    || (r == "external_destination" || (r == "privilege_change" || r == "credential_theft"))

-- The characters that `str.strip` removes.
unfoldable pub is_space : ℕ → Bool
is_space c =
    (leb 9 c && leb c 13)
    || ((leb 28 c && leb c 32)
        || (c == 133
            || (c == 160
                || (c == 5760
                    || ((leb 8192 c && leb c 8202)
                        || ((leb 8232 c && leb c 8233)
                            || (c == 8239 || (c == 8287 || c == 12288))))))))

strip_left : List ℕ → List ℕ
strip_left [] = []
strip_left (c ∷ cs) = let rest = strip_left cs in if is_space c then rest else c ∷ cs

strip_right : List ℕ → List ℕ
strip_right [] = []
strip_right (c ∷ cs) = elim (strip_right cs) [
  | [] ↦ if is_space c then [] else c ∷ []
  | d ∷ ds ↦ c ∷ d ∷ ds
]

-- `str.strip`
unfoldable pub strip : List ℕ → List ℕ
unfolding strip_left strip_right is_space
strip cs = strip_right (strip_left cs)

module _ (i : PolicyInputs) where
  unfoldable pub scoped : List EvidenceItem
  scoped = filter (is_scoped i) i.evidence

  unfoldable pub scoped_type : (EvidenceType → Bool) → Bool
  scoped_type p = any (λ e. p e.evidence_type) scoped

  -- `blocked`, in the order of the statements
  unfoldable pub blocked : List BlockReason
  blocked =
      when (is_guarded i.resource_sensitivity && not (is_trusted i.device_trust))
        BlockReason.device_not_trusted
      ++ (when
            (is_critical i.resource_sensitivity && not (resists_phishing i.authentication_strength))
            BlockReason.step_up_auth_required
          ++ (when
                (not (is_critical i.resource_sensitivity)
                  && not (is_multi_factor i.authentication_strength))
                BlockReason.mfa_required
              ++ (when (is_untrusted i.location_trust) BlockReason.untrusted_location
                  ++ (when (any is_blocking_reason i.unresolved_critical_reasons)
                        BlockReason.unresolved_critical_security_evidence
                      ++ (when i.conflicting_containment BlockReason.active_containment_conflict
                          ++ (when (not (is_listed i.resource_sensitivity))
                                BlockReason.unknown_resource_sensitivity
                              ++ (when (i.break_glass && not i.is_admin)
                                    BlockReason.break_glass_admin_required
                                  ++ (when
                                        (i.break_glass
                                          && ltb (length (strip i.business_justification)) 20)
                                        BlockReason.break_glass_justification_required
                                      ++ []))))))))

  -- `missing`, in the order of the statements
  unfoldable pub missing : List MissingEvidence
  missing =
      when (is_guarded i.resource_sensitivity && not (scoped_type is_business))
        MissingEvidence.verified_business_context
      ++ (when (is_critical i.resource_sensitivity && not (scoped_type is_sponsorship))
            MissingEvidence.resource_owner_sponsorship
          ++ (when (is_empty scoped && not (is_public i.resource_sensitivity))
                MissingEvidence.verified_scoped_evidence
              ++ []))

  -- `required`
  unfoldable pub required : List Control
  required =
      (if is_critical i.resource_sensitivity then Control.phishing_resistant_auth else Control.mfa)
      ∷ (when (is_guarded i.resource_sensitivity) Control.trusted_device
          ++ (if i.break_glass
              then Control.post_event_review ∷ Control.enhanced_monitoring ∷ []
              else []))

  -- `approvers`
  unfoldable pub approvers : List Role
  approvers =
      if i.break_glass
      then Role.admin ∷ []
      else if is_critical i.resource_sensitivity
      then Role.resource_owner ∷ Role.reviewer ∷ []
      else Role.reviewer ∷ []

  unfoldable pub maximum_duration : ℕ
  maximum_duration =
      min i.requested_duration_seconds
        (if i.break_glass then 900 else ttl_or_zero i.resource_sensitivity)

-- The place of each constant in the order of their texts.
unfoldable pub control_rank : Control → ℕ
control_rank Control.enhanced_monitoring = 0
control_rank Control.mfa = 1
control_rank Control.phishing_resistant_auth = 2
control_rank Control.post_event_review = 3
control_rank Control.trusted_device = 4

unfoldable pub block_rank : BlockReason → ℕ
block_rank BlockReason.active_containment_conflict = 0
block_rank BlockReason.break_glass_admin_required = 1
block_rank BlockReason.break_glass_justification_required = 2
block_rank BlockReason.device_not_trusted = 3
block_rank BlockReason.mfa_required = 4
block_rank BlockReason.step_up_auth_required = 5
block_rank BlockReason.unknown_resource_sensitivity = 6
block_rank BlockReason.unresolved_critical_security_evidence = 7
block_rank BlockReason.untrusted_location = 8

unfoldable pub missing_rank : MissingEvidence → ℕ
missing_rank MissingEvidence.resource_owner_sponsorship = 0
missing_rank MissingEvidence.verified_business_context = 1
missing_rank MissingEvidence.verified_scoped_evidence = 2

-- `not blocked and not missing`
unfoldable pub eligible : PolicyInputs → Bool
unfolding is_empty
eligible i = is_empty (blocked i) && is_empty (missing i)

unfoldable pub evaluate_access_policy : (Canonical → String) → PolicyInputs → AccessPolicyDecision
evaluate_access_policy digest i =
    let blocking = sorted_set (by_rank block_rank) (blocked i) in
    let absent = sorted_set (by_rank missing_rank) (missing i) in
    record {
      policy_decision_id = digest (record {
        resource = i.resource_id;
        action = i.requested_action;
        eligible = eligible i;
        blocked = blocking;
        missing = absent;
      });
      eligibility = eligible i;
      maximum_permission = if eligible i then some i.requested_permission else none;
      maximum_duration_seconds = maximum_duration i;
      required_controls = sorted_set (by_rank control_rank) (required i);
      required_approver_roles = approvers i;
      missing_evidence = absent;
      blocking_reasons = blocking;
      allowed_resources = if eligible i then i.resource_id ∷ [] else [];
      explicitly_denied_resources = if eligible i then [] else i.resource_id ∷ [];
    }
