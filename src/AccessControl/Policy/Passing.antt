-- ===== src/AccessControl/Policy/Passing.antt =====
-- The policy passes a request exactly when it is eligible by its description.
use test_m_backend.Common.{
  ℕ, ◌≤◌, String, ◌≡◌, refl, ap, ◌≢◌, ◌↔◌, Bool, true, false, not, ◌&&◌, none, List, [], ◌∷◌, arith,
  string_eq, any, filter, length, Exists, any-filter, when, ◌++◌, Exists-any, any-Exists,
  Exists-map, ltb,
}
use test_m_backend.AccessControl.Policy.Values.{
  Sensitivity, Trust, AuthStrength, EvidenceType, PolicyInputs,
}
use test_m_backend.AccessControl.Policy.Decide.{
  is_empty, sensitivity_ttl, is_critical, is_public, is_guarded, is_listed, is_trusted,
  is_untrusted, resists_phishing, is_multi_factor, is_business, is_sponsorship, is_scoped,
  is_blocking_reason, strip, scoped, scoped_type, blocked, missing, eligible,
}
use test_m_backend.AccessControl.Policy.Eligibility.{
  Covers, IsGuarded, IsBusiness, IsBlocking, IsEligible, is_scoped_iff, is_blocking_iff,
}

-- The conditions of the code, one by one.
abbrev Passes : PolicyInputs → Type 0
Passes i =
    (is_listed i.resource_sensitivity ≡ true)
    × ((is_guarded i.resource_sensitivity && not (is_trusted i.device_trust)) ≡ false)
    × ((is_critical i.resource_sensitivity && not (resists_phishing i.authentication_strength))
        ≡ false)
    × ((not (is_critical i.resource_sensitivity) && not (is_multi_factor i.authentication_strength))
        ≡ false)
    × (is_untrusted i.location_trust ≡ false)
    × (any is_blocking_reason i.unresolved_critical_reasons ≡ false)
    × (i.conflicting_containment ≡ false)
    × ((i.break_glass && not i.is_admin) ≡ false)
    × ((i.break_glass && ltb (length (strip i.business_justification)) 20) ≡ false)
    × ((is_guarded i.resource_sensitivity && not (scoped_type i is_business)) ≡ false)
    × ((is_critical i.resource_sensitivity && not (scoped_type i is_sponsorship)) ≡ false)
    × ((is_empty (scoped i) && not (is_public i.resource_sensitivity)) ≡ false)

is_empty-when {ℓ} :
    {A : Type ℓ} (c : Bool) (x : A) (xs : List A)
    → is_empty (when c x ++ xs) ≡ (not c && is_empty xs)
unfolding is_empty when
is_empty-when true x xs = refl
is_empty-when false x xs = refl

eligible_iff_Passes : (i : PolicyInputs) → (eligible i ≡ true) ↔ Passes i
unfolding eligible blocked missing
eligible_iff_Passes i = simp is_empty-when (ground arith)

-- Evidence of a kind among the scoped evidence is covering evidence of that kind.
scoped_type_iff :
    (i : PolicyInputs) (p : EvidenceType → Bool)
    → (scoped_type i p ≡ true) ↔ Exists (λ e. Covers i e × (p e.evidence_type ≡ true)) i.evidence
unfolding scoped_type scoped
scoped_type_iff i p =
    let both = any-filter (is_scoped i) (λ e. p e.evidence_type) i.evidence in
    (
      λ h. Exists-map _ _ i.evidence (λ e q. ((is_scoped_iff i e).0 q.0, q.1)) (both.0 h),
      λ h. both.1 (Exists-map _ _ i.evidence (λ e q. ((is_scoped_iff i e).1 q.0, q.1)) h),
    )

is_empty-filter {ℓ} :
    {A : Type ℓ} (p : A → Bool) (xs : List A) → is_empty (filter p xs) ≡ not (any p xs)
unfolding is_empty filter any
is_empty-filter p [] = refl
is_empty-filter p (x ∷ xs) = ground (arith, is_empty-filter p xs)

scoped_iff : (i : PolicyInputs) → (is_empty (scoped i) ≡ false) ↔ Exists (Covers i) i.evidence
unfolding scoped
scoped_iff i = rw is_empty-filter (
  (λ h.
      Exists-map _ _ i.evidence (λ e. (is_scoped_iff i e).0)
        (Exists-any (is_scoped i) i.evidence (not_false _ h))),
  (λ h. ap not (
      any-Exists (is_scoped i) i.evidence
        (Exists-map _ _ i.evidence (λ e. (is_scoped_iff i e).1) h))),
)
  where
    not_false : (b : Bool) → not b ≡ false → b ≡ true
    not_false b h = ground arith

module _ (s : Sensitivity) where
  is_guarded_iff : (is_guarded s ≡ true) ↔ IsGuarded s
  unfolding is_guarded
  is_guarded_iff = ground arith

  is_critical_iff : (is_critical s ≡ true) ↔ (s ≡ Sensitivity.critical)
  unfolding is_critical
  is_critical_iff = ground arith

  is_public_iff : (is_public s ≡ true) ↔ (s ≡ Sensitivity.public)
  unfolding is_public
  is_public_iff = ground arith

  is_listed_iff : (is_listed s ≡ true) ↔ (sensitivity_ttl s ≢ none)
  unfolding is_listed sensitivity_ttl
  is_listed_iff = ground arith

  is_critical-is_guarded : is_critical s ≡ true → is_guarded s ≡ true
  unfolding is_critical is_guarded
  is_critical-is_guarded = ground arith

is_business_iff : (t : EvidenceType) → (is_business t ≡ true) ↔ IsBusiness t
unfolding is_business
is_business_iff t = ground arith

is_sponsorship_iff :
    (t : EvidenceType) → (is_sponsorship t ≡ true) ↔ (t ≡ EvidenceType.resource_owner_sponsorship)
unfolding is_sponsorship
is_sponsorship_iff t = ground arith

blocking_iff : (rs : List String) → (any is_blocking_reason rs ≡ true) ↔ Exists IsBlocking rs
blocking_iff rs = (
  λ h. Exists-map _ _ rs (λ r. (is_blocking_iff r).0) (Exists-any is_blocking_reason rs h),
  λ h. any-Exists is_blocking_reason rs (Exists-map _ _ rs (λ r. (is_blocking_iff r).1) h),
)

-- An implication between tests, as the code writes it.
implies_iff : (a b : Bool) → ((a && not b) ≡ false) ↔ (a ≡ true → b ≡ true)
implies_iff a b = ground arith

trusted_iff : (t : Trust) → (is_trusted t ≡ true) ↔ (t ≡ Trust.trusted)
unfolding is_trusted
trusted_iff t = ground arith

untrusted_iff : (t : Trust) → (is_untrusted t ≡ false) ↔ (t ≢ Trust.untrusted)
unfolding is_untrusted
untrusted_iff t = ground arith

resists_iff :
    (a : AuthStrength) → (resists_phishing a ≡ true) ↔ (a ≡ AuthStrength.phishing_resistant)
unfolding resists_phishing
resists_iff a = ground arith

-- Phishing-resistant authentication is multi-factor, so the two branches of the code meet.
multi_factor_iff :
    (s : Bool) (a : AuthStrength)
    → (s ≡ true → resists_phishing a ≡ true)
    → ((not s && not (is_multi_factor a)) ≡ false) ↔ (a ≢ AuthStrength.single_factor)
unfolding resists_phishing is_multi_factor
multi_factor_iff s a h = ground arith

evidenced_iff :
    (i : PolicyInputs)
    → ((is_empty (scoped i) && not (is_public i.resource_sensitivity)) ≡ false)
      ↔ (i.resource_sensitivity ≢ Sensitivity.public → Exists (Covers i) i.evidence)
evidenced_iff i = ground (arith, is_public_iff i.resource_sensitivity, scoped_iff i)

-- A test that fails is the negation of what the test describes.
not_iff : {P : Type 0} (b : Bool) → (b ≡ true) ↔ P → (b ≡ false) ↔ (¬ P)
not_iff b h = ground arith

justified_iff : (b : Bool) (n : ℕ) → ((b && ltb n 20) ≡ false) ↔ (b ≡ true → 20 ≤ n)
justified_iff b n = ground arith

typed_iff :
    (i : PolicyInputs) (p : EvidenceType → Bool) (P : EvidenceType → Type 0)
    → ((t : EvidenceType) → (p t ≡ true) ↔ P t)
    → (scoped_type i p ≡ true) ↔ Exists (λ e. Covers i e × P e.evidence_type) i.evidence
typed_iff i p P h = (
  λ q.
      Exists-map _ _ i.evidence (λ e c. (c.0, (h e.evidence_type).0 c.1))
        ((scoped_type_iff i p).0 q),
  λ q.
      (scoped_type_iff i p).1
        (Exists-map _ _ i.evidence (λ e c. (c.0, (h e.evidence_type).1 c.1)) q),
)

Passes-IsEligible : (i : PolicyInputs) → Passes i → IsEligible i
Passes-IsEligible i (p0, p1, p2, p3, p4, p5, p6, p7, p8, p9, p10, p11) =
    let s = i.resource_sensitivity in
    let step = (implies_iff (is_critical s) (resists_phishing i.authentication_strength)).0 p2 in
    record {
      listed = (is_listed_iff s).0 p0;
      device =
          λ g. (trusted_iff i.device_trust).0 ((implies_iff _ _).0 p1 ((is_guarded_iff s).1 g));
      step_up = λ c. (resists_iff i.authentication_strength).0 (step ((is_critical_iff s).1 c));
      multi_factor = (multi_factor_iff (is_critical s) i.authentication_strength step).0 p3;
      location = (untrusted_iff i.location_trust).0 p4;
      quiet = (not_iff _ (blocking_iff i.unresolved_critical_reasons)).0 p5;
      uncontained = p6;
      business = λ g.
          (typed_iff i is_business IsBusiness is_business_iff).0
            ((implies_iff _ _).0 p9 ((is_guarded_iff s).1 g));
      sponsored = λ c.
          (typed_iff i is_sponsorship _ is_sponsorship_iff).0
            ((implies_iff _ _).0 p10 ((is_critical_iff s).1 c));
      evidenced = (evidenced_iff i).0 p11;
      admin_glass = (implies_iff i.break_glass i.is_admin).0 p7;
      justified_glass = (justified_iff i.break_glass _).0 p8;
    }

IsEligible-Passes : (i : PolicyInputs) → IsEligible i → Passes i
IsEligible-Passes i p =
    let s = i.resource_sensitivity in
    let step : is_critical s ≡ true → resists_phishing i.authentication_strength ≡ true =
      λ c. (resists_iff i.authentication_strength).1 (p.step_up ((is_critical_iff s).0 c)) in
    (
      (is_listed_iff s).1 p.listed,
      (implies_iff _ _).1 (λ g. (trusted_iff i.device_trust).1 (p.device ((is_guarded_iff s).0 g))),
      (implies_iff _ _).1 step,
      (multi_factor_iff (is_critical s) i.authentication_strength step).1 p.multi_factor,
      (untrusted_iff i.location_trust).1 p.location,
      (not_iff _ (blocking_iff i.unresolved_critical_reasons)).1 p.quiet,
      p.uncontained,
      (implies_iff i.break_glass i.is_admin).1 p.admin_glass,
      (justified_iff i.break_glass _).1 p.justified_glass,
      (implies_iff _ _).1 (λ g.
          (typed_iff i is_business IsBusiness is_business_iff).1
            (p.business ((is_guarded_iff s).0 g))),
      (implies_iff _ _).1 (λ c.
          (typed_iff i is_sponsorship _ is_sponsorship_iff).1
            (p.sponsored ((is_critical_iff s).0 c))),
      (evidenced_iff i).1 p.evidenced,
    )

-- The policy finds a request eligible exactly when the description of an eligible request holds.
pub eligible_iff : (i : PolicyInputs) → (eligible i ≡ true) ↔ IsEligible i
eligible_iff i = (
  λ h. Passes-IsEligible i ((eligible_iff_Passes i).0 h),
  λ h. (eligible_iff_Passes i).1 (IsEligible-Passes i h),
)
