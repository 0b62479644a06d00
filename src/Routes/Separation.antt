-- ===== src/Routes/Separation.antt =====
-- What the roles keep apart.
use test_m_backend.Common.{
  ℕ, ◌≡◌, refl, sym, ap, ◌∙◌, subst, String, Bool, true, false, Option, none, some, List, ◌==◌,
  string_eq, if◌then◌else◌, leb, any,
}
use test_m_backend.AccessControl.Policy.Values.{Role}
use test_m_backend.Routes.Scopes.{
  role_scopes, role_named, Principal, Answer, answered, problem, Expiry, malformed, at, KeyFields,
  KeyRecord, plain, full, Claims, Settings, Credentials, default_to, principal_of, last_match,
  admit_fields, admit, admit_claims, configured_keys, by_token, authenticate, has_scope,
}

-- The scopes of a principal are those of its role.
abbrev pub IsGranted : Answer Principal → Type 0
IsGranted (problem _) = Unit
IsGranted (answered p) = p.scopes ≡ role_scopes p.role

named-IsGranted :
    (o : Option Role) (status : ℕ) (f : Role → Principal)
    → ((r : Role) → IsGranted (answered (f r)))
    → IsGranted
        (elim o as (λ _. Answer Principal) [ none ↦ problem status | some r ↦ answered (f r) ])
named-IsGranted none status f h = tt
named-IsGranted (some r) status f h = h r

fields-IsGranted :
    (now : ℕ) (tenant : String) (f : KeyFields) → IsGranted (admit_fields now tenant f)
unfolding admit_fields principal_of
fields-IsGranted now tenant f = by_expiry f.expires_at
  where
    role : IsGranted (elim (role_named (default_to "" f.role)) as (λ _. Answer Principal) [
      | none ↦ problem 503
      | some r ↦ answered (
          principal_of r
            (default_to (default_to "" f.role) f.subject)
            (default_to tenant f.tenant_id)
            f.resources)
    ])
    role = named-IsGranted (role_named (default_to "" f.role)) 503 _ (λ r. refl)

    by_expiry :
        (o : Option Expiry) → IsGranted (admit_fields now tenant (record f { expires_at = o }))
    by_expiry none = role
    by_expiry (some malformed) = tt
    by_expiry (some (at t)) =
        elim (leb t now)
          as (λ b. IsGranted (
            if b
            then problem 401
            else (elim (role_named (default_to "" f.role)) as (λ _. Answer Principal) [
              | none ↦ problem 503
              | some r ↦ answered (
                  principal_of r (default_to (default_to "" f.role) f.subject)
                    (default_to tenant f.tenant_id) f.resources)
            ]))) [ true ↦ tt | false ↦ role ]

admit-IsGranted : (now : ℕ) (tenant : String) (k : KeyRecord) → IsGranted (admit now tenant k)
unfolding admit principal_of
admit-IsGranted now tenant (plain name) = named-IsGranted (role_named name) 503 _ (λ r. refl)
admit-IsGranted now tenant (full f) = fields-IsGranted now tenant f

claims-IsGranted : (tenant : String) (c : Claims) → IsGranted (admit_claims tenant c)
unfolding admit_claims principal_of
claims-IsGranted tenant c = by_subject c.sub
  where
    by_subject : (o : Option String) → IsGranted (admit_claims tenant (record c { sub = o }))
    by_subject none = tt
    by_subject (some subject) =
        named-IsGranted (role_named (default_to "" c.role)) 403 _ (λ r. refl)

module _ (lower : String → String) (parse_keys : String → Option (List (String × KeyRecord)))
    (verify : String → Option Claims) where
  token-IsGranted :
      (settings : Settings) (now : ℕ) (token : String)
      → IsGranted (by_token lower parse_keys verify settings now token)
  unfolding by_token
  token-IsGranted settings now token = by_mode (settings.auth_mode == "oidc")
    where
      by_claims :
          (o : Option Claims)
          → IsGranted (elim o as (λ _. Answer Principal) [
            | none ↦ problem 401
            | some claims ↦ admit_claims settings.tenant_default claims
          ])
      by_claims none = tt
      by_claims (some c) = claims-IsGranted settings.tenant_default c

      by_record :
          (o : Option KeyRecord)
          → IsGranted (elim o as (λ _. Answer Principal) [
            | none ↦ problem 401
            | some value ↦ admit now settings.tenant_default value
          ])
      by_record none = tt
      by_record (some k) = admit-IsGranted now settings.tenant_default k

      by_keys :
          (a : Answer (List (String × KeyRecord)))
          → IsGranted (elim a as (λ _. Answer Principal) [
            | problem status ↦ problem status
            | answered keys ↦ elim (last_match token keys) [
              | none ↦ problem 401
              | some value ↦ admit now settings.tenant_default value
            ]
          ])
      by_keys (problem status) = tt
      by_keys (answered keys) = by_record (last_match token keys)

      by_mode :
          (b : Bool)
          → IsGranted (
              if b
              then (elim (verify token) as (λ _. Answer Principal) [
                | none ↦ problem 401
                | some claims ↦ admit_claims settings.tenant_default claims
              ])
              else (elim (configured_keys lower parse_keys verify settings.api_keys)
                  as (λ _. Answer Principal) [
                    | problem status ↦ problem status
                    | answered keys ↦ elim (last_match token keys) [
                      | none ↦ problem 401
                      | some value ↦ admit now settings.tenant_default value
                    ]
                  ]))
      by_mode true = by_claims (verify token)
      by_mode false = by_keys (configured_keys lower parse_keys verify settings.api_keys)

  pub authenticate-IsGranted :
      (settings : Settings) (now : ℕ) (c : Option Credentials)
      → IsGranted (authenticate lower parse_keys verify settings now c)
  unfolding authenticate
  authenticate-IsGranted settings now none = tt
  authenticate-IsGranted settings now (some c) =
      elim (lower c.scheme == "bearer")
        as (λ b. IsGranted (
          if b then by_token lower parse_keys verify settings now c.credentials else problem 401)) [
            | true ↦ token-IsGranted settings now c.credentials
            | false ↦ tt
          ]

-- The pairs of duties that two people share: to ask for access, a response or a change of context,
-- and to approve it.
pub data Duty : Type 0 where
  of_access of_response of_context : Duty

abbrev pub asks : Duty → String
asks of_access = "access:create"
asks of_response = "response:request"
asks of_context = "context:propose"

abbrev pub grants : Duty → String
grants of_access = "access:approve"
grants of_response = "response:approve"
grants of_context = "context:approve"

role-separates :
    (d : Duty) (r : Role)
    → has_scope (asks d) (role_scopes r) ≡ true
    → has_scope (grants d) (role_scopes r) ≡ true
    → r ≡ Role.admin
unfolding has_scope role_scopes any
role-separates of_access Role.viewer h k = absurd (cc h)
role-separates of_access Role.ingestor h k = absurd (cc h)
role-separates of_access Role.analyst h k = absurd (cc k)
role-separates of_access Role.reviewer h k = absurd (cc h)
role-separates of_access Role.resource_owner h k = absurd (cc h)
role-separates of_access Role.context_proposer h k = absurd (cc h)
role-separates of_access Role.context_approver h k = absurd (cc h)
role-separates of_access Role.response_operator h k = absurd (cc h)
role-separates of_access Role.response_approver h k = absurd (cc h)
role-separates of_access Role.admin h k = refl
role-separates of_response Role.viewer h k = absurd (cc h)
role-separates of_response Role.ingestor h k = absurd (cc h)
role-separates of_response Role.analyst h k = absurd (cc h)
role-separates of_response Role.reviewer h k = absurd (cc h)
role-separates of_response Role.resource_owner h k = absurd (cc h)
role-separates of_response Role.context_proposer h k = absurd (cc h)
role-separates of_response Role.context_approver h k = absurd (cc h)
role-separates of_response Role.response_operator h k = absurd (cc k)
role-separates of_response Role.response_approver h k = absurd (cc h)
role-separates of_response Role.admin h k = refl
role-separates of_context Role.viewer h k = absurd (cc h)
role-separates of_context Role.ingestor h k = absurd (cc h)
role-separates of_context Role.analyst h k = absurd (cc h)
role-separates of_context Role.reviewer h k = absurd (cc h)
role-separates of_context Role.resource_owner h k = absurd (cc h)
role-separates of_context Role.context_proposer h k = absurd (cc k)
role-separates of_context Role.context_approver h k = absurd (cc h)
role-separates of_context Role.response_operator h k = absurd (cc h)
role-separates of_context Role.response_approver h k = absurd (cc h)
role-separates of_context Role.admin h k = refl

-- Whoever is authenticated and may both ask for something and approve it is an admin.
pub authenticate-separates :
    (lower : String → String) (parse_keys : String → Option (List (String × KeyRecord)))
    (verify : String → Option Claims) (settings : Settings) (now : ℕ) (c : Option Credentials)
    (p : Principal) (d : Duty)
    → authenticate lower parse_keys verify settings now c ≡ answered p
    → has_scope (asks d) p.scopes ≡ true
    → has_scope (grants d) p.scopes ≡ true
    → p.role ≡ Role.admin
authenticate-separates lower parse_keys verify settings now c p d e h k =
    let own : p.scopes ≡ role_scopes p.role =
      subst IsGranted e (authenticate-IsGranted lower parse_keys verify settings now c) in
    role-separates d p.role (ap (has_scope (asks d)) (sym own) ∙ h)
      (ap (has_scope (grants d)) (sym own) ∙ k)
