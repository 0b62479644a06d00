-- ===== src/Routes/Scopes.antt =====
-- security.py: keys, roles and scopes. The parsing of JSON and of dates, the verification of tokens
-- by the jwt library and the clock are arguments.
use test_m_backend.Common.{
  ℕ, String, Bool, Option, none, some, List, [], ◌∷◌, ◌==◌, string_eq, if◌then◌else◌, leb, any,
  no_items,
}
use test_m_backend.AccessControl.Policy.Values.{Role}

-- ROLE_SCOPES
unfoldable pub role_scopes : Role → List String
role_scopes Role.viewer = "read" ∷ []
role_scopes Role.ingestor = "read" ∷ "events:write" ∷ []
role_scopes Role.analyst =
    "read" ∷ "feedback:write" ∷ "access:read" ∷ "access:create" ∷ "access:evidence"
    ∷ "access:evaluate" ∷ "access:ai_review" ∷ "access:request_context" ∷ []
role_scopes Role.reviewer =
    "read" ∷ "access:read" ∷ "access:approve" ∷ "access:deny" ∷ "access:revoke"
    ∷ "access:request_context" ∷ "access:evidence" ∷ "access:evidence:verify" ∷ []
role_scopes Role.resource_owner =
    "read" ∷ "access:read" ∷ "access:approve" ∷ "access:deny" ∷ "access:revoke"
    ∷ "access:request_context" ∷ "access:evidence" ∷ "access:evidence:verify" ∷ []
role_scopes Role.context_proposer = "read" ∷ "context:propose" ∷ []
role_scopes Role.context_approver = "read" ∷ "context:approve" ∷ []
role_scopes Role.response_operator =
    "read" ∷ "response:preview" ∷ "response:request" ∷ "response:execute" ∷ "response:rollback" ∷ []
role_scopes Role.response_approver = "read" ∷ "response:approve" ∷ []
role_scopes Role.admin =
    "read" ∷ "events:write" ∷ "feedback:write" ∷ "context:propose" ∷ "context:approve"
    ∷ "admin:reseed" ∷ "audit:read" ∷ "response:preview" ∷ "response:request" ∷ "response:approve"
    ∷ "response:execute" ∷ "response:rollback" ∷ "enforcement:read" ∷ "access:read"
    ∷ "access:create" ∷ "access:evidence" ∷ "access:evaluate" ∷ "access:evidence:verify"
    ∷ "access:ai_review" ∷ "access:request_context" ∷ "access:approve" ∷ "access:deny"
    ∷ "access:revoke" ∷ "access:admin" ∷ []

-- `role in ROLE_SCOPES`
unfoldable pub role_named : String → Option Role
role_named name =
    if name == "viewer"
    then some Role.viewer
    else if name == "ingestor"
    then some Role.ingestor
    else if name == "analyst"
    then some Role.analyst
    else if name == "reviewer"
    then some Role.reviewer
    else if name == "resource_owner"
    then some Role.resource_owner
    else if name == "context_proposer"
    then some Role.context_proposer
    else if name == "context_approver"
    then some Role.context_approver
    else if name == "response_operator"
    then some Role.response_operator
    else if name == "response_approver"
    then some Role.response_approver
    else if name == "admin"
    then some Role.admin
    else none

pub record Principal : Type 0 where
  pub subject : String
  pub role : Role
  pub scopes : List String
  pub tenant_id : String
  pub resource_scopes : List String

-- What a dependency or a route answers: a value, or a problem with its status.
pub data Answer (A : Type 0) : Type 0 where
  answered : A → Answer A
  problem : ℕ → Answer A

-- `expires_at` of a key: a date that does not parse, or a time
pub data Expiry : Type 0 where
  malformed : Expiry
  at : ℕ → Expiry

pub record KeyFields : Type 0 where
  pub role : Option String
  pub subject : Option String
  pub tenant_id : Option String
  pub resources : List String
  pub expires_at : Option Expiry

-- a value of the configured keys
pub data KeyRecord : Type 0 where
  plain : String → KeyRecord
  full : KeyFields → KeyRecord

-- the claims of a verified token
pub record Claims : Type 0 where
  pub role : Option String
  pub sub : Option String
  pub tenant_id : Option String
  pub resources : List String

pub record Settings : Type 0 where
  pub auth_mode : String
  pub tenant_default : String
  pub api_keys : String

pub record Credentials : Type 0 where
  pub scheme : String
  pub credentials : String

unfoldable pub default_to : String → Option String → String
default_to default none = default
default_to default (some text) = text

unfoldable pub principal_of : Role → String → String → List String → Principal
unfolding role_scopes
principal_of role subject tenant resources = record {
  subject = subject;
  role = role;
  scopes = role_scopes role;
  tenant_id = tenant;
  resource_scopes = resources;
}

-- the last candidate that matches, as the loop leaves it
unfoldable pub last_match : String → List (String × KeyRecord) → Option KeyRecord
last_match token [] = none
last_match token ((candidate, value) ∷ rest) =
    let later = last_match token rest in
    elim later [ some r ↦ some r | none ↦ if token == candidate then some value else none ]

-- the test of `expires_at`, then the role
unfoldable pub admit_fields : ℕ → String → KeyFields → Answer Principal
unfolding role_named principal_of default_to
admit_fields now tenant_default f =
    let role : String = default_to "" f.role in
    let granted : Answer Principal = elim (role_named role) [
      | none ↦ problem 503
      | some r ↦ answered (
          principal_of r (default_to role f.subject) (default_to tenant_default f.tenant_id)
            f.resources)
    ] in
    elim f.expires_at [
      | none ↦ granted
      | some malformed ↦ problem 503
      | some (at expiry) ↦ if leb expiry now then problem 401 else granted
    ]

unfoldable pub admit : ℕ → String → KeyRecord → Answer Principal
unfolding admit_fields
admit now tenant_default (plain name) = elim (role_named name) [
  | none ↦ problem 503
  | some r ↦ answered (principal_of r name tenant_default [])
]
admit now tenant_default (full f) = admit_fields now tenant_default f

unfoldable pub admit_claims : String → Claims → Answer Principal
unfolding role_named principal_of default_to
admit_claims tenant_default c = elim c.sub [
  | none ↦ problem 401
  | some subject ↦ elim (role_named (default_to "" c.role)) [
    | none ↦ problem 403
    | some r ↦ answered (principal_of r subject (default_to tenant_default c.tenant_id) c.resources)
  ]
]

module _ (lower : String → String) (parse_keys : String → Option (List (String × KeyRecord)))
    (verify : String → Option Claims) where
  -- `_configured_keys`
  unfoldable pub configured_keys : String → Answer (List (String × KeyRecord))
  configured_keys raw = if raw == "" then problem 503 else elim (parse_keys raw) [
    | none ↦ problem 503
    | some keys ↦ if no_items keys then problem 503 else answered keys
  ]

  unfoldable pub by_token : Settings → ℕ → String → Answer Principal
  unfolding configured_keys last_match admit admit_claims
  by_token settings now token =
      if settings.auth_mode == "oidc"
      then (elim (verify token) [
        | none ↦ problem 401
        | some claims ↦ admit_claims settings.tenant_default claims
      ])
      else (elim (configured_keys settings.api_keys) [
        | problem status ↦ problem status
        | answered keys ↦ elim (last_match token keys) [
          | none ↦ problem 401
          | some value ↦ admit now settings.tenant_default value
        ]
      ])

  unfoldable pub authenticate : Settings → ℕ → Option Credentials → Answer Principal
  unfolding by_token
  authenticate settings now none = problem 401
  authenticate settings now (some c) =
      if lower c.scheme == "bearer" then by_token settings now c.credentials else problem 401

unfoldable pub has_scope : String → List String → Bool
has_scope scope scopes = any (λ s. s == scope) scopes

-- the dependency that `require_scope` returns
unfoldable pub require_scope : String → Answer Principal → Answer Principal
unfolding has_scope
require_scope scope (problem status) = problem status
require_scope scope (answered p) = if has_scope scope p.scopes then answered p else problem 403
