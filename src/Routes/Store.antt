-- ===== src/Routes/Store.antt =====
-- api/access_routes.py: what the routes read and change, what they take and answer, and the checks of
-- each that come before the call of the service.
use test_m_backend.Common.{
  ℕ, String, Bool, ◌&&◌, not, Option, none, some, List, map, ◌==◌, nat_eq, string_eq, if◌then◌else◌,
  any,
}
use test_m_backend.AccessControl.Policy.Values.{Role}
use test_m_backend.AccessControl.Models.{Verdict, EvidencePayload, AccessRequest, Tables, Error}
use test_m_backend.AccessControl.Service.Methods.{role_beq}
use test_m_backend.AccessControl.Service.Creation.{AccessRequestCreate}
use test_m_backend.Routes.Scopes.{Principal}
use test_m_backend.Routes.Answers.{ResponseBody}
use test_m_backend.Routes.Idempotency.{MutationIdempotency}

pub record Db : Type 0 where
  pub requests : List AccessRequest
  pub tables : Tables
  pub entries : List MutationIdempotency

-- the bodies of the mutating routes
pub data Body : Type 0 where
  nothing : Body
  creation : AccessRequestCreate → Body
  evidence : EvidencePayload → Body
  context : String → Body
  approval : Verdict → String → ℕ → Body
  revocation : String → ℕ → Body

pub data Reply : Type 0 where
  sent : ℕ → ResponseBody → Reply
  refused : ℕ → Reply

unfoldable pub is_request : String → ℕ → AccessRequest → Bool
is_request tenant id r = (r.id == id) && (r.tenant_id == tenant)

unfoldable pub replace_request : AccessRequest → List AccessRequest → List AccessRequest
replace_request r = map (λ (q : AccessRequest). if q.id == r.id then r else q)

-- `except ValueError`
unfoldable pub conflict_only : Error → ℕ
conflict_only Error.value_error = 409
conflict_only _ = 500

-- the clauses of `_approval`
unfoldable pub approval_problem : Error → ℕ
approval_problem Error.permission_error = 403
approval_problem Error.runtime_error = 409
approval_problem Error.value_error = 409
approval_problem _ = 500

-- `except PermissionError`
unfoldable pub forbidden_only : Error → ℕ
forbidden_only Error.permission_error = 403
forbidden_only _ = 500

unfoldable pub no_check : AccessRequest → Option ℕ
no_check _ = none

-- the owner of a resource approves for that resource alone
unfoldable pub owner_check : Principal → AccessRequest → Option ℕ
unfolding role_beq
owner_check p r =
    if role_beq p.role Role.resource_owner && not (any (λ s. s == r.resource_id) p.resource_scopes)
    then some 403
    else none

unfoldable pub version_check : ℕ → AccessRequest → Option ℕ
version_check expected r = if r.version == expected then none else some 409
