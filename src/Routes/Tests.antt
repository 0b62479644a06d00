-- ===== src/Routes/Tests.antt =====
-- The routes at concrete inputs: an analyst attaches evidence twice under one key.
use test_m_backend.Common.{
  ◌≡◌, refl, String, ◌&&◌, Option, none, some, List, [], ◌∷◌, string_eq, find, any, filter,
  no_items,
}
use test_m_backend.AccessControl.Policy.Values.{EvidenceType, VerificationStatus, Role}
use test_m_backend.AccessControl.Models.{EvidencePayload}
use test_m_backend.AccessControl.Policy.Decide.{is_verified}
use test_m_backend.AccessControl.Service.Monad.{
  ◌>>=◌, guard, gets, given, uuid4, now_utc, modify, only_if, update,
}
use test_m_backend.AccessControl.Service.Methods.{add_evidence, attach_evidence, audit}
use test_m_backend.AccessControl.Samples.{sample_env, sample_request, no_tables, quiet}
use test_m_backend.Routes.Scopes.{
  Principal, KeyRecord, Claims, Settings, principal_of, authenticate, has_scope,
}
use test_m_backend.Routes.Answers.{OfferedAction, ResponseBody}
use test_m_backend.Routes.Idempotency.{required_idempotency}
use test_m_backend.Routes.Handlers.{attach_access_evidence}
use test_m_backend.Routes.Store.{Db, Body, Reply, sent}
use test_m_backend.Routes.Retry.{RouteCall, route_call, route_call-retry}
use test_m_backend.Routes.Separation.{Duty, authenticate-separates}
use test_m_backend.Routes.Sources.{HasSource, authenticate-HasSource}
use test_m_backend.Routes.Offers.{offers, can_follow, available_actions-offers}

abbrev analyst : Principal
analyst = record {
  subject = "arjun";
  role = Role.analyst;
  scopes = "access:evidence" ∷ "access:evaluate" ∷ [];
  tenant_id = "tenant";
  resource_scopes = [];
}

abbrev ticket : EvidencePayload
ticket = record {
  evidence_type = EvidenceType.ticket;
  source = "desk";
  external_reference = "T-1";
  source_created_at = 0;
  effective_from = 0;
  effective_until = 9;
  identity_scope = [];
  resource_scope = [];
  action_scope = [];
  verification_status = VerificationStatus.pending;
}

abbrev start : Db
start = record { requests = sample_request ∷ []; tables = no_tables; entries = [] }

abbrev json : ResponseBody → ResponseBody
json b = b

abbrev digest : Body → String
digest _ = "digest"

abbrev call : Db → Reply × Db
call =
    route_call json digest sample_env quiet analyst (RouteCall.evidence ticket) 1 (some "key-00001")

abbrev body_of : Reply → ResponseBody
body_of (sent _ b) = b
body_of _ = ResponseBody.of_acknowledgement 0 0

call_runs : call start ≡ (sent 201 (body_of (call start).0), (call start).1)
unfolding route_call attach_access_evidence is_verified find add_evidence ◌>>=◌ guard gets given
    attach_evidence uuid4 now_utc modify only_if audit update filter
call_runs = refl

route_call-retry_example :
    call (call start).1 ≡ (sent 200 (json (body_of (call start).0)), (call start).1)
route_call-retry_example =
    route_call-retry json digest sample_env quiet analyst (RouteCall.evidence ticket) 1
      (some "key-00001") "key-00001" start (call start).1 201 (body_of (call start).0)
      (unfold required_idempotency in refl) (unfold find in refl) call_runs

abbrev settings : Settings
settings = record { auth_mode = "api_key"; tenant_default = "default"; api_keys = "keys" }

abbrev parse_keys : String → Option (List (String × KeyRecord))
parse_keys _ = some (("secret", KeyRecord.plain "admin") ∷ [])

abbrev verify : String → Option Claims
verify _ = none

abbrev lower : String → String
lower s = s

abbrev root : Principal
root = principal_of Role.admin "admin" "default" []

authenticate-separates_example : root.role ≡ Role.admin
unfolding no_items any principal_of
authenticate-separates_example =
    authenticate-separates lower parse_keys verify settings 5
      (some (record { scheme = "bearer"; credentials = "secret" })) root Duty.of_access
      (unfold authenticate in refl) (unfold has_scope in refl) (unfold has_scope in refl)

abbrev checker : Principal
checker = principal_of Role.reviewer "reviewer" "default" []

abbrev reviewer_keys : String → Option (List (String × KeyRecord))
reviewer_keys _ = some (("secret", KeyRecord.plain "reviewer") ∷ [])

available_actions-offers_example : offers OfferedAction.deny sample_request checker ≡ (
    has_scope "access:deny" checker.scopes
    && can_follow OfferedAction.deny sample_request.workflow_state)
unfolding no_items any principal_of
available_actions-offers_example =
    available_actions-offers lower reviewer_keys verify settings 5
      (some (record { scheme = "bearer"; credentials = "secret" })) checker OfferedAction.deny
      sample_request (unfold authenticate in refl)

authenticate-HasSource_example :
    HasSource lower parse_keys verify settings 5
      (some (record { scheme = "bearer"; credentials = "secret" }))
      root
unfolding no_items any principal_of
authenticate-HasSource_example =
    authenticate-HasSource lower parse_keys verify settings 5
      (some (record { scheme = "bearer"; credentials = "secret" })) root
      (unfold authenticate in refl)
