-- ===== src/Routes/Retry.antt =====
-- A retry of any route on a request, once it was answered.
use test_m_backend.Common.{
  ℕ, ◌≡◌, refl, sym, ap, ◌∙◌, String, Bool, true, false, ◌&&◌, not, Option, none, some, [], ◌∷◌,
  string_eq, ==_self, if◌then◌else◌, find,
}
use test_m_backend.AccessControl.Policy.Decide.{is_verified}
use test_m_backend.AccessControl.Models.{
  Evidence, Verdict, EvidencePayload, AccessRequest, Env, Error,
}
use test_m_backend.AccessControl.Service.Monad.{Session, Action}
use test_m_backend.AccessControl.Service.Methods.{
  Surroundings, is_approve, add_evidence, evaluate_request, request_ai_review, request_revocation,
  request_more_context,
}
use test_m_backend.AccessControl.Service.Approvals.{record_approval}
use test_m_backend.AccessControl.Reach.{Call, perform, perform_all}
use test_m_backend.AccessControl.History.{perform_all-Extends}
use test_m_backend.Routes.Scopes.{answered, Principal, has_scope}
use test_m_backend.Routes.Answers.{ResponseBody, shown}
use test_m_backend.Routes.Idempotency.{required_idempotency, is_entry}
use test_m_backend.Routes.Handlers.{
  mutation, with_key, is_admin, checked_evidence, attach_access_evidence, evaluate_access_request,
  queue_ai_review, ask_for_context, keeping_grant, decide_access, approve_access, deny_access,
  revoke_access,
}
use test_m_backend.Routes.Store.{
  Db, Body, Reply, sent, refused, conflict_only, no_check, approval_problem, owner_check,
  version_check,
}
use test_m_backend.Routes.Replay.{IsLocal, first, again}

-- A call of one of the routes.
pub data RouteCall : Type 0 where
  evidence : EvidencePayload → RouteCall
  evaluation ai_review : RouteCall
  context : String → RouteCall
  approval denial : Verdict → String → ℕ → RouteCall
  revocation : String → ℕ → RouteCall

-- the name of its operation
unfoldable pub operation_name : RouteCall → String
operation_name (evidence _) = "evidence"
operation_name evaluation = "evaluate"
operation_name ai_review = "ai_review"
operation_name (context _) = "request_context"
operation_name (approval _ _ _) = "approve"
operation_name (denial _ _ _) = "deny"
operation_name (revocation _ _) = "revoke"

-- A call of the service keeps the identity of its request.
perform-terms :
    (env : Env) (c : Call) (s : Session)
    → ((perform env c s).request.id ≡ s.request.id)
      × ((perform env c s).request.tenant_id ≡ s.request.tenant_id)
unfolding perform_all
perform-terms env c s = let t = (perform_all-Extends env (c ∷ []) s).terms in (t.0, t.1)

module _ (json : ResponseBody → ResponseBody) (digest : Body → String) where
  mutation-retry :
      {A : Type 0} (status : ℕ) (caught : Error → ℕ) (check : AccessRequest → Option ℕ)
      (m : Action A) (view : A → AccessRequest → ResponseBody) (tenant name : String) (id : ℕ)
      (header : Option String) (key : String) (body : Body) (db left : Db) (s : ℕ)
      (b : ResponseBody)
      → IsLocal m
      → required_idempotency header ≡ answered key
      → find (is_entry tenant (record { name = name; target = some id }) key) db.entries ≡ none
      → mutation json digest status caught check m view tenant name id header body db
        ≡ (sent s b, left)
      → mutation json digest status caught check m view tenant name id header body left
        ≡ (sent 200 (json b), left)
  unfolding mutation
  mutation-retry status caught check m view tenant name id header key body db left s b local k fresh
        h =
      let way = λ (d : Db).
        ap
          (with_key json digest status caught check m view tenant
            (record { name = name; target = some id }) id body d)
          k in
      let done =
        first json digest status caught check m view tenant
          (record { name = name; target = some id }) id key s b body db left local fresh
          (sym (way db) ∙ h) in
      way left
      ∙ (again json digest status caught check m view tenant
            (record { name = name; target = some id }) id key (digest body) b body left done
          ∙ rw (==_self (digest body)) refl)

  module _ (env : Env) (w : Surroundings) (p : Principal) where
    unfoldable pub route_call : RouteCall → ℕ → Option String → Db → Reply × Db
    route_call (evidence payload) id header db =
        attach_access_evidence json digest env w p id header payload db
    route_call evaluation id header db = evaluate_access_request json digest env w p id header db
    route_call ai_review id header db = queue_ai_review json digest env w p id header db
    route_call (context text) id header db = ask_for_context json digest env w p id header text db
    route_call (approval verdict text expected) id header db =
        approve_access json digest env w p id header verdict text expected db
    route_call (denial verdict text expected) id header db =
        deny_access json digest env w p id header verdict text expected db
    route_call (revocation text expected) id header db =
        revoke_access json digest env w p id header text expected db

    decide_access-retry :
        (verdict : Verdict) (name text : String) (expected id : ℕ) (header : Option String)
        (key : String) (db left : Db) (s : ℕ) (b : ResponseBody)
        → required_idempotency header ≡ answered key
        → find (is_entry p.tenant_id (record { name = name; target = some id }) key) db.entries
          ≡ none
        → decide_access json digest env w p verdict name id header text expected db
          ≡ (sent s b, left)
        → decide_access json digest env w p verdict name id header text expected left
          ≡ (sent 200 (json b), left)
    unfolding decide_access perform keeping_grant
    decide_access-retry verdict name text expected id header key db left s b k f h =
        mutation-retry 200 approval_problem (owner_check p)
          (keeping_grant (record_approval env p.subject p.role verdict text expected))
          (λ loaded r. ResponseBody.of_request (shown (record r { grant = loaded }) p)) p.tenant_id
          name id header key (Body.approval verdict text expected) db left s b
          (λ q. perform-terms env (Call.approval p.subject p.role verdict text expected) q) k f h

    -- A call that was answered under a key that the tenant had not used for the operation is answered
    -- again, in the form that JSON keeps, without a change of the database.
    pub route_call-retry :
        (c : RouteCall) (id : ℕ) (header : Option String) (key : String) (db left : Db) (s : ℕ)
        (b : ResponseBody)
        → required_idempotency header ≡ answered key
        → find
            (is_entry p.tenant_id (record { name = operation_name c; target = some id }) key)
            db.entries
          ≡ none
        → route_call c id header db ≡ (sent s b, left)
        → route_call c id header left ≡ (sent 200 (json b), left)
    unfolding route_call operation_name evaluate_access_request queue_ai_review ask_for_context
        decide_access revoke_access attach_access_evidence checked_evidence approve_access
        deny_access perform is_approve
    route_call-retry evaluation id header key db left s b k f h =
        mutation-retry 200 conflict_only no_check
          (evaluate_request env w (is_admin json digest env w p))
          (λ d r. ResponseBody.of_decision (shown r p) d) p.tenant_id "evaluate" id header key
          Body.nothing db left s b
          (λ q. perform-terms env (Call.evaluation w (is_admin json digest env w p)) q) k f h
    route_call-retry ai_review id header key db left s b k f h =
        mutation-retry 202 conflict_only no_check (request_ai_review env p.subject)
          (λ _ r. ResponseBody.of_review r.id r.workflow_state) p.tenant_id "ai_review" id header
          key Body.nothing db left s b (λ q. perform-terms env (Call.ai_review p.subject) q) k f h
    route_call-retry (context text) id header key db left s b k f h =
        mutation-retry 200 conflict_only no_check (request_more_context env p.subject text)
          (λ _ r. ResponseBody.of_request (shown r p)) p.tenant_id "request_context" id header key
          (Body.context text) db left s b
          (λ q. perform-terms env (Call.more_context p.subject text) q) k f h
    route_call-retry (revocation text expected) id header key db left s b k f h =
        mutation-retry 200 conflict_only (version_check expected)
          (request_revocation env p.subject text) (λ _ r. ResponseBody.of_request (shown r p))
          p.tenant_id "revoke" id header key (Body.revocation text expected) db left s b
          (λ q. perform-terms env (Call.revocation p.subject text) q) k f h
    route_call-retry (evidence payload) id header key db left s b k f h =
        ap (checked_evidence json digest env w p id header payload left) k
        ∙ allowed
            (is_verified payload.verification_status
              && not (has_scope "access:evidence:verify" p.scopes))
            (sym (ap (checked_evidence json digest env w p id header payload db) k) ∙ h)
      where
        attach : Db → Reply × Db
        attach =
            mutation json digest 201 conflict_only no_check (add_evidence env payload p.subject)
              (λ (row : Evidence) r.
                ResponseBody.of_evidence row.id r.id row.verification_status row.evidence_hash)
              p.tenant_id "evidence" id header (Body.evidence payload)

        allowed :
            (barred : Bool)
            → (if barred then (refused 403, db) else attach db) ≡ (sent s b, left)
            → (if barred then (refused 403, left) else attach left) ≡ (sent 200 (json b), left)
        allowed true e = absurd (let v = ap (λ (z : Reply × Db). z.0) e in cc)
        allowed false e =
            mutation-retry 201 conflict_only no_check (add_evidence env payload p.subject)
              (λ (row : Evidence) r.
                ResponseBody.of_evidence row.id r.id row.verification_status row.evidence_hash)
              p.tenant_id "evidence" id header key (Body.evidence payload) db left s b
              (λ q. perform-terms env (Call.evidence payload p.subject) q) k f e
    route_call-retry (approval Verdict.approve text expected) id header key db left s b k f h =
        decide_access-retry Verdict.approve "approve" text expected id header key db left s b k f h
    route_call-retry (approval Verdict.deny text expected) id header key db left s b k f h =
        absurd (let v = ap (λ (z : Reply × Db). z.0) h in cc)
    route_call-retry (denial Verdict.approve text expected) id header key db left s b k f h =
        absurd (let v = ap (λ (z : Reply × Db). z.0) h in cc)
    route_call-retry (denial Verdict.deny text expected) id header key db left s b k f h =
        decide_access-retry Verdict.deny "deny" text expected id header key db left s b k f h
