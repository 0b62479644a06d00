-- ===== src/Routes/Handlers.antt =====
-- api/access_routes.py: the routes that change a request, each as a call on the database that answers
-- and commits, or answers a problem and leaves the database as it was. A problem of an exception
-- that no clause catches is 500.
use test_m_backend.Common.{
  ℕ, String, Bool, ◌&&◌, not, Option, none, some, List, nat_eq, string_eq, if◌then◌else◌, find,
}
use test_m_backend.AccessControl.Policy.Values.{Role}
use test_m_backend.AccessControl.Policy.Decide.{is_verified}
use test_m_backend.AccessControl.Models.{
  Verdict, EvidencePayload, Evidence, Grant, AccessRequest, Tables, Env, Error,
}
use test_m_backend.AccessControl.Service.Monad.{Session, Result, ok, err, Action}
use test_m_backend.AccessControl.Service.Methods.{
  Surroundings, role_beq, is_approve, add_evidence, evaluate_request, request_ai_review,
  request_revocation, request_more_context,
}
use test_m_backend.AccessControl.Service.Approvals.{record_approval}
use test_m_backend.AccessControl.Service.Creation.{AccessRequestCreate, create_request}
use test_m_backend.Routes.Scopes.{Answer, answered, problem, Principal, has_scope}
use test_m_backend.Routes.Answers.{ResponseBody, shown}
use test_m_backend.Routes.Idempotency.{
  Operation, MutationIdempotency, Replay, required_idempotency, idempotency_replay,
  idempotency_finish,
}
use test_m_backend.Routes.Store.{
  Db, Body, Reply, sent, refused, is_request, replace_request, conflict_only, approval_problem,
  forbidden_only, no_check, owner_check, version_check,
}

-- A method after which `request.grant` is what it was before: `create_grant` reads the relation while it
-- is empty, and the object keeps what was read until the commit, after the answer is built.
unfoldable pub keeping_grant : {A : Type 0} → Action A → Action (Option Grant)
keeping_grant m s = (elim (m s).0 [ ok _ ↦ ok s.request.grant | err e ↦ err e ], (m s).1)

module _ (json : ResponseBody → ResponseBody) (digest : Body → String) where
  -- the commit, unless `_idempotency_finish` raised
  unfoldable pub committed :
      ℕ → ResponseBody → Db → Db → Option (List MutationIdempotency) → Reply × Db
  committed status body new old none = (refused 500, old)
  committed status body new old (some entries) =
      (sent status body, record new { entries = entries })

  unfoldable pub commit_answer :
      String → Operation → String → ℕ → ResponseBody → Db → Db → Reply × Db
  unfolding idempotency_finish committed
  commit_answer tenant operation key status body new old =
      committed status body new old
        (idempotency_finish tenant operation key (json body) status new.entries)

  module _ {A : Type 0} (status : ℕ) (caught : Error → ℕ) (check : AccessRequest → Option ℕ)
      (m : Action A) (view : A → AccessRequest → ResponseBody) where
    -- what the method answered
    unfoldable pub conclude_call :
        String
        → Operation
        → String
        → List MutationIdempotency
        → Db
        → Result A × Session
        → Reply × Db
    unfolding commit_answer replace_request
    conclude_call tenant operation key entries db (err e, s) = (refused (caught e), db)
    conclude_call tenant operation key entries db (ok a, s) =
        commit_answer tenant operation key status (view a s.request)
          (record {
            requests = replace_request s.request db.requests;
            tables = s.tables;
            entries = entries;
          })
          db

    -- the call of the method, after the check between it and the look-up
    unfoldable pub checked_call :
        String
        → Operation
        → String
        → List MutationIdempotency
        → AccessRequest
        → Db
        → Option ℕ
        → Reply × Db
    unfolding conclude_call
    checked_call tenant operation key entries r db (some code) = (refused code, db)
    checked_call tenant operation key entries r db none =
        conclude_call tenant operation key entries db
          (m (record { request = r; tables = db.tables }))

    -- from the answer of the look-up of the key on
    unfoldable pub proceed :
        String → Operation → String → AccessRequest → Db → Answer Replay → Reply × Db
    unfolding checked_call
    proceed tenant operation key r db (problem code) = (refused code, db)
    proceed tenant operation key r db (answered (Replay.replayed body)) = (sent 200 body, db)
    proceed tenant operation key r db (answered (Replay.begun entries)) =
        checked_call tenant operation key entries r db (check r)

    unfoldable pub on_request :
        String → Operation → String → Body → Db → Option AccessRequest → Reply × Db
    unfolding proceed idempotency_replay
    on_request tenant operation key body db none = (refused 404, db)
    on_request tenant operation key body db (some r) =
        proceed tenant operation key r db
          (idempotency_replay tenant operation key (digest body) db.entries)

    unfoldable pub with_key : String → Operation → ℕ → Body → Db → Answer String → Reply × Db
    unfolding on_request is_request
    with_key tenant operation id body db (problem code) = (refused code, db)
    with_key tenant operation id body db (answered key) =
        on_request tenant operation key body db (find (is_request tenant id) db.requests)

    -- a route on one request: `_required_idempotency`, `_mutation_setup`, and the rest
    unfoldable pub mutation : String → String → ℕ → Option String → Body → Db → Reply × Db
    unfolding required_idempotency with_key
    mutation tenant name id header body db =
        with_key tenant (record { name = name; target = some id }) id body db
          (required_idempotency header)

  module _ (env : Env) (w : Surroundings) (p : Principal) where
    -- `role == "admin"`
    unfoldable pub is_admin : Bool
    is_admin = role_beq p.role Role.admin

    -- the rest of `attach_access_evidence`, by the answer of `_required_idempotency`
    unfoldable pub checked_evidence :
        ℕ → Option String → EvidencePayload → Db → Answer String → Reply × Db
    unfolding mutation conflict_only no_check has_scope
    checked_evidence id header payload db (problem code) = (refused code, db)
    checked_evidence id header payload db (answered _) =
        if is_verified payload.verification_status
          && not (has_scope "access:evidence:verify" p.scopes)
        then (refused 403, db)
        else mutation 201 conflict_only no_check (add_evidence env payload p.subject)
            (λ (row : Evidence) r.
              ResponseBody.of_evidence row.id r.id row.verification_status row.evidence_hash)
            p.tenant_id "evidence" id header (Body.evidence payload) db

    unfoldable pub attach_access_evidence : ℕ → Option String → EvidencePayload → Db → Reply × Db
    unfolding required_idempotency checked_evidence
    attach_access_evidence id header payload db =
        checked_evidence id header payload db (required_idempotency header)

    unfoldable pub evaluate_access_request : ℕ → Option String → Db → Reply × Db
    unfolding mutation conflict_only no_check shown is_admin
    evaluate_access_request id header db =
        mutation 200 conflict_only no_check (evaluate_request env w is_admin)
          (λ d r. ResponseBody.of_decision (shown r p) d) p.tenant_id "evaluate" id header
          Body.nothing db

    unfoldable pub queue_ai_review : ℕ → Option String → Db → Reply × Db
    unfolding mutation conflict_only no_check
    queue_ai_review id header db =
        mutation 202 conflict_only no_check (request_ai_review env p.subject)
          (λ _ r. ResponseBody.of_review r.id r.workflow_state) p.tenant_id "ai_review" id header
          Body.nothing db

    unfoldable pub ask_for_context : ℕ → Option String → String → Db → Reply × Db
    unfolding mutation conflict_only no_check shown
    ask_for_context id header text db =
        mutation 200 conflict_only no_check (request_more_context env p.subject text)
          (λ _ r. ResponseBody.of_request (shown r p)) p.tenant_id "request_context" id header
          (Body.context text) db

    -- the rest of `create_access_request`, by the answer of `create_request`
    unfoldable pub created_answer :
        String
        → List MutationIdempotency
        → Db
        → Result AccessRequest × List AccessRequest × Tables
        → Reply × Db
    unfolding commit_answer forbidden_only shown
    created_answer key entries db (err e, requests, tables) = (refused (forbidden_only e), db)
    created_answer key entries db (ok r, requests, tables) =
        commit_answer p.tenant_id (record { name = "create_access_request"; target = none }) key 201
          (ResponseBody.of_request (shown r p))
          (record { requests = requests; tables = tables; entries = entries }) db

    unfoldable pub create_access_request : Option String → AccessRequestCreate → Db → Reply × Db
    unfolding required_idempotency idempotency_replay created_answer is_admin
    create_access_request header payload db = elim (required_idempotency header) [
      | problem code ↦ (refused code, db)
      | answered key ↦
          elim (idempotency_replay p.tenant_id
            (record { name = "create_access_request"; target = none }) key
            (digest (Body.creation payload)) db.entries) [
              | problem code ↦ (refused code, db)
              | answered (Replay.replayed body) ↦ (sent 200 body, db)
              | answered (Replay.begun entries) ↦ created_answer key entries db (
                  create_request env p.tenant_id p.subject payload key is_admin db.requests
                    db.tables)
            ]
    ]

    -- `_approval`, for the verdict of its route
    unfoldable pub decide_access :
        Verdict → String → ℕ → Option String → String → ℕ → Db → Reply × Db
    unfolding mutation approval_problem owner_check shown keeping_grant
    decide_access verdict name id header text expected db =
        mutation 200 approval_problem (owner_check p)
          (keeping_grant (record_approval env p.subject p.role verdict text expected))
          (λ loaded r. ResponseBody.of_request (shown (record r { grant = loaded }) p)) p.tenant_id
          name id header (Body.approval verdict text expected) db

    unfoldable pub approve_access : ℕ → Option String → Verdict → String → ℕ → Db → Reply × Db
    unfolding decide_access
    approve_access id header verdict text expected db =
        if is_approve verdict
        then decide_access Verdict.approve "approve" id header text expected db
        else (refused 422, db)

    unfoldable pub deny_access : ℕ → Option String → Verdict → String → ℕ → Db → Reply × Db
    unfolding decide_access
    deny_access id header verdict text expected db =
        if is_approve verdict
        then (refused 422, db)
        else decide_access Verdict.deny "deny" id header text expected db

    unfoldable pub revoke_access : ℕ → Option String → String → ℕ → Db → Reply × Db
    unfolding mutation conflict_only version_check shown
    revoke_access id header text expected db =
        mutation 200 conflict_only (version_check expected) (request_revocation env p.subject text)
          (λ _ r. ResponseBody.of_request (shown r p)) p.tenant_id "revoke" id header
          (Body.revocation text expected) db
