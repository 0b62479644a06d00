-- ===== src/AccessControl/Reach.antt =====
-- Every sequence of calls on a request, from create_request on: the methods that the routes of
-- api/access_routes.py call and the jobs that access_control/worker.py runs, in any order.
use test_m_backend.Common.{ℕ, String, Bool, refl, none, some, List, [], ◌∷◌}
use test_m_backend.AccessControl.Policy.Values.{Role}
use test_m_backend.AccessControl.Models.{
  Verdict, EvidencePayload, AccessRequest, ReviewResult, JobType, Tables, Env,
}
use test_m_backend.AccessControl.Audit.Chain.{Ticking}
use test_m_backend.AccessControl.Enforcement.{EnforcementProvider}
use test_m_backend.AccessControl.Service.Monad.{Session, Result, pure}
use test_m_backend.AccessControl.Service.Methods.{
  Surroundings, add_evidence, evaluate_request, request_ai_review, request_revocation,
  request_more_context,
}
use test_m_backend.AccessControl.Service.Approvals.{record_approval}
use test_m_backend.AccessControl.Service.Creation.{
  AccessRequestCreate, new_request, announce, insert_request,
}
use test_m_backend.AccessControl.Service.Keeps.{Keeps-pure, keeps_rules}
use test_m_backend.AccessControl.Service.Consistent.{
  Leads, IsOrderly, IsConsistent, ticked-IsOrderly,
}
use test_m_backend.AccessControl.Service.Governed.{IsGoverned}
use test_m_backend.AccessControl.Service.Preserved.{
  Safe, audit-Safe, notify-Safe, add_evidence-Safe, evaluate_request-Safe, request_ai_review-Safe,
  request_revocation-Safe, request_more_context-Safe, record_approval-Safe,
}
use test_m_backend.AccessControl.Service.Stays.{audit-Stays, notify-Stays}
use test_m_backend.AccessControl.Service.Authority.{
  Anything, anything_stable, forget, add_evidence-Governed, evaluate_request-Governed,
  request_ai_review-Governed, request_revocation-Governed, request_more_context-Governed,
  record_approval-Governed,
}
use test_m_backend.AccessControl.Worker.{process_job}
use test_m_backend.AccessControl.Worker.Preserved.{process_job-Safe}
use test_m_backend.AccessControl.Worker.Authority.{process_job-Governed}

-- A call on the request, with what the outside answers.
pub data Call : Type 0 where
  evidence : EvidencePayload → String → Call
  evaluation : Surroundings → Bool → Call
  ai_review : String → Call
  approval : String → Role → Verdict → String → ℕ → Call
  revocation : String → String → Call
  more_context : String → String → Call
  job : (AccessRequest → Result ReviewResult) → EnforcementProvider → JobType → Call

-- The session after a call, whether it returned or raised.
unfoldable pub perform : Env → Call → Session → Session
perform env (Call.evidence payload actor) s = (add_evidence env payload actor s).1
perform env (Call.evaluation w is_admin) s = (evaluate_request env w is_admin s).1
perform env (Call.ai_review actor) s = (request_ai_review env actor s).1
perform env (Call.approval actor role decision note version) s =
    (record_approval env actor role decision note version s).1
perform env (Call.revocation actor reason) s = (request_revocation env actor reason s).1
perform env (Call.more_context actor note) s = (request_more_context env actor note s).1
perform env (Call.job review provider kind) s = (process_job env review provider (pure tt) kind s).1

unfoldable pub perform_all : Env → List Call → Session → Session
perform_all env [] s = s
perform_all env (c ∷ cs) s = perform_all env cs (perform env c s)

module _ (env : Env) where
  perform-IsGoverned :
      (c : Call) (s : Session) → IsGoverned s.request → IsGoverned (perform env c s).request
  unfolding perform
  perform-IsGoverned (Call.evidence payload actor) = (add_evidence-Governed env payload actor).at
  perform-IsGoverned (Call.evaluation w is_admin) = (evaluate_request-Governed env w is_admin).at
  perform-IsGoverned (Call.ai_review actor) = (request_ai_review-Governed env actor).at
  perform-IsGoverned (Call.approval actor role decision note version) =
      (record_approval-Governed env actor role decision note version).at
  perform-IsGoverned (Call.revocation actor reason) =
      (request_revocation-Governed env actor reason).at
  perform-IsGoverned (Call.more_context actor note) =
      (request_more_context-Governed env actor note).at
  perform-IsGoverned (Call.job review provider kind) =
      (process_job-Governed env review provider (pure tt) kind (Keeps-pure tt)).at

  pub perform_all-IsGoverned :
      (cs : List Call) (s : Session)
      → IsGoverned s.request
      → IsGoverned (perform_all env cs s).request
  unfolding perform_all
  perform_all-IsGoverned [] s h = h
  perform_all-IsGoverned (c ∷ cs) s h =
      perform_all-IsGoverned cs (perform env c s) (perform-IsGoverned c s h)

module _ (env : Env) (ticking : Ticking env) where
  perform-IsConsistent :
      (c : Call) (s : Session) → IsConsistent env s → IsConsistent env (perform env c s)
  unfolding perform
  perform-IsConsistent (Call.evidence payload actor) =
      (add_evidence-Safe env ticking payload actor).at
  perform-IsConsistent (Call.evaluation w is_admin) =
      (evaluate_request-Safe env ticking w is_admin).at
  perform-IsConsistent (Call.ai_review actor) = (request_ai_review-Safe env ticking actor).at
  perform-IsConsistent (Call.approval actor role decision note version) =
      (record_approval-Safe env ticking actor role decision note version).at
  perform-IsConsistent (Call.revocation actor reason) =
      (request_revocation-Safe env ticking actor reason).at
  perform-IsConsistent (Call.more_context actor note) =
      (request_more_context-Safe env ticking actor note).at
  perform-IsConsistent (Call.job review provider kind) =
      (process_job-Safe env ticking review provider (pure tt) kind (Keeps-pure tt)).at

  pub perform_all-IsConsistent :
      (cs : List Call) (s : Session) → IsConsistent env s → IsConsistent env (perform_all env cs s)
  unfolding perform_all
  perform_all-IsConsistent [] s h = h
  perform_all-IsConsistent (c ∷ cs) s h =
      perform_all-IsConsistent cs (perform env c s) (perform-IsConsistent c s h)

-- A new request is governed and consistent.
new_request-IsGoverned :
    (id time : ℕ) (tenant requester : String) (payload : AccessRequestCreate) (key : String)
    → IsGoverned (new_request id time tenant requester payload key)
unfolding new_request
new_request-IsGoverned id time tenant requester payload key = record {
  independent = tt;
  ruled = λ d e. cc;
  least = λ g e. cc;
  cleared = λ c. cc;
  backed = λ c n. cc;
}

new_request-Leads :
    (id time : ℕ) (tenant requester : String) (payload : AccessRequestCreate) (key : String)
    → let r = new_request id time tenant requester payload key in
      Leads none r.transitions (some r.workflow_state)
unfolding new_request
new_request-Leads id time tenant requester payload key = (refl, refl, refl)

module _ (env : Env) (tenant requester : String) (payload : AccessRequestCreate) (key : String)
    (t : Tables) where
  -- Whatever is called on a new request, and in whatever order, no grant goes without the approvals
  -- that the request wants, none is wider than the request and the policy allow, and the requester
  -- approves nothing.
  pub reachable-IsGoverned :
      (cs : List Call)
      → IsGoverned
          (perform_all env cs (insert_request env tenant requester payload key t).1).request
  unfolding insert_request
  reachable-IsGoverned cs = perform_all-IsGoverned env cs _ (
      (forget env (announce env requester) (
          unfold announce in
          search (
            keeps_rules,
            audit-Stays env Anything anything_stable,
            notify-Stays env Anything anything_stable,
          ))).at
        _ (new_request-IsGoverned (env.uuid t.tick) (env.now t.tick) tenant requester payload key))

  -- Whatever is called on a new request, and in whatever order, its transitions are a path of the
  -- table of transitions to its state, every tenant's audit chain verifies, and the outbox is sound
  -- and lists no key twice, if the tables were in order before and the clock moves forward.
  pub reachable-IsConsistent :
      (ticking : Ticking env)
      → IsOrderly env t
      → (cs : List Call)
      → IsConsistent env (perform_all env cs (insert_request env tenant requester payload key t).1)
  unfolding insert_request
  reachable-IsConsistent ticking h cs = perform_all-IsConsistent env ticking cs _ (
      (announce-Safe ticking).at _ (record {
        history = new_request-Leads (env.uuid t.tick) (env.now t.tick) tenant requester payload key;
        orderly = ticked-IsOrderly env ticking t h;
      }))
    where
      announce-Safe : (ticking : Ticking env) → Safe env ticking (announce env requester)
      announce-Safe ticking =
          unfold announce in search (keeps_rules, audit-Safe env ticking, notify-Safe env ticking)
