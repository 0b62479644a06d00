-- ===== src/Lib.antt =====
-- The control plane of the Fable backend: just-in-time access, that is who may see a protected resource,
-- for how long, on whose approval, and what is left behind as evidence; and the response actions on a
-- case of suspicious behaviour, with the context that explains its events.
--
-- A request is created paused (access_control/service.py). Evidence is attached to it, the policy
-- (access_control/policy.py) decides on it, an advisory review may be queued, people approve or deny
-- it, and with the last approval a grant is built and its enforcement queued. The worker
-- (access_control/worker.py) takes the queued jobs: it reviews, enforces through a provider
-- (access_control/enforcement.py), revokes and expires. Every change of state is a row of the
-- request's transitions and an entry of the tenant's audit chain (access_control/audit.py); every
-- job and notification goes through a transactional outbox (access_control/outbox.py).
--
-- Common: Boolean tests, equality, lists and ordered lists.
-- AccessControl.Policy (Values, Decide): access_control/policy.py, evaluate_access_policy statement by
--   statement; Eligibility, Passing and Limits show what a decision means.
-- AccessControl.Models: the rows of models/db_models.py and the payloads of access_control/schemas.py.
-- AccessControl.Audit: append_audit and verify_audit_chain, and the audit part of the history route of
--   api/access_routes.py.
-- AccessControl.Outbox: enqueue, claim_jobs, complete_job, retry_job.
-- AccessControl.Service: Monad is state with exceptions; Transition holds ALLOWED_TRANSITIONS, transition
--   and notify; Methods, Approvals and Creation the methods of service.py under their own names.
-- AccessControl.Enforcement, AccessControl.Worker: the providers and the jobs of worker.py.
-- AccessControl.Reach, AccessControl.History: sequences of calls and jobs in any order.
-- Response.Policy, Response.Decide: engine/response_policy.py; Safety and Approval show what it decides.
-- Response.Graph: the blast radius and the scope values of engine/response_graph.py.
-- Response.Sandbox, Response.Adapter, Response.Workflow: the response actions of
--   engine/response_service.py and the simulated controls of engine/sandbox_enforcement.py, as a desk
--   of one action, the controls and the audit log; Authority, Reach and Outcome show what a sequence of
--   calls and an execution lead to.
-- Response.Creation, Response.Expiry: preview_action, create_action and expire_due_actions over a store
--   of all actions; Created and Lapsed show what they leave.
-- Routes: security.py (Scopes) and the mutating routes of api/access_routes.py (Answers, Idempotency, Store,
--   Handlers); Separation, Sources, Offers, Entries, Replay and Retry show who may do what and what a retry returns.
-- Context: engine/context.py. Rows, Matching, Classify, Evaluate and Reopen hold its functions; Admission,
--   Ranking, Verdicts, Coverage, Sources and Reopened show what they decide.
-- AccessControl.Samples, AccessControl.Tests: data, and the theorems at it.
--
-- A method acts on a session, one request with the rows that its relationships reach and the tables
-- that requests share. What it wrote before it raised stays written, as the worker commits it; the
-- routes roll back instead, which is a call that changes nothing. A time is a count of microseconds.
-- An identifier is the number that its hexadecimal digits denote. The n-th readings of the clock and of
-- uuid4, and the hash of each canonical record, are fields of Env; what relies on the clock moving
-- forward says so. JSON objects that the code builds are data types. No loop needs fuel: each runs
-- over a list.
--
-- Not modelled: free-text messages and stored columns that this code never reads, the loop of
-- process_outbox_once over several requests, the delivery of notifications and the signed webhook,
-- which are HTTP, the construction of the evidence graph, whose paths NetworkX computes, the routes
-- that only read, and the engine that scores events and builds cases, which is floating-point
-- statistics; the numbers it leaves on a case are read with their four decimals.

pub mod Common
pub mod AccessControl
pub mod Response
pub mod Context
pub mod Routes
