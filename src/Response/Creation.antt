-- ===== src/Response/Creation.antt =====
-- engine/response_service.py: from a request on a case to a new action. The graph of the case is an
-- argument, as are the text of a reason and the identifier of a new action.
use test_m_backend.Common.{
  ℕ, ◌*◌, String, Bool, true, false, ◌&&◌, not, Option, none, some, List, [], ◌∷◌, ◌++◌, map, ◌==◌,
  nat_eq, string_eq, if◌then◌else◌, leb, ltb, filter, find, no_items,
}
use test_m_backend.Common.Order.{sorted, text_before}
use test_m_backend.AccessControl.Models.{Error}
use test_m_backend.AccessControl.Service.Monad.{Result, ok, err}
use test_m_backend.Context.Rows.{ExplanationStatus, Event}
use test_m_backend.Context.Matching.{or_else, present}
use test_m_backend.Response.Sandbox.{
  ActionType, ResponseAction, SandboxEnforcementState, AuditLog, Desk,
}
use test_m_backend.Response.Graph.{
  EvidenceGraph, valid_scope_values, text_in, id_in, preview_blast_radius,
}
use test_m_backend.Response.Policy.{
  EventRiskRow, Assessment, Existing, Reason, PolicyDecision, uncredited,
}
use test_m_backend.Response.Decide.{evaluate_response_policy}
use test_m_backend.Response.Workflow.{Preview, new_action, route}

-- the value of an action type
unfoldable pub action_name : ActionType → String
action_name ActionType.observe = "observe"
action_name ActionType.step_up_auth = "step_up_auth"
action_name ActionType.block_external_upload = "block_external_upload"
action_name ActionType.freeze_privilege_change = "freeze_privilege_change"
action_name ActionType.rate_limit_download = "rate_limit_download"
action_name ActionType.revoke_session = "revoke_session"
action_name ActionType.isolate_device = "isolate_device"
action_name ActionType.disable_account = "disable_account"

-- a case and the pseudonym of its actor
pub record CaseRow : Type 0 where
  pub id : ℕ
  pub pseudonymous_id : String
  pub event_ids : List ℕ
  pub assessment : Assessment
  pub explanation_breakdown : List (ℕ × ExplanationStatus)

-- the key (timestamp, id), descending
unfoldable pub later_first : Event → Event → Bool
later_first a b = if a.timestamp == b.timestamp then leb b.id a.id else ltb b.timestamp a.timestamp

-- the events that the scope is taken from
unfoldable pub scope_events : List Event → CaseRow → List Event
unfolding later_first uncredited id_in
scope_events table c =
    let events : List Event =
      sorted later_first (filter (λ (e : Event). id_in c.event_ids e.id) table) in
    let unresolved : List ℕ =
      map (λ (r : EventRiskRow). r.event_id)
        (filter uncredited c.assessment.event_risk_breakdown) in
    let chosen : List Event = filter (λ (e : Event). id_in unresolved e.id) events in
    if no_items chosen then events else chosen

unfoldable pub is_present : Option String → Bool
is_present o = elim (present o) [ none ↦ false | some _ ↦ true ]

unfoldable pub text_or : Option String → String → String
text_or o default = or_else (present o) default

-- the device of the first event, under a key
unfoldable pub first_device : String → List Event → List (String × String)
first_device key [] = []
first_device key (e ∷ _) = (key, e.device_id) ∷ []

unfoldable pub default_scope : List Event → CaseRow → ActionType → List (String × String)
unfolding scope_events is_present text_or first_device
default_scope table c ActionType.block_external_upload =
    elim (find (λ (e : Event). (e.action == "external_upload") && is_present e.destination)
      (scope_events table c)) [
        | none ↦ []
        | some e ↦ ("destination", text_or e.destination "") ∷ ("session", e.device_id) ∷ []
      ]
default_scope table c ActionType.freeze_privilege_change =
    elim (find (λ (e : Event). e.action == "privilege_change") (scope_events table c)) [
      | none ↦ []
      | some e ↦ ("permission", text_or e.resource_id "unspecified") ∷ ("session", e.device_id) ∷ []
    ]
default_scope table c ActionType.rate_limit_download =
    elim (find (λ (e : Event). e.action == "file_download") (scope_events table c)) [
      | none ↦ []
      | some e ↦
          if is_present e.resource_id
          then ("resource", text_or e.resource_id "") ∷ ("session", e.device_id) ∷ []
          else []
    ]
default_scope table c ActionType.revoke_session = first_device "session" (scope_events table c)
default_scope table c ActionType.isolate_device = first_device "device" (scope_events table c)
default_scope table c ActionType.step_up_auth = first_device "session" (scope_events table c)
default_scope table c _ = ("entity_ref", c.pseudonymous_id) ∷ []

-- `dict(target_scope or _default_scope(...))`
unfoldable pub chosen_scope :
    List Event → CaseRow → ActionType → List (String × String) → List (String × String)
unfolding default_scope
chosen_scope table c kind asked = if no_items asked then default_scope table c kind else asked

-- the values of a scope that the graph does not know
unfoldable pub invalid_values : EvidenceGraph → List (String × String) → List String
invalid_values g scope = sorted text_before (
    filter (λ v. not (text_in (valid_scope_values g) v)) (map (λ (p : String × String). p.1) scope))

unfoldable pub as_existing : ResponseAction → Existing
as_existing a = record {
  action_id = a.action_id;
  action_type = action_name a.action_type;
  target_scope = a.target_scope;
  status = a.status;
}

-- The actions on all cases, with what they act on.
pub record Store : Type 0 where
  pub actions : List ResponseAction
  pub controls : List SandboxEnforcementState
  pub logs : List AuditLog

unfoldable pub existing_of : Store → CaseRow → List Existing
unfolding as_existing
existing_of s c = map as_existing (filter (λ (a : ResponseAction). a.case_id == c.id) s.actions)

-- an answer in seconds as the span that it is added to a time as
unfoldable pub span : Option ℕ → Option ℕ
span none = none
span (some seconds) = some (seconds * 1000000)

module _ (message : Reason → String) (graph : EvidenceGraph) (table : List Event) where
  unfoldable pub as_preview : CaseRow → PolicyDecision → Preview
  unfolding span
  as_preview c d = record {
    entity_ref = c.pseudonymous_id;
    policy_rule_id = d.policy_rule_id;
    allow = d.allow;
    reasons = map message d.reasons;
    target_scope = d.target_scope;
    approval_required = d.approval_required;
    automatic = d.automatic;
    ttl = span d.ttl_seconds;
  }

  unfoldable pub decide : CaseRow → ActionType → List (String × String) → Store → PolicyDecision
  unfolding existing_of action_name
  decide c kind scope s =
      evaluate_response_policy c.assessment scope
        (preview_blast_radius graph scope c.explanation_breakdown) (action_name kind)
        (existing_of s c)

  unfoldable pub preview_action :
      CaseRow → ActionType → List (String × String) → Store → Result Preview
  unfolding chosen_scope invalid_values as_preview decide
  preview_action c kind asked s =
      let scope : List (String × String) = chosen_scope table c kind asked in
      if not (no_items (invalid_values graph scope))
      then err Error.value_error
      else ok (as_preview c (decide c kind scope s))

  -- the action that a preview leads to, with its first transition, and the store with it
  unfoldable pub opened :
      CaseRow
      → ActionType
      → String
      → String
      → Option String
      → ℕ
      → ℕ
      → Preview
      → Store
      → Result ResponseAction × Store
  opened c kind key requested_by remark id now p s =
      let d : Desk =
        (route requested_by remark now p (record {
          action = new_action id c.id kind key requested_by remark now p;
          controls = s.controls;
          logs = s.logs;
        })).1 in
      (
        ok d.action,
        record { actions = s.actions ++ d.action ∷ []; controls = d.controls; logs = d.logs },
      )

  -- what the answer of the preview leads to
  unfoldable pub follow :
      CaseRow
      → ActionType
      → String
      → String
      → Option String
      → ℕ
      → ℕ
      → Store
      → Result Preview
      → Result ResponseAction × Store
  unfolding opened
  follow c kind key requested_by remark id now s (err e) = (err e, s)
  follow c kind key requested_by remark id now s (ok p) =
      opened c kind key requested_by remark id now p s

  -- by the action that has the idempotency key already
  unfoldable pub resolve :
      CaseRow
      → ActionType
      → List (String × String)
      → String
      → String
      → Option String
      → ℕ
      → ℕ
      → Store
      → Option ResponseAction
      → Result ResponseAction × Store
  unfolding preview_action follow
  resolve c kind asked key requested_by remark id now s (some a) =
      if (a.case_id == c.id)
        && ((action_name a.action_type == action_name kind) && (a.requested_by == requested_by))
      then (ok a, s)
      else (err Error.value_error, s)
  resolve c kind asked key requested_by remark id now s none =
      follow c kind key requested_by remark id now s (preview_action c kind asked s)

  unfoldable pub create_action :
      CaseRow
      → ActionType
      → List (String × String)
      → String
      → String
      → Option String
      → ℕ
      → ℕ
      → Store
      → Result ResponseAction × Store
  unfolding resolve
  create_action c kind asked key requested_by remark id now s =
      resolve c kind asked key requested_by remark id now s
        (find (λ (a : ResponseAction). a.idempotency_key == key) s.actions)
