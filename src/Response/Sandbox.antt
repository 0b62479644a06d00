-- ===== src/Response/Sandbox.antt =====
-- The rows that engine/response_service.py and engine/sandbox_enforcement.py read and write. An
-- action's identifier is the number that its hexadecimal digits denote, and a time a count of
-- microseconds; the timestamp of a call is its argument, as each call reads the clock once.
use test_m_backend.Common.{ℕ, String, Bool, Option, List, nat_eq, string_eq}
use test_m_backend.AccessControl.Models.{Error}

pub data Status : Type 0 where
  proposed auto_authorized awaiting_approval approved executing active : Status
  expired rolled_back failed rejected : Status

pub data ActionType : Type 0 where
  observe step_up_auth block_external_upload freeze_privilege_change rate_limit_download :
      ActionType
  revoke_session isolate_device disable_account : ActionType

pub record ExecutionResult : Type 0 where
  pub control_type : String
  pub target_key : String
  pub idempotent_replay : Bool

pub record Verification : Type 0 where
  pub verified : Bool
  pub control_type : String
  pub target_key : String
  pub observed_active : Bool

pub record RollbackResult : Type 0 where
  pub control_type : String
  pub target_key : String
  pub was_active : Bool

-- `details` of a transition.
pub data TransitionDetails : Type 0 where
  nothing : TransitionDetails
  policy_reasons : List String → TransitionDetails
  policy_rule : String → TransitionDetails
  verification : Verification → TransitionDetails
  failure_reason : Error → TransitionDetails

pub record ResponseActionTransition : Type 0 where
  pub from_status : Option Status
  pub to_status : Status
  pub principal : String
  pub timestamp : ℕ
  pub note : Option String
  pub details : TransitionDetails

pub record ResponseAction : Type 0 where
  pub action_id : ℕ
  pub case_id : ℕ
  pub entity_ref : String
  pub action_type : ActionType
  pub status : Status
  pub requested_by : String
  pub requested_at : ℕ
  pub approved_by : Option String
  pub approved_at : Option ℕ
  pub executed_at : Option ℕ
  pub expires_at : Option ℕ
  pub rolled_back_at : Option ℕ
  pub failed_at : Option ℕ
  pub policy_rule_id : String
  pub policy_decision : Bool
  pub policy_reasons : List String
  pub target_scope : List (String × String)
  pub approval_required : Bool
  pub automatic : Bool
  pub idempotency_key : String
  pub execution_result : Option ExecutionResult
  pub verification_result : Option Verification
  pub rollback_result : Option RollbackResult
  pub failure_reason : Option Error
  pub transitions : List ResponseActionTransition

-- `state` of a control.
pub record ControlNote : Type 0 where
  pub action_type : ActionType
  pub expires_at : Option ℕ
  pub rolled_back_at : Option ℕ

pub record SandboxEnforcementState : Type 0 where
  pub control_type : String
  pub target_key : String
  pub entity_ref : String
  pub active : Bool
  pub state : ControlNote
  pub applied_by_action_id : ℕ
  pub updated_at : ℕ

pub data LogDetails : Type 0 where
  change : Status → Option String → TransitionDetails → LogDetails
  execution : ExecutionResult → Verification → LogDetails
  rollback : RollbackResult → LogDetails

-- A row of the audit log; its action is the formatted text of what the details hold.
pub record AuditLog : Type 0 where
  pub timestamp : ℕ
  pub principal : String
  pub resource_id : ℕ
  pub details : LogDetails
  pub succeeded : Bool

-- What a call of the workflow acts on.
pub record Desk : Type 0 where
  pub action : ResponseAction
  pub controls : List SandboxEnforcementState
  pub logs : List AuditLog
