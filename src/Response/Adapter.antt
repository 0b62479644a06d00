-- ===== src/Response/Adapter.antt =====
-- engine/sandbox_enforcement.py: what the simulated adapter does to the controls.
use test_m_backend.Common.{
  ℕ, String, Bool, true, false, not, ◌&&◌, Option, none, some, List, [], ◌∷◌, ◌++◌, ◌==◌, nat_eq,
  string_eq, find, if◌then◌else◌,
}
use test_m_backend.AccessControl.Models.{Error}
use test_m_backend.AccessControl.Service.Monad.{Result, ok, err}
use test_m_backend.Response.Sandbox.{
  ActionType, ExecutionResult, Verification, RollbackResult, ResponseAction,
  SandboxEnforcementState, LogDetails, AuditLog, Desk,
}

-- CONTROL_TYPES
unfoldable pub control_types : ActionType → String × String
control_types ActionType.observe = ("monitoring", "entity_ref")
control_types ActionType.step_up_auth = ("step_up_auth", "session")
control_types ActionType.block_external_upload = ("upload_destination", "destination")
control_types ActionType.freeze_privilege_change = ("privilege_change", "permission")
control_types ActionType.rate_limit_download = ("download_rate_limit", "resource")
control_types ActionType.revoke_session = ("session", "session")
control_types ActionType.isolate_device = ("device_isolation", "device")
control_types ActionType.disable_account = ("account_status", "entity_ref")

-- `(target_scope or {}).get(key)`
unfoldable pub get : String → List (String × String) → Option String
get key [] = none
get key (entry ∷ rest) = let found = get key rest in if entry.0 == key then some entry.1 else found

-- `_target`
unfoldable pub target : ResponseAction → Result (String × String)
unfolding get control_types
target a =
    let (control, key) = control_types a.action_type in
    elim (get key a.target_scope) [
      | some value ↦ ok (control, value)
      | none ↦ if key == "entity_ref" then ok (control, a.entity_ref) else err Error.value_error
    ]

unfoldable pub is_control : String → String → SandboxEnforcementState → Bool
is_control control key c = c.control_type == control && c.target_key == key

-- A change of the first row that a test picks, which `first()` returns.
unfoldable pub update_first :
    (SandboxEnforcementState → Bool)
    → (SandboxEnforcementState → SandboxEnforcementState)
    → List SandboxEnforcementState
    → List SandboxEnforcementState
update_first p f [] = []
update_first p f (c ∷ cs) = let rest = update_first p f cs in if p c then f c ∷ cs else c ∷ rest

-- the row after `execute`, from the one before
unfoldable pub applied : ResponseAction → ℕ → SandboxEnforcementState → SandboxEnforcementState
applied a now c = if c.active && c.applied_by_action_id == a.action_id then c else record c {
  active = true;
  applied_by_action_id = a.action_id;
  updated_at = now;
  state = record { action_type = a.action_type; expires_at = a.expires_at; rolled_back_at = none };
}

unfoldable pub new_control : ResponseAction → ℕ → String → String → SandboxEnforcementState
new_control a now control key = record {
  control_type = control;
  target_key = key;
  entity_ref = a.entity_ref;
  active = true;
  state = record { action_type = a.action_type; expires_at = a.expires_at; rolled_back_at = none };
  applied_by_action_id = a.action_id;
  updated_at = now;
}

unfoldable pub adapter_log : ResponseAction → ℕ → LogDetails → Bool → AuditLog
adapter_log a now details succeeded = record {
  timestamp = now;
  principal = "sandbox-adapter";
  resource_id = a.action_id;
  details = details;
  succeeded = succeeded;
}

-- the rows and the answer of `execute`, once its target is known
unfoldable pub apply_control :
    ℕ → Bool → String → String → Desk → (ExecutionResult × Verification) × Desk
unfolding applied new_control
apply_control now inject_verification_failure control key d =
    let found = find (is_control control key) d.controls in
    let row = elim found as (λ _. SandboxEnforcementState) [
      | none ↦ new_control d.action now control key
      | some c ↦ applied d.action now c
    ] in
    let replay = elim found as (λ _. Bool) [
      | none ↦ false
      | some c ↦ c.active && c.applied_by_action_id == d.action.action_id
    ] in
    let controls = elim found as (λ _. List SandboxEnforcementState) [
      | none ↦ d.controls ++ row ∷ []
      | some c ↦ update_first (is_control control key) (applied d.action now) d.controls
    ] in
    let result : ExecutionResult = record {
      control_type = control;
      target_key = key;
      idempotent_replay = replay;
    } in
    let seen : Verification = record {
      verified =
          (row.active && row.applied_by_action_id == d.action.action_id)
          && not inject_verification_failure;
      control_type = control;
      target_key = key;
      observed_active = row.active;
    } in
    (
      (result, seen),
      record d {
        controls = controls;
        logs =
            d.logs
            ++ adapter_log d.action now (LogDetails.execution result seen) seen.verified ∷ [];
      },
    )

unfoldable pub execute : ℕ → Bool → Bool → Desk → Result (ExecutionResult × Verification) × Desk
execute now inject_failure inject_verification_failure d =
    if inject_failure then (err Error.runtime_error, d) else elim (target d.action) [
      | err e ↦ (err e, d)
      | ok (control, key) ↦
          let (answer, d') = apply_control now inject_verification_failure control key d in
          (ok answer, d')
    ]

unfoldable pub released : ℕ → SandboxEnforcementState → SandboxEnforcementState
released now c = record c {
  active = false;
  updated_at = now;
  state = record c.state { rolled_back_at = some now };
}

-- `rollback` of the adapter
unfoldable pub release : ℕ → Desk → Result RollbackResult × Desk
release now d = elim (target d.action) [
  | err e ↦ (err e, d)
  | ok (control, key) ↦
      let own = λ (c : SandboxEnforcementState).
        is_control control key c && c.applied_by_action_id == d.action.action_id in
      let was = elim (find own d.controls) as (λ _. Bool) [ none ↦ false | some c ↦ c.active ] in
      let result : RollbackResult = record {
        control_type = control;
        target_key = key;
        was_active = was;
      } in
      (
        ok result,
        record d {
          controls = update_first own (released now) d.controls;
          logs = d.logs ++ adapter_log d.action now (LogDetails.rollback result) true ∷ [];
        },
      )
]
