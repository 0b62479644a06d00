-- ===== src/AccessControl/Enforcement.antt =====
-- access_control/enforcement.py: what an enforcement provider is, and the sandbox.
use test_m_backend.Common.{ℕ, String, Bool, true, false, Option, none, some}
use test_m_backend.AccessControl.Models.{Enforcement, ProviderResult, Grant}
use test_m_backend.AccessControl.Service.Monad.{Result, ok}

-- `EnforcementProvider`: a call on a grant, under a correlation identifier, answers or raises.
pub record EnforcementProvider : Type 0 where
  pub activate : Grant → ℕ → Result ProviderResult
  pub verify : Grant → ℕ → Result ProviderResult
  pub revoke : Grant → ℕ → Result ProviderResult

unfoldable pub is_active_state : Enforcement → Bool
is_active_state Enforcement.active = true
is_active_state _ = false

-- `grant.connector_reference or f"sandbox:{grant.id}"`, with `prefix` for the formatted text
unfoldable pub reference_or : String → Option String → String
reference_or prefix none = prefix
reference_or prefix (some r) = r

-- `SandboxEnforcementProvider`; `label` stands for `f"sandbox:{grant.id}"`.
unfoldable pub sandbox_provider : (ℕ → String) → EnforcementProvider
unfolding is_active_state reference_or
sandbox_provider label = record {
  activate = λ g correlation.
      ok (record { success = true; connector_reference = label g.id; verified = true });
  verify = λ g correlation. ok (record {
    success = is_active_state g.enforcement_state;
    connector_reference = reference_or (label g.id) g.connector_reference;
    verified = is_active_state g.enforcement_state;
  });
  revoke = λ g correlation. ok (record {
    success = true;
    connector_reference = reference_or (label g.id) g.connector_reference;
    verified = true;
  });
}
