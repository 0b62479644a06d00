-- ===== src/AccessControl/Audit.antt =====
-- access_control/audit.py: the hash chain of a tenant's audit records.
pub mod Chain
pub mod Tamper
pub mod History
use test_m_backend.Common.{
  ℕ, suc, String, Bool, true, false, ◌&&◌, ◌||◌, Option, none, some, List, [], ◌∷◌, ◌++◌, ltb, leb,
  ◌==◌, Eq, ◌≡◌, ◌↔◌, refl, arith, nat_eq, string_eq, filter, if◌then◌else◌,
}
use test_m_backend.Common.Order.{sorted}
use test_m_backend.AccessControl.Models.{AuditEntry, AuditBody, AuditRecord, Env, Tables}

-- `order_by(timestamp, id)`
unfoldable pub before : AuditRecord → AuditRecord → Bool
before a b = ltb a.timestamp b.timestamp || (a.timestamp == b.timestamp && leb a.id b.id)

unfoldable pub of_tenant : String → List AuditRecord → List AuditRecord
of_tenant tenant = filter (λ r. r.tenant_id == tenant)

-- The hash of a list's last record, or the one given if there is none.
unfoldable pub last_hash : Option String → List AuditRecord → Option String
last_hash h [] = h
last_hash h (r ∷ rs) = last_hash (some r.record_hash) rs

-- That of the record that is greatest in (timestamp, id), which the descending query returns first.
unfoldable pub latest_hash : List AuditRecord → Option String
latest_hash rs = last_hash none (sorted before rs)

-- `now or datetime.now(timezone.utc)`
unfoldable pub time_or : Option ℕ → ℕ → ℕ
time_or none t = t
time_or (some t) _ = t

unfoldable pub audit_record : Env → AuditEntry → Option ℕ → Tables → AuditRecord
unfolding time_or
audit_record env entry now t =
    let body : AuditBody = record {
      entry = entry;
      timestamp = time_or now (env.now t.tick);
      previous_record_hash = latest_hash (of_tenant entry.tenant_id t.audits);
    } in
    record { id = env.uuid t.tick; body = body; record_hash = env.audit_digest body }

unfoldable pub append_audit : Env → AuditEntry → Option ℕ → Tables → AuditRecord × Tables
append_audit env entry now t =
    let r = audit_record env entry now t in
    (r, record t { audits = t.audits ++ r ∷ []; tick = suc t.tick })

pub same_hash : Option String → Option String → Bool
same_hash none none = true
same_hash (some a) (some b) = a == b
same_hash none (some _) = false
same_hash (some _) none = false

-- the loop of `verify_audit_chain`
unfoldable pub verify_from : Env → Option String → List AuditRecord → Bool
unfolding same_hash
verify_from env previous [] = true
verify_from env previous (r ∷ rs) =
    let rest = verify_from env (some r.record_hash) rs in
    if same_hash r.previous_record_hash previous
    then (if env.audit_digest r.body == r.record_hash then rest else false)
    else false

unfoldable pub verify_audit_chain : Env → List AuditRecord → Bool
verify_audit_chain env rs = verify_from env none (sorted before rs)

pub same_hash_iff : (a b : Option String) → (same_hash a b ≡ true) ↔ (a ≡ b)
unfolding same_hash
same_hash_iff none none = (λ _. refl, λ _. refl)
same_hash_iff (some a) (some b) = ground (arith, string_eq.equal_iff a b)
same_hash_iff none (some b) = (λ h. cc, λ h. cc)
same_hash_iff (some a) none = (λ h. cc, λ h. cc)

-- The records that the history of a request shows, and what it says of them, in
-- `get_access_request_history` of api/access_routes.py.
unfoldable pub history_records : String → ℕ → List AuditRecord → List AuditRecord
history_records tenant id rs = filter (λ r. r.aggregate_id == id) (of_tenant tenant rs)

unfoldable pub audit_chain_valid : Env → String → ℕ → List AuditRecord → Bool
audit_chain_valid env tenant id rs = verify_audit_chain env (history_records tenant id rs)
