-- ===== src/AccessControl/Audit/History.antt =====
-- What the history of a request in api/access_routes.py says of the chain.
use test_m_backend.Common.{
  ℕ, String, true, false, ◌≡◌, ◌≢◌, refl, sym, ap, subst, ◌∙◌, inl, inr, none, some, List, [], ◌∷◌,
  ◌==◌, nat_eq, string_eq, filter, All, All-filter, Bool-cases,
}
use test_m_backend.Common.Order.{sorted, sorted_of_Ascending, Ascending-filter}
use test_m_backend.AccessControl.Models.{AuditRecord, Env, Tables}
use test_m_backend.AccessControl.Audit.{
  before, of_tenant, verify_from, verify_audit_chain, history_records, audit_chain_valid,
}
use test_m_backend.AccessControl.Audit.Chain.{IsChained, Ascending-before}
use test_m_backend.AccessControl.Audit.Tamper.{verify_from_step}

-- In a chain that verifies after a record, every record names a hash.
linked_later :
    (env : Env) (h : String) (rs : List AuditRecord)
    → verify_from env (some h) rs ≡ true
    → All (λ r. r.previous_record_hash ≢ none) rs
linked_later env h [] v = tt
linked_later env h (r ∷ rs) v =
    let (e, d, more) = verify_from_step env (some h) r rs v in
    ((λ k. cc (e, k)), linked_later env r.record_hash rs more)

-- Records that all name a hash do not verify from the start, unless there are none.
unlinked_fails :
    (env : Env) (rs : List AuditRecord)
    → All (λ r. r.previous_record_hash ≢ none) rs
    → rs ≢ []
    → verify_from env none rs ≡ false
unlinked_fails env [] h n = absurd (n refl)
unlinked_fails env (r ∷ rs) h n = elim (Bool-cases (verify_from env none (r ∷ rs))) [
  | inl v ↦ absurd (h.0 (verify_from_step env none r rs v).0)
  | inr v ↦ v
]

history_sorted :
    (env : Env) (t : Tables) (tenant : String) (id : ℕ)
    → IsChained env t
    → sorted before (history_records tenant id t.audits) ≡ history_records tenant id t.audits
unfolding history_records of_tenant
history_sorted env t tenant id h = sorted_of_Ascending before _ (
    Ascending-before _ (
      Ascending-filter _ (λ r. r.aggregate_id == id) _
        (Ascending-filter _ (λ r. r.tenant_id == tenant) t.audits h.ascending)))

-- The chain of a tenant that verifies is reported as broken in the history of every request that has
-- records, unless the first record of the tenant is its own.
pub history_misreported :
    (env : Env) (t : Tables) (tenant : String) (id : ℕ) (first : AuditRecord)
    (rest : List AuditRecord)
    → IsChained env t
    → of_tenant tenant t.audits ≡ first ∷ rest
    → first.aggregate_id ≢ id
    → history_records tenant id t.audits ≢ []
    → (verify_audit_chain env (of_tenant tenant t.audits) ≡ true)
      × (audit_chain_valid env tenant id t.audits ≡ false)
unfolding audit_chain_valid verify_audit_chain
history_misreported env t tenant id first rest h e other some_record = (
  h.verified tenant,
  subst (λ rs. verify_from env none rs ≡ false) (sym (history_sorted env t tenant id h))
      (subst (λ rs. verify_from env none rs ≡ false) (sym shape)
        (unlinked_fails env _ (All-filter _ (λ r. r.aggregate_id == id) rest linked)
          (λ k. some_record (shape ∙ k)))),
)
  where
    apart : (first.aggregate_id == id) ≡ false
    apart = elim (Bool-cases (first.aggregate_id == id)) [
      | inl same ↦ absurd (other ((nat_eq.equal_iff _ _).0 same))
      | inr differs ↦ differs
    ]

    shape : history_records tenant id t.audits ≡ filter (λ r. r.aggregate_id == id) rest
    shape =
        unfold history_records in
        ap (filter (λ r. r.aggregate_id == id)) e ∙ (unfold filter in rw apart refl)

    sorted_all : sorted before (of_tenant tenant t.audits) ≡ of_tenant tenant t.audits
    sorted_all =
        unfold of_tenant in
        sorted_of_Ascending before _ (
          Ascending-before _ (Ascending-filter _ (λ r. r.tenant_id == tenant) t.audits h.ascending))

    linked : All (λ r. r.previous_record_hash ≢ none) rest
    linked =
        linked_later env first.record_hash rest
          (verify_from_step env none first rest (
            subst (λ rs. verify_from env none rs ≡ true) (sorted_all ∙ e)
              (unfold verify_audit_chain in h.verified tenant))).2
