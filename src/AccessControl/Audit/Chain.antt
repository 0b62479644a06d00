-- ===== src/AccessControl/Audit/Chain.antt =====
-- Appending keeps every tenant's chain verified, while the clock moves forward.
use test_m_backend.Common.{
  ℕ, suc, ◌<◌, String, true, ◌≡◌, refl, ◌∙◌, ap, subst, Option, none, some, List, [], ◌∷◌, ◌++◌,
  arith, ltb, ◌==◌, string_eq, eq_of_==, Bool-cases, inl, inr, filter, All, All-map, if◌then◌else◌,
}
use test_m_backend.Common.Order.{
  sorted, sorted_of_Ascending, Ascending, Ascending-snoc, Ascending-filter,
}
use test_m_backend.AccessControl.Models.{AuditEntry, AuditRecord, Env, Tables}
use test_m_backend.AccessControl.Audit.{
  before, of_tenant, last_hash, latest_hash, audit_record, append_audit, same_hash_iff, verify_from,
  verify_audit_chain,
}

-- Each record is older than those behind it, and every tenant's records form a verified chain.
pub record IsChained (env : Env) (t : Tables) : Type 0 where
  pub ascending : Ascending (λ r q. ltb r.timestamp q.timestamp) t.audits
  pub verified : (tenant : String) → verify_audit_chain env (of_tenant tenant t.audits) ≡ true

-- All records are older than a time.
abbrev pub IsPast : ℕ → List AuditRecord → Type 0
IsPast time = All (λ r. r.timestamp < time)

-- The clock moves forward between two readings.
abbrev pub Ticking : Env → Type 0
Ticking env = (n : ℕ) → env.now n < env.now (suc n)

pub Ascending-before :
    (rs : List AuditRecord)
    → Ascending (λ r q. ltb r.timestamp q.timestamp) rs
    → Ascending before rs
Ascending-before [] h = tt
Ascending-before (r ∷ rs) h = (
  All-map (λ q. ltb r.timestamp q.timestamp ≡ true) (λ q. before r q ≡ true) rs (λ q k. later r q k)
      h.0,
  Ascending-before rs h.1,
)
  where
    later : (r q : AuditRecord) → ltb r.timestamp q.timestamp ≡ true → before r q ≡ true
    later r q k = unfold before in rw k

sorted_tenant :
    (tenant : String) (rs : List AuditRecord)
    → Ascending (λ r q. ltb r.timestamp q.timestamp) rs
    → sorted before (of_tenant tenant rs) ≡ of_tenant tenant rs
unfolding of_tenant
sorted_tenant tenant rs h =
    sorted_of_Ascending before _
      (Ascending-before _ (Ascending-filter _ (λ r. r.tenant_id == tenant) rs h))

verify_from-snoc :
    (env : Env) (p : Option String) (rs : List AuditRecord) (r : AuditRecord)
    → verify_from env p rs ≡ true
    → r.previous_record_hash ≡ last_hash p rs
    → env.audit_digest r.body ≡ r.record_hash
    → verify_from env p (rs ++ r ∷ []) ≡ true
unfolding verify_from last_hash
verify_from-snoc env p [] r h e d = ground (
  arith,
  same_hash_iff r.previous_record_hash p,
  string_eq.equal_iff (env.audit_digest r.body) r.record_hash,
)
verify_from-snoc env p (q ∷ rs) r h e d =
    ground (arith, verify_from-snoc env (some q.record_hash) rs r)

verify_audit_chain-snoc :
    (env : Env) (rs : List AuditRecord) (r : AuditRecord)
    → Ascending before rs
    → Ascending before (rs ++ r ∷ [])
    → verify_audit_chain env rs ≡ true
    → r.previous_record_hash ≡ latest_hash rs
    → env.audit_digest r.body ≡ r.record_hash
    → verify_audit_chain env (rs ++ r ∷ []) ≡ true
unfolding verify_audit_chain latest_hash
verify_audit_chain-snoc env rs r a b h e d = rw (sorted_of_Ascending before (rs ++ r ∷ []) b) (
    verify_from-snoc env none rs r (rw (sorted_of_Ascending before rs a) at h)
      (rw (sorted_of_Ascending before rs a) at e) d)

of_tenant-snoc :
    (tenant : String) (rs : List AuditRecord) (r : AuditRecord)
    → of_tenant tenant (rs ++ r ∷ [])
      ≡ (if r.tenant_id == tenant then of_tenant tenant rs ++ r ∷ [] else of_tenant tenant rs)
unfolding of_tenant filter
of_tenant-snoc tenant [] r = refl
of_tenant-snoc tenant (q ∷ rs) r = ground (arith, of_tenant-snoc tenant rs r)

module _ (env : Env) (entry : AuditEntry) (now : Option ℕ) (t : Tables) where
  abbrev new_record : AuditRecord
  new_record = audit_record env entry now t

  audits-append : (append_audit env entry now t).1.audits ≡ t.audits ++ new_record ∷ []
  unfolding append_audit
  audits-append = refl

  module _ (chained : IsChained env t) (past : IsPast new_record.timestamp t.audits) where
    Ascending-after : Ascending (λ r q. ltb r.timestamp q.timestamp) (t.audits ++ new_record ∷ [])
    Ascending-after =
        Ascending-snoc (λ r q. ltb r.timestamp q.timestamp) t.audits new_record chained.ascending
          (All-map _ _ t.audits (λ r h. ground arith) past)

    verified_after :
        (tenant : String)
        → verify_audit_chain env (of_tenant tenant (t.audits ++ new_record ∷ [])) ≡ true
    verified_after tenant = elim (Bool-cases (entry.tenant_id == tenant)) [
      | inr other ↦ rw of_tenant-snoc (unfold audit_record in rw other (chained.verified tenant))
      | inl same ↦
          let grown : of_tenant tenant (t.audits ++ new_record ∷ [])
              ≡ of_tenant tenant t.audits ++ new_record ∷ [] =
            of_tenant-snoc tenant t.audits new_record ∙ (unfold audit_record in rw same) in
          rw grown (
            verify_audit_chain-snoc env (of_tenant tenant t.audits) new_record
              (tenant_Ascending t.audits chained.ascending)
              (subst (Ascending before) grown
                (tenant_Ascending (t.audits ++ new_record ∷ []) Ascending-after))
              (chained.verified tenant)
              (unfold audit_record in
                ap (λ u. latest_hash (of_tenant u t.audits)) (eq_of_== entry.tenant_id tenant same))
              (unfold audit_record in refl))
    ]
      where
        tenant_Ascending :
            (rs : List AuditRecord)
            → Ascending (λ r q. ltb r.timestamp q.timestamp) rs
            → Ascending before (of_tenant tenant rs)
        tenant_Ascending rs h =
            unfold of_tenant in
            Ascending-before _ (Ascending-filter _ (λ r. r.tenant_id == tenant) rs h)

    -- If the records are in order, every tenant's chain verifies and the new record is later than all,
    -- the same holds after an entry has been appended.
    pub append_audit-IsChained : IsChained env (append_audit env entry now t).1
    append_audit-IsChained = record {
      ascending = rw audits-append Ascending-after;
      verified = λ tenant. rw audits-append (verified_after tenant);
    }
