-- ===== src/AccessControl/Tests/Records.antt =====
-- The audit chain and the outbox, at concrete inputs.
use test_m_backend.Common.{
  ℕ, ◌+◌, ◌≤◌, ◌<◌, String, true, false, ◌≡◌, ◌⊎◌, refl, sym, ◌∙◌, inl, inr, Option, none, some, [],
  ◌∷◌, arith, ◌==◌, string_eq, Memᴰ, Bool-cases, length, All, filter,
}
use test_m_backend.Common.Order.{sorted}
use test_m_backend.AccessControl.Models.{
  Verdict, AuditAction, AggregateType, Details, AuditEntry, AuditRecord, JobType, JobStatus,
  Payload, DedupKey, Error, Job, Tables, seconds,
}
use test_m_backend.AccessControl.Audit.{
  before, last_hash, audit_record, of_tenant, latest_hash, append_audit, verify_from,
  verify_audit_chain, history_records, audit_chain_valid,
}
use test_m_backend.AccessControl.Audit.Chain.{IsChained, append_audit-IsChained}
use test_m_backend.AccessControl.Audit.Tamper.{bodies, verified_histories_agree}
use test_m_backend.AccessControl.Audit.History.{history_misreported}
use test_m_backend.AccessControl.Outbox.{JobSpec, is_waiting, enqueue, claim_jobs, retry_job}
use test_m_backend.AccessControl.Outbox.Lifecycle.{IsSound, retry_schedule}
use test_m_backend.AccessControl.Outbox.Claims.{
  HasUniqueIds, EachClaimedOrKept, claim_jobs_each, claim_jobs-IsSound,
}
use test_m_backend.AccessControl.Outbox.Unique.{
  HasUniqueKeys, IsSettled, enqueue_idem, enqueue-HasUniqueKeys,
}
use test_m_backend.AccessControl.Samples.{sample_env, no_tables}

abbrev entry_of : ℕ → AuditEntry
entry_of id = record {
  tenant_id = "tenant";
  actor = "ria";
  action = AuditAction.approval_recorded Verdict.approve;
  aggregate_type = AggregateType.access_request;
  aggregate_id = id;
  correlation_id = 0;
  details = Details.created "handbook" "handbook:read";
}

abbrev record_of : ℕ → ℕ → ℕ → Option String → AuditRecord
record_of id aggregate time previous = record {
  id = id;
  body = record { entry = entry_of aggregate; timestamp = time; previous_record_hash = previous };
  record_hash = "audit";
}

abbrev two_requests : Tables
two_requests = record no_tables {
  audits = record_of 0 1 1 none ∷ record_of 1 2 2 (some "audit") ∷ [];
}

two_requests-IsChained : IsChained sample_env two_requests
unfolding sorted filter before verify_audit_chain verify_from of_tenant
two_requests-IsChained = record {
  ascending = ((refl, tt), (tt, tt));
  verified = λ tenant. elim (Bool-cases ("tenant" == tenant)) [
    | inl same ↦ rw same refl
    | inr other ↦ rw other refl
  ];
}

append_audit-IsChained_example :
    IsChained sample_env
      (append_audit sample_env (entry_of 1) none (record two_requests { tick = 3 })).1
unfolding audit_record
append_audit-IsChained_example =
    append_audit-IsChained sample_env (entry_of 1) none (record two_requests { tick = 3 })
      (record {
        ascending = two_requests-IsChained.ascending;
        verified = two_requests-IsChained.verified;
      })
      (omega arith, (omega arith, tt))

verified_histories_agree_example :
    bodies (record_of 0 1 1 none ∷ []) ≡ bodies (record_of 7 1 1 none ∷ [])
unfolding sorted last_hash
verified_histories_agree_example =
    verified_histories_agree sample_env (record_of 0 1 1 none ∷ []) (record_of 7 1 1 none ∷ [])
      (((λ e. refl), tt), tt) (unfold verify_audit_chain verify_from in refl)
      (unfold verify_audit_chain verify_from in refl) (unfold latest_hash in refl)

history_misreported_example :
    (verify_audit_chain sample_env (of_tenant "tenant" two_requests.audits) ≡ true)
    × (audit_chain_valid sample_env "tenant" 2 two_requests.audits ≡ false)
unfolding filter
history_misreported_example =
    history_misreported sample_env two_requests "tenant" 2 (record_of 0 1 1 none)
      (record_of 1 2 2 (some "audit") ∷ []) two_requests-IsChained (unfold of_tenant in refl)
      (λ e. cc) (λ e. unfold history_records of_tenant in cc)

abbrev waiting_job : Job
waiting_job = record {
  id = 4;
  tenant_id = "tenant";
  aggregate_type = AggregateType.access_grant;
  aggregate_id = 3;
  job_type = JobType.enforcement;
  payload = Payload.for_grant 1 3;
  status = JobStatus.pending;
  attempts = 0;
  available_at = 5;
  locked_by = none;
  lease_expires_at = none;
  last_error = none;
  deduplication_key = DedupKey.enforce 3;
  processed_at = none;
}

abbrev running_job : Job
running_job = record waiting_job {
  status = JobStatus.processing;
  attempts = 2;
  locked_by = some "worker";
  lease_expires_at = some 9;
}

one_job-HasUniqueIds : HasUniqueIds (waiting_job ∷ [])
one_job-HasUniqueIds i j (Memᴰ.head e) (Memᴰ.head f) same = e ∙ sym f
one_job-HasUniqueIds i j (Memᴰ.head e) (Memᴰ.tail m) same = elim m [ ]
one_job-HasUniqueIds i j (Memᴰ.tail m) k same = elim m [ ]

claim_jobs_each_example :
    (length (claim_jobs "worker" 20 8 60 (waiting_job ∷ [])).0 ≤ 20)
    × EachClaimedOrKept "worker" 20 8 60
        (waiting_job ∷ [])
        (claim_jobs "worker" 20 8 60 (waiting_job ∷ [])).1
claim_jobs_each_example = claim_jobs_each "worker" 20 8 60 (waiting_job ∷ []) one_job-HasUniqueIds

waiting_job-IsSound : IsSound waiting_job
unfolding is_waiting
waiting_job-IsSound = ground arith

running_job-IsSound : IsSound running_job
unfolding is_waiting
running_job-IsSound = ground arith

claim_jobs-IsSound_example : All IsSound (claim_jobs "worker" 20 8 60 (waiting_job ∷ [])).1
claim_jobs-IsSound_example =
    claim_jobs-IsSound "worker" 20 8 60 (waiting_job ∷ []) one_job-HasUniqueIds
      (waiting_job-IsSound, tt)

retry_schedule_example :
    let r = retry_job Error.runtime_error 10 running_job in
    (r.attempts ≡ 2)
    × (r.available_at ≡ 10 + seconds 4)
    × (((running_job.attempts < 5)
          × (r.status ≡ JobStatus.retry)
          × (r.available_at ≤ 10 + seconds 16))
        ⊎ ((running_job.attempts ≡ 5) × (r.status ≡ JobStatus.failed)))
retry_schedule_example = retry_schedule Error.runtime_error 10 running_job running_job-IsSound refl

abbrev spec_of_job : JobSpec
spec_of_job = record {
  tenant_id = "tenant";
  aggregate_type = AggregateType.access_grant;
  aggregate_id = 3;
  job_type = JobType.enforcement;
  payload = Payload.for_grant 1 3;
  deduplication_key = DedupKey.enforce 3;
  available_at = none;
}

enqueue_idem_example :
    IsSettled sample_env spec_of_job no_tables (enqueue sample_env spec_of_job no_tables)
enqueue_idem_example = enqueue_idem sample_env spec_of_job no_tables

enqueue-HasUniqueKeys_example :
    HasUniqueKeys
      (enqueue sample_env spec_of_job (record no_tables { outbox = waiting_job ∷ [] })).1.outbox
enqueue-HasUniqueKeys_example =
    enqueue-HasUniqueKeys sample_env spec_of_job (record no_tables { outbox = waiting_job ∷ [] })
      (tt, tt)
