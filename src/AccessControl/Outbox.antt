-- ===== src/AccessControl/Outbox.antt =====
-- access_control/outbox.py: the transactional outbox. The functions act on the tables; a row that
-- the code holds and changes is changed where it stands in the table, found by its identifier.
pub mod Lifecycle
pub mod Claims
pub mod Unique
use test_m_backend.Common.{
  ℕ, zero, suc, ◌+◌, ◌^◌, min, String, ◌≡◌, ◌↔◌, refl, Bool, true, false, ◌&&◌, ◌||◌, Option, none,
  some, List, [], ◌∷◌, ◌++◌, map, arith, ltb, leb, ◌==◌, Eq, nat_eq, string_eq, any, filter, find,
  if◌then◌else◌,
}
use test_m_backend.Common.Order.{sorted}
use test_m_backend.AccessControl.Audit.{time_or}
use test_m_backend.AccessControl.Models.{
  AggregateType, JobType, Payload, DedupKey, JobStatus, Error, Job, Env, Tables, seconds,
}

abbrev pub dedup_beq : DedupKey → DedupKey → Bool
dedup_beq (DedupKey.notify a) (DedupKey.notify b) = a == b
dedup_beq (DedupKey.enforce a) (DedupKey.enforce b) = a == b
dedup_beq (DedupKey.expire a) (DedupKey.expire b) = a == b
dedup_beq (DedupKey.ai_review a v) (DedupKey.ai_review b w) = a == b && v == w
dedup_beq (DedupKey.revoke a v) (DedupKey.revoke b w) = a == b && v == w
dedup_beq _ _ = false

pub dedup_beq_iff : (k l : DedupKey) → (dedup_beq k l ≡ true) ↔ (k ≡ l)
dedup_beq_iff k l = ground arith

instance abbrev pub dedup_eq : Eq DedupKey
dedup_eq = record { equal = dedup_beq; equal_iff = dedup_beq_iff }

-- What `enqueue` is called with.
pub record JobSpec : Type 0 where
  pub tenant_id : String
  pub aggregate_type : AggregateType
  pub aggregate_id : ℕ
  pub job_type : JobType
  pub payload : Payload
  pub deduplication_key : DedupKey
  pub available_at : Option ℕ

unfoldable pub has_key : String → DedupKey → Job → Bool
has_key tenant key j = j.tenant_id == tenant && j.deduplication_key == key

unfoldable pub new_job : Env → JobSpec → Tables → Job
unfolding time_or
new_job env s t = record {
  id = env.uuid t.tick;
  tenant_id = s.tenant_id;
  aggregate_type = s.aggregate_type;
  aggregate_id = s.aggregate_id;
  job_type = s.job_type;
  payload = s.payload;
  status = JobStatus.pending;
  attempts = 0;
  available_at = time_or s.available_at (env.now t.tick);
  locked_by = none;
  lease_expires_at = none;
  last_error = none;
  deduplication_key = s.deduplication_key;
  processed_at = none;
}

unfoldable pub enqueue : Env → JobSpec → Tables → Job × Tables
enqueue env s t = elim (find (has_key s.tenant_id s.deduplication_key) t.outbox) [
  | some existing ↦ (existing, t)
  | none ↦
      let j = new_job env s t in (j, record t { outbox = t.outbox ++ j ∷ []; tick = suc t.tick })
]

-- `status in ("pending", "retry")`
unfoldable pub is_waiting : JobStatus → Bool
is_waiting JobStatus.pending = true
is_waiting JobStatus.retry = true
is_waiting _ = false

-- `lease_expires_at is None or lease_expires_at < timestamp`
unfoldable pub is_unleased : Option ℕ → ℕ → Bool
is_unleased none now = true
is_unleased (some expiry) now = ltb expiry now

unfoldable pub is_claimable : ℕ → Job → Bool
unfolding is_waiting is_unleased
is_claimable now j =
    is_waiting j.status && (leb j.available_at now && is_unleased j.lease_expires_at now)

-- `order_by(available_at, id)`
unfoldable pub due_before : Job → Job → Bool
due_before a b =
    ltb a.available_at b.available_at || (a.available_at == b.available_at && leb a.id b.id)

-- `limit(n)`
unfoldable pub take {ℓ} : {A : Type ℓ} → ℕ → List A → List A
take zero xs = []
take (suc n) [] = []
take (suc n) (x ∷ xs) = x ∷ take n xs

unfoldable pub claim : String → ℕ → ℕ → Job → Job
claim worker now lease j = record j {
  status = JobStatus.processing;
  locked_by = some worker;
  lease_expires_at = some (now + seconds lease);
  attempts = j.attempts + 1;
}

-- The rows that the query returns.
unfoldable pub due_jobs : ℕ → ℕ → List Job → List Job
due_jobs limit now js = take limit (sorted due_before (filter (is_claimable now) js))

-- A change of the rows whose identifiers are listed.
unfoldable pub update_jobs : (Job → Job) → List Job → List Job → List Job
update_jobs f rows [] = []
update_jobs f rows (j ∷ js) =
    (if any (λ r. r.id == j.id) rows then f j else j) ∷ update_jobs f rows js

unfoldable pub claim_jobs : String → ℕ → ℕ → ℕ → List Job → List Job × List Job
claim_jobs worker limit now lease js =
    let rows = due_jobs limit now js in
    (map (claim worker now lease) rows, update_jobs (claim worker now lease) rows js)

unfoldable pub complete_job : ℕ → Job → Job
complete_job now j = record j {
  status = JobStatus.completed;
  processed_at = some now;
  locked_by = none;
  lease_expires_at = none;
  last_error = none;
}

unfoldable pub retry_job : Error → ℕ → Job → Job
retry_job error now j = record j {
  status = if ltb j.attempts 5 then JobStatus.retry else JobStatus.failed;
  available_at = now + seconds (min 300 (2 ^ j.attempts));
  locked_by = none;
  lease_expires_at = none;
  last_error = some error;
}
