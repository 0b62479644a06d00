-- ===== src/AccessControl/Worker/Preserved.antt =====
-- Every job of access_control/worker.py keeps its session consistent.
use test_m_backend.Common.{Bool}
use test_m_backend.AccessControl.Models.{
  AiStatus, ReviewResult, AccessAiReview, AccessRequest, JobType, Env,
}
use test_m_backend.AccessControl.Audit.Chain.{Ticking}
use test_m_backend.AccessControl.Enforcement.{EnforcementProvider}
use test_m_backend.AccessControl.Service.Monad.{Result, Action, modify, update}
use test_m_backend.AccessControl.Service.Keeps.{Keeps, keeps_rules}
use test_m_backend.AccessControl.Service.Consistent.{enqueue-IsOrderly}
use test_m_backend.AccessControl.Service.Preserved.{
  Safe, transition-Safe, update-Safe, notify-Safe, now_utc-Safe, uuid4-Safe, update_grant-Safe,
}
use test_m_backend.AccessControl.Worker.{
  call, review_added, reviewed, conclude_review, process_ai, confirm, activate_grant,
  process_enforcement, withdraw, process_revoke, process_job,
}

pub Keeps-call : {A : Type 0} {P : _} (r : Result A) → Keeps P (call r)
unfolding call
Keeps-call r = record { at = λ s h. h }

module _ (env : Env) (ticking : Ticking env) where
  review_added-Safe : (row : AccessAiReview) → Safe env ticking (update (review_added row))
  unfolding update review_added
  review_added-Safe row = record {
    at = λ s h. record {
      history = h.history;
      orderly = record {
        chained = record {
          ascending = h.orderly.chained.ascending;
          verified = h.orderly.chained.verified;
        };
        past = h.orderly.past;
        keys = h.orderly.keys;
        sound = h.orderly.sound;
      };
    };
  }

  reviewed-Safe : (status : AiStatus) → Safe env ticking (modify (reviewed status))
  unfolding modify reviewed
  reviewed-Safe status = record { at = λ s h. record { history = h.history; orderly = h.orderly } }

  ruleset job_rules = (
    keeps_rules, Keeps-call, transition-Safe, update-Safe, notify-Safe, now_utc-Safe, uuid4-Safe,
    update_grant-Safe, enqueue-IsOrderly, review_added-Safe, reviewed-Safe,
  )

  process_ai-Safe :
      (review : AccessRequest → Result ReviewResult) → Safe env ticking (process_ai env review)
  unfolding process_ai conclude_review
  process_ai-Safe review = search (job_rules, ticking) depth 40

  process_enforcement-Safe :
      (provider : EnforcementProvider) → Safe env ticking (process_enforcement env provider)
  unfolding process_enforcement activate_grant confirm
  process_enforcement-Safe provider = search (job_rules, ticking) depth 40

  process_revoke-Safe :
      (provider : EnforcementProvider) (expired : Bool)
      → Safe env ticking (process_revoke env provider expired)
  unfolding process_revoke withdraw
  process_revoke-Safe provider expired = search (job_rules, ticking) depth 40

  pub process_job-Safe :
      (review : AccessRequest → Result ReviewResult) (provider : EnforcementProvider)
      (deliver : Action (Unit {0})) (job : JobType)
      → Safe env ticking deliver
      → Safe env ticking (process_job env review provider deliver job)
  unfolding process_job
  process_job-Safe review provider deliver JobType.ai_review h = process_ai-Safe review
  process_job-Safe review provider deliver JobType.enforcement h = process_enforcement-Safe provider
  process_job-Safe review provider deliver JobType.revocation h = process_revoke-Safe provider _
  process_job-Safe review provider deliver JobType.expiry h = process_revoke-Safe provider _
  process_job-Safe review provider deliver JobType.notification h = h
  process_job-Safe review provider deliver (JobType.other _) h = search keeps_rules
