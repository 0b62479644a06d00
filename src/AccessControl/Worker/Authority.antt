-- ===== src/AccessControl/Worker/Authority.antt =====
-- Every job of access_control/worker.py keeps its request governed.
use test_m_backend.Common.{ℕ, true, Bool, String, ◌≡◌, refl, Option}
use test_m_backend.AccessControl.Models.{
  Workflow, Metadata, Tables, NotificationType, AiStatus, ReviewResult, Enforcement, AccessRequest,
  JobType, Env,
}
use test_m_backend.AccessControl.Enforcement.{EnforcementProvider}
use test_m_backend.AccessControl.Service.Monad.{Result, Action, modify, update, now_utc, uuid4}
use test_m_backend.AccessControl.Service.Transition.{transition, notify}
use test_m_backend.AccessControl.Service.Keeps.{Keeps, keeps_rules}
use test_m_backend.AccessControl.Service.Methods.{update_grant}
use test_m_backend.AccessControl.Service.Stays.{
  is_plain, Stays, plain-Stays, update-Stays, notify-Stays, now_utc-Stays, uuid4-Stays,
  regrant-Stays,
}
use test_m_backend.AccessControl.Service.Authority.{Governed, Anything, anything_stable, forget}
use test_m_backend.AccessControl.Worker.{
  reviewed, with_enforcement, activated, conclude_review, process_ai, confirm, activate_grant,
  process_enforcement, withdraw, process_revoke, process_job,
}
use test_m_backend.AccessControl.Worker.Preserved.{Keeps-call}

module _ (env : Env) where
  abbrev Holds : {A : Type 0} → Action A → Type 0
  Holds = Stays env Anything anything_stable

  reviewed-Stays : (status : AiStatus) → Holds (modify (reviewed status))
  unfolding modify reviewed
  reviewed-Stays status = record {
    at = λ s h. (
      record {
        independent = h.0.independent;
        ruled = h.0.ruled;
        least = h.0.least;
        cleared = h.0.cleared;
        backed = h.0.backed;
      },
      tt,
    );
  }

  with_enforcement-Stays :
      (state : Enforcement) → Holds (modify (update_grant (with_enforcement state)))
  unfolding with_enforcement
  with_enforcement-Stays state =
      regrant-Stays env Anything anything_stable _ (λ g. (refl, refl, refl, refl))

  activated-Stays :
      (reference : String) (time : ℕ) → Holds (modify (update_grant (activated reference time)))
  unfolding activated
  activated-Stays reference time =
      regrant-Stays env Anything anything_stable _ (λ g. (refl, refl, refl, refl))

  plain-Holds :
      (state : Workflow) (actor : String) (reason : Option String) (metadata : Metadata)
      → is_plain state ≡ true
      → Holds (transition env state actor reason metadata)
  plain-Holds = plain-Stays env Anything anything_stable

  update-Holds : (f : Tables → Tables) → Holds (update f)
  update-Holds = update-Stays env Anything anything_stable

  notify-Holds : (kind : NotificationType) (recipient : String) → Holds (notify env kind recipient)
  notify-Holds = notify-Stays env Anything anything_stable

  now_utc-Holds : Holds (now_utc env)
  now_utc-Holds = now_utc-Stays env Anything anything_stable

  uuid4-Holds : Holds (uuid4 env)
  uuid4-Holds = uuid4-Stays env Anything anything_stable

  ruleset job_rules = (
    keeps_rules, Keeps-call, update-Holds, notify-Holds, now_utc-Holds, uuid4-Holds, reviewed-Stays,
    with_enforcement-Stays, activated-Stays, plain-Holds, refl,
  )

  process_ai-Holds : (review : AccessRequest → Result ReviewResult) → Holds (process_ai env review)
  unfolding process_ai conclude_review
  process_ai-Holds review = search job_rules depth 40

  process_enforcement-Holds :
      (provider : EnforcementProvider) → Holds (process_enforcement env provider)
  unfolding process_enforcement activate_grant confirm
  process_enforcement-Holds provider = search job_rules depth 40

  process_revoke-Holds :
      (provider : EnforcementProvider) (expired : Bool)
      → Holds (process_revoke env provider expired)
  unfolding process_revoke withdraw
  process_revoke-Holds provider expired = search job_rules depth 40

  pub process_job-Governed :
      (review : AccessRequest → Result ReviewResult) (provider : EnforcementProvider)
      (deliver : Action (Unit {0})) (job : JobType)
      → Keeps Governed deliver
      → Keeps Governed (process_job env review provider deliver job)
  unfolding process_job
  process_job-Governed review provider deliver JobType.ai_review h =
      forget env _ (process_ai-Holds review)
  process_job-Governed review provider deliver JobType.enforcement h =
      forget env _ (process_enforcement-Holds provider)
  process_job-Governed review provider deliver JobType.revocation h =
      forget env _ (process_revoke-Holds provider _)
  process_job-Governed review provider deliver JobType.expiry h =
      forget env _ (process_revoke-Holds provider _)
  process_job-Governed review provider deliver JobType.notification h = h
  process_job-Governed review provider deliver (JobType.other _) h = search keeps_rules
