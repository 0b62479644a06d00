-- ===== src/AccessControl/Tests/Access.antt =====
-- Whole histories of one request, and the policy, at concrete inputs.
use test_m_backend.Common.{true, false, ◌≡◌, ◌≤◌, ◌↔◌, List, [], ◌∷◌}
use test_m_backend.AccessControl.Policy.Values.{Role}
use test_m_backend.AccessControl.Policy.Decide.{eligible, evaluate_access_policy}
use test_m_backend.AccessControl.Policy.Eligibility.{IsEligible}
use test_m_backend.AccessControl.Policy.Passing.{eligible_iff}
use test_m_backend.AccessControl.Policy.Limits.{
  IsCoherent, duration_bounds, evaluate_access_policy-IsCoherent,
}
use test_m_backend.AccessControl.Models.{Verdict, JobType, Error}
use test_m_backend.AccessControl.Service.Monad.{err}
use test_m_backend.AccessControl.Service.Creation.{insert_request}
use test_m_backend.AccessControl.Service.Governed.{IsGoverned}
use test_m_backend.AccessControl.Service.Consistent.{IsConsistent}
use test_m_backend.AccessControl.Reach.{
  Call, perform_all, reachable-IsGoverned, reachable-IsConsistent,
}
use test_m_backend.AccessControl.History.{perform_all-Extends}
use test_m_backend.AccessControl.History.Extension.{Extends}
use test_m_backend.AccessControl.Samples.{
  sample_env, sample-Ticking, no_tables, no_tables-IsOrderly, sample_payload, quiet, sandbox,
  new_session, sample_inputs,
}

-- Evaluated, approved by a reviewer, enforced, revoked.
abbrev life : List Call
life =
    Call.evaluation quiet false
    ∷ Call.approval "ria" Role.reviewer Verdict.approve "fine" 3
    ∷ Call.job (λ r. err Error.runtime_error) sandbox JobType.enforcement
    ∷ Call.revocation "ria" "done"
    ∷ Call.job (λ r. err Error.runtime_error) sandbox JobType.revocation
    ∷ []

reachable-IsGoverned_example :
    IsGoverned
      (perform_all sample_env life
        (insert_request sample_env "tenant" "arjun" sample_payload "key" no_tables).1).request
reachable-IsGoverned_example =
    reachable-IsGoverned sample_env "tenant" "arjun" sample_payload "key" no_tables life

reachable-IsConsistent_example : IsConsistent sample_env (
    perform_all sample_env life
      (insert_request sample_env "tenant" "arjun" sample_payload "key" no_tables).1)
reachable-IsConsistent_example =
    reachable-IsConsistent sample_env "tenant" "arjun" sample_payload "key" no_tables sample-Ticking
      no_tables-IsOrderly life

perform_all-Extends_example : Extends new_session (perform_all sample_env life new_session)
perform_all-Extends_example = perform_all-Extends sample_env life new_session

eligible_iff_example : (eligible sample_inputs ≡ true) ↔ IsEligible sample_inputs
eligible_iff_example = eligible_iff sample_inputs

duration_bounds_example :
    let d = evaluate_access_policy (λ c. "pol") sample_inputs in
    (d.maximum_duration_seconds ≤ 20000) × (d.maximum_duration_seconds ≤ 14400)
duration_bounds_example = duration_bounds (λ c. "pol") sample_inputs

evaluate_access_policy-IsCoherent_example :
    IsCoherent sample_inputs (evaluate_access_policy (λ c. "pol") sample_inputs)
evaluate_access_policy-IsCoherent_example =
    evaluate_access_policy-IsCoherent (λ c. "pol") sample_inputs
