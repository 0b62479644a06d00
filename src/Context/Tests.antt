-- ===== src/Context/Tests.antt =====
-- engine/context.py at concrete inputs: a maintenance window that approves one upload destination.
use test_m_backend.Common.{
  ℕ, ◌+◌, ◌*◌, ◌/◌, ◌%◌, ◌≤◌, ◌<◌, ◌≡◌, refl, ◌↔◌, String, none, some, List, [], ◌∷◌, arith, length,
  filter, string_eq, nat_eq, any, Exists, All,
}
use native.Mathlib.Nat.{div-add-mod, mod-lt, mul_assoc}
use test_m_backend.Common.Order.{sorted, sorted_set}
use test_m_backend.Context.Rows.{ExplanationStatus, Event, ContextLedgerEntry}
use test_m_backend.Context.Matching.{
  match_event_against_entry, present, or_else, time_match, resource_match, contains, action_match,
  destination_match, uses_destination,
}
use test_m_backend.Context.Admission.{
  InForce, AllowsAccess, AllowsDestination, explained_iff, partially_iff,
}
use test_m_backend.Context.Classify.{classify_event}
use test_m_backend.Context.Verdicts.{Judged, classify_event-Judged}
use test_m_backend.Context.Evaluate.{
  actor_history_at, Compatibility, evaluate_context_compatibility,
}
use test_m_backend.Context.Coverage.{up_to, IsRounding, evaluate-counts, evaluate-coverage}
use test_m_backend.Context.Sources.{IsApproved, evaluate-IsApproved}
use test_m_backend.Context.Reopen.{Case, check_auto_reopen}
use test_m_backend.Context.Reopened.{check_auto_reopen-settles}

abbrev window : ContextLedgerEntry
window = record {
  id = 4;
  actor_id = 1;
  valid_from = 100;
  valid_until = 900;
  effective_from = none;
  effective_until = some 500;
  allowed_resources = "ledger" ∷ [];
  allowed_actions = "external_upload" ∷ "file_download" ∷ [];
  approved_destinations = some ("vault" ∷ []);
  approval_state = "approved";
  proposed_at = some 90;
  reviewed_at = none;
}

abbrev upload : String → ℕ → Event
upload place at = record {
  id = at;
  timestamp = at;
  actor_id = 1;
  device_id = "laptop";
  action = "external_upload";
  resource_id = some "ledger";
  resource_classification = some "internal";
  destination = some place;
}

abbrev entries : List ContextLedgerEntry
entries = window ∷ []

-- to the approved place, to another, and after the window
abbrev events : List Event
events = upload "vault" 200 ∷ upload "drive" 300 ∷ upload "vault" 600 ∷ []

explained_iff_example :
    ((match_event_against_entry (upload "vault" 200) window).status ≡ ExplanationStatus.explained)
    ↔ (InForce (upload "vault" 200) window
        × AllowsAccess (upload "vault" 200) window
        × AllowsDestination (upload "vault" 200) window)
explained_iff_example = explained_iff (upload "vault" 200) window

partially_iff_example :
    ((match_event_against_entry (upload "drive" 300) window).status
      ≡ ExplanationStatus.partially_explained)
    ↔ (InForce (upload "drive" 300) window
        × AllowsAccess (upload "drive" 300) window
        × ¬ AllowsDestination (upload "drive" 300) window)
partially_iff_example = partially_iff (upload "drive" 300) window

classify_event-Judged_example :
    ((classify_event (upload "drive" 300) entries 0).status ≡ ExplanationStatus.partially_explained)
    ↔ Judged (upload "drive" 300) entries 0 ExplanationStatus.partially_explained
classify_event-Judged_example =
    classify_event-Judged (upload "drive" 300) entries 0 ExplanationStatus.partially_explained

abbrev nearest : ℕ → ℕ → ℕ
nearest a b = (20000 * a + b) / (2 * b)

nearest-IsRounding : IsRounding nearest
nearest-IsRounding a b h =
    let whole = div-add-mod (20000 * a + b) (2 * b) in
    let part : (20000 * a + b) % (2 * b) < 2 * b = mod-lt (20000 * a + b) (omega arith) in
    let double = mul_assoc 2 b (nearest a b) in (omega arith, omega arith)

abbrev report : Compatibility
report = evaluate_context_compatibility nearest events entries 1000 1 events (some 500)

evaluate-counts_example :
    (report.counts.explained + report.counts.partially_explained + report.counts.unexplained
        + report.counts.indeterminate
      ≡ report.counts.total)
    × (report.counts.total ≡ length (filter (up_to (some 500)) events))
evaluate-counts_example = evaluate-counts nearest events entries 1000 1 events (some 500)

evaluate-coverage_example :
    let n : ℕ = 2 * report.counts.total in
    let credit : ℕ = 2 * report.counts.explained + report.counts.partially_explained in
    (report.c_t ≤ 10000)
    × (2 * (n * report.c_t) ≤ 20000 * credit + n)
    × (20000 * credit ≤ 2 * (n * report.c_t) + n)
evaluate-coverage_example =
    evaluate-coverage nearest events entries 1000 1 events (some 500) nearest-IsRounding

evaluate-IsApproved_example :
    All
      (λ k. Exists (λ (s : ContextLedgerEntry). (s.id ≡ k) × IsApproved 1 report.as_of s) entries)
      report.matched_context_ids
evaluate-IsApproved_example = evaluate-IsApproved nearest events entries 1000 1 events (some 500)

abbrev resolved : Case
resolved = record { id = 9; actor_id = 1; status = "resolved"; matched_context_ids = 4 ∷ [] }

check_auto_reopen-settles_example :
    let left : List Case = (check_auto_reopen events entries 1 events (resolved ∷ [])).1 in
    check_auto_reopen events entries 1 events left ≡ ([], left)
check_auto_reopen-settles_example =
    check_auto_reopen-settles events entries 1 events (resolved ∷ [])

report_runs : (report.c_t ≡ 7500) × (report.matched_context_ids ≡ 4 ∷ [])
unfolding evaluate_context_compatibility sorted filter classify_event present actor_history_at
    or_else time_match match_event_against_entry resource_match contains any action_match
    destination_match uses_destination sorted_set
report_runs = (refl, refl)
