-- ===== src/Context/Reopen.antt =====
-- engine/context.py: the cases that new events reopen.
use test_m_backend.Common.{
  ℕ, String, Bool, ◌&&◌, ◌||◌, List, [], map, ◌==◌, nat_eq, string_eq, if◌then◌else◌, leb, any,
  filter, no_items,
}
use test_m_backend.Common.Order.{sorted}
use test_m_backend.Context.Rows.{ExplanationStatus, Event, ContextLedgerEntry}
use test_m_backend.Context.Classify.{classify_event, entry_before}
use test_m_backend.Context.Evaluate.{event_before, actor_history_at, latest_or, has_status}

-- a row of the cases, of what this code reads and writes
pub record Case : Type 0 where
  pub id : ℕ
  pub actor_id : ℕ
  pub status : String
  pub matched_context_ids : List ℕ

unfoldable pub is_resolved_case : ℕ → Case → Bool
is_resolved_case actor_id c = (c.actor_id == actor_id) && (c.status == "resolved")

unfoldable pub approved_for : List ContextLedgerEntry → ℕ → List ContextLedgerEntry
approved_for ledger actor_id = sorted entry_before (
    filter
      (λ (e : ContextLedgerEntry). (e.actor_id == actor_id) && (e.approval_state == "approved"))
      ledger)

-- the entries that explained the case, or all where none is left
unfoldable pub relevant : List ContextLedgerEntry → Case → List ContextLedgerEntry
unfolding no_items
relevant entries c =
    let prior : List ContextLedgerEntry =
      filter (λ (e : ContextLedgerEntry). any (λ k. k == e.id) c.matched_context_ids) entries in
    if no_items prior then entries else prior

-- the loop over the new events
unfoldable pub outside : List Event → List ContextLedgerEntry → ℕ → List Event → Case → Bool
unfolding relevant event_before latest_or has_status approved_for
outside table ledger actor_id news c =
    let ordered : List Event = sorted event_before news in
    let history : ℕ = actor_history_at table actor_id (latest_or 0 ordered) in
    any
      (λ e.
        has_status ExplanationStatus.unexplained
          (classify_event e (relevant (approved_for ledger actor_id) c) history))
      ordered

unfoldable pub reopen : Case → Case
reopen c = record c { status = "reopened" }

unfoldable pub id_before : Case → Case → Bool
id_before a b = leb a.id b.id

-- The cases that it returns, and the table of cases that it leaves.
unfoldable pub check_auto_reopen :
    List Event → List ContextLedgerEntry → ℕ → List Event → List Case → List Case × List Case
unfolding is_resolved_case outside reopen id_before
check_auto_reopen table ledger actor_id news cases =
    let resolved : List Case = sorted id_before (filter (is_resolved_case actor_id) cases) in
    if no_items resolved || no_items news then ([], cases) else (
      map reopen (filter (outside table ledger actor_id news) resolved),
      map
          (λ c.
            if is_resolved_case actor_id c && outside table ledger actor_id news c
            then reopen c
            else c)
          cases,
    )
