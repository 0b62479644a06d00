-- ===== src/Context/Matching.antt =====
-- engine/context.py: one event against one entry of the context ledger.
use test_m_backend.Common.{
  ℕ, ◌*◌, ◌/◌, String, Bool, true, false, ◌&&◌, ◌||◌, not, Option, none, some, List, [], ◌∷◌, ◌==◌,
  string_eq, if◌then◌else◌, leb, ltb, any, filter, length,
}
use test_m_backend.Context.Rows.{
  ExplanationStatus, Event, ContextLedgerEntry, Criterion, by_time, by_resource, by_action,
  by_destination, Match,
}

-- `a or b` for a value whose only false case is its absence
unfoldable pub or_else {ℓ} : {A : Type ℓ} → Option A → A → A
or_else none b = b
or_else (some a) b = a

-- a text that Python takes as true
unfoldable pub present : Option String → Option String
present none = none
present (some text) = if text == "" then none else some text

unfoldable pub contains : List String → String → Bool
contains xs x = any (λ a. a == x) xs

unfoldable pub time_match : Event → ContextLedgerEntry → Bool
unfolding or_else
time_match event entry =
    leb (or_else entry.effective_from entry.valid_from) event.timestamp
    && leb event.timestamp (or_else entry.effective_until entry.valid_until)

-- an empty list does not constrain
unfoldable pub allows : List String → String → Option Bool
allows [] x = none
allows (a ∷ rest) x = some (contains (a ∷ rest) x)

unfoldable pub resource_match : Event → ContextLedgerEntry → Option Bool
unfolding allows
resource_match event entry = elim (present event.resource_id) [
  | none ↦ none
  | some resource ↦ allows entry.allowed_resources resource
]

unfoldable pub action_match : Event → ContextLedgerEntry → Option Bool
action_match event entry = allows entry.allowed_actions event.action

unfoldable pub uses_destination : String → Bool
uses_destination name = (name == "external_upload") || (name == "file_download")

-- here an empty list approves nothing
unfoldable pub approves : Option (List String) → String → Option Bool
approves none x = none
approves (some []) x = some false
approves (some (a ∷ rest)) x = some (contains (a ∷ rest) x)

unfoldable pub destination_match : Event → ContextLedgerEntry → Option Bool
unfolding approves
destination_match event entry = elim (present event.destination) [
  | none ↦ none
  | some place ↦
      if not (uses_destination event.action)
      then none
      else approves entry.approved_destinations place
]

-- the loop over the named results; the time, a plain Boolean, counts as `some`
unfoldable pub applicable : List (Criterion × Option Bool) → List Criterion
applicable [] = []
applicable ((c, none) ∷ rest) = applicable rest
applicable ((c, some v) ∷ rest) = c ∷ applicable rest

unfoldable pub matched : List (Criterion × Option Bool) → List Criterion
matched [] = []
matched ((c, some true) ∷ rest) = c ∷ matched rest
matched ((c, v) ∷ rest) = matched rest

unfoldable pub is_time : Criterion → Bool
is_time by_time = true
is_time _ = false

unfoldable pub same : Criterion → Criterion → Bool
same by_time by_time = true
same by_resource by_resource = true
same by_action by_action = true
same by_destination by_destination = true
same _ _ = false

-- `x is False`
unfoldable pub is_false : Option Bool → Bool
is_false (some false) = true
is_false _ = false

-- the share of the constraints that matched; there are at most three, so a sixth divides it
unfoldable pub by_ratio : List Criterion → List Criterion → ExplanationStatus × ℕ
unfolding same
by_ratio [] hits = (ExplanationStatus.explained, 6)
by_ratio (c ∷ rest) hits =
    let total : ℕ = length (c ∷ rest) in
    let count : ℕ = length (filter (λ k. any (same k) hits) (c ∷ rest)) in
    if leb total count
    then (ExplanationStatus.explained, 6)
    else if ltb 0 count
    then (ExplanationStatus.partially_explained, 6 * count / total)
    else (ExplanationStatus.unexplained, 0)

unfoldable pub judge : Bool → Option Bool → Option Bool → Option Bool → ExplanationStatus × ℕ
unfolding is_false by_ratio applicable matched is_time
judge time res act dest =
    let results : List (Criterion × Option Bool) =
      (by_time, some time) ∷ (by_resource, res) ∷ (by_action, act) ∷ (by_destination, dest) ∷ [] in
    if not time
    then (ExplanationStatus.unexplained, 0)
    else if is_false res || is_false act
    then (ExplanationStatus.unexplained, 0)
    else if is_false dest && (not (is_false res) && not (is_false act))
    then (ExplanationStatus.partially_explained, 3)
    else by_ratio (filter (λ c. not (is_time c)) (applicable results)) (matched results)

unfoldable pub match_event_against_entry : Event → ContextLedgerEntry → Match
unfolding judge
match_event_against_entry event entry =
    let time : Bool = time_match event entry in
    let res : Option Bool = resource_match event entry in
    let act : Option Bool = action_match event entry in
    let dest : Option Bool = destination_match event entry in
    let results : List (Criterion × Option Bool) =
      (by_time, some time) ∷ (by_resource, res) ∷ (by_action, act) ∷ (by_destination, dest) ∷ [] in
    record {
      entry_id = entry.id;
      time_match = time;
      resource_match = res;
      action_match = act;
      destination_match = dest;
      applicable = applicable results;
      matched = matched results;
      status = (judge time res act dest).0;
      score = (judge time res act dest).1;
      late_context =
          ltb event.timestamp
            (or_else entry.reviewed_at (or_else entry.proposed_at entry.valid_from));
    }
