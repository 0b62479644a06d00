-- ===== src/Context/Admission.antt =====
-- What it means that an entry explains an event, apart from how engine/context.py decides it.
use test_m_backend.Common.{
  ℕ, ◌≤◌, ◌≡◌, refl, ◌↔◌, ◌⊎◌, inl, inr, String, Bool, true, false, ◌&&◌, not, if◌then◌else◌,
  Option, none, some, List, [], ◌∷◌, arith, Exists, Exists-any, any-Exists, any, filter, string_eq,
  Bool-cases, subst, Exists-map, eq_of_==, ==_self,
}
use mathlib.Core.Option.{some-injective}
use test_m_backend.Context.Rows.{ExplanationStatus, Event, ContextLedgerEntry}
use test_m_backend.Context.Matching.{
  or_else, present, contains, time_match, allows, resource_match, action_match, uses_destination,
  approves, destination_match, is_false, judge, match_event_against_entry,
}

-- The answer of `judge`: what the ratio of matched constraints decides is never in between.
abbrev verdict : Bool → Option Bool → Option Bool → Option Bool → ExplanationStatus × ℕ
verdict time res act dest =
    if time && (not (is_false res) && not (is_false act))
    then (if is_false dest
        then (ExplanationStatus.partially_explained, 3)
        else (ExplanationStatus.explained, 6))
    else (ExplanationStatus.unexplained, 0)

judge_lem :
    (time : Bool) (res act dest : Option Bool) → judge time res act dest ≡ verdict time res act dest
unfolding judge filter any
judge_lem false res act dest = refl
judge_lem true (some false) act dest = refl
judge_lem true none (some false) dest = refl
judge_lem true (some true) (some false) dest = refl
judge_lem true none none none = refl
judge_lem true none none (some true) = refl
judge_lem true none none (some false) = refl
judge_lem true none (some true) none = refl
judge_lem true none (some true) (some true) = refl
judge_lem true none (some true) (some false) = refl
judge_lem true (some true) none none = refl
judge_lem true (some true) none (some true) = refl
judge_lem true (some true) none (some false) = refl
judge_lem true (some true) (some true) none = refl
judge_lem true (some true) (some true) (some true) = refl
judge_lem true (some true) (some true) (some false) = refl

judge-explained :
    (time : Bool) (res act dest : Option Bool)
    → ((judge time res act dest).0 ≡ ExplanationStatus.explained)
      ↔ ((time ≡ true) × (is_false res ≡ false) × (is_false act ≡ false) × (is_false dest ≡ false))
unfolding is_false
judge-explained time res act dest = rw (judge_lem time res act dest) (ground arith)

judge-partially :
    (time : Bool) (res act dest : Option Bool)
    → ((judge time res act dest).0 ≡ ExplanationStatus.partially_explained)
      ↔ ((time ≡ true) × (is_false res ≡ false) × (is_false act ≡ false) × (is_false dest ≡ true))
unfolding is_false
judge-partially time res act dest = rw (judge_lem time res act dest) (ground arith)

-- A list of allowed values holds the value; an empty one allows any.
abbrev pub Within : List String → String → Type 0
Within allowed x = (allowed ≡ []) ⊎ Exists (λ a. a ≡ x) allowed

contains_iff : (xs : List String) (x : String) → (contains xs x ≡ true) ↔ Exists (λ a. a ≡ x) xs
unfolding contains
contains_iff xs x = (
  λ h. Exists-map _ _ xs (λ a. eq_of_== a x) (Exists-any _ xs h),
  λ h. any-Exists _ xs (Exists-map _ _ xs (λ a e. rw e (==_self x)) h),
)

allows_iff : (xs : List String) (x : String) → (is_false (allows xs x) ≡ false) ↔ Within xs x
unfolding allows is_false
allows_iff [] x = (λ _. inl refl, λ _. refl)
allows_iff (a ∷ rest) x = elim (Bool-cases (contains (a ∷ rest) x)) [
  | inl e ↦ (λ _. inr ((contains_iff (a ∷ rest) x).0 e), λ _. rw e refl)
  | inr e ↦
      (λ h. cc, λ w. elim w [ inl k ↦ cc | inr k ↦ absurd (cc ((contains_iff (a ∷ rest) x).1 k)) ])
]

-- An approved list holds the value; an empty one holds none, and an absent one is no constraint.
abbrev pub Approved : Option (List String) → String → Type 0
Approved places x = (ds : List String) → places ≡ some ds → Exists (λ a. a ≡ x) ds

approves_iff :
    (o : Option (List String)) (x : String) → (is_false (approves o x) ≡ false) ↔ Approved o x
unfolding approves is_false
approves_iff none x = (λ _ ds e. cc, λ _. refl)
approves_iff (some []) x = (λ h. cc, λ w. absurd (elim (w [] refl) [ ]))
approves_iff (some (a ∷ rest)) x = elim (Bool-cases (contains (a ∷ rest) x)) [
  | inl e ↦ (
    λ _ ds k. subst (Exists (λ b. b ≡ x)) (some-injective _ _ k) ((contains_iff (a ∷ rest) x).0 e),
    λ _. rw e refl,
  )
  | inr e ↦ (λ h. cc, λ w. absurd (cc ((contains_iff (a ∷ rest) x).1 (w _ refl))))
]

-- The entry is in force at the time of the event, which its effective dates tell where it has any.
abbrev pub InForce : Event → ContextLedgerEntry → Type 0
InForce event entry =
    (or_else entry.effective_from entry.valid_from ≤ event.timestamp)
    × (event.timestamp ≤ or_else entry.effective_until entry.valid_until)

-- It allows the resource, where the event names one, and the action.
abbrev pub AllowsAccess : Event → ContextLedgerEntry → Type 0
AllowsAccess event entry =
    ((r : String) → present event.resource_id ≡ some r → Within entry.allowed_resources r)
    × Within entry.allowed_actions event.action

-- It approves the destination, where the event names one and its action sends data there.
abbrev pub AllowsDestination : Event → ContextLedgerEntry → Type 0
AllowsDestination event entry =
    (d : String)
    → present event.destination ≡ some d
    → uses_destination event.action ≡ true
    → Approved entry.approved_destinations d

pub time_match_iff :
    (event : Event) (entry : ContextLedgerEntry)
    → (time_match event entry ≡ true) ↔ InForce event entry
unfolding time_match
time_match_iff event entry = ground arith

action_match_iff :
    (event : Event) (entry : ContextLedgerEntry)
    → (is_false (action_match event entry) ≡ false) ↔ Within entry.allowed_actions event.action
unfolding action_match
action_match_iff event entry = allows_iff entry.allowed_actions event.action

-- A constraint on a value that may be absent.
guarded_iff :
    (o : Option String) (f : String → Option Bool) (W : String → Type 0)
    → ((x : String) → (is_false (f x) ≡ false) ↔ W x)
    → (is_false (elim o [ none ↦ none | some x ↦ f x ]) ≡ false) ↔ ((x : String) → o ≡ some x → W x)
unfolding is_false
guarded_iff none f W h = (λ _ x k. cc, λ _. refl)
guarded_iff (some a) f W h =
    (λ e x k. subst W (some-injective _ _ k) ((h a).0 e), λ w. (h a).1 (w a refl))

resource_match_iff :
    (event : Event) (entry : ContextLedgerEntry)
    → (is_false (resource_match event entry) ≡ false)
      ↔ ((r : String) → present event.resource_id ≡ some r → Within entry.allowed_resources r)
unfolding resource_match
resource_match_iff event entry =
    guarded_iff (present event.resource_id) _ _ (allows_iff entry.allowed_resources)

when_used :
    (used : Bool) (o : Option (List String)) (x : String)
    → (is_false (if not used then none else approves o x) ≡ false) ↔ (used ≡ true → Approved o x)
unfolding is_false
when_used true o x = (λ h _. (approves_iff o x).0 h, λ w. (approves_iff o x).1 (w refl))
when_used false o x = (λ _ k. cc, λ _. refl)

destination_match_iff :
    (event : Event) (entry : ContextLedgerEntry)
    → (is_false (destination_match event entry) ≡ false) ↔ AllowsDestination event entry
unfolding destination_match
destination_match_iff event entry =
    guarded_iff (present event.destination) _ _
      (when_used (uses_destination event.action) entry.approved_destinations)

pub AllowsDestination-cases :
    (event : Event) (entry : ContextLedgerEntry)
    → AllowsDestination event entry ⊎ ¬ AllowsDestination event entry
AllowsDestination-cases event entry = elim (Bool-cases (is_false (destination_match event entry))) [
  | inl e ↦ inr (λ h. let k = (destination_match_iff event entry).1 h in cc)
  | inr e ↦ inl ((destination_match_iff event entry).0 e)
]

-- An event is explained by an entry exactly when the entry is in force at the event's time, allows
-- its resource and its action, and approves its destination.
pub explained_iff :
    (event : Event) (entry : ContextLedgerEntry)
    → ((match_event_against_entry event entry).status ≡ ExplanationStatus.explained)
      ↔ (InForce event entry × AllowsAccess event entry × AllowsDestination event entry)
unfolding match_event_against_entry
explained_iff event entry = ground (
  arith,
  judge-explained (time_match event entry) (resource_match event entry) (action_match event entry)
      (destination_match event entry),
  time_match_iff event entry,
  resource_match_iff event entry,
  action_match_iff event entry,
  destination_match_iff event entry,
)

-- An event is partly explained by an entry exactly when the entry is in force at the event's time and
-- allows its resource and its action, and does not approve its destination.
pub partially_iff :
    (event : Event) (entry : ContextLedgerEntry)
    → ((match_event_against_entry event entry).status ≡ ExplanationStatus.partially_explained)
      ↔ (InForce event entry × AllowsAccess event entry × ¬ AllowsDestination event entry)
unfolding match_event_against_entry
partially_iff event entry = ground (
  arith,
  judge-partially (time_match event entry) (resource_match event entry) (action_match event entry)
      (destination_match event entry),
  time_match_iff event entry,
  resource_match_iff event entry,
  action_match_iff event entry,
  destination_match_iff event entry,
  Bool-cases (is_false (destination_match event entry)),
)

-- The score that goes with a status.
abbrev pub score_of : ExplanationStatus → ℕ
score_of ExplanationStatus.explained = 6
score_of ExplanationStatus.partially_explained = 3
score_of _ = 0

pub score_lem :
    (event : Event) (entry : ContextLedgerEntry)
    → (match_event_against_entry event entry).score
      ≡ score_of (match_event_against_entry event entry).status
unfolding match_event_against_entry is_false
score_lem event entry =
    rw
      (judge_lem (time_match event entry) (resource_match event entry) (action_match event entry)
        (destination_match event entry))
      (ground arith)

-- One entry leaves no event indeterminate.
pub match-decides :
    (event : Event) (entry : ContextLedgerEntry)
    → (match_event_against_entry event entry).status ≡ ExplanationStatus.indeterminate
    → ⊥
unfolding match_event_against_entry is_false
match-decides event entry =
    rw
      (judge_lem (time_match event entry) (resource_match event entry) (action_match event entry)
        (destination_match event entry))
      (ground arith)
