-- ===== src/Response/Controls.antt =====
-- engine/response_policy.py: what the tests for an equivalent and for a conflicting control mean.
use test_m_backend.Common.{
  ◌≡◌, ◌↔◌, ◌⊎◌, String, Bool, true, ◌&&◌, ◌||◌, List, string_eq, arith, Exists, All, Exists-map,
  any_iff, all_iff, find, find-none, none,
}
use test_m_backend.Response.Sandbox.{Status}
use test_m_backend.Response.Policy.{Existing}
use test_m_backend.Response.Decide.{
  in_effect, has_item, same_scope, conflict_pair, share_value, duplicates, conflicts,
}

-- Authorised, approved, being executed or active.
abbrev pub IsInEffect : Status → Type 0
IsInEffect s =
    (s ≡ Status.auto_authorized)
    ⊎ (s ≡ Status.approved)
    ⊎ (s ≡ Status.executing)
    ⊎ (s ≡ Status.active)

-- The list has an item with this key and this value.
abbrev pub HasItem : List (String × String) → String × String → Type 0
HasItem items p = Exists (λ (q : String × String). (q.0 ≡ p.0) × (q.1 ≡ p.1)) items

-- Each scope has the items of the other.
abbrev pub IsSameScope : List (String × String) → List (String × String) → Type 0
IsSameScope a b = All (HasItem b) a × All (HasItem a) b

-- The same action on the same scope, in effect.
abbrev pub IsEquivalent : String → List (String × String) → Existing → Type 0
IsEquivalent requested scope x =
    (x.action_type ≡ requested) × IsSameScope x.target_scope scope × IsInEffect x.status

-- The two actions must not be in effect together.
abbrev pub IsConflictPair : String → String → Type 0
IsConflictPair a b =
    ((a ≡ "step_up_auth") × ((b ≡ "revoke_session") ⊎ (b ≡ "disable_account")))
    ⊎ ((b ≡ "disable_account") × ((a ≡ "revoke_session") ⊎ (a ≡ "isolate_device")))

-- Some value of one scope is a value of the other.
abbrev pub HasCommonValue : List (String × String) → List (String × String) → Type 0
HasCommonValue a b =
    Exists (λ (p : String × String). Exists (λ (q : String × String). q.1 ≡ p.1) b) a

-- In effect, of an action that conflicts with the requested one, on a common value of the scopes unless
-- one of the two disables the account.
abbrev pub IsConflicting : String → List (String × String) → Existing → Type 0
IsConflicting requested scope x =
    IsInEffect x.status
    × ((IsConflictPair requested x.action_type ⊎ IsConflictPair x.action_type requested)
        × (HasCommonValue scope x.target_scope
            ⊎ ((requested ≡ "disable_account") ⊎ (x.action_type ≡ "disable_account"))))

module _ {a b : Bool} {P Q : Type 0} where
  both_iff : (a ≡ true) ↔ P → (b ≡ true) ↔ Q → ((a && b) ≡ true) ↔ (P × Q)
  both_iff h k = ground (arith, h, k)

  either_iff : (a ≡ true) ↔ P → (b ≡ true) ↔ Q → ((a || b) ≡ true) ↔ (P ⊎ Q)
  either_iff h k = ground (arith, h, k)

in_effect_iff : (s : Status) → (in_effect s ≡ true) ↔ IsInEffect s
unfolding in_effect
in_effect_iff Status.proposed = ground arith
in_effect_iff Status.auto_authorized = ground arith
in_effect_iff Status.awaiting_approval = ground arith
in_effect_iff Status.approved = ground arith
in_effect_iff Status.executing = ground arith
in_effect_iff Status.active = ground arith
in_effect_iff Status.expired = ground arith
in_effect_iff Status.rolled_back = ground arith
in_effect_iff Status.failed = ground arith
in_effect_iff Status.rejected = ground arith

has_item_iff :
    (items : List (String × String)) (p : String × String)
    → (has_item items p ≡ true) ↔ HasItem items p
unfolding has_item
has_item_iff items p = any_iff _ _ items (λ (q : String × String).
    ground (arith, string_eq.equal_iff q.0 p.0, string_eq.equal_iff q.1 p.1))

same_scope_iff : (a b : List (String × String)) → (same_scope a b ≡ true) ↔ IsSameScope a b
unfolding same_scope
same_scope_iff a b = ground (
  arith,
  all_iff (has_item b) (HasItem b) a (has_item_iff b),
  all_iff (has_item a) (HasItem a) b (has_item_iff a),
)

pub duplicates_iff :
    (requested : String) (scope : List (String × String)) (x : Existing)
    → (duplicates requested scope x ≡ true) ↔ IsEquivalent requested scope x
unfolding duplicates
duplicates_iff requested scope x = ground (
  arith,
  string_eq.equal_iff x.action_type requested,
  same_scope_iff x.target_scope scope,
  in_effect_iff x.status,
)

conflict_pair_iff : (a b : String) → (conflict_pair a b ≡ true) ↔ IsConflictPair a b
unfolding conflict_pair
conflict_pair_iff a b = ground (
  arith,
  string_eq.equal_iff a "step_up_auth",
  string_eq.equal_iff a "revoke_session",
  string_eq.equal_iff a "isolate_device",
  string_eq.equal_iff b "revoke_session",
  string_eq.equal_iff b "disable_account",
)

share_value_iff : (a b : List (String × String)) → (share_value a b ≡ true) ↔ HasCommonValue a b
unfolding share_value
share_value_iff a b =
    any_iff _ _ a (λ (p : String × String).
      any_iff _ _ b (λ (q : String × String). string_eq.equal_iff q.1 p.1))

pub conflicts_iff :
    (requested : String) (scope : List (String × String)) (x : Existing)
    → (conflicts requested scope x ≡ true) ↔ IsConflicting requested scope x
unfolding conflicts
conflicts_iff requested scope x = both_iff (in_effect_iff x.status) (
    both_iff
      (either_iff (conflict_pair_iff requested x.action_type)
        (conflict_pair_iff x.action_type requested))
      (either_iff (share_value_iff scope x.target_scope) (
        either_iff (string_eq.equal_iff requested "disable_account")
          (string_eq.equal_iff x.action_type "disable_account"))))

-- The search finds nothing exactly when no control has the property that its test decides.
pub find-without :
    (p : Existing → Bool) (P : Existing → Type 0) (xs : List Existing)
    → ((x : Existing) → (p x ≡ true) ↔ P x)
    → (find p xs ≡ none) ↔ (¬ Exists P xs)
find-without p P xs h = ground (
  arith,
  find-none p xs,
  Exists-map (λ x. p x ≡ true) P xs (λ x. (h x).0),
  Exists-map P (λ x. p x ≡ true) xs (λ x. (h x).1),
)
