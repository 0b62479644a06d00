-- ===== src/Common/Order.antt =====
-- `sorted(xs, key=...)` and `sorted(set(xs))`, as insertion into a sorted list.
use mathlib.Core.Path.{◌≡◌, refl}
use mathlib.Core.Logic.{◌↔◌, ◌⊎◌}
use mathlib.Core.Bool.{Bool, true, false}
use mathlib.Core.List.{List, [], ◌∷◌, ◌++◌}
use native.Mathlib.Omega.{arith}
use Prim.Native.Nat.{ℕ, suc, Ordering}
use Prim.Native.String.{String, compare}
use test_m_backend.Common.Tests.{if◌then◌else◌, leb}
use test_m_backend.Common.Lists.{
  All, Exists, Exists-any, any-Exists, Exists-map, any, All-filter, filter, length,
}

module _ {ℓ} {A : Type ℓ} where
  -- Python's sort is stable: an element goes behind those that `before` puts no later.
  unfoldable pub insert : (A → A → Bool) → A → List A → List A
  insert before a [] = a ∷ []
  insert before a (x ∷ xs) =
      let rest = insert before a xs in if before a x then a ∷ x ∷ xs else x ∷ rest

  unfoldable pub sorted : (A → A → Bool) → List A → List A
  unfolding insert
  sorted before [] = []
  sorted before (x ∷ xs) = insert before x (sorted before xs)

  -- Each element stands strictly before all that follow it.
  abbrev pub Ascending : (A → A → Bool) → List A → Type 0
  Ascending before [] = Unit
  Ascending before (x ∷ xs) = All (λ y. before x y ≡ true) xs × Ascending before xs

  insert-least :
      (before : A → A → Bool) (a : A) (xs : List A)
      → All (λ y. before a y ≡ true) xs
      → insert before a xs ≡ a ∷ xs
  unfolding insert
  insert-least before a [] h = refl
  insert-least before a (x ∷ xs) h = rw h.0

  -- A list that ascends is sorted already.
  pub sorted_of_Ascending :
      (before : A → A → Bool) (xs : List A) → Ascending before xs → sorted before xs ≡ xs
  unfolding sorted
  sorted_of_Ascending before [] h = refl
  sorted_of_Ascending before (x ∷ xs) h =
      rw (sorted_of_Ascending before xs h.1) (insert-least before x xs h.0)

  pub Ascending-snoc :
      (before : A → A → Bool) (xs : List A) (a : A)
      → Ascending before xs
      → All (λ y. before y a ≡ true) xs
      → Ascending before (xs ++ a ∷ [])
  Ascending-snoc before [] a h k = (tt, tt)
  Ascending-snoc before (x ∷ xs) a h k = (All-snoc xs h.0, Ascending-snoc before xs a h.1 k.1)
    where
      All-snoc :
          (ys : List A)
          → All (λ y. before x y ≡ true) ys
          → All (λ y. before x y ≡ true) (ys ++ a ∷ [])
      All-snoc [] _ = (k.0, tt)
      All-snoc (y ∷ ys) p = (p.0, All-snoc ys p.1)

  pub Ascending-filter :
      (before : A → A → Bool) (p : A → Bool) (xs : List A)
      → Ascending before xs
      → Ascending before (filter p xs)
  unfolding filter
  Ascending-filter before p [] h = tt
  Ascending-filter before p (x ∷ xs) h =
      elim (p x) as (λ b. Ascending before (if b then x ∷ filter p xs else filter p xs)) [
        | true ↦ (All-filter (λ y. before x y ≡ true) p xs h.0, Ascending-filter before p xs h.1)
        | false ↦ Ascending-filter before p xs h.1
      ]

module _ {ℓ} {A : Type ℓ} where
  -- `sorted(set(xs))`; two values that are each no later than the other are one.
  unfoldable pub insert_once : (A → A → Bool) → A → List A → List A
  insert_once before a [] = a ∷ []
  insert_once before a (x ∷ xs) =
      let rest = insert_once before a xs in
      if before a x then (if before x a then x ∷ xs else a ∷ x ∷ xs) else x ∷ rest

  unfoldable pub sorted_set : (A → A → Bool) → List A → List A
  unfolding insert_once
  sorted_set before [] = []
  sorted_set before (x ∷ xs) = insert_once before x (sorted_set before xs)

  insert_once-ne-nil :
      (before : A → A → Bool) (a : A) (xs : List A) → insert_once before a xs ≡ [] → ⊥
  unfolding insert_once
  insert_once-ne-nil before a [] h = cc
  insert_once-ne-nil before a (x ∷ xs) h = ground arith

  pub nil_of_sorted_set :
      (before : A → A → Bool) (xs : List A) → sorted_set before xs ≡ [] → xs ≡ []
  unfolding sorted_set
  nil_of_sorted_set before [] h = refl
  nil_of_sorted_set before (x ∷ xs) h =
      absurd (insert_once-ne-nil before x (sorted_set before xs) h)

  pub sorted_set-nil : (before : A → A → Bool) → sorted_set before [] ≡ []
  unfolding sorted_set
  sorted_set-nil before = refl

-- The order of values by a number, and that of texts.
unfoldable pub by_rank {ℓ} : {A : Type ℓ} → (A → ℕ) → A → A → Bool
by_rank rank a b = leb (rank a) (rank b)

unfoldable pub text_before : String → String → Bool
text_before a b = elim (compare a b) [ Ordering.gt ↦ false | _ ↦ true ]

module _ {ℓ} {A : Type ℓ} where
  Exists-insert :
      (P : A → Type 0) (before : A → A → Bool) (a : A) (xs : List A)
      → Exists P (insert before a xs) ↔ (P a ⊎ Exists P xs)
  unfolding insert
  Exists-insert P before a [] = (λ h. h, λ h. h)
  Exists-insert P before a (x ∷ xs) =
      elim (before a x)
        as (λ b.
          Exists P (if b then a ∷ x ∷ xs else x ∷ insert before a xs)
          ↔ (P a ⊎ (P x ⊎ Exists P xs))) [
            | true ↦ (λ h. h, λ h. h)
            | false ↦ ground (arith, Exists-insert P before a xs)
          ]

  -- Sorting keeps the elements.
  pub Exists-sorted :
      (P : A → Type 0) (before : A → A → Bool) (xs : List A)
      → Exists P (sorted before xs) ↔ Exists P xs
  unfolding sorted
  Exists-sorted P before [] = (λ h. h, λ h. h)
  Exists-sorted P before (x ∷ xs) =
      ground (arith, Exists-insert P before x (sorted before xs), Exists-sorted P before xs)

  length-insert :
      (before : A → A → Bool) (a : A) (xs : List A) → length (insert before a xs) ≡ suc (length xs)
  unfolding insert
  length-insert before a [] = refl
  length-insert before a (x ∷ xs) = ground (arith, length-insert before a xs)

  pub length-sorted : (before : A → A → Bool) (xs : List A) → length (sorted before xs) ≡ length xs
  unfolding sorted
  length-sorted before [] = refl
  length-sorted before (x ∷ xs) =
      omega (arith, length-insert before x (sorted before xs), length-sorted before xs)

  All-insert :
      (P : A → Type 0) (before : A → A → Bool) (a : A) (xs : List A)
      → P a
      → All P xs
      → All P (insert before a xs)
  unfolding insert
  All-insert P before a [] p h = (p, tt)
  All-insert P before a (x ∷ xs) p h =
      elim (before a x) as (λ b. All P (if b then a ∷ x ∷ xs else x ∷ insert before a xs)) [
        | true ↦ (p, h)
        | false ↦ (h.0, All-insert P before a xs p h.1)
      ]

  pub All-sorted :
      (P : A → Type 0) (before : A → A → Bool) (xs : List A) → All P xs → All P (sorted before xs)
  unfolding sorted
  All-sorted P before [] h = tt
  All-sorted P before (x ∷ xs) h =
      All-insert P before x (sorted before xs) h.0 (All-sorted P before xs h.1)

  All-insert_once :
      (P : A → Type 0) (before : A → A → Bool) (a : A) (xs : List A)
      → P a
      → All P xs
      → All P (insert_once before a xs)
  unfolding insert_once
  All-insert_once P before a [] p h = (p, tt)
  All-insert_once P before a (x ∷ xs) p h =
      elim (before a x)
        as (λ b. All P (
          if b then (if before x a then x ∷ xs else a ∷ x ∷ xs) else x ∷ insert_once before a xs)) [
            | true ↦ elim (before x a) as (λ b. All P (if b then x ∷ xs else a ∷ x ∷ xs)) [
              | true ↦ h
              | false ↦ (p, h)
            ]
            | false ↦ (h.0, All-insert_once P before a xs p h.1)
          ]

  pub All-sorted_set :
      (P : A → Type 0) (before : A → A → Bool) (xs : List A)
      → All P xs
      → All P (sorted_set before xs)
  unfolding sorted_set
  All-sorted_set P before [] h = tt
  All-sorted_set P before (x ∷ xs) h =
      All-insert_once P before x (sorted_set before xs) h.0 (All-sorted_set P before xs h.1)

pub any-sorted :
    {A : Type 0} (p : A → Bool) (P : A → Type 0) (before : A → A → Bool) (xs : List A)
    → ((x : A) → (p x ≡ true) ↔ P x)
    → (any p (sorted before xs) ≡ true) ↔ Exists P xs
any-sorted p P before xs h = (
  λ e. Exists-map _ _ xs (λ x. (h x).0) ((Exists-sorted _ before xs).0 (Exists-any p _ e)),
  λ e. any-Exists p _ ((Exists-sorted _ before xs).1 (Exists-map _ _ xs (λ x. (h x).1) e)),
)
