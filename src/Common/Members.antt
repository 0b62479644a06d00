-- ===== src/Common/Members.antt =====
-- Lists: what filters, maps and searches keep, find and leave out.
use mathlib.Core.Path.{◌≡◌, refl}
use mathlib.Core.Logic.{◌↔◌, inl, inr}
use mathlib.Core.Bool.{Bool, true, false, ◌&&◌}
use mathlib.Core.List.{List, [], ◌∷◌, map}
use native.Mathlib.Omega.{arith}
use test_m_backend.Common.Tests.{if◌then◌else◌, Bool-cases}
use test_m_backend.Common.Lists.{filter, Exists, All, All-map}

module _ {A : Type 0} where
  -- What a filter keeps is an element of the list that passes the test.
  pub filter-members :
      (p : A → Bool) (xs : List A)
      → All (λ x. Exists (λ y. (y ≡ x) × (p y ≡ true)) xs) (filter p xs)
  unfolding filter
  filter-members p [] = tt
  filter-members p (x ∷ xs) =
      let rest =
        All-map _ (λ a. Exists (λ y. (y ≡ a) × (p y ≡ true)) (x ∷ xs)) (filter p xs) (λ a h. inr h)
          (filter-members p xs) in
      keep (p x) refl rest
    where
      keep :
          (b : Bool)
          → p x ≡ b
          → All (λ a. Exists (λ y. (y ≡ a) × (p y ≡ true)) (x ∷ xs)) (filter p xs)
          → All
              (λ a. Exists (λ y. (y ≡ a) × (p y ≡ true)) (x ∷ xs))
              (if b then x ∷ filter p xs else filter p xs)
      keep true e rest = (inl (refl, e), rest)
      keep false e rest = rest

  pub All-mapped :
      {B : Type 0} (Q : B → Type 0) (f : A → B) (xs : List A)
      → All (λ x. Q (f x)) xs
      → All Q (map f xs)
  All-mapped Q f [] h = tt
  All-mapped Q f (x ∷ xs) h = (h.0, All-mapped Q f xs h.1)

pub Exists-filter :
    {A : Type 0} (P : A → Type 0) (p : A → Bool) (xs : List A)
    → Exists P (filter p xs) ↔ Exists (λ x. (p x ≡ true) × P x) xs
unfolding filter
Exists-filter P p [] = (λ h. h, λ h. h)
Exists-filter P p (x ∷ xs) = elim (Bool-cases (p x)) [
  | inl e ↦ rw e (ground (arith, Exists-filter P p xs))
  | inr e ↦ rw e (ground (arith, Exists-filter P p xs))
]

pub Exists-elim :
    {A : Type 0} {R : Type 0} (P : A → Type 0) (xs : List A) → ((x : A) → P x → R) → Exists P xs → R
Exists-elim P [] f h = elim h [ ]
Exists-elim P (x ∷ xs) f (inl p) = f x p
Exists-elim P (x ∷ xs) f (inr h) = Exists-elim P xs f h

pub filter-none :
    {A : Type 0} (p : A → Bool) (xs : List A) → All (λ x. p x ≡ false) xs → filter p xs ≡ []
unfolding filter
filter-none p [] h = refl
filter-none p (x ∷ xs) h = rw h.0 (filter-none p xs h.1)

pub filter-quiet :
    {A : Type 0} (p q : A → Bool) (xs : List A)
    → All (λ x. (p x && q x) ≡ false) xs
    → All (λ x. q x ≡ false) (filter p xs)
unfolding filter
filter-quiet p q [] h = tt
filter-quiet p q (x ∷ xs) h = by_test (p x) h.0 (filter-quiet p q xs h.1)
  where
    by_test :
        (b : Bool)
        → (b && q x) ≡ false
        → All (λ y. q y ≡ false) (filter p xs)
        → All (λ y. q y ≡ false) (if b then x ∷ filter p xs else filter p xs)
    by_test true k rest = (k, rest)
    by_test false k rest = rest

-- `not xs`
unfoldable pub no_items {ℓ} : {A : Type ℓ} → List A → Bool
no_items [] = true
no_items (_ ∷ _) = false

pub no_items_iff {ℓ} : {A : Type ℓ} (xs : List A) → (no_items xs ≡ true) ↔ (xs ≡ [])
unfolding no_items
no_items_iff [] = (λ _. refl, λ _. refl)
no_items_iff (x ∷ xs) = (λ h. cc, λ h. cc)

pub filter-no_items :
    {A : Type 0} (p : A → Bool) (xs : List A)
    → (no_items (filter p xs) ≡ true) ↔ (¬ Exists (λ x. p x ≡ true) xs)
unfolding no_items filter
filter-no_items p [] = (λ _ h. elim h [ ], λ _. refl)
filter-no_items p (x ∷ xs) = ground (arith, filter-no_items p xs)

module _ {A : Type 0} where
  -- Each element is in the list.
  pub own-members : (xs : List A) → All (λ x. Exists (λ y. y ≡ x) xs) xs
  own-members [] = tt
  own-members (x ∷ xs) = (inl refl, All-map _ _ xs (λ y h. inr h) (own-members xs))

  -- What holds where the test does, holds of all that the filter keeps.
  pub All-filter_when :
      (p : A → Bool) (Q : A → Type 0) (xs : List A)
      → All (λ x. p x ≡ true → Q x) xs
      → All Q (filter p xs)
  unfolding filter
  All-filter_when p Q [] h = tt
  All-filter_when p Q (x ∷ xs) h = by_test (p x) refl (All-filter_when p Q xs h.1)
    where
      by_test :
          (b : Bool)
          → p x ≡ b
          → All Q (filter p xs)
          → All Q (if b then x ∷ filter p xs else filter p xs)
      by_test true e rest = (h.0 e, rest)
      by_test false e rest = rest
