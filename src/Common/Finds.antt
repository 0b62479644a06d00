-- ===== src/Common/Finds.antt =====
-- Searches of lists: what they find, and what their tests mean.
use mathlib.Core.Path.{◌≡◌, refl, ap, subst}
use mathlib.Core.Logic.{◌↔◌, inl, inr}
use mathlib.Core.Bool.{Bool, true}
use mathlib.Core.Option.{none, some, some-injective}
use mathlib.Core.List.{List, [], ◌∷◌, ◌++◌, map}
use native.Mathlib.Omega.{arith}
use test_m_backend.Common.Tests.{Bool-cases}
use test_m_backend.Common.Lists.{any, all, find, Exists, All, Exists-map, Exists-any, any-Exists}

pub find-true : {A : Type 0} (p : A → Bool) (xs : List A) (x : A) → find p xs ≡ some x → p x ≡ true
unfolding find
find-true p [] x h = absurd (cc h)
find-true p (y ∷ ys) x h = elim (Bool-cases (p y)) [
  | inl e ↦ subst (λ z. p z ≡ true) (some-injective _ _ (rw e at h)) e
  | inr e ↦ find-true p ys x (rw e at h)
]

pub find-mapped :
    {A : Type 0} (p : A → Bool) (f : A → A) (xs : List A) (x : A)
    → ((y : A) → p (f y) ≡ p y)
    → find p xs ≡ some x
    → find p (map f xs) ≡ some (f x)
unfolding find
find-mapped p f [] x k h = absurd (cc h)
find-mapped p f (y ∷ ys) x k h = elim (Bool-cases (p y)) [
  | inl e ↦ rw (k y, e) (ap (λ z. some (f z)) (some-injective _ _ (rw e at h)))
  | inr e ↦ rw (k y, e) (find-mapped p f ys x k (rw e at h))
]

pub find-kept :
    {A : Type 0} (p : A → Bool) (f : A → A) (xs : List A) (x : A)
    → ((y : A) → p y ≡ true → p (f y) ≡ true)
    → find p xs ≡ some x
    → (z : A) × (find p (map f xs) ≡ some z)
unfolding find
find-kept p f [] x k h = absurd (cc h)
find-kept p f (y ∷ ys) x k h = elim (Bool-cases (p (f y))) [
  | inl e ↦ (f y, rw e refl)
  | inr e ↦ elim (Bool-cases (p y)) [
    | inl d ↦ absurd (let w = k y d in cc)
    | inr d ↦ let rest = find-kept p f ys x k (rw d at h) in (rest.0, rw e rest.1)
  ]
]

pub find-snoc :
    {A : Type 0} (p : A → Bool) (xs : List A) (y : A)
    → find p xs ≡ none
    → p y ≡ true
    → find p (xs ++ y ∷ []) ≡ some y
unfolding find
find-snoc p [] y h e = rw e refl
find-snoc p (x ∷ xs) y h e = elim (Bool-cases (p x)) [
  | inl k ↦ absurd (let w = rw k at h in cc)
  | inr k ↦ rw k (find-snoc p xs y (rw k at h) e)
]

pub find-none :
    {A : Type 0} (p : A → Bool) (xs : List A) → (find p xs ≡ none) ↔ (¬ Exists (λ x. p x ≡ true) xs)
unfolding find
find-none p [] = (λ _ h. elim h [ ], λ _. refl)
find-none p (x ∷ xs) = ground (arith, find-none p xs)

pub any_iff :
    {A : Type 0} (p : A → Bool) (P : A → Type 0) (xs : List A)
    → ((x : A) → (p x ≡ true) ↔ P x)
    → (any p xs ≡ true) ↔ Exists P xs
any_iff p P xs h = (
  λ e. Exists-map _ _ xs (λ x. (h x).0) (Exists-any p xs e),
  λ e. any-Exists p xs (Exists-map _ _ xs (λ x. (h x).1) e),
)

pub all_iff :
    {A : Type 0} (p : A → Bool) (P : A → Type 0) (xs : List A)
    → ((x : A) → (p x ≡ true) ↔ P x)
    → (all p xs ≡ true) ↔ All P xs
unfolding all
all_iff p P [] h = (λ _. tt, λ _. refl)
all_iff p P (x ∷ xs) h = ground (arith, h x, all_iff p P xs h)
