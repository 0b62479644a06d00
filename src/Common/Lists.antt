-- ===== src/Common/Lists.antt =====
-- Lists: Boolean search, conditional entries, and their laws.
use Prim.Native.Nat.{ℕ, suc, ◌+◌}
use mathlib.Core.Path.{◌≡◌, refl, ap}
use mathlib.Core.Logic.{◌↔◌, ◌⊎◌, inl, inr}
use mathlib.Core.Bool.{Bool, true, false, ◌&&◌, ◌||◌}
use mathlib.Core.Option.{Option, none, some}
use mathlib.Core.List.{List, [], ◌∷◌, ◌++◌, map}
use native.Mathlib.Omega.{arith}
use test_m_backend.Common.Tests.{if◌then◌else◌, Bool-cases}

abbrev pub length {ℓ} : {A : Type ℓ} → List A → ℕ
length [] = 0
length (x ∷ xs) = suc (length xs)

module _ {ℓ} {A : Type ℓ} where
  -- `any(p(x) for x in xs)`
  unfoldable pub any : (A → Bool) → List A → Bool
  any p [] = false
  any p (x ∷ xs) = p x || any p xs

  -- `all(p(x) for x in xs)`
  unfoldable pub all : (A → Bool) → List A → Bool
  all p [] = true
  all p (x ∷ xs) = p x && all p xs

  -- `[x for x in xs if p(x)]`
  unfoldable pub filter : (A → Bool) → List A → List A
  filter p [] = []
  filter p (x ∷ xs) = let rest = filter p xs in if p x then x ∷ rest else rest

  -- `next((x for x in xs if p(x)), None)`
  unfoldable pub find : (A → Bool) → List A → Option A
  find p [] = none
  find p (x ∷ xs) = let rest = find p xs in if p x then some x else rest

  -- `if c: xs.append(x)`, as the part that the statement adds
  unfoldable pub when : Bool → A → List A
  when c x = if c then x ∷ [] else []

  pub length-append : (xs ys : List A) → length (xs ++ ys) ≡ length xs + length ys
  length-append [] ys = omega arith
  length-append (x ∷ xs) ys = omega (arith, length-append xs ys)

  pub length-map {κ} : {B : Type κ} (f : A → B) (xs : List A) → length (map f xs) ≡ length xs
  length-map f [] = refl
  length-map f (x ∷ xs) = ap suc (length-map f xs)

  -- Some element has the property.
  abbrev pub Exists : (A → Type 0) → List A → Type 0
  Exists P [] = ⊥
  Exists P (x ∷ xs) = P x ⊎ Exists P xs

  -- Every element has the property.
  abbrev pub All {κ} : (A → Type κ) → List A → Type κ
  All P [] = Unit
  All P (x ∷ xs) = P x × All P xs

  pub Exists-any : (p : A → Bool) (xs : List A) → any p xs ≡ true → Exists (λ x. p x ≡ true) xs
  unfolding any
  Exists-any p [] h = cc
  Exists-any p (x ∷ xs) h = elim (Bool-cases (p x)) [
    | inl e ↦ inl e
    | inr e ↦ inr (Exists-any p xs (rw e at h))
  ]

  pub any-Exists : (p : A → Bool) (xs : List A) → Exists (λ x. p x ≡ true) xs → any p xs ≡ true
  unfolding any
  any-Exists p [] h = elim h [ ]
  any-Exists p (x ∷ xs) (inl e) = rw e
  any-Exists p (x ∷ xs) (inr h) = ground (arith, any-Exists p xs h)

  pub Exists-map :
      (P Q : A → Type 0) (xs : List A) → ((x : A) → P x → Q x) → Exists P xs → Exists Q xs
  Exists-map P Q [] f h = elim h [ ]
  Exists-map P Q (x ∷ xs) f (inl p) = inl (f x p)
  Exists-map P Q (x ∷ xs) f (inr h) = inr (Exists-map P Q xs f h)

  pub any-filter :
      (p q : A → Bool) (xs : List A)
      → (any q (filter p xs) ≡ true) ↔ Exists (λ x. (p x ≡ true) × (q x ≡ true)) xs
  unfolding any filter
  any-filter p q [] = (λ h. cc, λ h. elim h [ ])
  any-filter p q (x ∷ xs) = ground (arith, any-filter p q xs)

  pub Exists-last : (P : A → Type 0) (xs : List A) (y : A) → P y → Exists P (xs ++ y ∷ [])
  Exists-last P [] y p = inl p
  Exists-last P (x ∷ xs) y p = inr (Exists-last P xs y p)

  pub Exists-append : (P : A → Type 0) (xs ys : List A) → Exists P xs → Exists P (xs ++ ys)
  Exists-append P [] ys h = elim h [ ]
  Exists-append P (x ∷ xs) ys (inl p) = inl p
  Exists-append P (x ∷ xs) ys (inr h) = inr (Exists-append P xs ys h)

  pub All-append {κ} : (P : A → Type κ) (xs ys : List A) → All P xs → All P ys → All P (xs ++ ys)
  All-append P [] ys h k = k
  All-append P (x ∷ xs) ys h k = (h.0, All-append P xs ys h.1 k)

  pub All-map {κ μ} :
      (P : A → Type κ) (Q : A → Type μ) (xs : List A) → ((x : A) → P x → Q x) → All P xs → All Q xs
  All-map P Q [] f h = tt
  All-map P Q (x ∷ xs) f h = (f x h.0, All-map P Q xs f h.1)

  pub filter-append :
      (p : A → Bool) (xs ys : List A) → filter p (xs ++ ys) ≡ filter p xs ++ filter p ys
  unfolding filter
  filter-append p [] ys = refl
  filter-append p (x ∷ xs) ys = ground (arith, filter-append p xs ys)

  pub All-filter {κ} :
      (P : A → Type κ) (p : A → Bool) (xs : List A) → All P xs → All P (filter p xs)
  unfolding filter
  All-filter P p [] h = tt
  All-filter P p (x ∷ xs) h =
      elim (p x) as (λ b. All P (if b then x ∷ filter p xs else filter p xs)) [
        | true ↦ (h.0, All-filter P p xs h.1)
        | false ↦ All-filter P p xs h.1
      ]

  -- A conditional entry leaves the list empty exactly when its condition and the rest do.
  pub when-append-nil :
      (c : Bool) (x : A) (xs : List A) → (when c x ++ xs ≡ []) ↔ ((c ≡ false) × (xs ≡ []))
  unfolding when
  when-append-nil c x xs = ground arith
