-- ===== src/AccessControl/Service/Keeps.antt =====
-- What an action leaves true whether it returns or raises, by the way in which it is built.
use test_m_backend.Common.{
  sym, subst, refl, ◌≡◌, Bool, true, false, Option, none, some, if◌then◌else◌,
}
use test_m_backend.AccessControl.Models.{Error}
use test_m_backend.AccessControl.Service.Monad.{
  Session, Result, ok, err, Action, pure, raise, gets, continue, ◌>>=◌, given, guard, only_if,
}

pub record Keeps {A : Type 0} (P : Session → Type 0) (m : Action A) : Type 0 where
  pub at : (s : Session) → P s → P (m s).1

module _ {A : Type 0} {P : Session → Type 0} where
  pub Keeps-if : (c : Bool) (m n : Action A) → Keeps P m → Keeps P n → Keeps P (if c then m else n)
  Keeps-if true m n km kn = km
  Keeps-if false m n km kn = kn

  pub Keeps-option :
      {B : Type 0} (o : Option B) (m : Action A) (f : B → Action A)
      → Keeps P m
      → ((b : B) → Keeps P (f b))
      → Keeps P (given o m f)
  unfolding given
  Keeps-option none m f km kf = km
  Keeps-option (some b) m f km kf = kf b

  -- An action that writes nothing keeps everything.
  pub Keeps-still : (m : Action A) → ((s : Session) → (m s).1 ≡ s) → Keeps P m
  Keeps-still m still = record { at = λ s p. subst P (sym (still s)) p }

  pub Keeps-pure : (a : A) → Keeps P (pure a)
  Keeps-pure a = Keeps-still (pure a) (λ s. unfold pure in refl)

  pub Keeps-raise : (e : Error) → Keeps P (raise {A = A} e)
  Keeps-raise e = Keeps-still (raise e) (λ s. unfold raise in refl)

  pub Keeps-gets : (f : Session → A) → Keeps P (gets f)
  Keeps-gets f = Keeps-still (gets f) (λ s. unfold gets in refl)

module _ {A B : Type 0} {P : Session → Type 0} where
  after :
      (f : A → Action B)
      → ((a : A) → Keeps P (f a))
      → (r : Result A) (s : Session) → P s
      → P (continue r f s).1
  after f kf (err e) s p = p
  after f kf (ok a) s p = (kf a).at s p

  pub Keeps-bind :
      (m : Action A) (f : A → Action B) → Keeps P m → ((a : A) → Keeps P (f a)) → Keeps P (m >>= f)
  unfolding ◌>>=◌
  Keeps-bind m f first rest = record { at = λ s p. after f rest (m s).0 (m s).1 (first.at s p) }

module _ {P : Session → Type 0} where
  pub Keeps-guard : (b : Bool) (e : Error) → Keeps P (guard b e)
  unfolding guard
  Keeps-guard true e = record { at = λ s h. h }
  Keeps-guard false e = record { at = λ s h. h }

  pub Keeps-only_if : (b : Bool) (m : Action (Unit {0})) → Keeps P m → Keeps P (only_if b m)
  unfolding only_if
  Keeps-only_if true m k = k
  Keeps-only_if false m k = record { at = λ s h. h }

pub ruleset keeps_rules = (
  Keeps-option, Keeps-bind, Keeps-if, Keeps-gets, Keeps-raise, Keeps-pure, Keeps-guard,
  Keeps-only_if,
)
