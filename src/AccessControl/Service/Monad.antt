-- ===== src/AccessControl/Service/Monad.antt =====
-- State and exceptions, and the reads of the clock and of uuid4.
use test_m_backend.Common.{ℕ, suc, Bool, Option, none, some, if◌then◌else◌}
use test_m_backend.AccessControl.Models.{AccessRequest, Tables, Env, Error}

pub record Session : Type 0 where
  pub request : AccessRequest
  pub tables : Tables

pub data Result (A : Type 0) : Type 0 where
  ok : A → Result A
  err : Error → Result A

abbrev pub Action : Type 0 → Type 0
Action A = Session → Result A × Session

module _ {A : Type 0} where
  unfoldable pub pure : A → Action A
  pure a s = (ok a, s)

  unfoldable pub raise : Error → Action A
  raise e s = (err e, s)

  unfoldable pub gets : (Session → A) → Action A
  gets f s = (ok (f s), s)

module _ {A B : Type 0} where
  infixl 5 ◌>>=◌ ◌>>◌
  abbrev pub continue : Result A → (A → Action B) → Session → Result B × Session
  continue (ok a) f s = f a s
  continue (err e) f s = (err e, s)

  unfoldable pub ◌>>=◌ : Action A → (A → Action B) → Action B
  ◌>>=◌ m f s = let (r, s') = m s in continue r f s'

  abbrev pub ◌>>◌ : Action A → Action B → Action B
  m >> n = m >>= λ _. n

-- `if o is None: m else: f(o)`
unfoldable pub given {ℓ} :
    {A : Type 0} {B : Type ℓ} → Option B → Action A → (B → Action A) → Action A
given none m f = m
given (some b) m f = f b

-- `if not c: raise e`
unfoldable pub guard : Bool → Error → Action (Unit {0})
unfolding pure raise
guard c e = if c then pure tt else raise e

-- `if c: m`
unfoldable pub only_if : Bool → Action (Unit {0}) → Action (Unit {0})
unfolding pure
only_if c m = if c then m else pure tt

unfoldable pub modify : (AccessRequest → AccessRequest) → Action (Unit {0})
modify f s = (ok tt, record s { request = f s.request })

unfoldable pub update : (Tables → Tables) → Action (Unit {0})
update f s = (ok tt, record s { tables = f s.tables })

abbrev pub ticked : Tables → Tables
ticked t = record t { tick = suc t.tick }

-- `datetime.now(timezone.utc)`
unfoldable pub now_utc : Env → Action ℕ
now_utc env s = (ok (env.now s.tables.tick), record s { tables = ticked s.tables })

-- `uuid.uuid4().hex`
unfoldable pub uuid4 : Env → Action ℕ
uuid4 env s = (ok (env.uuid s.tables.tick), record s { tables = ticked s.tables })
