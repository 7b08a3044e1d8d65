-- ===== src/Exec/Fallible.antt =====
-- Python functions that may raise and keep no state: the results of Exec, one after the other.
use vanpilot.Prelude.{◌≡◌, refl, Option, none, some, Bool, true, false, if◌then◌else◌}
use vanpilot.Exec.{Exn, Result, ok, err}

module _ {A B : Type 0} where
  infixl 10 ◌>>=◌
  abbrev pub ◌>>=◌ : Result A → (A → Result B) → Result B
  ok a >>= f = f a
  err e >>= f = err e

-- What a chain that returns has computed.
module _ {A B : Type 0} where
  pub bind_ok :
      (r : Result A) (f : A → Result B) (b : B)
      → (r >>= f) ≡ ok b
      → (a : A) × (r ≡ ok a) × (f a ≡ ok b)
  bind_ok (ok a) f b h = (a, refl, h)
  bind_ok (err e) f b h = cc

module _ {A : Type 0} where
  -- the branch of a guard that returns is the one with no exception
  pub guard_ok :
      (c : Bool) (e : Exn) (r : Result A) (a : A)
      → (if c then err e else r) ≡ ok a
      → (c ≡ false) × (r ≡ ok a)
  guard_ok true e r a h = cc
  guard_ok false e r a h = (refl, h)

module _ {A : Type 0} where
  -- a value that may be missing, and the exception where it is
  abbrev pub require : Exn → Option A → Result A
  require e none = err e
  require e (some a) = ok a
