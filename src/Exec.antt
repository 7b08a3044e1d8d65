-- ===== src/Exec.antt =====
-- Python methods that mutate shared objects and may raise: what was written before a raise stays
-- written, so the state comes back beside the exception. `try` is `catch`, `finally` is `ensure`.
pub mod Keeps
pub mod Fallible
pub mod Clock
use vanpilot.Prelude.{
  ◌≡◌, ◌⊎◌, inl, inr, refl, Bool, true, false, Option, none, some, if◌then◌else◌,
}

-- The codes of `grpc.StatusCode` that the program uses.
pub data Status : Type 0 where
  invalid_argument already_exists not_found failed_precondition resource_exhausted internal : Status

-- The exception classes that the program raises or tells apart. Messages are not modelled.
-- `aborted` is what `context.abort` raises; `out_of_fuel` is no exception of Python, it marks a
-- loop of the model that was given too few rounds.
pub data Exn : Type 0 where
  runtime_error value_error key_error attribute_error type_error timeout_error : Exn
  file_not_found os_error timeout_expired called_process_error : Exn
  index_error struct_error zlib_error zero_division_error : Exn
  aborted : Status → Exn
  out_of_fuel : Exn

pub data Result (A : Type 0) : Type 0 where
  ok : A → Result A
  err : Exn → Result A

pub Result-cases : {A : Type 0} (r : Result A) → ((e : Exn) × (r ≡ err e)) ⊎ ((a : A) × (r ≡ ok a))
Result-cases (ok a) = inr (a, refl)
Result-cases (err e) = inl (e, refl)

-- `except OSError`, which is the base of `FileNotFoundError` and `TimeoutError`
abbrev pub is_os_error : Exn → Bool
is_os_error os_error = true
is_os_error file_not_found = true
is_os_error timeout_error = true
is_os_error _ = false

abbrev pub Exec : Type 0 → Type 0 → Type 0
Exec S A = S → Result A × S

module _ {S A : Type 0} where
  unfoldable pub pure : A → Exec S A
  pure a s = (ok a, s)

  unfoldable pub raise : Exn → Exec S A
  raise e s = (err e, s)

  unfoldable pub gets : (S → A) → Exec S A
  gets f s = (ok (f s), s)

  -- a value or an exception that is already there
  unfoldable pub lift : Result A → Exec S A
  lift r s = (r, s)

  abbrev pub handler : Result A → (Exn → Exec S A) → Exec S A
  handler (ok a) h s = (ok a, s)
  handler (err e) h s = h e s

  -- `try: m except ...: h`; a handler re-raises what it does not name
  unfoldable pub catch : Exec S A → (Exn → Exec S A) → Exec S A
  catch m h s = let (r, s') = m s in handler r h s'

module _ {S A B : Type 0} where
  -- `if x is None: m else: f(x)`
  unfoldable pub on_option : Option A → Exec S B → (A → Exec S B) → Exec S B
  on_option none m f = m
  on_option (some a) m f = f a

module _ {S : Type 0} where
  unfoldable pub modify : (S → S) → Exec S (Unit {0})
  modify f s = (ok tt, f s)

module _ {S A B : Type 0} where
  abbrev pub continue : Result A → (A → Exec S B) → Exec S B
  continue (ok a) f s = f a s
  continue (err e) f s = (err e, s)

  infixl 10 ◌>>=◌ ◌>>◌
  unfoldable pub ◌>>=◌ : Exec S A → (A → Exec S B) → Exec S B
  unfolding pure raise gets lift catch modify on_option
  ◌>>=◌ m f s = let (r, s') = m s in continue r f s'

  pub bind_ok :
      (m : Exec S A) (f : A → Exec S B) {s s' : S} {a : A} → m s ≡ (ok a, s') → (m >>= f) s ≡ f a s'
  unfolding ◌>>=◌
  bind_ok m f h = rw (h, continue) refl

  pub bind_err :
      (m : Exec S A) (f : A → Exec S B) {s s' : S} {e : Exn}
      → m s ≡ (err e, s')
      → (m >>= f) s ≡ (err e, s')
  unfolding ◌>>=◌
  bind_err m f h = rw (h, continue) refl

  -- Changing the result does not change the state.
  pub bind-pure : (m : Exec S A) (f : A → B) (s : S) → ((m >>= λ a. pure (f a)) s).1 ≡ (m s).1
  unfolding ◌>>=◌
  bind-pure m f s = let (r, s') = m s in case_of r s'
    where
      case_of : (r : Result A) (s' : S) → (continue r (λ a. pure (f a)) s').1 ≡ s'
      case_of (ok a) s' = refl
      case_of (err e) s' = refl

  abbrev pub ◌>>◌ : Exec S A → Exec S B → Exec S B
  m >> n = m >>= λ _. n

module _ {S : Type 0} where
  -- `if c: m`
  abbrev pub when : Bool → Exec S (Unit {0}) → Exec S (Unit {0})
  when c m = if c then m else pure tt

  -- `except Exception: pass`
  abbrev pub swallow : Exec S (Unit {0}) → Exec S (Unit {0})
  swallow m = catch m (λ _. pure tt)

  -- `except OSError: pass`
  abbrev pub swallow_os : Exec S (Unit {0}) → Exec S (Unit {0})
  swallow_os m = catch m (λ e. if is_os_error e then pure tt else raise e)

module _ {S A : Type 0} where
  -- `try: m finally: last`. An exception of `last` replaces the outcome of `m`.
  abbrev pub ensure : Exec S A → Exec S (Unit {0}) → Exec S A
  ensure m last = do a ← catch m (λ e. last >>= λ _. raise e); last; pure a
