-- ===== src/Instances/Service/Claims.antt =====
-- The claims on ports when `CreateInstance` starts an instance, and gives its slot back.
pub mod Creation
pub mod Destruction
use mathlib.Core.Option
use vanpilot.Prelude.{
  ℕ, String, Bool, true, false, ◌≡◌, refl, ◌∙◌, ap, Option, none, some, List, [], ◌∷◌, arith, ◌==◌,
  nat_eq, string_eq, ==_iff, contains, ◌⊎◌, Option-cases, Bool-cases, inl, inr, if◌then◌else◌,
}
use vanpilot.Prelude.Text.{or_text}
use vanpilot.Prelude.Dict.{Dict, lookup, insert, erase, erase-insert, lookup-insert}
use vanpilot.Exec.{
  Exn, Result, runtime_error, resource_exhausted, ok, err, catch, handler, continue, Result-cases,
  aborted, internal, bind_ok, bind_err, ◌>>=◌,
}
use vanpilot.Exec.Keeps.{Keeps, Keeps-bind, keeps_rules}
use vanpilot.Instances.Ports.{
  PortSlot, PortAllocator, port_slot, discard, release, allocate, first_free,
}
use vanpilot.Instances.Ports.Laws.{IsLowest, discard_absent, allocate-Allocated}
use vanpilot.Instances.Store
use vanpilot.Instances.Store.Laws.{
  Identity, identity, directory, lookup-directory, directory-insert_all, directory-erase,
}
use vanpilot.Instances.Machine.{Env, M, Manager, asked_time, time_ms, on_store, on_ports, get}
use vanpilot.Instances.Machine.Frame.{claims}
use vanpilot.Instances.Lifecycle.Create.{Timeouts}
use vanpilot.Instances.Lifecycle.Create
use vanpilot.Instances.Lifecycle.Frame.{create-Keeps}
use vanpilot.Instances.Service.Checks.{IsAcceptable, check_create_sound, check_create-ReadsOnly}
use vanpilot.Instances.Service.{
  take_ports, CreateRequest, give_back, launch, started, create_on, check_create, create_instance,
  info_of, default_avd, default_snapshot, InstanceInfo, abort,
}

abbrev pub Claims : Type 0
Claims = PortAllocator × Dict String Identity

-- The claims with the slot `i` taken by an instance.
abbrev pub claim : String → Identity → ℕ → Claims → Claims
claim n x i (a, d) = (record a { used = i ∷ a.used }, insert n x d)

pub remove-claims :
    (n : String) (x : Identity) (d : Dict String Identity) (s : Store.Store)
    → lookup n d ≡ none
    → directory s ≡ insert n x d
    → directory (Store.remove n s).1 ≡ d
unfolding Store.remove
remove-claims n x d s absent h = elim (Option-cases (lookup n s)) [
  | inl missing ↦ absurd (ground (arith, ==_iff n n, lookup-insert n n x d, lookup-directory n s))
  | inr (r, found) ↦ ground (arith, directory-erase n s, erase-insert n x d)
]

release-claimed :
    (i : ℕ) (a p : PortAllocator)
    → contains i a.used ≡ false
    → p ≡ record a { used = i ∷ a.used }
    → release i p ≡ (ok tt, a)
unfolding release discard
release-claimed i a p free h = ground (arith, discard_absent i a.used)

give_back-claims :
    (n : String) (x : Identity) (i : ℕ) (c : Claims) (m : Manager)
    → contains i c.0.used ≡ false
    → lookup n c.1 ≡ none
    → claims m ≡ claim n x i c
    → claims (give_back n (port_slot i) m).1 ≡ c
unfolding give_back ◌>>=◌ on_store on_ports port_slot
give_back-claims n x i (a, d) m free absent h =
    rw (release-claimed i a m.ports free (ap (λ c. c.0) h), ◌>>=◌)
      (ap (λ e. (a, e)) (remove-claims n x d m.store absent (ap (λ c. c.1) h)))

-- A call that raised left the claims at `c`, or it returned and they are now `d`.
abbrev pub Settles : {A : Type 0} → Result A → Claims → Claims → Claims → Type 0
Settles {A} r after c d =
    ((e : Exn) × (r ≡ err e) × (after ≡ c)) ⊎ ((a : A) × (r ≡ ok a) × (after ≡ d))

pub info_of-Keeps : (o : Option Store.InstanceRecord) → Keeps claims (info_of o)
unfolding info_of
info_of-Keeps o = search keeps_rules

abbrev pub undo : String → PortSlot → Exn → M InstanceInfo
undo name ports e = give_back name ports >>= λ _. abort internal

-- `undo` ends by an exception, with the state that `give_back` leaves.
pub undo_raises :
    (name : String) (ports : PortSlot) (e : Exn) (m : Manager)
    → (e' : Exn) × (undo name ports e m ≡ (err e', (give_back name ports m).1))
unfolding ◌>>=◌
undo_raises name ports e m = let (r, m') = give_back name ports m in case_of r m'
  where
    case_of :
        (r : Result (Unit {0})) (m' : Manager)
        → (e' : Exn) × (continue r (λ _. abort {A = InstanceInfo} internal) m' ≡ (err e', m'))
    case_of (ok u) m' = (aborted internal, refl)
    case_of (err e') m' = (e', refl)

module _ (env : Env) (timeouts : Timeouts) (request : CreateRequest) where
  pub started-Keeps : (ports : PortSlot) → Keeps claims (started env timeouts request ports)
  started-Keeps ports = Keeps-bind _ _ (create-Keeps env timeouts _ _ _ _ ports) info_of-Keeps

  handler-Settles :
      (x : Identity) (i : ℕ) (c : Claims) (r : Result InstanceInfo) (m : Manager)
      → contains i c.0.used ≡ false
      → lookup request.name c.1 ≡ none
      → claims m ≡ claim request.name x i c
      → let (r', m') = handler r (undo request.name (port_slot i)) m in
        Settles r' (claims m') c (claim request.name x i c)
  handler-Settles x i c (ok a) m free absent h = inr (a, refl, h)
  handler-Settles x i c (err e) m free absent h =
      let (e', raised) = undo_raises request.name (port_slot i) e m in
      inl (
        e',
        ap (λ p. p.0) raised,
        ap (λ p. claims p.1) raised ∙ give_back-claims request.name x i c m free absent h,
      )

  pub launch-Settles :
      (x : Identity) (i : ℕ) (c : Claims) (m : Manager)
      → contains i c.0.used ≡ false
      → lookup request.name c.1 ≡ none
      → claims m ≡ claim request.name x i c
      → let (r, m') = launch env timeouts request (port_slot i) m in
        Settles r (claims m') c (claim request.name x i c)
  unfolding launch catch
  launch-Settles x i c m free absent h =
      let k = (started-Keeps (port_slot i)).at m in
      let (r, m') = started env timeouts request (port_slot i) m in
      handler-Settles x i c r m' free absent (k ∙ h)
