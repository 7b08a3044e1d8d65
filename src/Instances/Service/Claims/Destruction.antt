-- ===== src/Instances/Service/Claims/Destruction.antt =====
-- How `DestroyInstance` changes the claims on ports.
use mathlib.Core.Option
use vanpilot.Prelude.{
  ℕ, String, true, ◌≡◌, refl, ◌∙◌, ap, none, some, [], ◌∷◌, arith, nat_eq, string_eq, contains,
  Option-cases, inl, inr,
}
use vanpilot.Prelude.Dict.{lookup, erase}
use vanpilot.Exec.{
  Result, ok, err, aborted, not_found, swallow, handler, pure, catch, on_option, bind_ok, bind_err,
  ◌>>=◌,
}
use vanpilot.Exec.Keeps.{Keeps-catch, Keeps-pure}
use vanpilot.Instances.Ports.{port_slot, discard, release}
use vanpilot.Instances.Ports.Disjoint.{slot_of_port-port_slot}
use vanpilot.Instances.Store
use vanpilot.Instances.Store.{Assign, destroying, InstanceRecord}
use vanpilot.Instances.Store.Laws.{Identity, identity, directory, lookup-directory, directory-erase}
use vanpilot.Instances.Machine.{Env, M, Manager, on_store, on_ports, get, update}
use vanpilot.Instances.Machine.Frame.{claims, update-Keeps}
use vanpilot.Instances.Lifecycle.Create.{Timeouts}
use vanpilot.Instances.Lifecycle.Destroy.{destroy}
use vanpilot.Instances.Lifecycle.Frame.{destroy-Keeps}
use vanpilot.Instances.Service.{known_record, release_port, destroy_instance}
use vanpilot.Instances.Service.Claims.{Claims}

pub known_record-some :
    (name : String) (m : Manager) (r : InstanceRecord)
    → lookup name m.store ≡ some r
    → known_record name m ≡ (ok r, m)
unfolding known_record get ◌>>=◌
known_record-some name m r found = rw found refl

pub known_record-none :
    (name : String) (m : Manager)
    → lookup name m.store ≡ none
    → known_record name m ≡ (err (aborted not_found), m)
unfolding known_record get ◌>>=◌
known_record-none name m missing = rw missing refl

swallow_ok : (m : M (Unit {0})) (s : Manager) → swallow m s ≡ (ok tt, (swallow m s).1)
unfolding catch ◌>>=◌
swallow_ok m s = let (r, s') = m s in case_of r s'
  where
    case_of :
        (r : Result (Unit {0})) (s' : Manager)
        → handler r (λ _. pure tt) s' ≡ (ok tt, (handler r (λ _. pure tt) s').1)
    case_of (ok _) s' = refl
    case_of (err e) s' = refl

update_ok :
    (name : String) (m : Manager) (r : InstanceRecord)
    → lookup name m.store ≡ some r
    → let do_it : M (Unit {0}) = update name (Assign.state destroying ∷ []) in
      do_it m ≡ (ok tt, (do_it m).1)
unfolding update on_store Store.update Store.set_fields Store.set_field
update_ok name m r found = rw (found, Store.update) refl

pub release_port_ok :
    (i : ℕ) (m : Manager)
    → contains i m.ports.used ≡ true
    → release_port (port_slot i).console_port m
      ≡ (ok tt, record m { ports = record m.ports { used = discard i m.ports.used } })
unfolding release_port on_ports release catch ◌>>=◌
release_port_ok i m taken = rw (slot_of_port-port_slot i, on_option) (rw taken refl)

pub remove_ok :
    (name : String) (m : Manager) (x : Identity)
    → lookup name (directory m.store) ≡ some x
    → on_store (Store.remove name) m ≡ (ok tt, record m { store = erase name m.store })
unfolding on_store Store.remove
remove_ok name m x found = elim (Option-cases (lookup name m.store)) [
  | inl missing ↦ absurd (ground (arith, lookup-directory name m.store))
  | inr (r, there) ↦ rw there refl
]

-- from the release of the slot on
let_go :
    (name : String) (i : ℕ) (x : Identity) (c : Claims) (m : Manager)
    → contains i c.0.used ≡ true
    → lookup name c.1 ≡ some x
    → claims m ≡ c
    → let (r, m') =
        (release_port (port_slot i).console_port >>= λ _. on_store (Store.remove name)) m in
      (r ≡ ok tt) × (claims m' ≡ (record c.0 { used = discard i c.0.used }, erase name c.1))
let_go name i x c m taken found h =
    let held : contains i m.ports.used ≡ true = rw (ap (λ c. c.0) h) taken in
    let there : lookup name (directory m.store) ≡ some x = rw (ap (λ c. c.1) h) found in
    let freed : Manager = record m { ports = record m.ports { used = discard i m.ports.used } } in
    let last = on_store (Store.remove name) in
    let run : (release_port (port_slot i).console_port >>= λ _. last) m
        ≡ (ok tt, record freed { store = erase name m.store }) =
      bind_ok _ _ (release_port_ok i m held) ∙ remove_ok name freed x there in
    rw (run, directory-erase name m.store, ← h) (refl, refl)

module _ (env : Env) (timeouts : Timeouts) where
  -- `DestroyInstance` of a stored record whose console port is that of a used slot returns,
  -- whatever the world answers, frees exactly that slot and takes exactly that record out of the
  -- store.
  pub destroy_instance-claims :
      (name : String) (i : ℕ) (r : InstanceRecord) (m : Manager)
      → lookup name m.store ≡ some r
      → r.emulator_console_port ≡ (port_slot i).console_port
      → contains i m.ports.used ≡ true
      → let (result, m') = destroy_instance env timeouts name m in
        (result ≡ ok tt)
        × (claims m'
            ≡ (record m.ports { used = discard i m.ports.used }, erase name (directory m.store)))
  unfolding destroy_instance
  destroy_instance-claims name i r m found slot taken =
      let set = update name (Assign.state destroying ∷ []) in
      let stop = swallow (destroy env r) in
      let m1 = (set m).1 in
      let m2 = (stop m1).1 in
      let k1 = (update-Keeps name (Assign.state destroying ∷ []) refl).at m in
      let k2 = (Keeps-catch _ _ (destroy-Keeps env r) (λ _. Keeps-pure tt)).at m1 in
      let there = lookup-directory name m.store ∙ ap (Option.map identity) found in
      let run : destroy_instance env timeouts name m
          ≡ (release_port (port_slot i).console_port >>= λ _. on_store (Store.remove name)) m2 =
        bind_ok _ _ (known_record-some name m r found)
        ∙ bind_ok _ _ (update_ok name m r found)
        ∙ bind_ok _ _ (swallow_ok (destroy env r) m1)
        ∙ rw slot refl in
      rw run (let_go name i (identity r) (claims m) m2 taken there (k2 ∙ k1))

  -- `DestroyInstance` for a name that no record has ends by NOT_FOUND and changes nothing.
  pub destroy_instance_unknown :
      (name : String) (m : Manager)
      → lookup name m.store ≡ none
      → destroy_instance env timeouts name m ≡ (err (aborted not_found), m)
  unfolding destroy_instance
  destroy_instance_unknown name m missing = bind_err _ _ (known_record-none name m missing)
