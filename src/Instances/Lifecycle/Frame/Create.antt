-- ===== src/Instances/Lifecycle/Frame/Create.antt =====
-- `create` leaves the claims alone, its `except` clause included.
use vanpilot.Prelude.{◌∙◌, refl, String, Bool, Option, none, some, List, [], ◌∷◌}
use vanpilot.Prelude.Dict.{Dict}
use vanpilot.Exec.{Result, ok, err}
use vanpilot.Exec.Keeps.{Keeps, Keeps-modify, Keeps-pure}
use vanpilot.Instances.Ports.{PortAllocator, PortSlot}
use vanpilot.Instances.Store.Laws.{Identity}
use vanpilot.Instances.Store.{InstanceRecord}
use vanpilot.Instances.Machine.{Env, M, Proc, Handles, no_handles}
use vanpilot.Instances.Machine.Frame.{claims, machine_rules}
use vanpilot.Instances.Lifecycle.Create.{
  Timeouts, Starting, up, note, spawn, start_emulator, start_dhu, first_pictures, keep_handles,
  create_body, kill_all, clean_up, after_body, create,
}
use vanpilot.Instances.Lifecycle.Frame.Loops.{wait_rules}
use vanpilot.Instances.Lifecycle.Frame.Methods.{resolve_gpu_mode-Keeps}

-- the claims while the body of `create` runs
abbrev claims_of : Starting → PortAllocator × Dict String Identity
claims_of (m, h) = claims m

up-Keeps : {A : Type 0} (f : M A) → Keeps claims f → Keeps claims_of (up f)
unfolding up
up-Keeps f k = record { at = λ (m, h). k.at m }

note-Keeps : (f : Handles → Handles) → Keeps claims_of (note f)
unfolding note
note-Keeps f = Keeps-modify _ (λ (m, h). refl)

keep_handles-Keeps : (name : String) → Keeps claims_of (keep_handles name)
unfolding keep_handles
keep_handles-Keeps name = Keeps-modify _ (λ (m, h). refl)

ruleset up_rules = (wait_rules, up-Keeps, note-Keeps, keep_handles-Keeps, resolve_gpu_mode-Keeps)

module _ (env : Env) (timeouts : Timeouts) where
  spawn-Keeps :
      (args : List String) (set : Proc → Handles → Handles)
      → Keeps claims_of (spawn env timeouts args set)
  unfolding spawn
  spawn-Keeps args set = search up_rules depth 16

  start_emulator-Keeps :
      (name avd snapshot : String) (headful : Bool) (ports : PortSlot)
      → Keeps claims_of (start_emulator env timeouts name avd snapshot headful ports)
  unfolding start_emulator
  start_emulator-Keeps name avd snapshot headful ports = search (up_rules, spawn-Keeps) depth 24

  start_dhu-Keeps :
      (name : String) (headful : Bool) (ports : PortSlot)
      → Keeps claims_of (start_dhu env timeouts name headful ports)
  unfolding start_dhu
  start_dhu-Keeps name headful ports = search (up_rules, spawn-Keeps) depth 20

  first_pictures-Keeps :
      (name serial : String) → Keeps claims (first_pictures env timeouts name serial)
  unfolding first_pictures
  first_pictures-Keeps name serial = search wait_rules depth 20

  create_body-Keeps :
      (name avd snapshot : String) (headful : Bool) (ports : PortSlot)
      → Keeps claims_of (create_body env timeouts name avd snapshot headful ports)
  unfolding create_body
  create_body-Keeps name avd snapshot headful ports =
      search (up_rules, start_emulator-Keeps, start_dhu-Keeps, first_pictures-Keeps) depth 20

  kill_all-Keeps : (procs : List (Option Proc)) → Keeps claims (kill_all env timeouts procs)
  unfolding kill_all
  kill_all-Keeps [] = search machine_rules
  kill_all-Keeps (none ∷ procs) = kill_all-Keeps procs
  kill_all-Keeps (some p ∷ procs) = let ih = kill_all-Keeps procs in search machine_rules depth 9

  clean_up-Keeps : (name : String) (h : Handles) → Keeps claims (clean_up env timeouts name h)
  unfolding clean_up
  clean_up-Keeps name h = search (machine_rules, kill_all-Keeps) depth 9

  after_body-Keeps :
      (name : String) (r : Result (Option InstanceRecord)) (h : Handles)
      → Keeps claims (after_body env timeouts name r h)
  after_body-Keeps name (ok r) h = Keeps-pure r
  after_body-Keeps name (err e) h = search (machine_rules, clean_up-Keeps)

  -- Lifecycle.create changes neither the port allocator nor who is in the store with which
  -- ports, whether it returns or raises.
  pub create-Keeps :
      (name avd snapshot : String) (headful : Bool) (ports : PortSlot)
      → Keeps claims (create env timeouts name avd snapshot headful ports)
  unfolding create
  create-Keeps name avd snapshot headful ports = record {
    at = λ m.
        let before = (create_body-Keeps name avd snapshot headful ports).at (m, no_handles) in
        let (r, (m', h)) =
          create_body env timeouts name avd snapshot headful ports (m, no_handles) in
        (after_body-Keeps name r h).at m' ∙ before;
  }
