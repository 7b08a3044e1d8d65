-- ===== src/Instances/Service/Interleaving.antt =====
-- instance_manager/src/instance_manager_service.py: requests that overlap. The handlers run on the
-- threads of a pool and hold no lock of their own; the store and the allocator hold one for each
-- operation. A thread is where its handler stands, with the local variables that are live there,
-- and moves by one operation at a time. There is one thread for each name: requests for one name
-- do not overlap here.
pub mod Sound
pub mod Phases
pub mod Moves
pub mod Laws
use vanpilot.Prelude.{String, ◌≡◌, Bool, ◌==◌, string_eq, [], ◌∷◌, if◌then◌else◌, ℕ}
use vanpilot.Prelude.Text.{or_text}
use vanpilot.Exec.{Result, ok, err, swallow, ◌>>=◌}
use vanpilot.Exec.Keeps.{Keeps}
use vanpilot.Instances.Ports.{PortSlot, release}
use vanpilot.Instances.Store
use vanpilot.Instances.Store.{InstanceRecord, Assign, destroying}
use vanpilot.Instances.Machine.{Env, M, Manager, Trace, on_store, on_ports, update, time_ms}
use vanpilot.Instances.Machine.Frame.{claims}
use vanpilot.Instances.Lifecycle.Create.{Timeouts}
use vanpilot.Instances.Lifecycle.Destroy.{destroy}
use vanpilot.Instances.Service.{
  CreateRequest, check_create, take_ports, started, known_record, release_port, default_avd,
}
use vanpilot.Instances.Service.Reach.{fresh_manager}

-- Where the handler of a request for one name stands; `idle` is no request.
pub data Phase : Type 0 where
  idle : Phase
  checking : CreateRequest → Phase  -- start of `CreateInstance`
  allocating : CreateRequest → Phase  -- `self._port_allocator.allocate()`
  recording : CreateRequest → PortSlot → Phase  -- `self._store.create(...)`
  launching : CreateRequest → PortSlot → Phase  -- the `try` around `lifecycle.create`
  releasing : PortSlot → Phase  -- its `except`
  finding : Phase  -- start of `DestroyInstance`
  marking : InstanceRecord → Phase  -- `self._store.update(name, state=DESTROYING)`
  stopping : InstanceRecord → Phase  -- `self._lifecycle.destroy(record)`
  freeing : InstanceRecord → Phase  -- the release of the slot
  removing : Phase  -- `self._store.remove(name)`, in both

-- Where a thread goes when its operation returns or raises.
abbrev pub goes : {A : Type 0} → Result A × Manager → (A → Phase) → Phase → Manager × Phase
goes (ok a, m) next failed = (m, next a)
goes (err e, m) next failed = (m, failed)

module _ (env : Env) where
  -- `self._store.create(...)`
  unfoldable pub record_ports : CreateRequest → PortSlot → M InstanceRecord
  unfolding time_ms on_store
  record_ports request ports = do
    now ← time_ms env
    on_store (
        Store.create request.name ports.console_port ports.adb_port ports.aa_forward_port
          request.headful now (or_text request.avd_name default_avd))

module _ (env : Env) (timeouts : Timeouts) (name : String) where
  -- One operation of the handler of the request for `name`.
  unfoldable pub advance : Phase → Manager → Manager × Phase
  unfolding check_create take_ports record_ports known_record release_port
  advance idle m = (m, idle)
  advance (checking r) m = goes (check_create r m) (λ _. allocating r) idle
  advance (allocating r) m = goes (take_ports m) (λ p. recording r p) idle
  advance (recording r p) m = goes (record_ports env r p m) (λ _. launching r p) idle
  advance (launching r p) m = goes (started env timeouts r p m) (λ _. idle) (releasing p)
  advance (releasing p) m = goes (on_ports (release p.slot_index) m) (λ _. removing) idle
  advance finding m = goes (known_record name m) marking idle
  advance (marking r) m = goes (update name (Assign.state destroying ∷ []) m) (λ _. stopping r) idle
  advance (stopping r) m = goes (swallow (destroy env r) m) (λ _. freeing r) idle
  advance (freeing r) m = goes (release_port r.emulator_console_port m) (λ _. removing) idle
  advance removing m = goes (on_store (Store.remove name) m) (λ _. idle) idle

-- The objects that the threads share, and the thread of each name.
pub record System : Type 0 where
  pub manager : Manager
  pub phase : String → Phase

abbrev pub set : (String → Phase) → String → Phase → String → Phase
set phase n p m = if m == n then p else phase m

abbrev pub advanced : Env → Timeouts → String → System → System
advanced env timeouts n s =
    let (m, p) = advance env timeouts n (s.phase n) s.manager in
    record { manager = m; phase = set s.phase n p }

pub data Step (env : Env) (timeouts : Timeouts) (s : System) : System → Type 0 where
  begin_create :
      (r : CreateRequest)
      → s.phase r.name ≡ idle
      → Step env timeouts s (record s { phase = set s.phase r.name (checking r) })
  begin_destroy :
      (n : String)
      → s.phase n ≡ idle
      → Step env timeouts s (record s { phase = set s.phase n finding })
  advances : (n : String) → Step env timeouts s (advanced env timeouts n s)
  -- whatever leaves the claims on ports alone: an operation in the middle of `lifecycle.create` or
  -- `lifecycle.destroy`, another handler, the refresh loop
  works :
      (m : Manager) → claims m ≡ claims s.manager → Step env timeouts s (record s { manager = m })

pub data Run (env : Env) (timeouts : Timeouts) (max_slots : ℕ) : System → Type 0 where
  start :
      (trace : Trace)
      → Run env timeouts max_slots
          (record { manager = fresh_manager max_slots trace; phase = λ _. idle })
  later :
      {s t : System}
      → Run env timeouts max_slots s
      → Step env timeouts s t
      → Run env timeouts max_slots t
