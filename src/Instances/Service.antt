-- ===== src/Instances/Service.antt =====
-- instance_manager/src/instance_manager_service.py: the RPC handlers. A handler returns a response
-- or ends by the exception of `context.abort`, which carries the status code.
pub mod Device
pub mod Rpc
pub mod Interleaving
pub mod Errors
pub mod Reach
pub mod Frame
pub mod Consistency
pub mod Checks
pub mod Claims
use vanpilot.Prelude.{
  ℕ, String, Bool, true, false, is_some, not, Option, none, some, List, [], ◌∷◌, map, if◌then◌else◌,
}
use vanpilot.Prelude.Text.{is_blank, or_text}
use vanpilot.Exec.{
  Exn, runtime_error, value_error, attribute_error, aborted, Status, invalid_argument,
  already_exists, not_found, failed_precondition, resource_exhausted, internal, on_option, pure,
  raise, gets, catch, swallow, when, ◌>>=◌, ◌>>◌,
}
use vanpilot.Instances.Ports.{PortSlot, allocate, release}
use vanpilot.Instances.Ports.Disjoint.{slot_of_port}
use vanpilot.Instances.Store
use vanpilot.Instances.Store.{
  Bytes, InstanceState, InstanceRecord, Assign, is_running, destroying, list_all,
}
use vanpilot.Instances.Names.{is_safe_name}
use vanpilot.Instances.Machine.{Env, M, on_store, on_ports, update, get, time_ms}
use vanpilot.Instances.Lifecycle.Wait.{or_empty}
use vanpilot.Instances.Lifecycle.Create.{Timeouts}
use vanpilot.Instances.Lifecycle.Create
use vanpilot.Instances.Lifecycle.Destroy.{destroy}

-- `instance_manager_pb2.InstanceInfo`; a bytes field that is not set is empty
pub record InstanceInfo : Type 0 where
  pub name : String
  pub state : InstanceState
  pub emulator_console_port : ℕ
  pub adb_port : ℕ
  pub aa_forward_port : ℕ
  pub headful : Bool
  pub created_at_ms : ℕ
  pub avd_name : String
  pub last_screenshot_png : Bytes
  pub last_emulator_screenshot_png : Bytes

-- `_record_to_proto`
unfoldable pub record_to_proto : InstanceRecord → InstanceInfo
record_to_proto r = record {
  name = r.name;
  state = r.state;
  emulator_console_port = r.emulator_console_port;
  adb_port = r.adb_port;
  aa_forward_port = r.aa_forward_port;
  headful = r.headful;
  created_at_ms = r.created_at_ms;
  avd_name = r.avd_name;
  last_screenshot_png = or_empty r.last_screenshot_png;
  last_emulator_screenshot_png = or_empty r.last_emulator_screenshot_png;
}

-- `_record_to_proto` on what `store.get` returned: `None` has no fields
unfoldable pub info_of : Option InstanceRecord → M InstanceInfo
unfolding record_to_proto
info_of o = on_option o (raise attribute_error) (λ r. pure (record_to_proto r))

abbrev pub abort : {A : Type 0} → Status → M A
abort status = raise (aborted status)

-- `record = self._store.get(name)`, and the abort where it is `None`
unfoldable pub known_record : String → M InstanceRecord
known_record name = do found ← get name; on_option found (abort not_found) (λ r. pure r)

-- the same, and the abort where the instance is not RUNNING
unfoldable pub running_record : String → M InstanceRecord
unfolding known_record
running_record name = do
  r ← known_record name
  if is_running r.state then pure r else abort failed_precondition

-- `except Exception as e: context.abort(INTERNAL, str(e))`, which takes an abort of the body too
abbrev pub or_internal : {A : Type 0} → M A → M A
or_internal m = catch m (λ _. abort internal)

abbrev pub default_avd : String
default_avd = "vanpilot_pixel9pro_api36"

abbrev pub default_snapshot : String
default_snapshot = "aa_ready"

pub record CreateRequest : Type 0 where
  pub name : String
  pub avd_name : String
  pub snapshot_name : String
  pub headful : Bool

abbrev is_runtime_error : Exn → Bool
is_runtime_error runtime_error = true
is_runtime_error _ = false

abbrev is_value_error : Exn → Bool
is_value_error value_error = true
is_value_error _ = false

-- the checks of `CreateInstance`, in its order
unfoldable pub check_create : CreateRequest → M (Unit {0})
check_create request = do
  when (is_blank request.name) (abort invalid_argument)
  when (not (is_safe_name request.name)) (abort invalid_argument)
  existing ← get request.name
  when (is_some existing) (abort already_exists)
  when (not (is_safe_name (or_text request.avd_name default_avd))) (abort invalid_argument)
  when (not (is_safe_name (or_text request.snapshot_name default_snapshot)))
      (abort invalid_argument)

-- `try: ports = allocate() except RuntimeError: abort`
unfoldable pub take_ports : M PortSlot
take_ports =
    catch (on_ports allocate)
      (λ e. if is_runtime_error e then abort resource_exhausted else raise e)

-- the `except` clause around `lifecycle.create`
unfoldable pub give_back : String → PortSlot → M (Unit {0})
give_back name ports = do on_ports (release ports.slot_index); on_store (Store.remove name)

-- `try: release(slot_index) except ValueError: pass`; an index that is negative is not allocated
unfoldable pub release_port : ℕ → M (Unit {0})
release_port console =
    on_option (slot_of_port console) (pure tt)
      (λ i. catch (on_ports (release i)) (λ e. if is_value_error e then pure tt else raise e))

module _ (env : Env) (timeouts : Timeouts) where
  -- the body of the `try` around `lifecycle.create`
  abbrev pub started : CreateRequest → PortSlot → M InstanceInfo
  started request ports = do
    r ←
        Create.create env timeouts request.name (or_text request.avd_name default_avd)
          (or_text request.snapshot_name default_snapshot) request.headful ports
    info_of r

  -- the `try` around `lifecycle.create`
  unfoldable pub launch : CreateRequest → PortSlot → M InstanceInfo
  unfolding give_back
  launch request ports =
      catch (started request ports) (λ e. do give_back request.name ports; abort internal)

  -- from `store.create` on
  unfoldable pub create_on : CreateRequest → PortSlot → M InstanceInfo
  unfolding launch
  create_on request ports = do
    now ← time_ms env
    on_store (
        Store.create request.name ports.console_port ports.adb_port ports.aa_forward_port
          request.headful now (or_text request.avd_name default_avd))
    launch request ports

  unfoldable pub create_instance : CreateRequest → M InstanceInfo
  unfolding check_create take_ports create_on
  create_instance request = do check_create request; ports ← take_ports; create_on request ports

  unfoldable pub destroy_instance : String → M (Unit {0})
  unfolding release_port
  destroy_instance name = do
    r ← known_record name
    update name (Assign.state destroying ∷ [])
    swallow (destroy env r)
    release_port r.emulator_console_port
    on_store (Store.remove name)

unfoldable pub list_instances : M (List InstanceInfo)
unfolding record_to_proto
list_instances = gets (λ m. map record_to_proto (list_all m.store))

unfoldable pub get_instance : String → M InstanceInfo
unfolding record_to_proto
get_instance name = do r ← known_record name; pure (record_to_proto r)
