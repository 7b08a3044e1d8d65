-- ===== src/Instances/Store.antt =====
-- instance_manager/src/instance_store.py: the records of the instances, by name. The lock makes
-- every method one step. A record is a shared mutable object in the source; only `update` writes
-- to one, so a record that a caller holds is the stored one until the next `update` of its name.
pub mod Laws
use vanpilot.Prelude.{
  ℕ, String, Bool, Option, none, some, List, [], ◌∷◌, string_eq, if◌then◌else◌, true, false,
}
use vanpilot.Prelude.Dict.{Dict, lookup, insert, erase, values, has_key}
use vanpilot.Exec.{Exec, Result, ok, err, value_error, key_error, attribute_error}

abbrev pub Bytes : Type 0
Bytes = List ℕ

pub data InstanceState : Type 0 where
  creating running error destroying : InstanceState

pub record InstanceRecord : Type 0 where
  pub name : String
  pub state : InstanceState
  pub emulator_console_port : ℕ
  pub adb_port : ℕ
  pub aa_forward_port : ℕ
  pub headful : Bool
  pub created_at_ms : ℕ
  pub avd_name : String
  pub emulator_pid : Option ℕ
  pub dhu_pid : Option ℕ
  pub keeper_pid : Option ℕ
  pub socat_pid : Option ℕ
  pub pipe_path : Option String
  pub log_path : Option String
  pub last_screenshot_png : Option Bytes
  pub last_emulator_screenshot_png : Option Bytes
  pub last_screenshot_at_ms : Option ℕ

abbrev pub Store : Type 0
Store = Dict String InstanceRecord

-- `InstanceRecord(...)` with the defaults of its class
abbrev pub new_record : String → ℕ → ℕ → ℕ → Bool → ℕ → String → InstanceRecord
new_record name console adb aa_forward headful created_at_ms avd_name = record {
  name = name;
  state = creating;
  emulator_console_port = console;
  adb_port = adb;
  aa_forward_port = aa_forward;
  headful = headful;
  created_at_ms = created_at_ms;
  avd_name = avd_name;
  emulator_pid = none;
  dhu_pid = none;
  keeper_pid = none;
  socat_pid = none;
  pipe_path = none;
  log_path = none;
  last_screenshot_png = none;
  last_emulator_screenshot_png = none;
  last_screenshot_at_ms = none;
}

-- `InstanceStore.create`
unfoldable pub create : String → ℕ → ℕ → ℕ → Bool → ℕ → String → Exec Store InstanceRecord
create name console adb aa_forward headful created_at_ms avd_name s =
    let record_ = new_record name console adb aa_forward headful created_at_ms avd_name in
    if has_key name s then (err value_error, s) else (ok record_, insert name record_ s)

-- `InstanceStore.get`
abbrev pub get : String → Store → Option InstanceRecord
get = lookup

-- `InstanceStore.list_all`
abbrev pub list_all : Store → List InstanceRecord
list_all = values

-- One keyword argument of `update`; `unknown` is a name that the record has no field for.
pub data Assign : Type 0 where
  state : InstanceState → Assign
  emulator_pid dhu_pid keeper_pid socat_pid : ℕ → Assign
  pipe_path log_path : String → Assign
  last_screenshot_png last_emulator_screenshot_png : Bytes → Assign
  last_screenshot_at_ms : ℕ → Assign
  record_name record_avd_name : String → Assign
  emulator_console_port adb_port aa_forward_port record_created_at_ms : ℕ → Assign
  record_headful : Bool → Assign
  unknown : Assign

-- `hasattr` and `setattr`
unfoldable pub set_field : Assign → InstanceRecord → Option InstanceRecord
set_field (Assign.state v) r = some (record r { state = v })
set_field (Assign.emulator_pid v) r = some (record r { emulator_pid = some v })
set_field (Assign.dhu_pid v) r = some (record r { dhu_pid = some v })
set_field (Assign.keeper_pid v) r = some (record r { keeper_pid = some v })
set_field (Assign.socat_pid v) r = some (record r { socat_pid = some v })
set_field (Assign.pipe_path v) r = some (record r { pipe_path = some v })
set_field (Assign.log_path v) r = some (record r { log_path = some v })
set_field (Assign.last_screenshot_png v) r = some (record r { last_screenshot_png = some v })
set_field (Assign.last_emulator_screenshot_png v) r =
    some (record r { last_emulator_screenshot_png = some v })
set_field (Assign.last_screenshot_at_ms v) r = some (record r { last_screenshot_at_ms = some v })
set_field (Assign.record_name v) r = some (record r { name = v })
set_field (Assign.record_avd_name v) r = some (record r { avd_name = v })
set_field (Assign.emulator_console_port v) r = some (record r { emulator_console_port = v })
set_field (Assign.adb_port v) r = some (record r { adb_port = v })
set_field (Assign.aa_forward_port v) r = some (record r { aa_forward_port = v })
set_field (Assign.record_created_at_ms v) r = some (record r { created_at_ms = v })
set_field (Assign.record_headful v) r = some (record r { headful = v })
set_field Assign.unknown r = none

-- the loop over `kwargs`: the fields before an unknown one stay written
unfoldable pub set_fields : List Assign → InstanceRecord → Result (Unit {0}) × InstanceRecord
set_fields [] r = (ok tt, r)
set_fields (a ∷ rest) r = elim (set_field a r) [
  | none ↦ (err attribute_error, r)
  | some r' ↦ set_fields rest r'
]

-- `InstanceStore.update`
unfoldable pub update : String → List Assign → Exec Store (Unit {0})
update name assigns s = elim (lookup name s) [
  | none ↦ (err key_error, s)
  | some r ↦ let (result, r') = set_fields assigns r in (result, insert name r' s)
]

-- `InstanceStore.remove`
unfoldable pub remove : String → Exec Store (Unit {0})
remove name s = if has_key name s then (ok tt, erase name s) else (err key_error, s)

abbrev pub is_running : InstanceState → Bool
is_running running = true
is_running _ = false

-- `InstanceStore.get_running`
unfoldable pub get_running : Store → List InstanceRecord
get_running [] = []
get_running ((_, r) ∷ s) = let rest = get_running s in if is_running r.state then r ∷ rest else rest
