-- ===== src/Instances/Tests.antt =====
-- Concrete runs of the instance manager.
pub mod Overlap
pub mod Capture
pub mod Links
use vanpilot.Prelude.{
  ℕ, true, false, ◌≡◌, ◌≢◌, ◌↔◌, ◌⊎◌, ◌*◌, ◌≤◌, length, refl, none, some, List, [], ◌∷◌, arith,
  string_eq, nat_eq, ◌==◌,
}
use vanpilot.Prelude.Int.{pos}
use vanpilot.Prelude.Text.{codes, strip, file_lines, universal_newlines, concat}
use vanpilot.Prelude.Dict.{lookup, erase}
use vanpilot.Exec.{ok, err, aborted, invalid_argument, not_found, runtime_error}
use vanpilot.Exec.Keeps.{Keeps}
use vanpilot.Instances.Ports.{port_allocator, port_slot, allocate, release, first_free, discard}
use vanpilot.Instances.Ports.Laws.{
  Allocated, AllUsed, allocate-Allocated, allocate_full, release-allocate,
}
use vanpilot.Instances.Ports.Disjoint.{Avoids, port_slot_disjoint}
use vanpilot.Instances.Store.{InstanceRecord, Assign, new_record, running, destroying}
use vanpilot.Instances.Store.Laws.{directory}
use vanpilot.Instances.Names.{match_name}
use vanpilot.Instances.Names.Laws.{OrNewline, IsPlain, match_name_iff}
use vanpilot.Instances.Logs.{
  LogEntry, Files, clean_dhu_line, get_sources, last_lines, chomp, entries_of, trim, read_source,
  read_each, read_recent,
}
use vanpilot.Instances.Logs.Laws.{IsNoise, clean_dhu_line_iff, length-read_recent}
use vanpilot.Instances.Lifecycle.Paths.{emu_log_path}
use vanpilot.Instances.Machine.{Env, Manager}
use vanpilot.Instances.Machine.Frame.{claims}
use vanpilot.Instances.Lifecycle.Create
use vanpilot.Instances.Lifecycle.Create.{default_timeouts}
use vanpilot.Instances.Lifecycle.Frame.{create-Keeps}
use vanpilot.Instances.Lifecycle.Adb.{adb_push}
use vanpilot.Instances.Lifecycle.Adb.Temp.{EndsBy, adb_push-EndsBy}
use vanpilot.Instances.Service.{
  CreateRequest, create_instance, destroy_instance, check_create, default_avd,
}
use vanpilot.Instances.Service.Device
use vanpilot.Instances.Service.Device.{InstallRequest}
use vanpilot.Instances.Service.Errors.{install_apk_hides_status}
use vanpilot.Instances.Service.Rpc.{Request, handle}
use vanpilot.Instances.Service.Checks.{IsAcceptable, check_create_iff}
use vanpilot.Instances.Service.Claims.Creation.{Created, create_instance-Created}
use vanpilot.Instances.Service.Claims.Destruction.{
  destroy_instance-claims, destroy_instance_unknown,
}
use vanpilot.Instances.Service.Reach.{Agrees, Reach, Reach-Agrees, handle-Agrees, fresh_manager}

-- A world in which every call succeeds at once.
abbrev quiet : Env
quiet = record {
  run = λ t args. ok (record { returncode = pos 0; stdout = "1"; stderr = "" });
  run_within = λ t s args. ok (record { returncode = pos 0; stdout = "1"; stderr = "" });
  popen = λ t args. ok 7;
  pipe_write = λ t path text. ok tt;
  is_alive = λ t p. true;
  terminate = λ t p. ok tt;
  kill = λ t p. ok tt;
  wait = λ t p ms. ok tt;
  getpgid = λ t p. ok p;
  killpg = λ t g s. ok tt;
  open_file = λ t path. ok tt;
  size = λ t path. some 1;
  read = λ t path. ok (codes "hw.gpu.mode=host\nverify returned");
  append = λ t path text. ok tt;
  mkstemp = λ t. ok "/tmp/file";
  fill = λ t path content. ok tt;
  unlink = λ t path. ok tt;
  time_ms = λ t. 1000;
  android_home = "/android";
  avd_home = "/avd";
}

abbrev start : Manager
start = fresh_manager 2 []

abbrev van : CreateRequest
van = record { name = "van"; avd_name = ""; snapshot_name = ""; headful = false }

abbrev van_record : InstanceRecord
van_record = new_record "van" 5554 5555 5277 false 1000 default_avd

-- a manager with one instance, on slot 0
abbrev one_van : Manager
one_van = record start {
  store = ("van", record van_record { state = running }) ∷ [];
  ports = record { max_slots = 2; used = 0 ∷ [] };
}

abbrev after_create : Manager
after_create = (handle quiet default_timeouts (Request.create_instance van) start).1

Reach-Agrees_example : Agrees after_create
Reach-Agrees_example =
    Reach-Agrees quiet default_timeouts 2 after_create
      (Reach.step start (Request.create_instance van) (Reach.initial []))

create_instance-Created_example :
    Created quiet van start
      (create_instance quiet default_timeouts van start).0
      (create_instance quiet default_timeouts van start).1
create_instance-Created_example = create_instance-Created quiet default_timeouts van start

van_found : lookup "van" one_van.store ≡ some (record van_record { state = running })
unfolding lookup
van_found = refl

slot_0 : 5554 ≡ (port_slot 0).console_port
unfolding port_slot
slot_0 = refl

destroy_instance-claims_example :
    let (result, m') = destroy_instance quiet default_timeouts "van" one_van in
    (result ≡ ok tt)
    × (claims m' ≡ (
      record one_van.ports { used = discard 0 one_van.ports.used },
      erase "van" (directory one_van.store),
    ))
destroy_instance-claims_example =
    destroy_instance-claims quiet default_timeouts "van" 0 (record van_record { state = running })
      one_van van_found slot_0 refl

bus_missing : lookup "bus" one_van.store ≡ none
unfolding lookup
bus_missing = refl

check_create_iff_example : (check_create van start ≡ (ok tt, start)) ↔ IsAcceptable van start.store
check_create_iff_example = check_create_iff van start

slot_0_taken : (allocate (port_allocator 2)).0 ≡ ok (port_slot 0)
unfolding allocate first_free port_allocator
slot_0_taken = refl

allocate-Allocated_example :
    Allocated (port_allocator 2) (allocate (port_allocator 2)).1 (port_slot 0)
allocate-Allocated_example = allocate-Allocated (port_allocator 2) slot_0_taken

allocate_full_example :
    (allocate one_van.ports ≡ (err runtime_error, one_van.ports)) ↔ AllUsed one_van.ports
allocate_full_example = allocate_full one_van.ports

port_slot_disjoint_example :
    Avoids (port_slot 0).console_port (port_slot 276)
    × Avoids (port_slot 0).adb_port (port_slot 276)
    × Avoids (port_slot 0).aa_forward_port (port_slot 276)
port_slot_disjoint_example =
    port_slot_disjoint 277 0 276 (omega arith) (omega arith) (omega arith) (omega arith)

abbrev mark_destroying : List Assign
mark_destroying = Assign.state destroying ∷ Assign.unknown ∷ []

match_name_iff_example : (match_name (codes "van_1") ≡ true) ↔ OrNewline IsPlain (codes "van_1")
match_name_iff_example = match_name_iff (codes "van_1")

abbrev one_byte : List ℕ
one_byte = 80 ∷ []

one_byte_filled : one_byte ≢ []
one_byte_filled h = absurd (ground (arith, h))

-- an install whose snapshot name is not safe
abbrev bad_install : InstallRequest
bad_install = record {
  name = "van";
  apk_data = one_byte;
  restart_dhu = false;
  save_snapshot = "../x";
}

install_apk_hides_status_example :
    (Device.install_apk quiet default_timeouts bad_install one_van).0
    ≢ err (aborted invalid_argument)
install_apk_hides_status_example =
    install_apk_hides_status quiet default_timeouts bad_install one_van one_byte_filled

clean_dhu_line_iff_example :
    ((clean_dhu_line (codes " > > ls ") ≡ none) ↔ IsNoise (strip (codes " > > ls ")))
    × ((clean_dhu_line (codes " > > ls ") ≡ none)
        ⊎ (clean_dhu_line (codes " > > ls ") ≡ some (strip (codes " > > ls "))))
clean_dhu_line_iff_example = clean_dhu_line_iff (codes " > > ls ")

-- an emulator log of three lines
abbrev three_lines : Files
three_lines = record {
  exists = λ path. path == "/tmp/emu_van.log";
  read = λ path. ok (b'a' ∷ 10 ∷ b'b' ∷ 10 ∷ b'c' ∷ 10 ∷ []);
}

abbrev last_line : List LogEntry
last_line = (record { source = "emulator"; content = codes "c" }) ∷ []

last_line_read : read_recent three_lines none van_record 1 [] ≡ ok last_line
unfolding read_recent read_each read_source get_sources entries_of last_lines trim chomp file_lines
    universal_newlines emu_log_path concat clean_dhu_line
last_line_read = refl
