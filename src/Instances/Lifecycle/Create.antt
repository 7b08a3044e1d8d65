-- ===== src/Instances/Lifecycle/Create.antt =====
-- `create` of emulator_lifecycle.py. Its local variable `handles`, which the `except` clause reads,
-- stands beside the manager's state while the body runs.
use vanpilot.Prelude.{
  ℕ, String, Bool, Option, none, some, List, [], ◌∷◌, ◌++◌, not, string_eq, if◌then◌else◌,
}
use vanpilot.Prelude.Text.{concat, str, is_blank, text_of, join_paths}
use vanpilot.Prelude.Dict.{insert}
use vanpilot.Exec.{Exec, Result, ok, err, pure, raise, modify, swallow_os, when, ◌>>=◌, ◌>>◌}
use vanpilot.Instances.Ports.{PortSlot}
use vanpilot.Instances.Store.{InstanceRecord, Assign, running, error}
use vanpilot.Instances.Machine.{
  Env, M, Manager, Proc, Handles, no_handles, run, popen, kill, open_file, time_ms, run_checked,
  update, get,
}
use vanpilot.Instances.Lifecycle.Paths.{serial_of, pipe_path_of, log_path_of, emu_log_path}
use vanpilot.Instances.Lifecycle.Wait.{
  wait_for_boot, check_snapshot_sentinel, wait_for_dhu, wait_for_dhu_screenshot,
  emulator_screenshot_to_bytes,
}
use vanpilot.Instances.Lifecycle.Gpu.{resolve_gpu_mode}

-- the keyword arguments of `EmulatorLifecycle.__init__`, in ms
pub record Timeouts : Type 0 where
  pub boot : ℕ
  pub dhu : ℕ

-- `_DEFAULT_BOOT_TIMEOUT` and `_DEFAULT_DHU_TIMEOUT`
abbrev pub default_timeouts : Timeouts
default_timeouts = record { boot = 60000; dhu = 30000 }

abbrev pub Starting : Type 0
Starting = Manager × Handles

-- a step that does not touch `handles`
unfoldable pub up : {A : Type 0} → M A → Exec Starting A
up f (m, h) = let (r, m') = f m in (r, (m', h))

unfoldable pub note : (Handles → Handles) → Exec Starting (Unit {0})
note f = modify (λ (m, h). (m, f h))

-- the command line of the emulator
unfoldable pub emulator_args : String → String → String → Bool → PortSlot → List String
emulator_args avd_name snapshot_name gpu_mode headful ports =
    ("emulator"
      ∷ concat ("@" ∷ avd_name ∷ [])
      ∷ "-read-only"
      ∷ "-port"
      ∷ str ports.console_port
      ∷ "-snapshot"
      ∷ snapshot_name
      ∷ "-no-boot-anim"
      ∷ "-gpu"
      ∷ gpu_mode
      ∷ [])
    ++ (if headful then [] else "-no-window" ∷ [])

unfoldable pub socat_args : PortSlot → List String
socat_args ports =
    "socat"
    ∷ concat ("TCP-LISTEN:" ∷ str ports.adb_port ∷ ",bind=0.0.0.0,reuseaddr,fork" ∷ [])
    ∷ concat ("TCP:127.0.0.1:" ∷ str ports.adb_port ∷ [])
    ∷ []

unfoldable pub keeper_args : String → List String
keeper_args pipe_path =
    "bash" ∷ "-c" ∷ concat ("while true; do sleep 3600; done > " ∷ pipe_path ∷ []) ∷ []

-- the shell command of the head unit
unfoldable pub dhu_args : Env → ℕ → Bool → String → String → List String
dhu_args env aa_forward_port headful pipe_path log_path =
    let path =
      join_paths env.android_home ("extras" ∷ "google" ∷ "auto" ∷ "desktop-head-unit" ∷ []) in
    "bash"
    ∷ "-c"
    ∷ concat (
        path
        ∷ " --adb="
        ∷ str aa_forward_port
        ∷ (if headful then "" else " --headless")
        ∷ " < "
        ∷ pipe_path
        ∷ " >> "
        ∷ log_path
        ∷ " 2>&1"
        ∷ [])
    ∷ []

-- `self._handles[name] = handles`
unfoldable pub keep_handles : String → Exec Starting (Unit {0})
keep_handles name = modify (λ (m, h). (record m { handles = insert name h m.handles }, h))

module _ (env : Env) (timeouts : Timeouts) where
  -- a process that is started, and written to `handles`
  unfoldable pub spawn : List String → (Proc → Handles → Handles) → Exec Starting Proc
  unfolding up note
  spawn args set = do p ← up (popen env args); note (set p); pure p

  -- up to the forwarded port
  unfoldable pub start_emulator :
      String → String → String → Bool → PortSlot → Exec Starting (Unit {0})
  unfolding up spawn
  start_emulator name avd_name snapshot_name headful ports = do
    let serial = serial_of ports.console_port
    up (run env ("bash" ∷ "-c" ∷ "rm -rf /tmp/android-$USER/emu-crash-*.db" ∷ []))
    gpu_mode ← up (resolve_gpu_mode env avd_name snapshot_name)
    up (open_file env (emu_log_path name))
    emu ←
        spawn (emulator_args avd_name snapshot_name (text_of gpu_mode) headful ports)
          (λ p h. record h { emulator = some p })
    up (update name (Assign.emulator_pid emu ∷ []))
    up (wait_for_boot env timeouts.boot serial)
    up (when (not (is_blank snapshot_name)) (check_snapshot_sentinel env serial))
    socat ← spawn (socat_args ports) (λ p h. record h { socat = some p })
    up (update name (Assign.socat_pid socat ∷ []))
    up (
        run_checked env (
          "adb"
          ∷ "-s"
          ∷ serial
          ∷ "forward"
          ∷ concat ("tcp:" ∷ str ports.aa_forward_port ∷ [])
          ∷ "tcp:5277"
          ∷ []))

  -- the pipe, its keeper and the head unit
  unfoldable pub start_dhu : String → Bool → PortSlot → Exec Starting (Unit {0})
  unfolding up spawn
  start_dhu name headful ports = do
    let pipe_path = pipe_path_of name
    let log_path = log_path_of name
    up (run env ("mkfifo" ∷ pipe_path ∷ []))
    keeper ← spawn (keeper_args pipe_path) (λ p h. record h { keeper = some p })
    dhu ←
        spawn (dhu_args env ports.aa_forward_port headful pipe_path log_path)
          (λ p h. record h { dhu = some p })
    up (
        update name (
          Assign.dhu_pid dhu
          ∷ Assign.keeper_pid keeper
          ∷ Assign.pipe_path pipe_path
          ∷ Assign.log_path log_path
          ∷ []))

  -- the pictures, and the record set to RUNNING
  unfoldable pub first_pictures : String → String → M (Unit {0})
  first_pictures name serial = do
    wait_for_dhu env timeouts.dhu (log_path_of name)
    dhu_png ← wait_for_dhu_screenshot env name (pipe_path_of name)
    emu_png ← emulator_screenshot_to_bytes env serial
    now ← time_ms env
    update name (
        Assign.state running
        ∷ Assign.last_screenshot_png dhu_png
        ∷ Assign.last_emulator_screenshot_png emu_png
        ∷ Assign.last_screenshot_at_ms now
        ∷ [])

  unfoldable pub create_body :
      String → String → String → Bool → PortSlot → Exec Starting (Option InstanceRecord)
  unfolding start_emulator start_dhu first_pictures keep_handles
  create_body name avd_name snapshot_name headful ports = do
    start_emulator name avd_name snapshot_name headful ports
    start_dhu name headful ports
    up (first_pictures name (serial_of ports.console_port))
    keep_handles name
    up (get name)

  -- `try: proc.kill() except OSError: pass`, for each process that was started
  unfoldable pub kill_all : List (Option Proc) → M (Unit {0})
  kill_all [] = pure tt
  kill_all (none ∷ procs) = kill_all procs
  kill_all (some p ∷ procs) = let rest = kill_all procs in do swallow_os (kill env p); rest

  -- the `except` clause
  unfoldable pub clean_up : String → Handles → M (Unit {0})
  unfolding kill_all
  clean_up name h = do
    kill_all (h.dhu ∷ h.keeper ∷ h.socat ∷ h.emulator ∷ [])
    update name (Assign.state error ∷ [])

  abbrev pub after_body :
      String → Result (Option InstanceRecord) → Handles → M (Option InstanceRecord)
  after_body name (ok r) h = pure r
  after_body name (err e) h = do clean_up name h; raise e

  unfoldable pub create : String → String → String → Bool → PortSlot → M (Option InstanceRecord)
  unfolding create_body clean_up
  create name avd_name snapshot_name headful ports m =
      let (r, (m', h)) = create_body name avd_name snapshot_name headful ports (m, no_handles) in
      after_body name r h m'
