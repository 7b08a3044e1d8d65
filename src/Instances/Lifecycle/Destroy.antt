-- ===== src/Instances/Lifecycle/Destroy.antt =====
-- `destroy`, `_destroy_via_handles`, `_destroy_via_pids` and `check_health` of
-- emulator_lifecycle.py.
use vanpilot.Prelude.{
  ℕ, String, Bool, true, false, Option, none, some, List, [], ◌∷◌, ◌==◌, nat_eq, string_eq,
  if◌then◌else◌,
}
use vanpilot.Prelude.Text.{concat, str}
use vanpilot.Prelude.Dict.{lookup, erase}
use vanpilot.Exec.{
  Exn, timeout_expired, is_os_error, on_option, pure, raise, gets, catch, ◌>>=◌, ◌>>◌,
}
use vanpilot.Instances.Store.{InstanceRecord}
use vanpilot.Instances.Machine.{
  Env, M, Proc, Handles, sigterm, sigkill, run, is_alive, terminate, kill, wait, getpgid, killpg,
  set_handles,
}
use vanpilot.Instances.Lifecycle.Paths.{serial_of, emu_log_path}
use vanpilot.Instances.Lifecycle.Wait.{filled_path}

abbrev pub is_timeout_expired : Exn → Bool
is_timeout_expired timeout_expired = true
is_timeout_expired _ = false

-- `_DESTROY_GRACEFUL_TIMEOUT` and `_DESTROY_EMULATOR_TIMEOUT`
abbrev pub graceful_timeout : ℕ
graceful_timeout = 5000

abbrev pub emulator_timeout : ℕ
emulator_timeout = 10000

-- `except subprocess.TimeoutExpired`
abbrev pub on_timeout : M (Unit {0}) → M (Unit {0}) → M (Unit {0})
on_timeout m h = catch m (λ e. if is_timeout_expired e then h else raise e)

abbrev pub is_stop_failure : Exn → Bool
is_stop_failure timeout_expired = true
is_stop_failure e = is_os_error e

-- a pid that is neither `None` nor 0
abbrev pub filled_pid : Option ℕ → Option ℕ
filled_pid none = none
filled_pid (some pid) = if pid == 0 then none else some pid

-- the entry of a process in `_ProcessHandles`, if it is there and has not ended
abbrev pub if_alive : Env → Option Proc → (Proc → M (Unit {0})) → M (Unit {0})
if_alive env o m =
    on_option o (pure tt) (λ p. do alive ← is_alive env p; if alive then m p else pure tt)

module _ (env : Env) where
  -- terminate, and kill after a timeout
  unfoldable pub stop_proc : Proc → M (Unit {0})
  stop_proc p = do
    terminate env p
    on_timeout (wait env p graceful_timeout) (do kill env p; wait env p graceful_timeout)

  -- the process group of the head unit; failures are logged
  unfoldable pub stop_group : Proc → M (Unit {0})
  stop_group p =
      catch
        (do
          pgid ← getpgid env p
          killpg env pgid sigterm
          on_timeout (wait env p graceful_timeout)
              (do killpg env pgid sigkill; wait env p graceful_timeout))
        (λ e. if is_stop_failure e then pure tt else raise e)

  -- the emulator: asked by adb, then terminated, then killed
  unfoldable pub stop_emulator : String → Proc → M (Unit {0})
  unfolding stop_proc
  stop_emulator serial p = do
    run env ("adb" ∷ "-s" ∷ serial ∷ "emu" ∷ "kill" ∷ [])
    on_timeout (wait env p emulator_timeout) (stop_proc p)

  unfoldable pub destroy_via_handles : Handles → String → M (Unit {0})
  unfolding stop_group stop_proc stop_emulator
  destroy_via_handles h serial = do
    if_alive env h.dhu stop_group
    if_alive env h.keeper stop_proc
    if_alive env h.socat stop_proc
    if_alive env h.emulator (stop_emulator serial)

  -- `if record.dhu_pid: run(["kill", ...])`
  unfoldable pub kill_pid : Option ℕ → M (Unit {0})
  kill_pid o =
      on_option (filled_pid o) (pure tt) (λ pid. do run env ("kill" ∷ str pid ∷ []); pure tt)

  unfoldable pub destroy_via_pids : InstanceRecord → String → M (Unit {0})
  unfolding kill_pid
  destroy_via_pids record_ serial = do
    kill_pid record_.dhu_pid
    kill_pid record_.keeper_pid
    kill_pid record_.socat_pid
    run env ("adb" ∷ "-s" ∷ serial ∷ "emu" ∷ "kill" ∷ [])
    pure tt

  -- `if path: run(["rm", "-f", path])`
  unfoldable pub remove_file : Option String → M (Unit {0})
  remove_file o =
      on_option (filled_path o) (pure tt) (λ path. do run env ("rm" ∷ "-f" ∷ path ∷ []); pure tt)

  -- `self._handles.pop(name, None)`
  unfoldable pub pop_handles : String → M (Option Handles)
  pop_handles name = do
    handles ← gets (λ m. lookup name m.handles)
    set_handles (erase name)
    pure handles

  unfoldable pub destroy : InstanceRecord → M (Unit {0})
  unfolding destroy_via_handles destroy_via_pids remove_file pop_handles
  destroy record_ = do
    let serial = serial_of record_.emulator_console_port
    handles ← pop_handles record_.name
    on_option handles (destroy_via_pids record_ serial) (λ h. destroy_via_handles h serial)
    run env (
        "adb"
        ∷ "-s"
        ∷ serial
        ∷ "forward"
        ∷ "--remove"
        ∷ concat ("tcp:" ∷ str record_.aa_forward_port ∷ [])
        ∷ [])
    remove_file record_.pipe_path
    remove_file record_.log_path
    remove_file (some (emu_log_path record_.name))

  -- `check_health`: the processes are polled up to the first that has ended
  unfoldable pub all_alive : List (Option Proc) → M Bool
  all_alive [] = pure true
  all_alive (none ∷ procs) = all_alive procs
  all_alive (some p ∷ procs) =
      let rest = all_alive procs in do alive ← is_alive env p; if alive then rest else pure false

  unfoldable pub check_health : String → M Bool
  unfolding all_alive
  check_health name = do
    handles ← gets (λ m. lookup name m.handles)
    on_option handles (pure true) (λ h. all_alive (h.emulator ∷ h.dhu ∷ h.keeper ∷ h.socat ∷ []))
