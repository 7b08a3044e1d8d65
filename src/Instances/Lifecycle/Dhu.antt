-- ===== src/Instances/Lifecycle/Dhu.antt =====
-- `restart_dhu` and `dhu_command` of emulator_lifecycle.py.
use vanpilot.Prelude.{String, Bool, Option, none, some, [], ◌∷◌, string_eq, if◌then◌else◌}
use vanpilot.Prelude.Text.{concat}
use vanpilot.Prelude.Dict.{Dict, lookup, insert}
use vanpilot.Exec.{runtime_error, on_option, pure, raise, gets, swallow_os, ◌>>=◌, ◌>>◌}
use vanpilot.Instances.Store.{Bytes, InstanceRecord, Assign}
use vanpilot.Instances.Machine.{
  Env, M, Proc, Handles, no_handles, run, popen, pipe_write, append, sleep, time_ms, update, get,
  set_handles,
}
use vanpilot.Instances.Lifecycle.Paths.{serial_of, pipe_path_of, log_path_of}
use vanpilot.Instances.Lifecycle.Wait.{
  filled_path, wait_for_dhu, wait_for_dhu_screenshot, screenshot_to_bytes,
  emulator_screenshot_to_bytes,
}
use vanpilot.Instances.Lifecycle.Destroy.{if_alive, stop_group, stop_proc, kill_pid}
use vanpilot.Instances.Lifecycle.Create.{Timeouts, keeper_args, dhu_args}

-- `record.pipe_path or f"..."`
abbrev path_or : Option String → String → String
path_or o default = elim (filled_path o) [ none ↦ default | some path ↦ path ]

-- "4. Update handles": the entry of the instance is changed, or made anew
unfoldable pub with_dhu : String → Proc → Proc → Dict String Handles → Dict String Handles
with_dhu name dhu keeper handles = elim (lookup name handles) [
  | none ↦ insert name (record no_handles { dhu = some dhu; keeper = some keeper }) handles
  | some h ↦ insert name (record h { dhu = some dhu; keeper = some keeper }) handles
]

module _ (env : Env) where
  -- "1. Kill old DHU + keeper"
  unfoldable pub stop_dhu : InstanceRecord → M (Unit {0})
  stop_dhu record_ = do
    handles ← gets (λ m. lookup record_.name m.handles)
    on_option handles (do kill_pid env record_.dhu_pid; kill_pid env record_.keeper_pid)
        (λ h. do if_alive env h.dhu (stop_group env); if_alive env h.keeper (stop_proc env))

  -- "2." to "5.": a fresh pipe, the new processes, their handles and their pids
  unfoldable pub respawn_dhu : InstanceRecord → String → String → M (Unit {0})
  unfolding with_dhu
  respawn_dhu record_ pipe_path log_path = do
    run env ("rm" ∷ "-f" ∷ pipe_path ∷ [])
    run env ("rm" ∷ "-f" ∷ log_path ∷ [])
    run env ("mkfifo" ∷ pipe_path ∷ [])
    keeper ← popen env (keeper_args pipe_path)
    dhu ← popen env (dhu_args env record_.aa_forward_port record_.headful pipe_path log_path)
    set_handles (with_dhu record_.name dhu keeper)
    update record_.name (
        Assign.dhu_pid dhu
        ∷ Assign.keeper_pid keeper
        ∷ Assign.pipe_path pipe_path
        ∷ Assign.log_path log_path
        ∷ [])

  unfoldable pub restart_dhu : Timeouts → InstanceRecord → M (Option InstanceRecord)
  unfolding stop_dhu respawn_dhu
  restart_dhu timeouts record_ = do
    let pipe_path = path_or record_.pipe_path (pipe_path_of record_.name)
    let log_path = path_or record_.log_path (log_path_of record_.name)
    stop_dhu record_
    respawn_dhu record_ pipe_path log_path
    wait_for_dhu env timeouts.dhu log_path
    dhu_png ← wait_for_dhu_screenshot env record_.name pipe_path
    emu_png ← emulator_screenshot_to_bytes env (serial_of record_.emulator_console_port)
    now ← time_ms env
    update record_.name (
        Assign.last_screenshot_png dhu_png
        ∷ Assign.last_emulator_screenshot_png emu_png
        ∷ Assign.last_screenshot_at_ms now
        ∷ [])
    get record_.name

  -- the command is echoed to the log, if there is one, and written to the pipe
  unfoldable pub echo_command : InstanceRecord → String → M (Unit {0})
  echo_command record_ command =
      on_option (filled_path record_.log_path) (pure tt)
        (λ path. swallow_os (append env path (concat ("> " ∷ command ∷ "\n" ∷ []))))

  send_command : InstanceRecord → String → Bool → String → M Bytes
  unfolding echo_command
  send_command record_ command capture_screenshot pipe_path = do
    echo_command record_ command
    pipe_write env pipe_path command
    if capture_screenshot
        then (do sleep env 1000; screenshot_to_bytes env record_.name pipe_path)
        else pure []

  unfoldable pub dhu_command : InstanceRecord → String → Bool → M Bytes
  unfolding send_command
  dhu_command record_ command capture_screenshot =
      on_option (filled_path record_.pipe_path) (raise runtime_error)
        (λ pipe_path. send_command record_ command capture_screenshot pipe_path)
