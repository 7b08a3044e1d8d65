-- ===== src/Instances/Service/Device.antt =====
-- The handlers of instance_manager_service.py that drive a running instance.
use vanpilot.Prelude.{ℕ, String, Bool, true, false, not, Option, List, [], ◌∷◌, if◌then◌else◌}
use vanpilot.Prelude.Int.{ℤ}
use vanpilot.Prelude.Text.{is_blank}
use vanpilot.Exec.{attribute_error, invalid_argument, on_option, pure, raise, when, ◌>>=◌, ◌>>◌}
use vanpilot.Instances.Store.{Bytes, InstanceRecord, Assign}
use vanpilot.Instances.Names.{is_safe_name}
use vanpilot.Instances.Machine.{Env, M, Completed, update, get, time_ms}
use vanpilot.Instances.Lifecycle.Paths.{serial_of}
use vanpilot.Instances.Lifecycle.Wait.{screenshot, emulator_screenshot_to_bytes}
use vanpilot.Instances.Lifecycle.Create.{Timeouts}
use vanpilot.Instances.Lifecycle.Dhu
use vanpilot.Instances.Lifecycle.Adb
use vanpilot.Instances.Service.{
  InstanceInfo, record_to_proto, info_of, abort, running_record, or_internal,
}

-- `not data` on bytes, `not args` on a list
abbrev pub is_nil : {A : Type 0} → List A → Bool
is_nil [] = true
is_nil (_ ∷ _) = false

pub record Screenshots : Type 0 where
  pub dhu_screenshot_png : Bytes
  pub emulator_screenshot_png : Bytes
  pub captured_at_ms : ℕ

pub record CommandReply : Type 0 where
  pub executed_at_ms : ℕ
  pub screenshot_png : Bytes

pub record InstallRequest : Type 0 where
  pub name : String
  pub apk_data : Bytes
  pub restart_dhu : Bool
  pub save_snapshot : String

-- `_validate_snapshot_request`
unfoldable pub validate_snapshot_request : String → String → M InstanceRecord
validate_snapshot_request name snapshot_name = do
  when (is_blank snapshot_name) (abort invalid_argument)
  when (not (is_safe_name snapshot_name)) (abort invalid_argument)
  running_record name

module _ (env : Env) where
  unfoldable pub screenshot_instance : String → M Screenshots
  screenshot_instance name = do
    r ← running_record name
    or_internal (do
      dhu_png ← screenshot env r
      emu_png ← emulator_screenshot_to_bytes env (serial_of r.emulator_console_port)
      now ← time_ms env
      update name (
          Assign.last_screenshot_png dhu_png
          ∷ Assign.last_emulator_screenshot_png emu_png
          ∷ Assign.last_screenshot_at_ms now
          ∷ [])
      pure (record {
        dhu_screenshot_png = dhu_png;
        emulator_screenshot_png = emu_png;
        captured_at_ms = now;
      }))

  unfoldable pub restart_dhu : Timeouts → String → M InstanceInfo
  restart_dhu timeouts name = do
    r ← running_record name
    or_internal (do updated ← Dhu.restart_dhu env timeouts r; info_of updated)

  unfoldable pub dhu_command : String → String → Bool → M CommandReply
  dhu_command name command capture_screenshot = do
    when (is_blank command) (abort invalid_argument)
    r ← running_record name
    or_internal (do
      png ← Dhu.dhu_command env r command capture_screenshot
      now ← time_ms env
      when (not (is_nil png))
          (update name (Assign.last_screenshot_png png ∷ Assign.last_screenshot_at_ms now ∷ []))
      pure (record { executed_at_ms = now; screenshot_png = png }))

  -- `self._lifecycle.save_snapshot(record, ...)`, where `record` may be `None` without a restart
  snapshot_of : Option InstanceRecord → String → M (Unit {0})
  snapshot_of o snapshot_name =
      on_option o (raise attribute_error) (λ r. Adb.save_snapshot env r snapshot_name)

  -- the name of the snapshot is checked inside the `try`, after the install and the restart
  unfoldable pub install_apk : Timeouts → InstallRequest → M InstanceInfo
  unfolding snapshot_of
  install_apk timeouts request = do
    when (is_nil request.apk_data) (abort invalid_argument)
    r ← running_record request.name
    or_internal (do
      Adb.install_apk env r request.apk_data
      after ← if request.restart_dhu then Dhu.restart_dhu env timeouts r else get request.name
      when (not (is_blank request.save_snapshot)) (do
        when (not (is_safe_name request.save_snapshot)) (abort invalid_argument)
        snapshot_of after request.save_snapshot)
      info_of after)

  unfoldable pub save_snapshot : String → String → M InstanceInfo
  save_snapshot name snapshot_name = do
    r ← validate_snapshot_request name snapshot_name
    or_internal (do Adb.save_snapshot env r snapshot_name; pure (record_to_proto r))

  unfoldable pub load_snapshot : String → String → M InstanceInfo
  load_snapshot name snapshot_name = do
    r ← validate_snapshot_request name snapshot_name
    or_internal (do Adb.load_snapshot env r snapshot_name; pure (record_to_proto r))

  unfoldable pub adb_shell : String → List String → ℤ → M Completed
  adb_shell name args timeout_s = do
    when (is_nil args) (abort invalid_argument)
    r ← running_record name
    or_internal (Adb.adb_shell env r args timeout_s)

  unfoldable pub adb_push : String → Bytes → String → M (Unit {0})
  adb_push name content remote_path = do
    when (is_nil content) (abort invalid_argument)
    when (is_blank remote_path) (abort invalid_argument)
    r ← running_record name
    or_internal (Adb.adb_push env r content remote_path)

  unfoldable pub adb_pull : String → String → M Bytes
  adb_pull name remote_path = do
    when (is_blank remote_path) (abort invalid_argument)
    r ← running_record name
    or_internal (Adb.adb_pull env r remote_path)
