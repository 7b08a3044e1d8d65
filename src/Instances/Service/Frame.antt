-- ===== src/Instances/Service/Frame.antt =====
-- The handlers that drive a running instance leave the claims on ports alone.
use vanpilot.Prelude.{ap, String, Bool, List}
use vanpilot.Prelude.Int.{ℤ}
use vanpilot.Exec.Keeps.{Keeps}
use vanpilot.Instances.Store.{Bytes}
use vanpilot.Instances.Machine.{Env, M}
use vanpilot.Instances.Machine.Frame.{claims}
use vanpilot.Instances.Lifecycle.Create.{Timeouts}
use vanpilot.Instances.Lifecycle.Frame.{method_rules}
use vanpilot.Instances.Service.{known_record, running_record, get_instance, list_instances}
use vanpilot.Instances.Service.Checks.{known_record-ReadsOnly, running_record-ReadsOnly, ReadsOnly}
use vanpilot.Instances.Service.Claims.{info_of-Keeps}
use vanpilot.Instances.Service.Device.{
  InstallRequest, validate_snapshot_request, screenshot_instance, restart_dhu, dhu_command,
  install_apk, save_snapshot, load_snapshot, adb_shell, adb_push, adb_pull,
}

-- An action that only reads leaves the claims alone.
reads-Keeps : {A : Type 0} {m : M A} → ReadsOnly m → Keeps claims m
reads-Keeps k = record { at = λ s. ap claims (k.at s) }

running_record-Keeps : (name : String) → Keeps claims (running_record name)
running_record-Keeps name = reads-Keeps (running_record-ReadsOnly name)

known_record-Keeps : (name : String) → Keeps claims (known_record name)
known_record-Keeps name = reads-Keeps (known_record-ReadsOnly name)

ruleset record_rules = (method_rules, running_record-Keeps, known_record-Keeps, info_of-Keeps)

validate_snapshot_request-Keeps :
    (name s : String) → Keeps claims (validate_snapshot_request name s)
unfolding validate_snapshot_request
validate_snapshot_request-Keeps name s = search record_rules depth 14

pub get_instance-Keeps : (name : String) → Keeps claims (get_instance name)
unfolding get_instance
get_instance-Keeps name = search record_rules depth 14

pub list_instances-Keeps : Keeps claims list_instances
unfolding list_instances
list_instances-Keeps = search record_rules

module _ (env : Env) where
  pub screenshot_instance-Keeps : (name : String) → Keeps claims (screenshot_instance env name)
  unfolding screenshot_instance
  screenshot_instance-Keeps name = search record_rules depth 20

  pub restart_dhu-Keeps :
      (timeouts : Timeouts) (name : String) → Keeps claims (restart_dhu env timeouts name)
  unfolding restart_dhu
  restart_dhu-Keeps timeouts name = search record_rules depth 20

  pub dhu_command-Keeps :
      (name command : String) (shot : Bool) → Keeps claims (dhu_command env name command shot)
  unfolding dhu_command
  dhu_command-Keeps name command shot = search record_rules depth 20

  pub install_apk-Keeps :
      (timeouts : Timeouts) (request : InstallRequest)
      → Keeps claims (install_apk env timeouts request)
  unfolding install_apk
  install_apk-Keeps timeouts request = search record_rules depth 24

  pub save_snapshot-Keeps : (name s : String) → Keeps claims (save_snapshot env name s)
  unfolding save_snapshot
  save_snapshot-Keeps name s = search (record_rules, validate_snapshot_request-Keeps) depth 16

  pub load_snapshot-Keeps : (name s : String) → Keeps claims (load_snapshot env name s)
  unfolding load_snapshot
  load_snapshot-Keeps name s = search (record_rules, validate_snapshot_request-Keeps) depth 16

  pub adb_shell-Keeps :
      (name : String) (args : List String) (t : ℤ) → Keeps claims (adb_shell env name args t)
  unfolding adb_shell
  adb_shell-Keeps name args t = search record_rules depth 16

  pub adb_push-Keeps :
      (name : String) (content : Bytes) (path : String)
      → Keeps claims (adb_push env name content path)
  unfolding adb_push
  adb_push-Keeps name content path = search record_rules depth 16

  pub adb_pull-Keeps : (name path : String) → Keeps claims (adb_pull env name path)
  unfolding adb_pull
  adb_pull-Keeps name path = search record_rules depth 16
