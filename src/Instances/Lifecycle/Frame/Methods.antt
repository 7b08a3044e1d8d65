-- ===== src/Instances/Lifecycle/Frame/Methods.antt =====
-- The methods of the lifecycle but `create` leave the claims alone.
use vanpilot.Prelude.{ℕ, String, Bool, Option, none, some, List, [], ◌∷◌}
use vanpilot.Prelude.Int.{ℤ}
use vanpilot.Exec.Keeps.{Keeps}
use vanpilot.Instances.Store.{Bytes, InstanceRecord}
use vanpilot.Instances.Machine.{Env, Proc, Handles}
use vanpilot.Instances.Machine.Frame.{claims, machine_rules}
use vanpilot.Instances.Lifecycle.Create.{Timeouts}
use vanpilot.Instances.Lifecycle.Gpu.{resolve_gpu_mode}
use vanpilot.Instances.Lifecycle.Destroy.{
  stop_proc, stop_group, stop_emulator, destroy_via_handles, kill_pid, destroy_via_pids,
  remove_file, pop_handles, destroy, all_alive, check_health,
}
use vanpilot.Instances.Lifecycle.Dhu.{stop_dhu, respawn_dhu, restart_dhu, echo_command, dhu_command}
use vanpilot.Instances.Lifecycle.Adb.{
  adb_shell, adb_push, adb_pull, save_snapshot, load_snapshot, install_apk,
}
use vanpilot.Instances.Lifecycle.Frame.Loops.{wait_rules}

module _ (env : Env) where
  pub resolve_gpu_mode-Keeps :
      (avd snapshot : String) → Keeps claims (resolve_gpu_mode env avd snapshot)
  unfolding resolve_gpu_mode
  resolve_gpu_mode-Keeps avd snapshot = search machine_rules depth 16

  stop_proc-Keeps : (p : Proc) → Keeps claims (stop_proc env p)
  unfolding stop_proc
  stop_proc-Keeps p = search machine_rules depth 12

  stop_group-Keeps : (p : Proc) → Keeps claims (stop_group env p)
  unfolding stop_group
  stop_group-Keeps p = search machine_rules depth 14

  stop_emulator-Keeps : (serial : String) (p : Proc) → Keeps claims (stop_emulator env serial p)
  unfolding stop_emulator
  stop_emulator-Keeps serial p = search (machine_rules, stop_proc-Keeps) depth 12

  kill_pid-Keeps : (o : Option ℕ) → Keeps claims (kill_pid env o)
  unfolding kill_pid
  kill_pid-Keeps o = search machine_rules depth 12

  remove_file-Keeps : (o : Option String) → Keeps claims (remove_file env o)
  unfolding remove_file
  remove_file-Keeps o = search machine_rules depth 12

ruleset stop_rules = (
  wait_rules, stop_proc-Keeps, stop_group-Keeps, stop_emulator-Keeps, kill_pid-Keeps,
  remove_file-Keeps,
)

module _ (env : Env) where
  pop_handles-Keeps : (name : String) → Keeps claims (pop_handles env name)
  unfolding pop_handles
  pop_handles-Keeps name = search machine_rules depth 12

  destroy_via_handles-Keeps :
      (h : Handles) (serial : String) → Keeps claims (destroy_via_handles env h serial)
  unfolding destroy_via_handles
  destroy_via_handles-Keeps h serial = search stop_rules depth 16

  destroy_via_pids-Keeps :
      (r : InstanceRecord) (serial : String) → Keeps claims (destroy_via_pids env r serial)
  unfolding destroy_via_pids
  destroy_via_pids-Keeps r serial = search stop_rules depth 16

  pub destroy-Keeps : (r : InstanceRecord) → Keeps claims (destroy env r)
  unfolding destroy
  destroy-Keeps r =
      search (stop_rules, pop_handles-Keeps, destroy_via_handles-Keeps, destroy_via_pids-Keeps)
        depth 20

  all_alive-Keeps : (procs : List (Option Proc)) → Keeps claims (all_alive env procs)
  unfolding all_alive
  all_alive-Keeps [] = search machine_rules
  all_alive-Keeps (none ∷ procs) = all_alive-Keeps procs
  all_alive-Keeps (some p ∷ procs) = let ih = all_alive-Keeps procs in search machine_rules

  pub check_health-Keeps : (name : String) → Keeps claims (check_health env name)
  unfolding check_health
  check_health-Keeps name = search (machine_rules, all_alive-Keeps) depth 12

  stop_dhu-Keeps : (r : InstanceRecord) → Keeps claims (stop_dhu env r)
  unfolding stop_dhu
  stop_dhu-Keeps r = search stop_rules depth 18

  respawn_dhu-Keeps : (r : InstanceRecord) (p l : String) → Keeps claims (respawn_dhu env r p l)
  unfolding respawn_dhu
  respawn_dhu-Keeps r p l = search machine_rules depth 18

  pub restart_dhu-Keeps :
      (timeouts : Timeouts) (r : InstanceRecord) → Keeps claims (restart_dhu env timeouts r)
  unfolding restart_dhu
  restart_dhu-Keeps timeouts r = search (wait_rules, stop_dhu-Keeps, respawn_dhu-Keeps) depth 20

  pub dhu_command-Keeps :
      (r : InstanceRecord) (command : String) (shot : Bool)
      → Keeps claims (dhu_command env r command shot)
  unfolding dhu_command echo_command
  dhu_command-Keeps r command shot = search wait_rules depth 20

  module _ (r : InstanceRecord) where
    pub adb_shell-Keeps : (args : List String) (t : ℤ) → Keeps claims (adb_shell env r args t)
    unfolding adb_shell
    adb_shell-Keeps args t = search machine_rules

    pub adb_push-Keeps : (content : Bytes) (p : String) → Keeps claims (adb_push env r content p)
    unfolding adb_push
    adb_push-Keeps content p = search machine_rules depth 16

    pub adb_pull-Keeps : (p : String) → Keeps claims (adb_pull env r p)
    unfolding adb_pull
    adb_pull-Keeps p = search machine_rules depth 16

    pub save_snapshot-Keeps : (s : String) → Keeps claims (save_snapshot env r s)
    unfolding save_snapshot
    save_snapshot-Keeps s = search machine_rules depth 16

    pub load_snapshot-Keeps : (s : String) → Keeps claims (load_snapshot env r s)
    unfolding load_snapshot
    load_snapshot-Keeps s = search machine_rules depth 16

    pub install_apk-Keeps : (apk : Bytes) → Keeps claims (install_apk env r apk)
    unfolding install_apk
    install_apk-Keeps [] = search machine_rules
    install_apk-Keeps (b ∷ bytes) = search machine_rules depth 16

pub ruleset method_rules = (
  wait_rules, destroy-Keeps, restart_dhu-Keeps, dhu_command-Keeps, adb_shell-Keeps, adb_push-Keeps,
  adb_pull-Keeps, save_snapshot-Keeps, load_snapshot-Keeps, install_apk-Keeps,
)
