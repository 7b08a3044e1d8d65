-- ===== src/Instances/Lifecycle/Frame/Loops.antt =====
-- The polling methods leave the claims alone.
use vanpilot.Prelude.{ℕ, zero, suc, String, Option, none, ltb}
use vanpilot.Exec.Keeps.{Keeps, Keeps-bind, Keeps-if, Keeps-on_option, Keeps-pure}
use vanpilot.Instances.Store.{InstanceRecord}
use vanpilot.Instances.Machine.{Env, M}
use vanpilot.Instances.Machine.Loop.{poll_until}
use vanpilot.Instances.Machine.Frame.{claims, machine_rules, time_ms-Keeps}
use vanpilot.Instances.Lifecycle.Wait.{
  wait_for_boot, check_snapshot_sentinel, wait_for_dhu, screenshot_to_bytes, screenshot,
  emulator_screenshot_to_bytes, wait_for_dhu_screenshot,
}

module _ (env : Env) {A : Type 0} where
  poll_until-Keeps :
      (fuel deadline : ℕ) (body : M (Option A))
      → Keeps claims body
      → Keeps claims (poll_until env fuel deadline body)
  unfolding poll_until
  poll_until-Keeps zero deadline body k = search machine_rules
  poll_until-Keeps (suc fuel) deadline body k = Keeps-bind _ _ (time_ms-Keeps env) (λ now.
      Keeps-if (ltb now deadline) _ _
        (Keeps-bind _ _ k (λ found.
          Keeps-on_option found _ _ (poll_until-Keeps fuel deadline body k) (λ a. Keeps-pure _)))
        (Keeps-pure none))

ruleset loop_rules = (machine_rules, poll_until-Keeps)

module _ (env : Env) where
  pub wait_for_boot-Keeps :
      (timeout : ℕ) (serial : String) → Keeps claims (wait_for_boot env timeout serial)
  unfolding wait_for_boot
  wait_for_boot-Keeps timeout serial = search loop_rules depth 12

  pub check_snapshot_sentinel-Keeps :
      (serial : String) → Keeps claims (check_snapshot_sentinel env serial)
  unfolding check_snapshot_sentinel
  check_snapshot_sentinel-Keeps serial = search loop_rules depth 9

  pub wait_for_dhu-Keeps :
      (timeout : ℕ) (log_path : String) → Keeps claims (wait_for_dhu env timeout log_path)
  unfolding wait_for_dhu
  wait_for_dhu-Keeps timeout log_path = search loop_rules depth 12

  pub screenshot_to_bytes-Keeps :
      (name pipe_path : String) → Keeps claims (screenshot_to_bytes env name pipe_path)
  unfolding screenshot_to_bytes
  screenshot_to_bytes-Keeps name pipe_path = search loop_rules depth 14

  pub screenshot-Keeps : (r : InstanceRecord) → Keeps claims (screenshot env r)
  unfolding screenshot
  screenshot-Keeps r = search (loop_rules, screenshot_to_bytes-Keeps) depth 14

  pub emulator_screenshot_to_bytes-Keeps :
      (serial : String) → Keeps claims (emulator_screenshot_to_bytes env serial)
  unfolding emulator_screenshot_to_bytes
  emulator_screenshot_to_bytes-Keeps serial = search loop_rules depth 14

  pub wait_for_dhu_screenshot-Keeps :
      (name pipe_path : String) → Keeps claims (wait_for_dhu_screenshot env name pipe_path)
  unfolding wait_for_dhu_screenshot
  wait_for_dhu_screenshot-Keeps name pipe_path = search loop_rules depth 14

pub ruleset wait_rules = (
  machine_rules, wait_for_boot-Keeps, check_snapshot_sentinel-Keeps, wait_for_dhu-Keeps,
  screenshot_to_bytes-Keeps, screenshot-Keeps, emulator_screenshot_to_bytes-Keeps,
  wait_for_dhu_screenshot-Keeps,
)
