-- ===== src/Instances/Background.antt =====
-- What the instance manager does besides requests: a round of `_screenshot_refresh_loop` of
-- server.py, and `shutdown_all_instances` of cleanup.py. The sleep between two rounds and the loop
-- that repeats them are not modelled.
pub mod Frame
use vanpilot.Prelude.{ℕ, String, Bool, true, false, not, List, [], ◌∷◌, if◌then◌else◌}
use vanpilot.Exec.{Exn, key_error, pure, raise, gets, catch, swallow, ◌>>=◌, ◌>>◌}
use vanpilot.Instances.Store.{Store, InstanceState, InstanceRecord, Assign, get_running, list_all}
use vanpilot.Instances.Machine.{Env, M, update, time_ms}
use vanpilot.Instances.Lifecycle.Paths.{serial_of}
use vanpilot.Instances.Lifecycle.Wait.{screenshot, emulator_screenshot_to_bytes}
use vanpilot.Instances.Lifecycle.Destroy.{check_health, destroy}

-- `except KeyError`
abbrev pub is_key_error : Exn → Bool
is_key_error key_error = true
is_key_error _ = false

module _ (env : Env) where
  -- the `try` around the screenshots
  unfoldable pub take_screenshots : InstanceRecord → M (Unit {0})
  take_screenshots r = do
    dhu_png ← screenshot env r
    emu_png ← emulator_screenshot_to_bytes env (serial_of r.emulator_console_port)
    now ← time_ms env
    update r.name (
        Assign.last_screenshot_png dhu_png
        ∷ Assign.last_emulator_screenshot_png emu_png
        ∷ Assign.last_screenshot_at_ms now
        ∷ [])

  -- the body of the loop over the running instances
  unfoldable pub refresh : InstanceRecord → M (Unit {0})
  unfolding take_screenshots
  refresh r = do
    healthy ← check_health env r.name
    if not healthy
        then catch (update r.name (Assign.state InstanceState.error ∷ []))
            (λ e. if is_key_error e then pure tt else raise e)
        else swallow (take_screenshots r)

  unfoldable pub refresh_each : List InstanceRecord → M (Unit {0})
  unfolding refresh
  refresh_each [] = pure tt
  refresh_each (r ∷ records) = refresh r >> refresh_each records

  -- one round of `_screenshot_refresh_loop`
  unfoldable pub refresh_round : M (Unit {0})
  unfolding refresh_each
  refresh_round = do records ← gets (λ m. get_running m.store); refresh_each records

  unfoldable pub destroy_each : List InstanceRecord → M (Unit {0})
  destroy_each [] = pure tt
  destroy_each (r ∷ records) = swallow (destroy env r) >> destroy_each records

  -- `shutdown_all_instances`
  unfoldable pub shutdown_all_instances : M (Unit {0})
  unfolding destroy_each
  shutdown_all_instances = do records ← gets (λ m. list_all m.store); destroy_each records
