-- ===== src/Instances/Background/Frame.antt =====
-- The work besides requests leaves the claims on ports alone.
use vanpilot.Prelude.{String, true, false, Option, none, some, List, [], ◌∷◌}
use vanpilot.Exec.Keeps.{Keeps, Keeps-bind, Keeps-pure, Keeps-catch, Keeps-gets, Keeps-if}
use vanpilot.Instances.Store.{InstanceRecord}
use vanpilot.Instances.Machine.{Env, Proc}
use vanpilot.Instances.Machine.Frame.{claims, is_alive-Keeps, machine_rules}
use vanpilot.Instances.Lifecycle.Destroy.{check_health, all_alive}
use vanpilot.Instances.Lifecycle.Frame.{method_rules, destroy-Keeps}
use vanpilot.Instances.Background.{
  take_screenshots, refresh, refresh_each, refresh_round, destroy_each, shutdown_all_instances,
}

module _ (env : Env) where
  all_alive-Keeps : (ps : List (Option Proc)) → Keeps claims (all_alive env ps)
  unfolding all_alive
  all_alive-Keeps [] = Keeps-pure true
  all_alive-Keeps (none ∷ ps) = all_alive-Keeps ps
  all_alive-Keeps (some p ∷ ps) =
      Keeps-bind _ _ (is_alive-Keeps env p)
        (λ alive. Keeps-if alive _ _ (all_alive-Keeps ps) (Keeps-pure false))

  check_health-Keeps : (name : String) → Keeps claims (check_health env name)
  unfolding check_health
  check_health-Keeps name = search (machine_rules, all_alive-Keeps) depth 10

  take_screenshots-Keeps : (r : InstanceRecord) → Keeps claims (take_screenshots env r)
  unfolding take_screenshots
  take_screenshots-Keeps r = search method_rules depth 14

  pub refresh-Keeps : (r : InstanceRecord) → Keeps claims (refresh env r)
  unfolding refresh
  refresh-Keeps r = search (method_rules, check_health-Keeps, take_screenshots-Keeps) depth 14

  refresh_each-Keeps : (rs : List InstanceRecord) → Keeps claims (refresh_each env rs)
  unfolding refresh_each
  refresh_each-Keeps [] = Keeps-pure tt
  refresh_each-Keeps (r ∷ rs) = Keeps-bind _ _ (refresh-Keeps r) (λ _. refresh_each-Keeps rs)

  pub refresh_round-Keeps : Keeps claims (refresh_round env)
  unfolding refresh_round
  refresh_round-Keeps = Keeps-bind _ _ (Keeps-gets _) refresh_each-Keeps

  destroy_each-Keeps : (rs : List InstanceRecord) → Keeps claims (destroy_each env rs)
  unfolding destroy_each
  destroy_each-Keeps [] = Keeps-pure tt
  destroy_each-Keeps (r ∷ rs) =
      Keeps-bind _ _ (Keeps-catch _ _ (destroy-Keeps env r) (λ _. Keeps-pure tt))
        (λ _. destroy_each-Keeps rs)

  pub shutdown_all_instances-Keeps : Keeps claims (shutdown_all_instances env)
  unfolding shutdown_all_instances
  shutdown_all_instances-Keeps = Keeps-bind _ _ (Keeps-gets _) destroy_each-Keeps
