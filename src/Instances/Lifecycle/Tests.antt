-- ===== src/Instances/Lifecycle/Tests.antt =====
-- Concrete runs of the waits, in a world where only sleeping takes time.
use vanpilot.Prelude.{ℕ, ◌+◌, ◌≢◌, ◌≤◌, arith, none, false, [], ◌∷◌}
use vanpilot.Prelude.Int.{pos}
use vanpilot.Exec.{ok, err, file_not_found, out_of_fuel}
use vanpilot.Instances.Ports.{port_allocator}
use vanpilot.Instances.Machine.{Env, Manager, Trace, Effect, slept}
use vanpilot.Instances.Machine.Clock.{IsClock}
use vanpilot.Instances.Lifecycle.Wait.{wait_for_boot}
use vanpilot.Instances.Lifecycle.Wait.Ends.{IsFuelled, wait_for_boot_ends}

-- the time slept so far
abbrev elapsed : Trace → ℕ
elapsed [] = 0
elapsed (slept ms ∷ t) = elapsed t + ms
elapsed (_ ∷ t) = elapsed t

-- A world in which no emulator boots and no log appears.
abbrev dead : Env
dead = record {
  run = λ t args. ok (record { returncode = pos 1; stdout = ""; stderr = "" });
  run_within = λ t s args. ok (record { returncode = pos 1; stdout = ""; stderr = "" });
  popen = λ t args. ok 7;
  pipe_write = λ t path text. ok tt;
  is_alive = λ t p. false;
  terminate = λ t p. ok tt;
  kill = λ t p. ok tt;
  wait = λ t p ms. ok tt;
  getpgid = λ t p. ok p;
  killpg = λ t g s. ok tt;
  open_file = λ t path. ok tt;
  size = λ t path. none;
  read = λ t path. err file_not_found;
  append = λ t path text. ok tt;
  mkstemp = λ t. ok "/tmp/file";
  fill = λ t path content. ok tt;
  unlink = λ t path. ok tt;
  time_ms = elapsed;
  android_home = "/android";
  avd_home = "/avd";
}

dead-IsClock : IsClock dead
dead-IsClock = record { forward = not_back; passes = λ t ms. omega arith }
  where
    not_back : (t : Trace) (e : Effect) → elapsed t ≤ elapsed (e ∷ t)
    not_back t (slept ms) = omega arith
    not_back t _ = omega arith

dead-IsFuelled : IsFuelled dead
dead-IsFuelled = record {
  run = λ t args e. absurd (ground (arith, e));
  read = λ t path e. absurd (ground (arith, e));
}

abbrev idle : Manager
idle = record { store = []; ports = port_allocator 1; handles = []; trace = [] }

wait_for_boot_ends_example : (wait_for_boot dead 60000 "emulator-5554" idle).0 ≢ err out_of_fuel
wait_for_boot_ends_example =
    wait_for_boot_ends dead dead-IsClock dead-IsFuelled 60000 "emulator-5554" idle
