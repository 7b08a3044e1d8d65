-- ===== src/Supervisor/Injector.antt =====
-- supervisor/src/input_injector.py: types into an agent's tmux session and waits for its log to
-- grow. tmux, the file system and the clocks are arguments that act on a world. Times are
-- milliseconds.
pub mod Laws
use vanpilot.Prelude.{
  ℕ, zero, suc, ◌+◌, String, Bool, true, false, not, Option, none, some, List, [], ◌∷◌, ltb,
  if◌then◌else◌,
}
use vanpilot.Prelude.Int.{pos}
use vanpilot.Prelude.Text.{concat, join_path}
use vanpilot.Exec.{Exec, Result, ok, err, out_of_fuel}
use vanpilot.Exec.Clock.{Clock}
use vanpilot.Supervisor.Events.{Event, input_delivery_failure, add_event}

-- what the injector calls
pub record Machine (W : Type 0) : Type 0 where
  pub clock : Clock W
  -- `int(time.time() * 1000)`
  pub wall_time : W → ℕ
  -- `os.path.getsize`, `none` where it raises an `OSError`
  pub getsize : String → W → Option ℕ
  -- `TmuxLauncher.send_keys`
  pub send_keys : String → String → Exec W (Unit {0})

-- `InputInjector`, without its tmux
pub record Injector : Type 0 where
  pub log_dir : String
  pub timeout : ℕ
  pub poll_interval : ℕ

pub record State (W : Type 0) : Type 0 where
  pub events : List Event
  pub world : W

-- `_log_path`
unfoldable pub log_path : Injector → String → String
log_path j session_name = join_path j.log_dir (concat (session_name ∷ ".jsonl" ∷ []))

abbrev pub or_zero : Option ℕ → ℕ
or_zero none = 0
or_zero (some n) = n

module _ {W : Type 0} where
  -- `_get_log_size`
  abbrev pub log_size : Machine W → String → W → ℕ
  log_size m path w = or_zero (m.getsize path w)

  -- the loop of `_wait_for_response`, on fuel
  unfoldable pub wait_loop : ℕ → Machine W → ℕ → String → ℕ → ℕ → Exec W Bool
  wait_loop zero m interval log_file initial_size deadline w = (err out_of_fuel, w)
  wait_loop (suc n) m interval log_file initial_size deadline w =
      let rest = wait_loop n m interval log_file initial_size deadline (m.clock.sleep interval w) in
      if not (ltb (m.clock.monotonic w) deadline)
      then (ok false, w)
      else (if ltb initial_size (log_size m log_file w) then (ok true, w) else rest)

  -- `_wait_for_response`
  unfoldable pub wait_for_response : ℕ → Machine W → Injector → String → ℕ → Exec W Bool
  unfolding wait_loop
  wait_for_response fuel m j log_file initial_size w =
      wait_loop fuel m j.poll_interval log_file initial_size (m.clock.monotonic w + j.timeout) w

  -- `_emit_failure`
  unfoldable pub emit_failure : Machine W → String → String → State W → State W
  emit_failure m input agent_id s =
      let event : Event = record {
        timestamp_ms = pos (m.wall_time s.world);
        payload = input_delivery_failure input agent_id;
      } in
      record s { events = add_event event s.events }

  abbrev pub on_response :
      Machine W → String → String → List Event → Result Bool × W → Result Bool × State W
  on_response m input agent_id events (err e, w) = (err e, record { events = events; world = w })
  on_response m input agent_id events (ok true, w) =
      (ok true, record { events = events; world = w })
  on_response m input agent_id events (ok false, w) =
      (ok false, emit_failure m input agent_id (record { events = events; world = w }))

  abbrev pub after_keys :
      ℕ
      → Machine W
      → Injector
      → String
      → ℕ
      → String
      → String
      → List Event
      → Result (Unit {0}) × W
      → Result Bool × State W
  after_keys fuel m j log_file size_before input agent_id events (err e, w) =
      (err e, record { events = events; world = w })
  after_keys fuel m j log_file size_before input agent_id events (ok _, w) =
      on_response m input agent_id events (wait_for_response fuel m j log_file size_before w)

  -- `inject`
  unfoldable pub inject : ℕ → Machine W → Injector → String → String → String → Exec (State W) Bool
  unfolding log_path wait_for_response emit_failure
  inject fuel m j session_name input agent_id s =
      let log_file = log_path j session_name in
      after_keys fuel m j log_file (log_size m log_file s.world) input agent_id s.events
        (m.send_keys session_name input s.world)
