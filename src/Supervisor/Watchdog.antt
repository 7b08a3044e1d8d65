-- ===== src/Supervisor/Watchdog.antt =====
-- supervisor/src/watchdog.py: an event for an agent whose tmux session shows nothing new for too
-- long. Times are whole milliseconds. The pane of a session is read by tmux: `capture` is its
-- answer in one cycle, `none` where it raises.
pub mod Laws
use vanpilot.Prelude.{
  ℕ, ◌-◌, String, Bool, true, false, not, Option, none, some, List, [], ◌∷◌, ◌==◌, string_eq, leb,
  if◌then◌else◌,
}
use vanpilot.Prelude.Int.{pos}
use vanpilot.Prelude.Dict.{Dict, insert, erase}
use vanpilot.Supervisor.Events.{Event, watchdog_timeout, add_event}

-- `_SessionState`
pub record SessionState : Type 0 where
  pub session_name : String
  pub last_output : Option String
  pub last_activity_time : ℕ

-- `_SessionState.__init__`
abbrev pub new_session : String → ℕ → SessionState
new_session session_name now = record {
  session_name = session_name;
  last_output = none;
  last_activity_time = now;
}

pub record Watchdog : Type 0 where
  pub timeout : ℕ
  pub sessions : Dict String SessionState
  pub events : List Event

unfoldable pub register_session : String → String → ℕ → Watchdog → Watchdog
register_session agent_id session_name now w = record w {
  sessions = insert agent_id (new_session session_name now) w.sessions;
}

unfoldable pub unregister_session : String → Watchdog → Watchdog
unregister_session agent_id w = record w { sessions = erase agent_id w.sessions }

-- `state.last_output is None or current_output != state.last_output`
abbrev pub has_changed : Option String → String → Bool
has_changed none current = true
has_changed (some last) current = not (current == last)

-- The body of the loop for one session: its state, and how long it was silent where an event is due.
unfoldable pub check_session : ℕ → ℕ → Option String → SessionState → Option ℕ × SessionState
check_session timeout now none state = (none, state)
check_session timeout now (some current) state =
    let silent = now - state.last_activity_time in
    if has_changed state.last_output current
    then (none, record state { last_output = some current; last_activity_time = now })
    else (if leb timeout silent
        then (some silent, record state { last_activity_time = now })
        else (none, state))

-- `self._event_store.add_event(event)`, if there is one, at the wall time `wall`
unfoldable pub emit : ℕ → String → Option ℕ → List Event → List Event
emit wall agent_id none events = events
emit wall agent_id (some silent) events =
    add_event (record { timestamp_ms = pos wall; payload = watchdog_timeout agent_id silent })
      events

-- the loop over the sessions
unfoldable pub check_all :
    ℕ
    → ℕ
    → ℕ
    → (String → Option String)
    → Dict String SessionState
    → List Event
    → Dict String SessionState × List Event
unfolding check_session emit
check_all timeout now wall capture [] events = ([], events)
check_all timeout now wall capture ((agent_id, state) ∷ rest) events =
    let (due, state') = check_session timeout now (capture state.session_name) state in
    let (rest', events') =
      check_all timeout now wall capture rest (emit wall agent_id due events) in
    ((agent_id, state') ∷ rest', events')

-- `check_sessions`
unfoldable pub check_sessions : ℕ → ℕ → (String → Option String) → Watchdog → Watchdog
unfolding check_all
check_sessions now wall capture w =
    let (sessions, events) = check_all w.timeout now wall capture w.sessions w.events in
    record w { sessions = sessions; events = events }
