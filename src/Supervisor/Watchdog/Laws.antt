-- ===== src/Supervisor/Watchdog/Laws.antt =====
-- When the watchdog emits an event, and how often.
use vanpilot.Prelude.{
  ℕ, ◌+◌, ◌-◌, ◌≤◌, String, ◌≡◌, ◌↔◌, refl, sym, ap, ◌∙◌, Option, none, some, List, [], ◌∷◌, ◌++◌,
  arith, string_eq, ==_iff, Option-cases, Bool-cases, leb, ◌⊎◌, inl, inr,
}
use vanpilot.Prelude.Dict.{Dict, keys}
use mathlib.Core.Path.{subst}
use mathlib.Core.List.{append-nil, append_assoc}
use vanpilot.Supervisor.Events.{Event, add_event}
use vanpilot.Supervisor.Watchdog.{
  SessionState, Watchdog, has_changed, check_session, emit, check_all, check_sessions,
}

-- The pane shows what it showed before, and has for as long as the timeout.
pub record IsSilent (timeout now silent : ℕ) (pane : Option String) (s : SessionState)
    : Type 0 where
  pub seen : String
  pub shown : pane ≡ some seen
  pub same : s.last_output ≡ some seen
  pub lasts : now - s.last_activity_time ≡ silent
  pub long : timeout ≤ silent

check_session_sound :
    (timeout now silent : ℕ) (pane : Option String) (s : SessionState)
    → (check_session timeout now pane s).0 ≡ some silent
    → IsSilent timeout now silent pane s
unfolding check_session
check_session_sound timeout now silent none s h = absurd (ground arith)
check_session_sound timeout now silent (some current) s h = elim (Option-cases s.last_output) [
  | inl first ↦ absurd (ground arith)
  | inr (last, known) ↦ record {
    seen = current;
    shown = refl;
    same = ground (arith, ==_iff current last);
    lasts = ground arith;
    long = ground arith;
  }
]

check_session_complete :
    (timeout now silent : ℕ) (pane : Option String) (s : SessionState)
    → IsSilent timeout now silent pane s
    → (check_session timeout now pane s).0 ≡ some silent
unfolding check_session
check_session_complete timeout now silent none s i = absurd (ground (arith, i.shown))
check_session_complete timeout now silent (some current) s i =
    let shown = i.shown in
    let same = i.same in
    let lasts = i.lasts in let long = i.long in ground (arith, ==_iff current i.seen)

-- An event is due for a session exactly when its pane could be read, shows what it showed at the
-- last reading, and at least the timeout has passed since the last activity; the event tells how
-- long.
pub check_session_iff :
    (timeout now silent : ℕ) (pane : Option String) (s : SessionState)
    → ((check_session timeout now pane s).0 ≡ some silent) ↔ IsSilent timeout now silent pane s
check_session_iff timeout now silent pane s = (
  check_session_sound timeout now silent pane s,
  check_session_complete timeout now silent pane s,
)

state_after :
    (timeout now silent : ℕ) (pane : Option String) (s : SessionState)
    → (check_session timeout now pane s).0 ≡ some silent
    → (check_session timeout now pane s).1 ≡ record s { last_activity_time = now }
unfolding check_session
state_after timeout now silent none s h = absurd (ground arith)
state_after timeout now silent (some current) s h = ground arith

-- What one cycle reads for a session: the clock and the pane.
pub record Reading : Type 0 where
  pub now : ℕ
  pub pane : Option String

abbrev note : Option ℕ → ℕ → List ℕ → List ℕ
note none now ts = ts
note (some silent) now ts = now ∷ ts

-- The times of the events for a session in any number of cycles.
unfoldable pub event_times : ℕ → List Reading → SessionState → List ℕ
unfolding check_session
event_times timeout [] s = []
event_times timeout (r ∷ rs) s =
    let (due, s') = check_session timeout r.now r.pane s in
    note due r.now (event_times timeout rs s')

-- The clock does not go back, from `t` on.
abbrev pub InOrder : ℕ → List Reading → Type 0
InOrder t [] = Unit {0}
InOrder t (r ∷ rs) = (t ≤ r.now) × InOrder r.now rs

-- Each time is at least the timeout after the one before it, the first after `t`.
abbrev pub IsSpaced : ℕ → ℕ → List ℕ → Type 0
IsSpaced timeout t [] = Unit {0}
IsSpaced timeout t (u ∷ us) = (t + timeout ≤ u) × IsSpaced timeout u us

IsSpaced-earlier :
    (timeout t u : ℕ) (us : List ℕ) → t ≤ u → IsSpaced timeout u us → IsSpaced timeout t us
IsSpaced-earlier timeout t u [] le h = tt
IsSpaced-earlier timeout t u (v ∷ us) le (gap, rest) = (omega (arith, le, gap), rest)

-- Where no event is due, the last activity is what it was or the time of the reading.
activity_after :
    (timeout now : ℕ) (pane : Option String) (s : SessionState)
    → (check_session timeout now pane s).0 ≡ none
    → ((check_session timeout now pane s).1.last_activity_time ≡ s.last_activity_time)
      ⊎ ((check_session timeout now pane s).1.last_activity_time ≡ now)
unfolding check_session
activity_after timeout now none s h = inl refl
activity_after timeout now (some current) s h =
    elim (Bool-cases (has_changed s.last_output current)) [
      | inl new ↦ inr (rw new refl)
      | inr same ↦ elim (Bool-cases (leb timeout (now - s.last_activity_time))) [
        | inl long ↦ absurd (ground (arith, h, same, long))
        | inr short ↦ inl (rw (same, short) refl)
      ]
    ]

spread_events :
    (timeout t : ℕ) (rs : List Reading) (s : SessionState)
    → s.last_activity_time ≤ t
    → InOrder t rs
    → IsSpaced timeout s.last_activity_time (event_times timeout rs s)
unfolding event_times
spread_events timeout t [] s le order = tt
spread_events timeout t (r ∷ rs) s le (later, order) =
    let s' = (check_session timeout r.now r.pane s).1 in
    elim (Option-cases (check_session timeout r.now r.pane s).0) [
      | inr (silent, due) ↦
          let i = check_session_sound timeout r.now silent r.pane s due in
          let at_now : s'.last_activity_time ≡ r.now =
            ap (λ s. s.last_activity_time) (state_after timeout r.now silent r.pane s due) in
          let rest = spread_events timeout r.now rs s' (omega (arith, at_now)) order in
          rw (due, note)
            (
              omega (arith, le, later, i.lasts, i.long),
              subst (λ u. IsSpaced timeout u (event_times timeout rs s')) at_now rest,
            )
      | inl quiet ↦
          rw (quiet, note)
            (elim (activity_after timeout r.now r.pane s quiet) [
              | inl same ↦
                  subst (λ u. IsSpaced timeout u (event_times timeout rs s')) same
                    (spread_events timeout r.now rs s' (omega (arith, same, le, later)) order)
              | inr at_now ↦
                  IsSpaced-earlier timeout s.last_activity_time s'.last_activity_time
                    (event_times timeout rs s') (omega (arith, at_now, le, later))
                    (spread_events timeout r.now rs s' (omega (arith, at_now)) order)
            ])
    ]

-- In any number of cycles whose clock readings do not go back, whatever the panes show and
-- whether they can be read, the events for a session are at least the timeout apart, and the
-- first is at least the timeout after its last activity.
pub event_times-IsSpaced :
    (timeout : ℕ) (rs : List Reading) (s : SessionState)
    → InOrder s.last_activity_time rs
    → IsSpaced timeout s.last_activity_time (event_times timeout rs s)
event_times-IsSpaced timeout rs s order =
    spread_events timeout s.last_activity_time rs s (omega arith) order

-- A cycle changes neither who is monitored nor the name of a session, and takes no event away.
pub check_all-keys :
    (timeout now wall : ℕ) (capture : String → Option String) (d : Dict String SessionState)
    (events : List Event)
    → keys (check_all timeout now wall capture d events).0 ≡ keys d
unfolding check_all
check_all-keys timeout now wall capture [] events = refl
check_all-keys timeout now wall capture ((a, s) ∷ d) events =
    let (due, s') = check_session timeout now (capture s.session_name) s in
    ap (λ ks. a ∷ ks) (check_all-keys timeout now wall capture d (emit wall a due events))

-- the events that a cycle adds, in the order of the sessions
unfoldable pub due_events :
    ℕ → ℕ → ℕ → (String → Option String) → Dict String SessionState → List Event
due_events timeout now wall capture [] = []
due_events timeout now wall capture ((a, s) ∷ d) =
    emit wall a (check_session timeout now (capture s.session_name) s).0 []
    ++ due_events timeout now wall capture d

emit-append :
    (wall : ℕ) (a : String) (due : Option ℕ) (events : List Event)
    → emit wall a due events ≡ events ++ emit wall a due []
unfolding emit add_event
emit-append wall a none events = sym (append-nil events)
emit-append wall a (some silent) events = refl

check_all-events :
    (timeout now wall : ℕ) (capture : String → Option String) (d : Dict String SessionState)
    (events : List Event)
    → (check_all timeout now wall capture d events).1
      ≡ events ++ due_events timeout now wall capture d
unfolding check_all due_events
check_all-events timeout now wall capture [] events = sym (append-nil events)
check_all-events timeout now wall capture ((a, s) ∷ d) events =
    let due = (check_session timeout now (capture s.session_name) s).0 in
    check_all-events timeout now wall capture d (emit wall a due events)
    ∙ ap (λ es. es ++ due_events timeout now wall capture d) (emit-append wall a due events)
    ∙ append_assoc events _ _

-- A cycle keeps the monitored agents and the stored events, and adds, in the order of the
-- sessions, one event for each session that is silent for too long and none for the others.
pub check_sessions-events :
    (now wall : ℕ) (capture : String → Option String) (w : Watchdog)
    → let w' = check_sessions now wall capture w in
      (w'.events ≡ w.events ++ due_events w.timeout now wall capture w.sessions)
      × (keys w'.sessions ≡ keys w.sessions)
unfolding check_sessions
check_sessions-events now wall capture w = (
  check_all-events w.timeout now wall capture w.sessions w.events,
  check_all-keys w.timeout now wall capture w.sessions w.events,
)
