-- ===== src/Supervisor/Tests.antt =====
-- Concrete runs of the supervisor.
use vanpilot.Prelude.{
  ℕ, leb, nat_eq, false, ◌+◌, String, true, ◌≡◌, ◌↔◌, refl, Option, some, List, [], ◌∷◌, ◌++◌,
  arith, ◌==◌, string_eq, if◌then◌else◌,
}
use vanpilot.Prelude.Int.{pos, negsuc}
use vanpilot.Prelude.Dict.{lookup, insert}
use vanpilot.Prelude.Text.{codes, same_codes, strip, lstrip, rstrip}
use vanpilot.Exec.{ok, err, attribute_error}
use vanpilot.Exec.Clock.{IsSteady}
use vanpilot.Supervisor.Bitmaps.Refinement.{
  Call, store, mark, clear, reconcile_with, wait, run, sight, replay, run_refines,
}
use vanpilot.Supervisor.Json.{Json, number, text, object, field, no_fields, get_field}
use vanpilot.Supervisor.Tailer.{
  Tailer, LogFile, or_zero, tail_file, emit_lines, split_lines, parse_log_entry, parse_entry,
  parse_message, parse_content,
}
use vanpilot.Supervisor.Tailer.Laws.{tail_file_twice, tail_file_raises}
use vanpilot.Supervisor.Injector.{Machine, Injector, log_path, log_size, inject}
use vanpilot.Supervisor.Injector.Laws.{InjectEnds, inject-InjectEnds}
use vanpilot.Supervisor.Events.{Event, text_message, hardcoded_events, get_events, leb_ℤ}
use vanpilot.Supervisor.Events.Laws.{
  SortedFrom, of_time, get_events-SortedFrom, get_events_complete,
}
use vanpilot.Supervisor.Bitmaps.{
  Tracker, empty_tracker, store_bitmap, store_all, wait_for_new_bitmap, get_bitmap,
}
use vanpilot.Supervisor.Bitmaps.Laws.{get_bitmap-store_bitmap}
use vanpilot.Supervisor.Bitmaps.Fetch.{Round, fetch_bitmap}
use vanpilot.Supervisor.Bridge.{Stores}
use vanpilot.Supervisor.Watchdog.{SessionState, Watchdog, check_session}
use vanpilot.Supervisor.Watchdog.Laws.{
  IsSilent, check_session_iff, Reading, event_times, IsSpaced, event_times-IsSpaced,
}

-- one event that is late, after the first ones
abbrev some_events : List Event
some_events =
    hardcoded_events ++ (record { timestamp_ms = pos 2000; payload = text_message "dev" "hi" }) ∷ []

get_events-SortedFrom_example : SortedFrom (pos 2000) (get_events (pos 2000) (negsuc 0) some_events)
get_events-SortedFrom_example = get_events-SortedFrom (pos 2000) (negsuc 0) some_events

get_events_complete_example :
    of_time (pos 2000) (get_events (pos 1500) (pos 9) some_events)
    ≡ (if leb_ℤ (pos 1500) (pos 2000) then of_time (pos 2000) some_events else [])
get_events_complete_example = get_events_complete (pos 1500) (pos 2000) 9 some_events (omega arith)

abbrev tab : String
tab = "ipv4:10.0.0.2"

abbrev phone : String
phone = "ipv4:10.0.0.3"

abbrev key_a : String
key_a = "a"

abbrev key_b : String
key_b = "b"

abbrev only_a : List String
only_a = key_a ∷ []

abbrev two_maps : Tracker
two_maps = store_bitmap key_b (2 ∷ []) (store_bitmap key_a (1 ∷ []) empty_tracker)

get_bitmap-store_bitmap_example :
    get_bitmap key_a (store_bitmap key_a (9 ∷ []) two_maps)
    ≡ (if key_a == key_a then some (9 ∷ []) else get_bitmap key_a two_maps)
get_bitmap-store_bitmap_example = get_bitmap-store_bitmap key_a key_a (9 ∷ []) two_maps

-- a round in which the bitmap "c" arrives, and one after the deadline
abbrev arrival : Round
arrival = record { now = 10; now_again = 10; active = true; arrivals = ("c", 3 ∷ []) ∷ [] }

abbrev late : Round
late = record { now = 900; now_again = 900; active = true; arrivals = [] }

fetched_c :
    (fetch_bitmap tab "c" (pos 500) 0 (arrival ∷ late ∷ []) two_maps).0 ≡ some (some (3 ∷ []))
unfolding fetch_bitmap store_bitmap get_bitmap wait_for_new_bitmap store_all lookup insert
fetched_c = refl

abbrev session : SessionState
session = record {
  session_name = "vanpilot-lead";
  last_output = some "ready";
  last_activity_time = 100;
}

check_session_iff_example :
    ((check_session 60 200 (some "ready") session).0 ≡ some 100)
    ↔ IsSilent 60 200 100 (some "ready") session
check_session_iff_example = check_session_iff 60 200 100 (some "ready") session

abbrev readings : List Reading
readings =
    (record { now = 130; pane = some "ready" })
    ∷ (record { now = 165; pane = some "ready" })
    ∷ (record { now = 200; pane = some "ready" })
    ∷ (record { now = 230; pane = some "ready" })
    ∷ []

event_times-IsSpaced_example : IsSpaced 60 100 (event_times 60 readings session)
event_times-IsSpaced_example =
    event_times-IsSpaced 60 readings session
      (omega arith, (omega arith, (omega arith, (omega arith, tt))))

two_events : event_times 60 readings session ≡ 165 ∷ 230 ∷ []
unfolding event_times
two_events = refl

abbrev dog : Watchdog
dog = record { timeout = 60; sessions = ("lead", session) ∷ []; events = hardcoded_events }

abbrev panes : String → Option String
panes _ = some "ready"

abbrev stores : Stores
stores = record { events = some_events; tracker = two_maps }

abbrev tracker_calls : List Call
tracker_calls =
    store "d" (4 ∷ [])
    ∷ mark "phone" "d"
    ∷ reconcile_with tab ("d" ∷ [])
    ∷ clear "phone"
    ∷ wait (("e", 5 ∷ []) ∷ [])
    ∷ []

run_refines_example : sight (run tracker_calls two_maps) ≡ replay tracker_calls (sight two_maps)
run_refines_example = run_refines tracker_calls two_maps

-- a text is a log entry of one assistant message, but for "bad", which is a number
abbrev loads : List ℕ → Option Json
loads line =
    if same_codes line (codes "bad")
    then some (number false)
    else some (
        object (
          field "type" (text "assistant")
            (field "message" (object (field "content" (text "hi") no_fields)) no_fields)))

abbrev tailer : Tailer
tailer = record { offsets = []; events = []; readings = 0 }

abbrev stem : String → String
stem path = "lead"

abbrev short : LogFile
short = record { size = some 2; read_from = λ n. ok (b'a' ∷ 10 ∷ [], 2) }

abbrev longer : LogFile
longer = record {
  size = some 4;
  read_from = λ n. if n == 0 then ok (b'a' ∷ 10 ∷ b'b' ∷ 10 ∷ [], 4) else ok (b'b' ∷ 10 ∷ [], 4);
}

at_start : or_zero (lookup "/log" tailer.offsets) ≡ 0
unfolding lookup
at_start = refl

short_read : (tail_file loads (λ n. n) stem "/log" short tailer).0 ≡ ok tt
unfolding tail_file emit_lines split_lines parse_log_entry strip parse_entry parse_message
    parse_content get_field same_codes lookup insert lstrip rstrip
short_read = refl

tail_file_twice_example :
    tail_file loads
      (λ n. n)
      stem
      "/log"
      longer
      (tail_file loads (λ n. n) stem "/log" short tailer).1
    ≡ tail_file loads (λ n. n) stem "/log" longer tailer
tail_file_twice_example =
    tail_file_twice loads (λ n. n) stem "/log" short longer (b'a' ∷ []) (b'b' ∷ 10 ∷ []) 0 2 4
      tailer at_start refl (omega arith) refl refl (omega arith) refl refl short_read

abbrev broken : LogFile
broken = record {
  size = some 7;
  read_from = λ n. ok (b'a' ∷ 10 ∷ b'b' ∷ b'a' ∷ b'd' ∷ 10 ∷ b'c' ∷ [], 7);
}

broken_lines :
    split_lines (b'a' ∷ 10 ∷ b'b' ∷ b'a' ∷ b'd' ∷ 10 ∷ b'c' ∷ [])
    ≡ ((b'a' ∷ []) ∷ []) ++ codes "bad" ∷ (b'c' ∷ []) ∷ []
unfolding split_lines
broken_lines = refl

first_line_read : (emit_lines loads (λ n. n) (stem "/log") ((b'a' ∷ []) ∷ []) tailer).0 ≡ ok tt
unfolding emit_lines parse_log_entry strip parse_entry parse_message parse_content get_field
    same_codes lstrip rstrip
first_line_read = refl

bad_raises : parse_log_entry loads (codes "bad") ≡ err attribute_error
unfolding parse_log_entry strip parse_entry same_codes lstrip rstrip
bad_raises = refl

tail_file_raises_example :
    let u = (tail_file loads (λ n. n) stem "/log" broken tailer).1 in
    ((tail_file loads (λ n. n) stem "/log" broken tailer).0 ≡ err attribute_error)
    × (u.events ≡ (emit_lines loads (λ n. n) "lead" ((b'a' ∷ []) ∷ []) tailer).1.events)
    × (tail_file loads (λ n. n) stem "/log" broken u ≡ (ok tt, u))
tail_file_raises_example =
    tail_file_raises loads (λ n. n) stem "/log" broken 0 7
      (b'a' ∷ 10 ∷ b'b' ∷ b'a' ∷ b'd' ∷ 10 ∷ b'c' ∷ []) (codes "bad") ((b'a' ∷ []) ∷ [])
      ((b'c' ∷ []) ∷ []) attribute_error tailer at_start refl (omega arith) refl broken_lines
      first_line_read bad_raises

-- tmux whose log grows by ten bytes when two seconds have passed
abbrev machine : Machine ℕ
machine = record {
  clock = record { monotonic = λ w. w; sleep = λ n w. w + n };
  wall_time = λ w. w;
  getsize = λ path w. some (if leb 2000 w then 110 else 100);
  send_keys = λ session input w. (ok tt, w);
}

abbrev injector : Injector
injector = record { log_dir = "/tmp/vanpilot/logs"; timeout = 30000; poll_interval = 500 }

machine-IsSteady : IsSteady machine.clock
machine-IsSteady = record { slept = λ n w. omega arith }

inject-InjectEnds_example :
    InjectEnds machine injector
      (log_path injector "vanpilot-lead")
      "go"
      "lead"
      (log_size machine (log_path injector "vanpilot-lead") 0)
      hardcoded_events
      0
      (inject 61 machine injector "vanpilot-lead" "go" "lead"
        (record { events = hardcoded_events; world = 0 }))
inject-InjectEnds_example =
    inject-InjectEnds 60 machine injector "vanpilot-lead" "go" "lead"
      (record { events = hardcoded_events; world = 0 }) machine-IsSteady (omega arith) refl
