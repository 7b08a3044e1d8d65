-- ===== src/Mcp/Tests.antt =====
-- Concrete runs of the MCP handlers. The world of the first ones is a clock; the stand-ins for the
-- libraries encode every image as one text.
pub mod Rpc
pub mod Scan
use vanpilot.Prelude.{
  ℕ, ◌+◌, ◌<◌, String, ◌≡◌, refl, ap, leb, if◌then◌else◌, true, false, none, some, List, [], ◌∷◌,
  ◌++◌, arith,
}
use vanpilot.Prelude.Int.{pos}
use vanpilot.Exec.{Exec, ok, ◌>>=◌}
use vanpilot.Exec.Clock.{Clock}
use vanpilot.Goldens.Filter.{Bytes}
use vanpilot.Supervisor.Events.{hardcoded_events, bitmap_payload, display_command}
use vanpilot.Supervisor.Bitmaps.{empty_tracker}
use vanpilot.Supervisor.Bitmaps.Fetch.{Round, fetch_bitmap}
use vanpilot.Mcp.Poll.{poll_for_confirmation}
use vanpilot.Mcp.Poll.Laws.{
  IsClock, Ends, at_round, poll_for_confirmation-Ends, poll_for_confirmation_shown,
}
use vanpilot.Mcp.Handlers.{
  Services, State, displayed, png_cache_key, handle_submit_bitmap, handle_display_bitmap,
  handle_get_screenshot, reset,
}
use vanpilot.Mcp.Handlers.Laws.{Accepts}
use vanpilot.Mcp.Handlers.Invariant.{IsScreenshot}
use vanpilot.Mcp.Handlers.Calls.{
  Call, submit, display, serve_all, handle_get_screenshot-IsScreenshot,
}
use vanpilot.Mcp.Wiring.{World}
use vanpilot.Mcp.Wiring.Laws.{wired, fetch_bitmap-handle_submit_bitmap}

abbrev watch : Clock ℕ
watch = record { monotonic = λ w. w; sleep = λ n w. w + n }

-- an app that shows "0xAB" after a second
abbrev app : Exec ℕ String
app w = (ok (if leb 1000 w then "0xAB" else ""), w)

watch-IsClock : IsClock watch app
watch-IsClock = record { slept = λ n w. omega arith; asked = λ w. omega arith }

poll_for_confirmation-Ends_example :
    Ends watch "0xAB" 800 (poll_for_confirmation 5 watch app "0xAB" 800 0)
poll_for_confirmation-Ends_example =
    poll_for_confirmation-Ends 4 watch app "0xAB" 800 0 watch-IsClock (omega arith)

shown_after_a_second : app (at_round 4 watch app 0) ≡ (ok "0xAB", 1000)
unfolding at_round
shown_after_a_second = refl

before_deadline : watch.monotonic (at_round 4 watch app 0) < 0 + 2000
unfolding at_round
before_deadline = omega arith

poll_for_confirmation_shown_example :
    (poll_for_confirmation 9 watch app "0xAB" 2000 0).0 ≡ ok (some "0xAB")
poll_for_confirmation_shown_example =
    poll_for_confirmation_shown 4 8 watch app "0xAB" 2000 0 watch-IsClock (omega arith)
      before_deadline (ap (λ r. r.0) shown_after_a_second)

abbrev image : Bytes
image = 1 ∷ 2 ∷ 3 ∷ []

abbrev libraries : Services
libraries = record {
  b64decode = λ s. ok image;
  b64encode = λ bs. "AQID";
  sha256_hex = λ bs. b'a' ∷ b'b' ∷ b'0' ∷ [];
  zlib = record { compress = λ bs. bs; decompress = λ bs. ok bs; crc32 = λ bs. 0 };
  calibration_pattern = λ w h. ok image;
}

-- nothing stored, nothing displayed, and a callback that counts as an hour on the clock
abbrev fresh : State ℕ
fresh = record {
  cache = [];
  current_display_key = none;
  default_teal = none;
  event_callback = some (λ event_type key image_data w. (ok tt, w + 3600));
  display_confirmer = none;
  world = 0;
}

fresh-Accepts : Accepts fresh.event_callback
unfolding Accepts
fresh-Accepts = λ event_type key image_data w. refl

abbrev calls : List (Call ℕ)
calls = submit "AQID" ∷ display "0xAB0" true 500 ∷ display "0xFF" false 500 ∷ []

handle_get_screenshot-IsScreenshot_example :
    let t = serve_all 9 watch libraries calls (reset fresh) in
    IsScreenshot libraries t.current_display_key t.cache (handle_get_screenshot libraries t).0
handle_get_screenshot-IsScreenshot_example =
    handle_get_screenshot-IsScreenshot 9 watch libraries calls fresh

abbrev still : Clock World
still = record { monotonic = λ w. w.now; sleep = λ n w. record w { now = w.now + n } }

abbrev bridged : State World
bridged = record {
  cache = [];
  current_display_key = none;
  default_teal = none;
  event_callback = none;
  display_confirmer = none;
  world = record {
    stores = record { events = hardcoded_events; tracker = empty_tracker };
    now = 5000;
  };
}

abbrev first_round : Round
first_round = record { now = 0; now_again = 0; active = true; arrivals = [] }

fetch_bitmap-handle_submit_bitmap_example :
    let key = png_cache_key libraries image in
    (t : State World) × ((handle_submit_bitmap libraries "AQID" >>= λ reply.
    handle_display_bitmap 9 still reply.cache_key false 30000)
        (wired bridged)
      ≡ (ok (displayed key), t))
    × (t.world.stores.events
        ≡ hardcoded_events
          ++ (record { timestamp_ms = pos 5000; payload = bitmap_payload key image }) ∷ []
          ++ (record { timestamp_ms = pos 5000; payload = display_command key }) ∷ [])
    × ((fetch_bitmap "phone" key (pos 0) 0 (first_round ∷ []) t.world.stores.tracker).0
        ≡ some (some image))
fetch_bitmap-handle_submit_bitmap_example =
    fetch_bitmap-handle_submit_bitmap 9 still libraries "AQID" image 30000 bridged "phone" (pos 0) 0
      first_round [] refl
