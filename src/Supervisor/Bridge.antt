-- ===== src/Supervisor/Bridge.antt =====
-- `McpBridge` of supervisor/src/mcp_bridge.py, and the other methods of `SyncServicer` of
-- supervisor/src/sync_service.py. What asks the Android app is an argument
-- of the display confirmer. The thread that `inject_async` starts is not either: a call of it is noted.
pub mod Laws
use vanpilot.Prelude.{ℕ, String, Bool, true, false, Option, none, some, List, [], ◌∷◌, string_eq}
use vanpilot.Prelude.Int.{ℤ, pos}
use vanpilot.Prelude.Text.{concat, is_blank, or_text}
use vanpilot.Exec.{Exec, catch, pure}
use vanpilot.Supervisor.Events.{Event, bitmap_payload, display_command, add_event, get_events}
use vanpilot.Supervisor.Bitmaps.{Bytes, Tracker, store_bitmap, reconcile}

-- The two stores that the bridge and the servicer share.
pub record Stores : Type 0 where
  pub events : List Event
  pub tracker : Tracker

-- `BitmapStore.put`
abbrev pub put : String → Bytes → Tracker → Tracker
put = store_bitmap

-- `_confirmer`, for an app client that raises or answers with the key it displays
unfoldable pub confirmer : {W : Type 0} → Exec W String → Exec W String
confirmer get_current_display = catch get_current_display (λ _. pure "")

-- `set_display_confirmer(_confirmer)` where there is an app client
unfoldable pub confirmer_of : {W : Type 0} → Option (Exec W String) → Option (Exec W String)
unfolding confirmer
confirmer_of none = none
confirmer_of (some get_current_display) = some (confirmer get_current_display)

-- `McpBridge.on_bitmap_submitted`, at the wall time `now`
unfoldable pub on_bitmap_submitted : ℕ → String → Bytes → Stores → Stores
on_bitmap_submitted now cache_key image_data s =
    let event : Event = record {
      timestamp_ms = pos now;
      payload = bitmap_payload cache_key image_data;
    } in
    record { events = add_event event s.events; tracker = put cache_key image_data s.tracker }

-- `McpBridge.on_display_requested`
unfoldable pub on_display_requested : ℕ → String → Stores → Stores
on_display_requested now cache_key s =
    let event : Event = record { timestamp_ms = pos now; payload = display_command cache_key } in
    record s { events = add_event event s.events }

-- `SyncServicer._client_id`: the peer that grpc tells, `none` where there is no context or the
-- call raises
unfoldable pub client_id : Option String → String
client_id none = "default"
client_id (some peer) = or_text peer "default"

-- `SyncServicer.GetEvents`
unfoldable pub get_events_response : ℤ → ℤ → Stores → List Event
get_events_response since max_count s = get_events since max_count s.events

-- a call of `inject_async`
pub record Injection : Type 0 where
  pub session_name : String
  pub input : String
  pub agent_id : String

-- `SyncServicer.SendUserInput`: whether it was accepted, and the calls of the injector
unfoldable pub send_user_input : Bool → String → String → Bool × List Injection
send_user_input false target input = (false, [])
send_user_input true target input =
    let agent = or_text target "lead" in
    (
      true,
      (record { session_name = concat ("vanpilot-" ∷ agent ∷ []); input = input; agent_id = agent })
          ∷ [],
    )

-- `SyncServicer.ReconcileCache`
unfoldable pub reconcile_cache : Option String → List String → Stores → List String × Stores
reconcile_cache peer present_keys s =
    let (missing, t) = reconcile (client_id peer) present_keys s.tracker in
    (missing, record s { tracker = t })
