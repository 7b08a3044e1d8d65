-- ===== src/Mcp/Wiring/Laws.antt =====
-- From a tool call to the stores that the Android app reads.
use vanpilot.Prelude.{
  ℕ, ◌≡◌, refl, ap, ◌∙◌, String, true, false, some, List, [], ◌∷◌, ◌++◌, ==_refl, string_eq,
}
use vanpilot.Prelude.Int.{ℤ, pos}
use vanpilot.Prelude.Dict.{insert, has_key, lookup-insert}
use vanpilot.Exec.{ok, lift, ◌>>=◌, bind_ok, pure, modify}
use vanpilot.Goldens.Filter.{Bytes}
use vanpilot.Supervisor.Events.{bitmap_payload, display_command, add_event}
use vanpilot.Supervisor.Bitmaps.Fetch.{Round, fetch_bitmap}
use vanpilot.Supervisor.Bridge.{Stores, on_bitmap_submitted, on_display_requested}
use vanpilot.Supervisor.Bridge.Laws.{fetch_bitmap-on_bitmap_submitted}
use vanpilot.Exec.Clock.{Clock}
use vanpilot.Mcp.Handlers.{
  Services, State, displayed, png_cache_key, set_event_callback, notify, display_known,
  handle_display_bitmap, submit_bytes, handle_submit_bitmap,
}
use vanpilot.Mcp.Wiring.{World, on_mcp_event}

-- A state whose callback is the bridge.
abbrev pub wired : State World → State World
wired = set_event_callback (some on_mcp_event)

-- The stores after the two events.
abbrev after_submit : Services → Bytes → State World → Stores
after_submit v raw s = on_bitmap_submitted s.world.now (png_cache_key v raw) raw s.world.stores

after_both : Services → Bytes → State World → Stores
after_both v raw s = on_display_requested s.world.now (png_cache_key v raw) (after_submit v raw s)

submit_wired :
    (v : Services) (raw : Bytes) (s : State World)
    → submit_bytes v raw (wired s) ≡ (
      ok (record { cache_key = png_cache_key v raw; courtesy_screenshot = v.b64encode raw }),
      wired (record s {
        cache = insert (png_cache_key v raw) raw s.cache;
        world = record s.world { stores = after_submit v raw s };
      }),
    )
unfolding submit_bytes notify modify pure ◌>>=◌ on_mcp_event
submit_wired v raw s = refl

display_wired :
    (fuel : ℕ) (clock : Clock World) (key : String) (timeout : ℕ) (s : State World)
    → has_key key s.cache ≡ true
    → handle_display_bitmap fuel clock key false timeout (wired s) ≡ (
      ok (displayed key),
      wired (record s {
        current_display_key = some key;
        world = record s.world { stores = on_display_requested s.world.now key s.world.stores };
      }),
    )
unfolding handle_display_bitmap display_known notify modify pure ◌>>=◌ on_mcp_event
display_wired fuel clock key timeout s known = rw known refl

wired_events :
    (v : Services) (raw : Bytes) (s : State World)
    → (after_both v raw s).events
      ≡ s.world.stores.events
        ++ (record {
          timestamp_ms = pos s.world.now;
          payload = bitmap_payload (png_cache_key v raw) raw;
        })
          ∷ []
        ++ (record {
          timestamp_ms = pos s.world.now;
          payload = display_command (png_cache_key v raw);
        })
          ∷ []
unfolding after_both on_bitmap_submitted on_display_requested add_event
wired_events v raw s = refl

wired_tracker :
    (v : Services) (raw : Bytes) (s : State World)
    → (after_both v raw s).tracker ≡ (after_submit v raw s).tracker
unfolding after_both on_display_requested
wired_tracker v raw s = refl

-- With the callback wired to the bridge, `handle_submit_bitmap` of data that can be decoded and
-- then `handle_display_bitmap` of the returned key succeed, add exactly a bitmap event and then
-- a display event to the event store, and a call of `GetBitmap` for the key returns the bytes in
-- its first round.
pub fetch_bitmap-handle_submit_bitmap :
    (fuel : ℕ) (clock : Clock World) (v : Services) (image_data : String) (raw : Bytes)
    (timeout : ℕ) (s : State World) (client : String) (wait_ms : ℤ) (started : ℕ) (r : Round)
    (rounds : List Round)
    → v.b64decode image_data ≡ ok raw
    → (t : State World) × ((handle_submit_bitmap v image_data >>= λ reply.
            handle_display_bitmap fuel clock reply.cache_key false timeout)
          (wired s)
        ≡ (ok (displayed (png_cache_key v raw)), t))
      × (t.world.stores.events
          ≡ s.world.stores.events
            ++ (record {
              timestamp_ms = pos s.world.now;
              payload = bitmap_payload (png_cache_key v raw) raw;
            })
              ∷ []
            ++ (record {
              timestamp_ms = pos s.world.now;
              payload = display_command (png_cache_key v raw);
            })
              ∷ [])
      × ((fetch_bitmap client
            (png_cache_key v raw)
            wait_ms
            started
            (r ∷ rounds)
            t.world.stores.tracker).0
          ≡ some (some raw))
unfolding handle_submit_bitmap lift after_both
fetch_bitmap-handle_submit_bitmap fuel clock v image_data raw timeout s client wait_ms started r
      rounds decoded =
    let key = png_cache_key v raw in
    let s' = record s {
      cache = insert key raw s.cache;
      world = record s.world { stores = after_submit v raw s };
    } in
    let known : has_key key s'.cache ≡ true =
      rw (lookup-insert key key raw s.cache, ==_refl key) refl in
    let begun : lift (v.b64decode image_data) (wired s) ≡ (ok raw, wired s) =
      ap (λ d. (d, wired s)) decoded in
    (
      _,
      bind_ok (handle_submit_bitmap v image_data) _
            (bind_ok (lift (v.b64decode image_data)) (submit_bytes v) begun ∙ submit_wired v raw s)
          ∙ display_wired fuel clock key timeout s' known,
      wired_events v raw s,
      ap (λ tr. (fetch_bitmap client key wait_ms started (r ∷ rounds) tr).0) (wired_tracker v raw s)
          ∙ fetch_bitmap-on_bitmap_submitted s.world.now key raw s.world.stores client wait_ms
              started r rounds,
    )
