-- ===== src/Mcp/Handlers/Laws.antt =====
-- What the handlers return, one after the other.
use vanpilot.Prelude.{
  ℕ, ◌≡◌, refl, ap, ◌∙◌, String, true, false, Option, none, some, ==_refl, string_eq,
}
use vanpilot.Prelude.Dict.{lookup, insert, has_key, lookup-insert}
use vanpilot.Exec.{ok, pure, lift, modify, ◌>>=◌, bind_ok}
use vanpilot.Goldens.Filter.{Bytes}
use vanpilot.Exec.Clock.{Clock}
use vanpilot.Mcp.Handlers.{
  Services, Callback, call_back, State, displayed, png_cache_key, default_blocking_timeout, notify,
  display_known, handle_display_bitmap, submit_bytes, handle_submit_bitmap, handle_get_screenshot,
  handle_calibrate_display,
}

module _ {W : Type 0} where
  -- A callback that never raises, or none.
  unfoldable pub Accepts : Option (Callback W) → Type 0
  Accepts none = Unit {0}
  Accepts (some callback) =
      (event_type key : String) (image_data : Option Bytes) (w : W)
      → (callback event_type key image_data w).0 ≡ ok tt

  call_back_lem :
      (o : Option (Callback W)) (event_type key : String) (image_data : Option Bytes) (s : State W)
      → Accepts o
      → (w : W) × (call_back o event_type key image_data s ≡ (ok tt, record s { world = w }))
  unfolding Accepts
  call_back_lem none event_type key image_data s accepts = (s.world, refl)
  call_back_lem (some callback) event_type key image_data s accepts =
      let w = (callback event_type key image_data s.world).1 in
      (w, ap (λ r. (r, record s { world = w })) (accepts event_type key image_data s.world))

  -- A submission stores the bytes under their key.
  submit_bytes_lem :
      (v : Services) (raw : Bytes) (s : State W)
      → Accepts s.event_callback
      → (w : W) × (submit_bytes v raw s ≡ (
        ok (record { cache_key = png_cache_key v raw; courtesy_screenshot = v.b64encode raw }),
        record s { cache = insert (png_cache_key v raw) raw s.cache; world = w },
      ))
  unfolding submit_bytes notify modify pure ◌>>=◌
  submit_bytes_lem v raw s accepts =
      let stored = record s { cache = insert (png_cache_key v raw) raw s.cache } in
      let (w, e) =
        call_back_lem s.event_callback "bitmap_submitted" (png_cache_key v raw) (some raw) stored
          accepts in
      (w, rw e refl)

  display_lem :
      (fuel : ℕ) (clock : Clock W) (key : String) (timeout : ℕ) (s : State W)
      → Accepts s.event_callback
      → has_key key s.cache ≡ true
      → (w : W) × (handle_display_bitmap fuel clock key false timeout s
          ≡ (ok (displayed key), record s { current_display_key = some key; world = w }))
  unfolding handle_display_bitmap display_known notify modify pure ◌>>=◌
  display_lem fuel clock key timeout s accepts known =
      let shown = record s { current_display_key = some key } in
      let (w, e) = call_back_lem s.event_callback "display_requested" key none shown accepts in
      (w, rw known (rw e refl))

  screenshot_lem :
      (v : Services) (key : String) (png : Bytes) (s : State W)
      → s.current_display_key ≡ some key
      → lookup key s.cache ≡ some png
      → handle_get_screenshot v s ≡ (ok (v.b64encode png), s)
  unfolding handle_get_screenshot pure ◌>>=◌
  screenshot_lem v key png s shown stored = rw (shown, stored) refl

  submit_lem :
      (v : Services) (image_data : String) (raw : Bytes) (s : State W)
      → Accepts s.event_callback
      → v.b64decode image_data ≡ ok raw
      → (w : W) × (handle_submit_bitmap v image_data s ≡ (
        ok (record { cache_key = png_cache_key v raw; courtesy_screenshot = v.b64encode raw }),
        record s { cache = insert (png_cache_key v raw) raw s.cache; world = w },
      ))
  unfolding handle_submit_bitmap lift
  submit_lem v image_data raw s accepts decoded =
      let (w, e) = submit_bytes_lem v raw s accepts in
      let started : lift (v.b64decode image_data) s ≡ (ok raw, s) = ap (λ r. (r, s)) decoded in
      (w, bind_ok (lift (v.b64decode image_data)) (submit_bytes v) started ∙ e)

  -- What is stored under a key that was just written.
  stored_lem :
      (v : Services) (raw : Bytes) (s : State W)
      → lookup (png_cache_key v raw) (insert (png_cache_key v raw) raw s.cache) ≡ some raw
  stored_lem v raw s =
      lookup-insert (png_cache_key v raw) (png_cache_key v raw) raw s.cache
      ∙ rw (==_refl (png_cache_key v raw)) refl

  -- Submitting and displaying, in the state that both leave behind.
  shown_lem :
      (fuel : ℕ) (clock : Clock W) (v : Services) (raw : Bytes) (timeout : ℕ) (s : State W) (w : W)
      → Accepts s.event_callback
      → (w' : W) × (handle_display_bitmap fuel clock
            (png_cache_key v raw)
            false
            timeout
            (record s { cache = insert (png_cache_key v raw) raw s.cache; world = w })
          ≡ (
            ok (displayed (png_cache_key v raw)),
            record s {
              cache = insert (png_cache_key v raw) raw s.cache;
              current_display_key = some (png_cache_key v raw);
              world = w';
            },
          ))
  shown_lem fuel clock v raw timeout s w accepts =
      display_lem fuel clock (png_cache_key v raw) timeout
        (record s { cache = insert (png_cache_key v raw) raw s.cache; world = w }) accepts
        (rw (stored_lem v raw s) refl)

  -- With no callback, or one that does not raise, submitting data that can be decoded,
  -- displaying the returned key and taking a screenshot returns the encoding of the submitted
  -- bytes, whatever was cached or displayed before.
  pub handle_get_screenshot-submitted :
      (fuel : ℕ) (clock : Clock W) (v : Services) (image_data : String) (raw : Bytes) (timeout : ℕ)
      (s : State W)
      → Accepts s.event_callback
      → v.b64decode image_data ≡ ok raw
      → ((handle_submit_bitmap v image_data >>= λ r.
            handle_display_bitmap fuel clock r.cache_key false timeout >>= λ _.
            handle_get_screenshot v)
          s).0
        ≡ ok (v.b64encode raw)
  handle_get_screenshot-submitted fuel clock v image_data raw timeout s accepts decoded =
      let (w, e) = submit_lem v image_data raw s accepts decoded in
      let (w', e') = shown_lem fuel clock v raw timeout s w accepts in
      ap (λ r. r.0)
        (bind_ok (handle_submit_bitmap v image_data) _ e
          ∙ bind_ok (handle_display_bitmap fuel clock (png_cache_key v raw) false timeout) _ e'
          ∙ screenshot_lem v (png_cache_key v raw) raw _ refl (stored_lem v raw s))

  -- With a callback that does not raise and a pattern that the encoding gives back, a calibration
  -- succeeds, and a screenshot after it shows the pattern.
  pub handle_calibrate_display_shown :
      (fuel : ℕ) (clock : Clock W) (v : Services) (width height : ℕ) (pattern : Bytes) (s : State W)
      → Accepts s.event_callback
      → v.calibration_pattern width height ≡ ok pattern
      → v.b64decode (v.b64encode pattern) ≡ ok pattern
      → (t : State W) × (handle_calibrate_display fuel clock v width height s ≡ (
        ok (record {
          success = true;
          cache_key = png_cache_key v pattern;
          pattern_width = width;
          pattern_height = height;
        }),
        t,
      ))
        × (handle_get_screenshot v t ≡ (ok (v.b64encode pattern), t))
  unfolding handle_calibrate_display lift pure
  handle_calibrate_display_shown fuel clock v width height pattern s accepts drawn inverse =
      let (w, e) = submit_lem v (v.b64encode pattern) pattern s accepts inverse in
      let (w', e') = shown_lem fuel clock v pattern default_blocking_timeout s w accepts in
      let started : lift (v.calibration_pattern width height) s ≡ (ok pattern, s) =
        ap (λ r. (r, s)) drawn in
      (
        _,
        bind_ok (lift (v.calibration_pattern width height)) _ started
            ∙ bind_ok (handle_submit_bitmap v (v.b64encode pattern)) _ e
            ∙ bind_ok
                (handle_display_bitmap fuel clock (png_cache_key v pattern) false
                  default_blocking_timeout)
                _ e',
        screenshot_lem v (png_cache_key v pattern) pattern _ refl (stored_lem v pattern s),
      )
