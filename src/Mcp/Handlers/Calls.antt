-- ===== src/Mcp/Handlers/Calls.antt =====
-- Sequences of tool calls.
use vanpilot.Prelude.{ℕ, String, Bool, Option, List, [], ◌∷◌}
use vanpilot.Exec.{Exec}
use vanpilot.Exec.Clock.{Clock}
use vanpilot.Mcp.Handlers.{
  Services, Callback, State, handle_display_bitmap, handle_submit_bitmap, handle_get_screenshot,
  handle_calibrate_display, reset, set_event_callback, set_display_confirmer,
}
use vanpilot.Mcp.Handlers.Invariant.{
  IsValid, IsScreenshot, display-IsValid, submit-IsValid, screenshot_lem, calibrate-IsValid,
}

-- A call of a tool, or of the two functions that set the callbacks, or of `reset`.
pub data Call (W : Type 0) : Type 0 where
  submit : (image_data : String) → Call W
  display : (cache_key : String) (blocking : Bool) (timeout : ℕ) → Call W
  screenshot : Call W
  calibrate : (width height : ℕ) → Call W
  set_callback : Option (Callback W) → Call W
  set_confirmer : Option (Exec W String) → Call W
  reset_all : Call W

module _ {W : Type 0} where
  -- The state after a call, whether it returned or raised.
  unfoldable pub serve : ℕ → Clock W → Services → Call W → State W → State W
  serve fuel clock v (submit image_data) s = (handle_submit_bitmap v image_data s).1
  serve fuel clock v (display key blocking timeout) s =
      (handle_display_bitmap fuel clock key blocking timeout s).1
  serve fuel clock v screenshot s = (handle_get_screenshot v s).1
  serve fuel clock v (calibrate width height) s =
      (handle_calibrate_display fuel clock v width height s).1
  serve fuel clock v (set_callback callback) s = set_event_callback callback s
  serve fuel clock v (set_confirmer confirmer) s = set_display_confirmer confirmer s
  serve fuel clock v reset_all s = reset s

  unfoldable pub serve_all : ℕ → Clock W → Services → List (Call W) → State W → State W
  serve_all fuel clock v [] s = s
  serve_all fuel clock v (c ∷ cs) s = serve_all fuel clock v cs (serve fuel clock v c s)

  reset-IsValid : (v : Services) (s : State W) → IsValid v (reset s)
  unfolding reset IsValid
  reset-IsValid v s = record { shown = tt; teal = tt }

  serve-IsValid :
      (fuel : ℕ) (clock : Clock W) (v : Services) (c : Call W) (s : State W)
      → IsValid v s
      → IsValid v (serve fuel clock v c s)
  unfolding serve IsValid
  serve-IsValid fuel clock v (submit image_data) s h = submit-IsValid v image_data s h
  serve-IsValid fuel clock v (display key blocking timeout) s h =
      display-IsValid v fuel clock key blocking timeout s h
  serve-IsValid fuel clock v screenshot s h = (screenshot_lem v s h).0
  serve-IsValid fuel clock v (calibrate width height) s h =
      calibrate-IsValid v fuel clock width height s h
  serve-IsValid fuel clock v (set_callback callback) s h = h
  serve-IsValid fuel clock v (set_confirmer confirmer) s h = h
  serve-IsValid fuel clock v reset_all s h = reset-IsValid v s

  serve_all-IsValid :
      (fuel : ℕ) (clock : Clock W) (v : Services) (cs : List (Call W)) (s : State W)
      → IsValid v s
      → IsValid v (serve_all fuel clock v cs s)
  unfolding serve_all
  serve_all-IsValid fuel clock v [] s h = h
  serve_all-IsValid fuel clock v (c ∷ cs) s h =
      serve_all-IsValid fuel clock v cs (serve fuel clock v c s) (serve-IsValid fuel clock v c s h)

  -- After any sequence of tool calls, of changes of the callbacks and of resets that follows a
  -- reset, however they end, `handle_get_screenshot` returns the cached bytes of the displayed
  -- key, which are there, or the generated teal surface where no key is displayed.
  pub handle_get_screenshot-IsScreenshot :
      (fuel : ℕ) (clock : Clock W) (v : Services) (cs : List (Call W)) (s : State W)
      → let t = serve_all fuel clock v cs (reset s) in
        IsScreenshot v t.current_display_key t.cache (handle_get_screenshot v t).0
  handle_get_screenshot-IsScreenshot fuel clock v cs s =
      (screenshot_lem v _ (serve_all-IsValid fuel clock v cs (reset s) (reset-IsValid v s))).1
