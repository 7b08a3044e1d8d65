-- ===== src/Mcp/Handlers/Invariant.antt =====
-- What holds of the module's globals after any sequence of tool calls.
use vanpilot.Prelude.{
  ℕ, ◌≡◌, refl, sym, ap, String, Bool, true, false, Option, none, some, arith, Bool-cases,
  Option-cases, inl, inr, string_eq,
}
use vanpilot.Prelude.Dict.{Dict, lookup, insert, has_key, lookup-insert}
use vanpilot.Exec.{Exec, Result, ok, err, Result-cases, pure, lift, modify, continue, ◌>>=◌}
use vanpilot.Exec.Keeps.{Keeps, Keeps-bind, Keeps-pure, Keeps-if}
use vanpilot.Goldens.Filter.{Bytes}
use vanpilot.Exec.Clock.{Clock}
use vanpilot.Mcp.Poll.{poll_for_confirmation}
use vanpilot.Mcp.Handlers.{
  Services, Callback, call_back, State, displayed, poll_reply, png_cache_key, make_teal_display,
  default_blocking_timeout, notify, await_with, await_display, display_known, handle_display_bitmap,
  submit_bytes, handle_submit_bitmap, bytes_of, teal_or, png_or, handle_get_screenshot,
  handle_calibrate_display,
}

-- The globals that the handlers write.
pub record Globals : Type 0 where
  pub cache : Dict String Bytes
  pub current : Option String
  pub teal : Option Bytes

abbrev pub IsShown : Option String → Dict String Bytes → Type 0
IsShown none cache = Unit {0}
IsShown (some key) cache = has_key key cache ≡ true

abbrev pub IsTeal : Services → Option Bytes → Type 0
IsTeal v none = Unit {0}
IsTeal v (some teal) = make_teal_display v ≡ ok teal

-- The displayed key is in the cache, and the default surface is the one that is generated.
pub record Holds (v : Services) (g : Globals) : Type 0 where
  pub shown : IsShown g.current g.cache
  pub teal : IsTeal v g.teal

IsShown-insert :
    (o : Option String) (key : String) (png : Bytes) (cache : Dict String Bytes)
    → IsShown o cache
    → IsShown o (insert key png cache)
IsShown-insert none key png cache h = tt
IsShown-insert (some k) key png cache h = rw (lookup-insert k key png cache) (ground (arith, h))

abbrev pub encode_all : Services → Result Bytes → Result String
encode_all v (ok png) = ok (v.b64encode png)
encode_all v (err e) = err e

-- What a screenshot is: the bytes of the displayed key, or the generated surface.
unfoldable pub IsScreenshot : Services → Option String → Dict String Bytes → Result String → Type 0
IsScreenshot v none cache r = r ≡ encode_all v (make_teal_display v)
IsScreenshot v (some key) cache r =
    (png : Bytes) × (lookup key cache ≡ some png) × (r ≡ ok (v.b64encode png))

module _ {W : Type 0} where
  abbrev pub globals : State W → Globals
  globals s = record { cache = s.cache; current = s.current_display_key; teal = s.default_teal }

  unfoldable pub IsValid : Services → State W → Type 0
  IsValid v s = Holds v (globals s)

  notify-Keeps :
      (event_type key : String) (image_data : Option Bytes)
      → Keeps globals (notify event_type key image_data)
  unfolding notify
  notify-Keeps event_type key image_data = record { at = λ s. at_callback s.event_callback s }
    where
      at_callback :
          (o : Option (Callback W)) (s : State W)
          → globals (call_back o event_type key image_data s).1 ≡ globals s
      at_callback none s = refl
      at_callback (some callback) s = refl

  await_display-Keeps :
      (fuel : ℕ) (clock : Clock W) (key : String) (timeout : ℕ)
      → Keeps globals (await_display fuel clock key timeout)
  unfolding await_display
  await_display-Keeps fuel clock key timeout = record {
    at = λ s. at_confirmer s.display_confirmer s;
  }
    where
      at_reply :
          (r : Result (Option String)) (s : State W)
          → globals (continue r (λ k. pure (poll_reply key timeout k)) s).1 ≡ globals s
      at_reply (ok k) s = refl
      at_reply (err e) s = refl

      at_confirmer :
          (o : Option (Exec W String)) (s : State W)
          → globals (await_with o fuel clock key timeout s).1 ≡ globals s
      at_confirmer none s = refl
      at_confirmer (some confirmer) s =
          let (r, w) = poll_for_confirmation fuel clock confirmer key timeout s.world in
          at_reply r (record s { world = w })

  -- A known key becomes the current one, whatever the callback and the confirmer do.
  display_known-globals :
      (fuel : ℕ) (clock : Clock W) (key : String) (blocking : Bool) (timeout : ℕ) (s : State W)
      → globals (display_known fuel clock key blocking timeout s).1
        ≡ globals (record s { current_display_key = some key })
  unfolding display_known modify ◌>>=◌
  display_known-globals fuel clock key blocking timeout s =
      (Keeps-bind (notify "display_requested" key none) _
          (notify-Keeps "display_requested" key none)
          (λ _.
            Keeps-if blocking _ _ (await_display-Keeps fuel clock key timeout)
              (Keeps-pure (displayed key)))).at
        (record s { current_display_key = some key })

  pub display-IsValid :
      (v : Services) (fuel : ℕ) (clock : Clock W) (key : String) (blocking : Bool) (timeout : ℕ)
      (s : State W)
      → IsValid v s
      → IsValid v (handle_display_bitmap fuel clock key blocking timeout s).1
  unfolding handle_display_bitmap IsValid
  display-IsValid v fuel clock key blocking timeout s valid =
      elim (Bool-cases (has_key key s.cache)) [
        | inl known ↦
            rw (known, display_known-globals fuel clock key blocking timeout s)
              (record { shown = known; teal = valid.teal })
        | inr unknown ↦ rw unknown valid
      ]

  submit_bytes-globals :
      (v : Services) (raw : Bytes) (s : State W)
      → globals (submit_bytes v raw s).1
        ≡ globals (record s { cache = insert (png_cache_key v raw) raw s.cache })
  unfolding submit_bytes modify ◌>>=◌
  submit_bytes-globals v raw s =
      (Keeps-bind (notify "bitmap_submitted" (png_cache_key v raw) (some raw)) _
          (notify-Keeps "bitmap_submitted" (png_cache_key v raw) (some raw)) (λ _. Keeps-pure _)).at
        (record s { cache = insert (png_cache_key v raw) raw s.cache })

  pub submit-IsValid :
      (v : Services) (image_data : String) (s : State W)
      → IsValid v s
      → IsValid v (handle_submit_bitmap v image_data s).1
  unfolding handle_submit_bitmap lift ◌>>=◌ IsValid
  submit-IsValid v image_data s valid = elim (Result-cases (v.b64decode image_data)) [
    | inl (e, failed) ↦ rw failed valid
    | inr (raw, decoded) ↦
        rw (decoded, submit_bytes-globals v raw s)
          (record {
            shown =
                IsShown-insert s.current_display_key (png_cache_key v raw) raw s.cache valid.shown;
            teal = valid.teal;
          })
  ]

  -- Actions, one after the other, that each keep the invariant.
  IsValid-bind :
      {A B : Type 0} (v : Services) (m : Exec (State W) A) (f : A → Exec (State W) B)
      → ((s : State W) → IsValid v s → IsValid v (m s).1)
      → ((a : A) (s : State W) → IsValid v s → IsValid v (f a s).1)
      → (s : State W) → IsValid v s
      → IsValid v ((m >>= f) s).1
  unfolding ◌>>=◌
  IsValid-bind {A} {B} v m f km kf s valid = let (r, s') = m s in at_result r s' (km s valid)
    where
      at_result : (r : Result A) (s' : State W) → IsValid v s' → IsValid v (continue r f s').1
      at_result (ok a) s' h = kf a s' h
      at_result (err e) s' h = h

  teal_or_lem :
      (v : Services) (o : Option Bytes) (made : Result Bytes) (s : State W)
      → made ≡ make_teal_display v
      → IsTeal v o
      → IsValid v s
      → IsValid v (teal_or o made s).1 × ((teal_or o made s).0 ≡ make_teal_display v)
  unfolding IsValid
  teal_or_lem v (some teal) made s e kept valid = (valid, sym kept)
  teal_or_lem v none (ok teal) s e kept valid = (record { shown = valid.shown; teal = sym e }, e)
  teal_or_lem v none (err x) s e kept valid = (valid, e)

  encoded :
      (v : Services) (r : Result Bytes) (s : State W)
      → continue r (λ png. pure (v.b64encode png)) s ≡ (encode_all v r, s)
  unfolding pure
  encoded v (ok png) s = refl
  encoded v (err e) s = refl

  chosen_lem :
      (v : Services) (o : Option String) (s : State W)
      → IsShown o s.cache
      → IsValid v s
      → let p = png_or (bytes_of o s.cache) (teal_or s.default_teal (make_teal_display v)) s in
        IsValid v p.1 × IsScreenshot v o s.cache (encode_all v p.0)
  unfolding IsValid IsScreenshot
  chosen_lem v none s shown valid =
      let (kept, made) =
        teal_or_lem v s.default_teal (make_teal_display v) s refl valid.teal valid in
      (kept, ap (encode_all v) made)
  chosen_lem v (some key) s shown valid = elim (Option-cases (lookup key s.cache)) [
    | inl missing ↦ ground (arith, missing, shown)
    | inr (png, found) ↦ rw found (valid, (png, refl, refl))
  ]

  -- A screenshot keeps the invariant, and is what the invariant promises.
  pub screenshot_lem :
      (v : Services) (s : State W)
      → IsValid v s
      → IsValid v (handle_get_screenshot v s).1
        × IsScreenshot v s.current_display_key s.cache (handle_get_screenshot v s).0
  unfolding handle_get_screenshot IsValid ◌>>=◌
  screenshot_lem v s valid =
      let (r, t) =
        png_or (bytes_of s.current_display_key s.cache)
          (teal_or s.default_teal (make_teal_display v)) s in
      rw (encoded v r t) (chosen_lem v s.current_display_key s valid.shown valid)

  pub calibrate-IsValid :
      (v : Services) (fuel : ℕ) (clock : Clock W) (width height : ℕ) (s : State W)
      → IsValid v s
      → IsValid v (handle_calibrate_display fuel clock v width height s).1
  unfolding handle_calibrate_display lift pure
  calibrate-IsValid v fuel clock width height =
      IsValid-bind v (lift (v.calibration_pattern width height)) _ (λ s h. h)
        λ pattern.
          IsValid-bind v (handle_submit_bitmap v (v.b64encode pattern)) _
            (submit-IsValid v (v.b64encode pattern))
            λ reply.
              IsValid-bind v
                (handle_display_bitmap fuel clock reply.cache_key false default_blocking_timeout) _
                (display-IsValid v fuel clock reply.cache_key false default_blocking_timeout)
                λ shown s h. h
