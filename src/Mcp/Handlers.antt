-- ===== src/Mcp/Handlers.antt =====
-- mcp/src/handlers.py, with `png_cache_key` and `make_teal_display` of mcp/src/png_util.py. The
-- module's globals are the state; what a callback and a confirmer read and write is its `world`,
-- which also holds the clock. `base64`, `hashlib`, `zlib` and the PIL drawing of the calibration
-- pattern are arguments. Times are milliseconds.
pub mod Laws
pub mod Invariant
pub mod Calls
use vanpilot.Prelude.{
  ℕ, zero, suc, ◌+◌, ◌-◌, String, Bool, true, false, not, Option, none, some, List, [], ◌∷◌, ◌==◌,
  ◌&&◌, string_eq, leb, ltb, take, if◌then◌else◌,
}
use vanpilot.Prelude.Text.{concat, text_of}
use vanpilot.Prelude.Dict.{Dict, lookup, insert, has_key}
use vanpilot.Exec.{
  Exec, Result, ok, err, out_of_fuel, pure, raise, gets, lift, modify, on_option, continue, ◌>>=◌,
  ◌>>◌,
}
use vanpilot.Exec.Clock.{Clock}
use vanpilot.Mcp.Poll.{poll_for_confirmation}
use vanpilot.Goldens.Filter.{Bytes}
use vanpilot.Goldens.Png.{Zlib, Pixel, make_png}

-- the libraries that the handlers call
pub record Services : Type 0 where
  pub b64decode : String → Result Bytes
  pub b64encode : Bytes → String
  -- `hashlib.sha256(bs).hexdigest()`, as code points
  pub sha256_hex : Bytes → List ℕ
  pub zlib : Zlib
  -- `generate_calibration_pattern`, which PIL draws
  pub calibration_pattern : ℕ → ℕ → Result Bytes

abbrev pub Callback : Type 0 → Type 0
Callback W = String → String → Option Bytes → Exec W (Unit {0})

-- the globals of the module
pub record State (W : Type 0) : Type 0 where
  pub cache : Dict String Bytes
  pub current_display_key : Option String
  pub default_teal : Option Bytes
  pub event_callback : Option (Callback W)
  pub display_confirmer : Option (Exec W String)
  pub world : W

-- the dict that `handle_display_bitmap` returns; the first three report no success
pub data DisplayReply : Type 0 where
  unknown_cache_key : (cache_key : String) → DisplayReply
  no_confirmer : DisplayReply
  timed_out : (timeout : ℕ) (cache_key : String) → DisplayReply
  confirmed : (cache_key confirmed_cache_key : String) → DisplayReply
  displayed : (cache_key : String) → DisplayReply

pub record SubmitReply : Type 0 where
  pub cache_key : String
  pub courtesy_screenshot : String

pub record CalibrateReply : Type 0 where
  pub success : Bool
  pub cache_key : String
  pub pattern_width : ℕ
  pub pattern_height : ℕ

-- `DEFAULT_BLOCKING_TIMEOUT`
abbrev pub default_blocking_timeout : ℕ
default_blocking_timeout = 30000

-- `str.upper` on ASCII
unfoldable pub upper : List ℕ → List ℕ
upper [] = []
upper (c ∷ cs) = (if leb b'a' c && leb c b'z' then c - 32 else c) ∷ upper cs

-- `png_cache_key`
unfoldable pub png_cache_key : Services → Bytes → String
unfolding upper
png_cache_key v png_data = concat ("0x" ∷ text_of (upper (take 8 (v.sha256_hex png_data))) ∷ [])

abbrev pub teal_rgb : Pixel
teal_rgb = record { red = 26; green = 138; blue = 125 }

-- `make_teal_display`
unfoldable pub make_teal_display : Services → Result Bytes
make_teal_display v = make_png v.zlib 1024 600 teal_rgb

abbrev pub poll_reply : String → ℕ → Option String → DisplayReply
poll_reply cache_key timeout none = timed_out timeout cache_key
poll_reply cache_key timeout (some key) = confirmed cache_key key

abbrev pub is_success : DisplayReply → Bool
is_success (confirmed cache_key key) = true
is_success (displayed cache_key) = true
is_success _ = false

-- `_cache[_current_display_key]`, where there is one
abbrev pub bytes_of : Option String → Dict String Bytes → Option Bytes
bytes_of none cache = none
bytes_of (some key) cache = lookup key cache

module _ {W A : Type 0} where
  -- a call that reads and writes the world only
  abbrev pub in_world : Exec W A → Exec (State W) A
  in_world m s = let (r, w) = m s.world in (r, record s { world = w })

module _ {W : Type 0} where
  abbrev pub set_event_callback : Option (Callback W) → State W → State W
  set_event_callback callback s = record s { event_callback = callback }

  abbrev pub set_display_confirmer : Option (Exec W String) → State W → State W
  set_display_confirmer confirmer s = record s { display_confirmer = confirmer }

  -- `reset`
  unfoldable pub reset : State W → State W
  reset s = record {
    cache = [];
    current_display_key = none;
    default_teal = none;
    event_callback = none;
    display_confirmer = none;
    world = s.world;
  }

  abbrev pub call_back :
      Option (Callback W) → String → String → Option Bytes → Exec (State W) (Unit {0})
  call_back none event_type cache_key image_data s = (ok tt, s)
  call_back (some callback) event_type cache_key image_data s =
      in_world (callback event_type cache_key image_data) s

  -- `if _event_callback is not None: _event_callback(...)`
  unfoldable pub notify : String → String → Option Bytes → Exec (State W) (Unit {0})
  notify event_type cache_key image_data s =
      call_back s.event_callback event_type cache_key image_data s

  abbrev pub await_with :
      Option (Exec W String) → ℕ → Clock W → String → ℕ → Exec (State W) DisplayReply
  await_with none fuel clock cache_key timeout s = (ok no_confirmer, s)
  await_with (some confirmer) fuel clock cache_key timeout s =
      let (r, s') = in_world (poll_for_confirmation fuel clock confirmer cache_key timeout) s in
      continue r (λ key. pure (poll_reply cache_key timeout key)) s'

  -- the branch of `blocking`
  unfoldable pub await_display : ℕ → Clock W → String → ℕ → Exec (State W) DisplayReply
  unfolding pure
  await_display fuel clock cache_key timeout s =
      await_with s.display_confirmer fuel clock cache_key timeout s

  -- what follows the lookup of the key
  unfoldable pub display_known : ℕ → Clock W → String → Bool → ℕ → Exec (State W) DisplayReply
  unfolding notify await_display modify ◌>>=◌
  display_known fuel clock cache_key blocking timeout =
      modify (λ s. record s { current_display_key = some cache_key })
      >> notify "display_requested" cache_key none
      >> (if blocking
          then await_display fuel clock cache_key timeout
          else pure (displayed cache_key))

  -- `handle_display_bitmap`
  unfoldable pub handle_display_bitmap :
      ℕ → Clock W → String → Bool → ℕ → Exec (State W) DisplayReply
  unfolding display_known
  handle_display_bitmap fuel clock cache_key blocking timeout s =
      if not (has_key cache_key s.cache)
      then (ok (unknown_cache_key cache_key), s)
      else display_known fuel clock cache_key blocking timeout s

  -- what follows the decoding
  unfoldable pub submit_bytes : Services → Bytes → Exec (State W) SubmitReply
  unfolding notify modify png_cache_key ◌>>=◌
  submit_bytes v raw_bytes =
      let key = png_cache_key v raw_bytes in
      modify (λ s. record s { cache = insert key raw_bytes s.cache })
      >> notify "bitmap_submitted" key (some raw_bytes)
      >> pure (record { cache_key = key; courtesy_screenshot = v.b64encode raw_bytes })

  -- `handle_submit_bitmap`
  unfoldable pub handle_submit_bitmap : Services → String → Exec (State W) SubmitReply
  unfolding submit_bytes lift ◌>>=◌
  handle_submit_bitmap v image_data = lift (v.b64decode image_data) >>= submit_bytes v

  abbrev pub keep_teal : Result Bytes → Exec (State W) Bytes
  keep_teal (ok teal) s = (ok teal, record s { default_teal = some teal })
  keep_teal (err e) s = (err e, s)

  -- the default surface, made at the first call
  abbrev pub teal_or : Option Bytes → Result Bytes → Exec (State W) Bytes
  teal_or (some teal) made s = (ok teal, s)
  teal_or none made s = keep_teal made s

  abbrev pub png_or : Option Bytes → Exec (State W) Bytes → Exec (State W) Bytes
  png_or (some png) default s = (ok png, s)
  png_or none default s = default s

  -- `handle_get_screenshot`
  unfoldable pub handle_get_screenshot : Services → Exec (State W) String
  unfolding make_teal_display pure ◌>>=◌
  handle_get_screenshot v s =
      (png_or (bytes_of s.current_display_key s.cache)
            (teal_or s.default_teal (make_teal_display v))
          >>= λ png. pure (v.b64encode png))
        s

  -- `handle_calibrate_display`
  unfoldable pub handle_calibrate_display :
      ℕ → Clock W → Services → ℕ → ℕ → Exec (State W) CalibrateReply
  unfolding handle_submit_bitmap handle_display_bitmap
  handle_calibrate_display fuel clock v pattern_width pattern_height = do
    pattern_png ← lift (v.calibration_pattern pattern_width pattern_height)
    submitted ← handle_submit_bitmap v (v.b64encode pattern_png)
    reply ← handle_display_bitmap fuel clock submitted.cache_key false default_blocking_timeout
    pure (record {
      success = is_success reply;
      cache_key = submitted.cache_key;
      pattern_width = pattern_width;
      pattern_height = pattern_height;
    })
