-- ===== src/Instances/Video.antt =====
-- instance_manager/src/video_capture.py: one capture session for each instance. A clock reading
-- counts sixtieths of a millisecond, so that the pause between frames, a part of a second, is a
-- whole number at each of the five rates. `uuid`, `tempfile`, `shutil`, `subprocess`, the threads
-- and the screenshot function are arguments that act on a world.
pub mod Frames
pub mod Sessions
pub mod Stopping
pub mod Laws
pub mod Screenshot
pub mod Rpc
use vanpilot.Prelude.{
  ℕ, zero, suc, ◌+◌, ◌-◌, ◌*◌, ◌/◌, ◌%◌, String, Bool, true, false, not, ◌||◌, Option, none, some,
  List, [], ◌∷◌, ltb, leb, ◌==◌, nat_eq, length, if◌then◌else◌,
}
use vanpilot.Prelude.Int.{ℤ, pos, negsuc}
use vanpilot.Prelude.Text.{codes, concat, str, join_path}
use vanpilot.Exec.{Exec, Result, ok, err, Exn, out_of_fuel}
use vanpilot.Exec.Clock.{Clock}
use vanpilot.Instances.Store.{Bytes}

-- clock readings in a second
abbrev pub second : ℕ
second = 60000

abbrev pub max_fps : ℕ
max_fps = 5

abbrev pub default_fps : ℕ
default_fps = 2

abbrev pub default_max_duration : ℕ
default_max_duration = 30

-- `max(1, min(target_fps or _DEFAULT_FPS, _MAX_FPS))`
unfoldable pub clamp_fps : ℤ → ℕ
clamp_fps (negsuc n) = 1
clamp_fps (pos n) =
    let asked = if n == 0 then default_fps else n in if leb asked max_fps then asked else max_fps

-- `max_duration_s or _DEFAULT_MAX_DURATION`
unfoldable pub duration_or_default : ℤ → ℤ
duration_or_default (negsuc n) = negsuc n
duration_or_default (pos n) = if n == 0 then pos default_max_duration else pos n

-- Frames in a number of clock readings: `actual_fps`, which is rounded where it is read.
pub record Rate : Type 0 where
  pub frames : ℕ
  pub ticks : ℕ

-- `CaptureSession`. Its event is `stop_set`, its thread is the world's.
pub record CaptureSession : Type 0 where
  pub capture_id : String
  pub instance_name : String
  pub target_fps : ℕ
  pub max_duration_s : ℤ
  pub frame_dir : String
  pub frame_count : ℕ
  pub actual_fps : Option Rate  -- `none` for 0.0
  pub started_at : ℕ
  pub stopped_at : ℕ
  pub stop_set : Bool

-- `CaptureResult`; `actual_fps` is in hundredths
pub record CaptureResult : Type 0 where
  pub capture_id : String
  pub video_mp4 : Bytes
  pub frame_count : ℕ
  pub actual_fps : ℕ
  pub duration_ms : ℕ

-- What the manager calls.
pub record Studio (W : Type 0) : Type 0 where
  pub clock : Clock W
  -- `uuid.uuid4().hex[:12]` and `tempfile.mkdtemp`
  pub new_id : W → String × W
  pub mkdtemp : String → Exec W String
  -- `thread.start()`
  pub start_thread : CaptureSession → String → Exec W (Unit {0})
  -- `if session._thread and session._thread.is_alive(): session._thread.join(timeout=10)`
  pub join : CaptureSession → W → W
  -- `session.frame_count` once the thread runs, which may outlast the join: each reading is a call
  pub count_frames : CaptureSession → W → ℕ × W
  -- `self._screenshot_fn(name, pipe_path, output_path)`
  pub screenshot : String → String → String → Exec W Bool
  -- whether the session's event is set, and `_stop_event.wait(timeout)`
  pub is_set : W → Bool
  pub wait : ℕ → W → W
  -- `subprocess.run(cmd, capture_output=True, timeout=30, check=True)`
  pub run_checked : List String → Exec W (Unit {0})
  -- `open(path, "rb")` and `read()`
  pub read : String → Exec W Bytes
  -- `shutil.rmtree(frame_dir, ignore_errors=True)`
  pub rmtree : String → W → W

zeros : ℕ → String
zeros zero = ""
zeros (suc n) = concat ("0" ∷ zeros n ∷ [])

-- `f"{n:06d}"`
unfoldable pub six_digits : ℕ → String
unfolding zeros
six_digits n = let s = str n in concat (zeros (6 - length (codes s)) ∷ s ∷ [])

unfoldable pub frame_path : String → ℕ → String
unfolding six_digits
frame_path dir n = join_path dir (concat ("frame_" ∷ six_digits n ∷ ".png" ∷ []))

-- `1.0 / session.target_fps`
unfoldable pub interval_of : ℕ → ℕ
interval_of fps = second / fps

-- `time.monotonic() >= time.monotonic() + max_duration_s`; the duration may be negative
unfoldable pub is_over : ℕ → ℤ → ℕ → Bool
is_over start (pos n) now = leb (start + second * n) now
is_over start (negsuc n) now = leb start (now + second * suc n)

-- `if ok: session.frame_count += 1`, where an exception of the screenshot is logged
unfoldable pub counted : Result Bool → ℕ → ℕ
counted (ok true) n = n + 1
counted (ok false) n = n
counted (err e) n = n

module _ {W : Type 0} (env : Studio W) where
  -- from `elapsed` on
  unfoldable pub pause : ℕ → ℕ → W → W
  pause interval frame_start w =
      let sleep_time = interval - (env.clock.monotonic w - frame_start) in
      if ltb 0 sleep_time then env.wait sleep_time w else w

  -- the body of the loop of `_capture_loop`, from `frame_start` on, with the frame count
  unfoldable pub capture_frame : CaptureSession → String → ℕ → W → ℕ × W
  unfolding pause frame_path counted interval_of
  capture_frame s pipe_path n w =
      let (taken, w') = env.screenshot s.instance_name pipe_path (frame_path s.frame_dir n) w in
      (counted taken n, pause (interval_of s.target_fps) (env.clock.monotonic w) w')

  -- the loop, on fuel: the frame count that it leaves in the session
  unfoldable pub capture_rounds : ℕ → CaptureSession → String → ℕ → ℕ → W → Result ℕ × W
  unfolding capture_frame is_over
  capture_rounds zero s pipe_path start n w = (err out_of_fuel, w)
  capture_rounds (suc fuel) s pipe_path start n w =
      let (n', w') = capture_frame s pipe_path n w in
      let rest = capture_rounds fuel s pipe_path start n' w' in
      if env.is_set w || is_over start s.max_duration_s (env.clock.monotonic w)
      then (ok n, w)
      else rest

  -- `_capture_loop`
  unfoldable pub capture_loop : ℕ → CaptureSession → String → W → Result ℕ × W
  unfolding capture_rounds
  capture_loop fuel s pipe_path w =
      capture_rounds fuel s pipe_path (env.clock.monotonic w) s.frame_count w
