-- ===== src/Instances/Video/Sessions.antt =====
-- The methods of `VideoCaptureManager` that other threads call.
use vanpilot.Prelude.{
  quotient, round_at, ℕ, ◌-◌, ◌*◌, ◌/◌, String, Bool, true, false, Option, none, some, List, [],
  ◌∷◌, ltb, leb, ◌==◌, nat_eq, string_eq, if◌then◌else◌,
}
use vanpilot.Prelude.Int.{ℤ}
use vanpilot.Prelude.Text.{str, join_path}
use vanpilot.Prelude.Dict.{Dict, lookup, insert, erase, has_key}
use vanpilot.Exec.{
  Exec, Result, ok, err, Exn, runtime_error, called_process_error, timeout_expired, file_not_found,
  pure, raise, gets, modify, when, on_option, ◌>>=◌, ◌>>◌,
}
use vanpilot.Instances.Store.{Bytes}
use vanpilot.Instances.Video.{
  CaptureSession, CaptureResult, Rate, Studio, second, clamp_fps, duration_or_default,
}

-- `_sessions`, and the world
pub record Host (W : Type 0) : Type 0 where
  pub sessions : Dict String CaptureSession
  pub world : W

-- `round(session.actual_fps, 2)` in hundredths, `round(session.actual_fps)`
unfoldable pub hundredths : Option Rate → ℕ
unfolding quotient round_at
hundredths none = 0
hundredths (some r) = round_at 100 (quotient (r.frames * second) r.ticks)

-- `max(1, round(actual_fps)) if actual_fps > 0 else target_fps`
unfoldable pub stitch_fps : CaptureSession → ℕ
unfolding quotient round_at
stitch_fps s = elim s.actual_fps [
  | none ↦ s.target_fps
  | some r ↦ let n = round_at 1 (quotient (r.frames * second) r.ticks) in if leb 1 n then n else 1
]

unfoldable pub ffmpeg_command : CaptureSession → String → List String
unfolding stitch_fps
ffmpeg_command s output_path =
    "ffmpeg"
    ∷ "-y"
    ∷ "-framerate"
    ∷ str (stitch_fps s)
    ∷ "-i"
    ∷ join_path s.frame_dir "frame_%06d.png"
    ∷ "-c:v"
    ∷ "libx264"
    ∷ "-pix_fmt"
    ∷ "yuv420p"
    ∷ "-movflags"
    ∷ "+faststart"
    ∷ output_path
    ∷ []

-- `except (CalledProcessError, TimeoutExpired, FileNotFoundError)`
abbrev pub is_stitch_failure : Exn → Bool
is_stitch_failure called_process_error = true
is_stitch_failure timeout_expired = true
is_stitch_failure file_not_found = true
is_stitch_failure _ = false

abbrev pub is_file_not_found : Exn → Bool
is_file_not_found file_not_found = true
is_file_not_found _ = false

-- a frame count over a duration
abbrev rate_of : ℕ → ℕ → Option Rate
rate_of duration n = if ltb 0 n then some (record { frames = n; ticks = duration }) else none

-- what is read, or no bytes where the file is missing
abbrev pub read_result : Result Bytes → Result Bytes
read_result (ok video) = ok video
read_result (err e) = if is_file_not_found e then ok [] else err e

module _ {W : Type 0} (env : Studio W) where
  abbrev pub after_ffmpeg : String → Result (Unit {0}) × W → Result Bytes × W
  after_ffmpeg output_path (ok _, w) = let (r, w') = env.read output_path w in (read_result r, w')
  after_ffmpeg output_path (err e, w) = if is_stitch_failure e then (ok [], w) else (err e, w)

  -- `_stitch_frames`
  unfoldable pub stitch_frames : CaptureSession → Exec W Bytes
  unfolding ffmpeg_command
  stitch_frames s w =
      let output_path = join_path s.frame_dir "output.mp4" in
      after_ffmpeg output_path (env.run_checked (ffmpeg_command s output_path) w)

  abbrev pub on_world : {A : Type 0} → Exec W A → Exec (Host W) A
  on_world f h = let (r, w) = f h.world in (r, record h { world = w })

  abbrev pub set_session : String → CaptureSession → Exec (Host W) (Unit {0})
  set_session name s = modify (λ h. record h { sessions = insert name s h.sessions })

  -- the session as `start` makes it
  unfoldable pub new_session : String → String → ℤ → ℤ → String → CaptureSession
  unfolding clamp_fps duration_or_default
  new_session capture_id name target_fps max_duration_s frame_dir = record {
    capture_id = capture_id;
    instance_name = name;
    target_fps = clamp_fps target_fps;
    max_duration_s = duration_or_default max_duration_s;
    frame_dir = frame_dir;
    frame_count = 0;
    actual_fps = none;
    started_at = 0;
    stopped_at = 0;
    stop_set = false;
  }

  unfoldable pub start : String → String → ℤ → ℤ → Exec (Host W) String
  unfolding new_session ◌>>=◌
  start name pipe_path target_fps max_duration_s = do
    busy ← gets (λ h. has_key name h.sessions)
    when busy (raise runtime_error)
    capture_id ← on_world (λ w. let (i, w') = env.new_id w in (ok i, w'))
    frame_dir ← on_world (env.mkdtemp name)
    let s : CaptureSession = new_session capture_id name target_fps max_duration_s frame_dir
    set_session name s
    now ← gets (λ h. env.clock.monotonic h.world)
    let s' : CaptureSession = record s { started_at = now }
    set_session name s'
    on_world (env.start_thread s' pipe_path)
    pure capture_id

  -- `if duration_s > 0 and session.frame_count > 0`, with what follows it: the count is read again
  -- for the quotient
  unfoldable pub measure : CaptureSession → W → Option Rate × W
  measure s w =
      let duration = s.stopped_at - s.started_at in
      let (seen, w1) = env.count_frames s w in
      let (n, w2) = env.count_frames s w1 in
      if ltb 0 duration
      then (if ltb 0 seen then (rate_of duration n, w2) else (s.actual_fps, w1))
      else (s.actual_fps, w)

  unfoldable pub result_of : CaptureSession → ℕ → Bytes → CaptureResult
  unfolding hundredths
  result_of s frames video = record {
    capture_id = s.capture_id;
    video_mp4 = video;
    frame_count = frames;
    actual_fps = hundredths s.actual_fps;
    duration_ms = (s.stopped_at - s.started_at) * 1000 / second;
  }

  -- the result where there are no frames
  abbrev pub without_frames : CaptureSession → CaptureResult
  without_frames s = record (result_of s 0 []) { actual_fps = 0 }

  -- from `_stitch_frames` on
  abbrev pub stitched : CaptureSession → Result Bytes × W → Result CaptureResult × W
  stitched s (ok video, w) =
      let (frames, w') = env.count_frames s (env.rmtree s.frame_dir w) in
      (ok (result_of s frames video), w')
  stitched s (err e, w) = (err e, w)

  -- `stop`, once the thread is joined
  unfoldable pub finish : CaptureSession → Exec W CaptureResult
  unfolding stitch_frames result_of
  finish s w =
      let (n, w') = env.count_frames s w in
      if n == 0
      then (ok (without_frames s), env.rmtree s.frame_dir w')
      else stitched s (stitch_frames s w')

  -- `stop`, from the event to the rate
  unfoldable pub join_thread : CaptureSession → Exec W CaptureSession
  unfolding measure
  join_thread s w =
      let told : CaptureSession = record s { stop_set = true } in
      let w1 = env.join told w in
      let joined : CaptureSession = record told { stopped_at = env.clock.monotonic w1 } in
      let (rate, w2) = measure joined w1 in (ok (record joined { actual_fps = rate }), w2)

  unfoldable pub stop : String → Exec (Host W) (Option CaptureResult)
  unfolding finish join_thread ◌>>=◌
  stop name = do
    found ← gets (λ h. lookup name h.sessions)
    modify (λ h. record h { sessions = erase name h.sessions })
    on_option found (pure none)
        (λ s. do s' ← on_world (join_thread s); result ← on_world (finish s'); pure (some result))

  -- `is_capturing`
  unfoldable pub is_capturing : String → Host W → Bool
  is_capturing name h = has_key name h.sessions

  -- `active_capture_id`
  unfoldable pub active_capture_id : String → Host W → Option String
  active_capture_id name h = elim (lookup name h.sessions) [
    | none ↦ none
    | some s ↦ some s.capture_id
  ]
