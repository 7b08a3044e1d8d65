-- ===== src/Instances/Video/Stopping.antt =====
-- How `stop` of a session ends: the stitching of the frames, their removal and the result.
use vanpilot.Prelude.{
  ℕ, ◌*◌, ◌≡◌, ◌⊎◌, inl, inr, refl, ap, ◌∙◌, ◌-◌, ◌/◌, ◌≢◌, String, true, false, Option, none, some,
  [], arith, ◌==◌, string_eq, nat_eq, Bool-cases,
}
use vanpilot.Prelude.Text.{join_path}
use vanpilot.Prelude.Dict.{Dict, lookup, erase, erase_absent}
use vanpilot.Exec.{
  Exn, Result, ok, err, called_process_error, timeout_expired, file_not_found, Result-cases, ◌>>=◌,
  continue, on_option,
}
use vanpilot.Instances.Store.{Bytes}
use vanpilot.Instances.Video.{CaptureSession, CaptureResult, Rate, Studio, second}
use vanpilot.Instances.Video.Sessions
use vanpilot.Instances.Video.Sessions.{
  Host, stitch_frames, is_file_not_found, is_stitch_failure, new_session, start, measure, result_of,
  finish, join_thread, stop, after_ffmpeg, ffmpeg_command, hundredths,
}

-- an exception that the stitching catches
abbrev pub IsCaught : Exn → Type 0
IsCaught e = (e ≡ called_process_error) ⊎ (e ≡ timeout_expired) ⊎ (e ≡ file_not_found)

is_stitch_failure-IsCaught : (e : Exn) → is_stitch_failure e ≡ true → IsCaught e
is_stitch_failure-IsCaught e h = ground (arith, h)

uncaught : (e : Exn) → is_stitch_failure e ≡ false → ¬ (IsCaught e)
uncaught e h (inl same) = ground (arith, ap is_stitch_failure same, h)
uncaught e h (inr (inl same)) = ground (arith, ap is_stitch_failure same, h)
uncaught e h (inr (inr same)) = ground (arith, ap is_stitch_failure same, h)

other_file_error : (e : Exn) → is_file_not_found e ≡ false → e ≢ file_not_found
other_file_error e h same = ground (arith, ap is_file_not_found same, h)

is_file_not_found_lem : (e : Exn) → is_file_not_found e ≡ true → e ≡ file_not_found
is_file_not_found_lem e h = ground (arith, h)

-- what `stop` returns, from how it ends
abbrev returned_of : Result CaptureResult → Result (Option CaptureResult)
returned_of (ok result) = ok (some result)
returned_of (err e) = err e

module _ {W : Type 0} (env : Studio W) where
  -- How the stitching ends, from what `ffmpeg` and then the reading of its file end with: with no
  -- bytes where `ffmpeg` fails by one of three exceptions or there is no file, with the bytes of
  -- the file, or with every other exception.
  pub data Stitches (path : String) (ran : Result (Unit {0}) × W) (r : Result Bytes × W)
      : Type 0 where
    failed : (e : Exn) → ran.0 ≡ err e → IsCaught e → r ≡ (ok [], ran.1) → Stitches path ran r
    broken : (e : Exn) → ran.0 ≡ err e → ¬ (IsCaught e) → r ≡ (err e, ran.1) → Stitches path ran r
    no_file :
        ran.0 ≡ ok tt
        → (env.read path ran.1).0 ≡ err file_not_found
        → r ≡ (ok [], (env.read path ran.1).1)
        → Stitches path ran r
    unreadable :
        (e : Exn)
        → ran.0 ≡ ok tt
        → (env.read path ran.1).0 ≡ err e
        → e ≢ file_not_found
        → r ≡ (err e, (env.read path ran.1).1)
        → Stitches path ran r
    read :
        (video : Bytes)
        → ran.0 ≡ ok tt
        → (env.read path ran.1).0 ≡ ok video
        → r ≡ (ok video, (env.read path ran.1).1)
        → Stitches path ran r

  after_ffmpeg-Stitches :
      (path : String) (ran : Result (Unit {0}) × W) → Stitches path ran (after_ffmpeg env path ran)
  after_ffmpeg-Stitches path (err e, w) = elim (Bool-cases (is_stitch_failure e)) [
    | inl caught ↦ failed e refl (is_stitch_failure-IsCaught e caught) (rw caught refl)
    | inr other ↦ broken e refl (uncaught e other) (rw other refl)
  ]
  after_ffmpeg-Stitches path (ok tt, w) = elim (Result-cases (env.read path w).0) [
    | inr (video, there) ↦ read video refl there (rw there refl)
    | inl (e, raised) ↦ elim (Bool-cases (is_file_not_found e)) [
      | inl missing ↦
          no_file refl (raised ∙ ap (λ e. err e) (is_file_not_found_lem e missing))
            (rw (raised, missing) refl)
      | inr other ↦ unreadable e refl raised (other_file_error e other) (rw (raised, other) refl)
    ]
  ]

  -- where the video of a session goes, and how `stop` runs `ffmpeg`
  abbrev video_path : CaptureSession → String
  video_path s = join_path s.frame_dir "output.mp4"

  abbrev ran_ffmpeg : CaptureSession → W → Result (Unit {0}) × W
  ran_ffmpeg s w = env.run_checked (ffmpeg_command s (video_path s)) w

  -- the time that a session took, in milliseconds
  abbrev lasted : CaptureSession → ℕ
  lasted s = (s.stopped_at - s.started_at) * 1000 / second

  -- What `stop` does once the thread is joined: without a frame it removes the frames and returns
  -- no video; else it stitches, and removes the frames and returns the bytes, with the count of
  -- the frames by then, or it raises what the stitching raised, and the frames stay.
  pub data Finished (s : CaptureSession) (w : W) (r : Result CaptureResult × W) : Type 0 where
    empty :
        (env.count_frames s w).0 ≡ 0
        → r ≡ (
          ok (record {
            capture_id = s.capture_id;
            video_mp4 = [];
            frame_count = 0;
            actual_fps = 0;
            duration_ms = lasted s;
          }),
          env.rmtree s.frame_dir (env.count_frames s w).1,
        )
        → Finished s w r
    stitched :
        (video : Bytes) (w' : W)
        → (env.count_frames s w).0 ≢ 0
        → Stitches (video_path s) (ran_ffmpeg s (env.count_frames s w).1) (ok video, w')
        → r ≡ (
          ok (record {
            capture_id = s.capture_id;
            video_mp4 = video;
            frame_count = (env.count_frames s (env.rmtree s.frame_dir w')).0;
            actual_fps = hundredths s.actual_fps;
            duration_ms = lasted s;
          }),
          (env.count_frames s (env.rmtree s.frame_dir w')).1,
        )
        → Finished s w r
    raised :
        (e : Exn) (w' : W)
        → (env.count_frames s w).0 ≢ 0
        → Stitches (video_path s) (ran_ffmpeg s (env.count_frames s w).1) (err e, w')
        → r ≡ (err e, w')
        → Finished s w r

  stitched-Finished :
      (s : CaptureSession) (w : W) (x : Result Bytes × W)
      → (env.count_frames s w).0 ≢ 0
      → Stitches (video_path s) (ran_ffmpeg s (env.count_frames s w).1) x
      → Finished s w (Sessions.stitched env s x)
  unfolding result_of
  stitched-Finished s w (ok video, w') some_frames ends =
      Finished.stitched video w' some_frames ends refl
  stitched-Finished s w (err e, w') some_frames ends = Finished.raised e w' some_frames ends refl

  finish-Finished : (s : CaptureSession) (w : W) → Finished s w (finish env s w)
  unfolding finish stitch_frames result_of
  finish-Finished s w =
      let (n, w') = env.count_frames s w in
      elim (Bool-cases (n == 0)) [
        | inl none_there ↦ rw none_there (Finished.empty (ground (arith, none_there)) refl)
        | inr frames ↦ rw frames (
            stitched-Finished s w _ (λ zero_there. ground (arith, frames, zero_there))
              (after_ffmpeg-Stitches (video_path s) (ran_ffmpeg s w')))
      ]

  -- What `stop` of a session does, from the world `w` on: the session is gone, whatever happens;
  -- its thread is told to stop and joined, and what follows ends as `Finished` tells, for the
  -- session with its end.
  pub record Stopped (s : CaptureSession) (rest : Dict String CaptureSession) (w : W)
      (r : Result (Option CaptureResult) × Host W) : Type 0 where
    pub rate : Option Rate
    pub world : W
    pub ends : Result CaptureResult × W
    pub measured :
        measure env
          (record s {
            stop_set = true;
            stopped_at = env.clock.monotonic (env.join (record s { stop_set = true }) w);
          })
          (env.join (record s { stop_set = true }) w)
        ≡ (rate, world)
    pub gone : r.1.sessions ≡ rest
    pub finished :
        Finished
          (record s {
            stop_set = true;
            stopped_at = env.clock.monotonic (env.join (record s { stop_set = true }) w);
            actual_fps = rate;
          })
          world
          ends
    pub after : r.1.world ≡ ends.1
    pub returned : r.0 ≡ returned_of ends.0

  stop_ends :
      (rest : Dict String CaptureSession) (q : Result CaptureResult × W)
      → continue {S = Host W} q.0
          (λ result h. (ok (some result), h))
          (record { sessions = rest; world = q.1 })
        ≡ (returned_of q.0, record { sessions = rest; world = q.1 })
  stop_ends rest (ok x, w) = refl
  stop_ends rest (err e, w) = refl

  -- `stop` for an instance that has no session returns None and changes nothing.
  stop_idle :
      (name : String) (h : Host W) → lookup name h.sessions ≡ none → stop env name h ≡ (ok none, h)
  unfolding stop ◌>>=◌ on_option
  stop_idle name h missing = rw (missing, erase_absent name h.sessions missing) refl

  pub stop-Stopped :
      (name : String) (s : CaptureSession) (h : Host W)
      → lookup name h.sessions ≡ some s
      → Stopped s (erase name h.sessions) h.world (stop env name h)
  unfolding stop ◌>>=◌ join_thread on_option
  stop-Stopped name s h found =
      let told : CaptureSession = record s { stop_set = true } in
      let w1 = env.join told h.world in
      let joined : CaptureSession = record told { stopped_at = env.clock.monotonic w1 } in
      let (rate, w2) = measure env joined w1 in
      let q = finish env (record joined { actual_fps = rate }) w2 in
      let rest = erase name h.sessions in
      let run : stop env name h ≡ (returned_of q.0, record { sessions = rest; world = q.1 }) =
        rw found (stop_ends rest q) in
      record {
        rate = rate;
        world = w2;
        ends = q;
        measured = refl;
        gone = ap (λ r. r.1.sessions) run;
        finished = finish-Finished (record joined { actual_fps = rate }) w2;
        after = ap (λ r. r.1.world) run;
        returned = ap (λ r. r.0) run;
      }
