-- ===== src/Instances/Tests/Capture.antt =====
-- Runs of the video capture, in a world that is a clock.
use vanpilot.Prelude.{round_div, ℕ, ◌+◌, ◌≡◌, refl, false, true, inr, [], ◌∷◌, arith}
use vanpilot.Prelude.Int.{pos, negsuc}
use vanpilot.Prelude.Text.{concat, join_path, str}
use vanpilot.Prelude.Dict.{lookup}
use vanpilot.Exec.{ok}
use vanpilot.Exec.Clock.{Clock, IsSteady}
use vanpilot.Instances.Video.{
  Studio, capture_loop, clamp_fps, duration_or_default, frame_path, six_digits,
}
use vanpilot.Instances.Video.Frames.{KeepsTime, EndsWithin}
use vanpilot.Instances.Video.Sessions.{Host, new_session, stop, start}
use vanpilot.Instances.Video.Laws.{capture_loop-new_session, stop-start, started}
use vanpilot.Instances.Video.Stopping.{Stopped}

abbrev clock : Clock ℕ
clock = record { monotonic = λ w. w; sleep = λ n w. w + n }

clock-IsSteady : IsSteady clock
clock-IsSteady = record { slept = λ n w. omega arith }

-- Every screenshot takes a sixth of a second and succeeds.
abbrev studio : Studio ℕ
studio = record {
  clock = clock;
  new_id = λ w. ("c0ffee", w);
  mkdtemp = λ name w. (ok "/tmp/frames", w);
  start_thread = λ s pipe_path w. (ok tt, w);
  join = λ s w. w;
  count_frames = λ s w. (3, w);
  screenshot = λ name pipe_path path w. (ok true, w + 10000);
  is_set = λ w. false;
  wait = λ n w. w + n;
  run_checked = λ args w. (ok tt, w);
  read = λ path w. (ok (7 ∷ []), w);
  rmtree = λ dir w. w;
}

studio-KeepsTime : KeepsTime studio
studio-KeepsTime = record {
  shot = λ name pipe_path path w. omega arith;
  waited = λ n w. inr (omega arith);
}

capture_loop-new_session_example : EndsWithin 10 (
    capture_loop studio 11
      (record (new_session studio "c0ffee" "van" (pos 9) (pos 2) "/tmp/frames") {
        started_at = 100;
      })
      "/tmp/pipe"
      100)
unfolding clamp_fps duration_or_default
capture_loop-new_session_example =
    capture_loop-new_session studio "c0ffee" "van" "/tmp/frames" "/tmp/pipe" (pos 9) (pos 2) 100 100
      studio-KeepsTime

abbrev empty_host : Host ℕ
empty_host = record { sessions = []; world = 100 }

stop-start_example :
    let (r, after) = start studio "van" "/tmp/pipe" (pos 0) (pos 0) empty_host in
    let s = started studio "van" "/tmp/pipe" (pos 0) (pos 0) empty_host "/tmp/frames" 100 in
    (r ≡ ok s.capture_id)
    × Stopped studio s [] 60100 (stop studio "van" (record after { world = 60100 }))
unfolding lookup
stop-start_example =
    stop-start studio "van" "/tmp/pipe" (pos 0) (pos 0) empty_host "/tmp/frames" 100 100 60100 refl
      refl refl

-- Python rounds halves to even.
halves : (round_div 5 2 ≡ 2) × (round_div 7 2 ≡ 4) × (round_div 8 3 ≡ 3)
unfolding round_div
halves = (refl, refl, refl)

clamped : (clamp_fps (pos 0) ≡ 2) × (clamp_fps (negsuc 3) ≡ 1) × (clamp_fps (pos 60) ≡ 5)
unfolding clamp_fps
clamped = (refl, refl, refl)

seventh_frame : frame_path "/tmp/v" 7 ≡ "/tmp/v/frame_000007.png"
unfolding frame_path six_digits concat join_path str
seventh_frame = refl
