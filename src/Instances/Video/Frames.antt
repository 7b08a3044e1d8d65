-- ===== src/Instances/Video/Frames.antt =====
-- How long the capture loop runs, and how many frames it counts.
use vanpilot.Prelude.{
  ℕ, zero, suc, ◌+◌, ◌-◌, ◌*◌, ◌≤◌, ◌<◌, ◌≡◌, ◌⊎◌, inl, inr, refl, String, Bool, true, false, ◌||◌,
  arith, ltb, Bool-cases,
}
use vanpilot.Prelude.Int.{ℤ, pos, negsuc, pos_part}
use vanpilot.Exec.{Result, ok, err}
use vanpilot.Instances.Video.{
  CaptureSession, Studio, second, interval_of, is_over, counted, pause, frame_path, capture_frame,
  capture_rounds, capture_loop,
}

-- A screenshot does not set the clock back, and a wait ends by the event or lasts as long as asked.
pub record KeepsTime {W : Type 0} (env : Studio W) : Type 0 where
  pub shot :
      (name pipe_path path : String) (w : W)
      → env.clock.monotonic w ≤ env.clock.monotonic (env.screenshot name pipe_path path w).1
  pub waited :
      (n : ℕ) (w : W)
      → (env.is_set (env.wait n w) ≡ true)
        ⊎ (env.clock.monotonic w + n ≤ env.clock.monotonic (env.wait n w))

-- At a rate of one to five, as many pauses as fit in a number of seconds are the frames of it.
before_end :
    (fps r d start now : ℕ)
    → 1 ≤ fps
    → fps ≤ 5
    → start + r * interval_of fps ≤ now
    → now < start + second * d
    → r < fps * d
unfolding interval_of
before_end zero r d start now lo hi h early = absurd (omega (arith, lo))
before_end (suc zero) r d start now lo hi h early = omega (arith, h, early)
before_end (suc (suc zero)) r d start now lo hi h early = omega (arith, h, early)
before_end (suc (suc (suc zero))) r d start now lo hi h early = omega (arith, h, early)
before_end (suc (suc (suc (suc zero)))) r d start now lo hi h early = omega (arith, h, early)
before_end (suc (suc (suc (suc (suc zero))))) r d start now lo hi h early = omega (arith, h, early)
before_end (suc (suc (suc (suc (suc (suc fps)))))) r d start now lo hi h early =
    absurd (omega (arith, hi))

not_over :
    (fps r start now : ℕ) (duration : ℤ)
    → 1 ≤ fps
    → fps ≤ 5
    → start + r * interval_of fps ≤ now
    → is_over start duration now ≡ false
    → r < fps * pos_part duration
unfolding is_over
not_over fps r start now (pos d) lo hi h e =
    before_end fps r d start now lo hi h (ground (arith, e))
not_over fps r start now (negsuc d) lo hi h e =
    absurd (too_early (r * interval_of fps) h (ground (arith, e)))
  where
    too_early : (x : ℕ) → start + x ≤ now → now + second * suc d < start → ⊥
    too_early x h e = omega (arith, h, e)

counted_le : (r : Result Bool) (n : ℕ) → counted r n ≤ n + 1
unfolding counted
counted_le (ok true) n = omega arith
counted_le (ok false) n = omega arith
counted_le (err e) n = omega arith

-- The number of frames that a session may count.
abbrev pub frame_limit : CaptureSession → ℕ
frame_limit s = s.target_fps * pos_part s.max_duration_s

-- The loop returns a frame count that is not over the limit.
abbrev pub EndsWithin : {W : Type 0} → ℕ → Result ℕ × W → Type 0
EndsWithin limit r = (n : ℕ) × (r.0 ≡ ok n) × (n ≤ limit)

module _ {W : Type 0} (env : Studio W) (time : KeepsTime env) where
  -- After a pause the event is set, or the interval has passed.
  pause_lem :
      (interval t : ℕ) (w : W)
      → t ≤ env.clock.monotonic w
      → (env.is_set (pause env interval t w) ≡ true)
        ⊎ (t + interval ≤ env.clock.monotonic (pause env interval t w))
  unfolding pause
  pause_lem interval t w later =
      let sleep_time = interval - (env.clock.monotonic w - t) in
      elim (Bool-cases (ltb 0 sleep_time)) [
        | inl some_time ↦ rw some_time (elim (time.waited sleep_time w) [
          | inl set ↦ inl set
          | inr passed ↦ inr (omega (arith, passed, later))
        ])
        | inr no_time ↦
            rw no_time (inr (none_left interval t (env.clock.monotonic w) later no_time))
      ]
    where
      none_left :
          (interval t now : ℕ) → t ≤ now → ltb 0 (interval - (now - t)) ≡ false → t + interval ≤ now
      none_left interval t now later e = ground (arith, later, e)

  -- A round is over by the event, or it has lasted for the interval.
  round_lasts :
      (s : CaptureSession) (pipe_path : String) (n : ℕ) (w : W)
      → (env.is_set (capture_frame env s pipe_path n w).1 ≡ true)
        ⊎ (env.clock.monotonic w + interval_of s.target_fps
            ≤ env.clock.monotonic (capture_frame env s pipe_path n w).1)
  unfolding capture_frame
  round_lasts s pipe_path n w =
      pause_lem (interval_of s.target_fps) (env.clock.monotonic w) _ (time.shot _ _ _ w)

  round_counts :
      (s : CaptureSession) (pipe_path : String) (n : ℕ) (w : W)
      → (capture_frame env s pipe_path n w).0 ≤ n + 1
  unfolding capture_frame
  round_counts s pipe_path n w =
      counted_le (env.screenshot s.instance_name pipe_path (frame_path s.frame_dir n) w).0 n

  -- A round that the event or the end of the session stops.
  stopped_round :
      (fuel : ℕ) (s : CaptureSession) (pipe_path : String) (start n : ℕ) (w : W)
      → (env.is_set w || is_over start s.max_duration_s (env.clock.monotonic w)) ≡ true
      → capture_rounds env (suc fuel) s pipe_path start n w ≡ (ok n, w)
  unfolding capture_rounds
  stopped_round fuel s pipe_path start n w stops = rw stops refl

  next_round :
      (fuel : ℕ) (s : CaptureSession) (pipe_path : String) (start n : ℕ) (w : W)
      → (env.is_set w || is_over start s.max_duration_s (env.clock.monotonic w)) ≡ false
      → let (n', w') = capture_frame env s pipe_path n w in
        capture_rounds env (suc fuel) s pipe_path start n w
        ≡ capture_rounds env fuel s pipe_path start n' w'
  unfolding capture_rounds
  next_round fuel s pipe_path start n w goes = rw goes refl

  module _ (s : CaptureSession) (pipe_path : String) (start : ℕ) where
    abbrev over : W → Bool
    over w = env.is_set w || is_over start s.max_duration_s (env.clock.monotonic w)

    -- The event is set, or the clock is that many intervals after the start.
    abbrev OnTime : ℕ → W → Type 0
    OnTime r w =
        (env.is_set w ≡ true) ⊎ (start + r * interval_of s.target_fps ≤ env.clock.monotonic w)

    in_time :
        (r : ℕ) (w : W)
        → 1 ≤ s.target_fps
        → s.target_fps ≤ 5
        → OnTime r w
        → over w ≡ false
        → (start + r * interval_of s.target_fps ≤ env.clock.monotonic w) × (r < frame_limit s)
    in_time r w lo hi (inl set) goes = absurd (ground (arith, set, goes))
    in_time r w lo hi (inr late) goes =
        let early : is_over start s.max_duration_s (env.clock.monotonic w) ≡ false =
          ground (arith, goes) in
        (
          late,
          not_over s.target_fps r start (env.clock.monotonic w) s.max_duration_s lo hi late early,
        )

    next_in_time :
        (r n : ℕ) (w : W)
        → start + r * interval_of s.target_fps ≤ env.clock.monotonic w
        → OnTime (r + 1) (capture_frame env s pipe_path n w).1
    next_in_time r n w late = elim (round_lasts s pipe_path n w) [
      | inl set ↦ inl set
      | inr lasted ↦ inr (add_round (interval_of s.target_fps) r late lasted)
    ]
      where
        add_round :
            {now after : ℕ} (i r : ℕ)
            → start + r * i ≤ now
            → now + i ≤ after
            → start + (r + 1) * i ≤ after
        add_round i r h k = omega (arith, h, k)

    -- One round, where `later` is what follows it.
    one_round :
        (fuel r n : ℕ) (w : W)
        → 1 ≤ s.target_fps
        → s.target_fps ≤ 5
        → n ≤ r
        → r ≤ frame_limit s
        → OnTime r w
        → let (n', w') = capture_frame env s pipe_path n w in
          (r < frame_limit s
            → OnTime (r + 1) w'
            → EndsWithin (frame_limit s) (capture_rounds env fuel s pipe_path start n' w'))
          → EndsWithin (frame_limit s) (capture_rounds env (suc fuel) s pipe_path start n w)
    one_round fuel r n w lo hi few within on_time later = elim (Bool-cases (over w)) [
      | inl stops ↦
          rw (stopped_round fuel s pipe_path start n w stops) (n, refl, omega (arith, few, within))
      | inr goes ↦
          let (late, left) = in_time r w lo hi on_time goes in
          rw (next_round fuel s pipe_path start n w goes) (later left (next_in_time r n w late))
    ]

    capture_rounds_end :
        (fuel r n : ℕ) (w : W)
        → 1 ≤ s.target_fps
        → s.target_fps ≤ 5
        → n ≤ r
        → r ≤ frame_limit s
        → frame_limit s ≤ r + fuel
        → OnTime r w
        → EndsWithin (frame_limit s) (capture_rounds env (suc fuel) s pipe_path start n w)
    capture_rounds_end zero r n w lo hi few within enough on_time =
        one_round zero r n w lo hi few within on_time
          (λ left _. absurd (omega (arith, left, enough)))
    capture_rounds_end (suc fuel) r n w lo hi few within enough on_time =
        let (n', w') = capture_frame env s pipe_path n w in
        one_round (suc fuel) r n w lo hi few within on_time (λ left on_time'.
          capture_rounds_end fuel (r + 1) n' w' lo hi
            (omega (arith, few, round_counts s pipe_path n w)) (omega (arith, left))
            (omega (arith, enough)) on_time')

  -- The loop returns, with a round for each frame of the limit and one more.
  pub capture_loop_ends :
      (s : CaptureSession) (pipe_path : String) (w : W)
      → 1 ≤ s.target_fps
      → s.target_fps ≤ 5
      → s.frame_count ≡ 0
      → EndsWithin (frame_limit s) (capture_loop env (suc (frame_limit s)) s pipe_path w)
  unfolding capture_loop
  capture_loop_ends s pipe_path w lo hi none_yet =
      capture_rounds_end s pipe_path (env.clock.monotonic w) (frame_limit s) 0 s.frame_count w lo hi
        (omega (arith, none_yet)) (omega arith) (omega arith) (inr (omega arith))
