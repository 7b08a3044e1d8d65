-- ===== src/Instances/Video/Screenshot.antt =====
-- `_default_screenshot` of video_capture.py: asks the head unit for a frame over its pipe and waits
-- for the file. Times are milliseconds. The files and the clock are arguments that act on a world.
use vanpilot.Prelude.{
  ℕ, zero, suc, ◌+◌, ◌*◌, ◌≤◌, ◌<◌, ◌≡◌, ◌⊎◌, inl, inr, refl, String, Bool, true, false, not,
  Option, none, some, [], ◌∷◌, arith, ltb, Bool-cases, if◌then◌else◌,
}
use vanpilot.Prelude.Text.{concat}
use vanpilot.Exec.{Exec, Result, ok, err, out_of_fuel, file_not_found, is_os_error}
use vanpilot.Exec.Clock.{Clock, IsSteady}
use vanpilot.Instances.Video.Sessions.{is_file_not_found}

pub record Pipe (W : Type 0) : Type 0 where
  pub clock : Clock W
  -- `os.unlink`, and writing to the named pipe
  pub unlink : String → Exec W (Unit {0})
  pub write : String → String → Exec W (Unit {0})
  -- `os.path.getsize`, `none` where the path does not exist
  pub size : String → W → Option ℕ

abbrev pub screenshot_timeout : ℕ
screenshot_timeout = 3000

abbrev pub screenshot_poll_interval : ℕ
screenshot_poll_interval = 100

-- `os.path.exists(output_path) and os.path.getsize(output_path) > 0`
unfoldable pub has_content : Option ℕ → Bool
has_content none = false
has_content (some n) = ltb 0 n

module _ {W : Type 0} (env : Pipe W) where
  -- the loop, on fuel
  unfoldable pub poll_file : ℕ → String → ℕ → Exec W Bool
  unfolding has_content
  poll_file zero path deadline w = (err out_of_fuel, w)
  poll_file (suc n) path deadline w =
      let rest = poll_file n path deadline (env.clock.sleep screenshot_poll_interval w) in
      if not (ltb (env.clock.monotonic w) deadline)
      then (ok false, w)
      else (if has_content (env.size path w) then (ok true, w) else rest)

  abbrev pub after_write : String → Result (Unit {0}) × W → Result Bool × W
  after_write path (err e, w) = if is_os_error e then (ok false, w) else (err e, w)
  after_write path (ok _, w) = poll_file 31 path (env.clock.monotonic w + screenshot_timeout) w

  abbrev pub after_unlink : String → String → Result (Unit {0}) × W → Result Bool × W
  after_unlink pipe_path path (ok _, w) =
      after_write path (env.write pipe_path (concat ("screenshot " ∷ path ∷ "\n" ∷ [])) w)
  after_unlink pipe_path path (err e, w) =
      if is_file_not_found e
      then after_write path (env.write pipe_path (concat ("screenshot " ∷ path ∷ "\n" ∷ [])) w)
      else (err e, w)

  unfoldable pub default_screenshot : String → String → String → Exec W Bool
  unfolding poll_file
  default_screenshot name pipe_path output_path w =
      after_unlink pipe_path output_path (env.unlink output_path w)

  -- The wait ends with the file, or at the deadline without it.
  pub data PollEnds (path : String) (deadline : ℕ) (r : Result Bool × W) : Type 0 where
    written : r.0 ≡ ok true → has_content (env.size path r.1) ≡ true → PollEnds path deadline r
    expired : r.0 ≡ ok false → deadline ≤ env.clock.monotonic r.1 → PollEnds path deadline r

  one_poll :
      (n : ℕ) (path : String) (deadline : ℕ) (w : W)
      → (env.clock.monotonic w < deadline
          → PollEnds path deadline
              (poll_file n path deadline (env.clock.sleep screenshot_poll_interval w)))
      → PollEnds path deadline (poll_file (suc n) path deadline w)
  unfolding poll_file
  one_poll n path deadline w later = elim (Bool-cases (ltb (env.clock.monotonic w) deadline)) [
    | inr over ↦ rw over (expired refl (ground (arith, over)))
    | inl early ↦ elim (Bool-cases (has_content (env.size path w))) [
      | inl full ↦ rw (early, full) (written refl full)
      | inr empty ↦ rw (early, empty) (later (ground (arith, early)))
    ]
  ]

  poll_file_ends :
      (n : ℕ) (path : String) (deadline : ℕ) (w : W)
      → IsSteady env.clock
      → deadline ≤ env.clock.monotonic w + n * screenshot_poll_interval
      → PollEnds path deadline (poll_file (suc n) path deadline w)
  poll_file_ends zero path deadline w steady enough =
      one_poll zero path deadline w (λ early. absurd (omega (arith, early, enough)))
  poll_file_ends (suc n) path deadline w steady enough = one_poll (suc n) path deadline w (λ early.
      poll_file_ends n path deadline (env.clock.sleep screenshot_poll_interval w) steady
        (omega (arith, enough, steady.slept screenshot_poll_interval w)))

  -- Where the stale file is removed or missing and the pipe can be written, with a clock that
  -- keeps up with the sleeps, `_default_screenshot` returns within its 31 rounds: True, and the
  -- file has content, or False once its three seconds are over.
  pub default_screenshot_ends :
      (name pipe_path output_path : String) (w w1 w2 : W)
      → IsSteady env.clock
      → (env.unlink output_path w ≡ (ok tt, w1))
        ⊎ (env.unlink output_path w ≡ (err file_not_found, w1))
      → env.write pipe_path (concat ("screenshot " ∷ output_path ∷ "\n" ∷ [])) w1 ≡ (ok tt, w2)
      → PollEnds output_path
          (env.clock.monotonic w2 + screenshot_timeout)
          (default_screenshot name pipe_path output_path w)
  unfolding default_screenshot
  default_screenshot_ends name pipe_path output_path w w1 w2 steady (inl gone) wrote =
      rw (gone, wrote) (poll_file_ends 30 output_path _ w2 steady (omega arith))
  default_screenshot_ends name pipe_path output_path w w1 w2 steady (inr gone) wrote =
      rw (gone, wrote) (poll_file_ends 30 output_path _ w2 steady (omega arith))
