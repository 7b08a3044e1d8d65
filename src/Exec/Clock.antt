-- ===== src/Exec/Clock.antt =====
-- The functions of `time` that polling loops call, on a world that holds the clock.
use vanpilot.Prelude.{ℕ, ◌+◌, ◌≤◌}

-- the functions of `time` that the loops call
pub record Clock (W : Type 0) : Type 0 where
  pub monotonic : W → ℕ
  pub sleep : ℕ → W → W

-- A sleep lasts at least as long as it was asked to.
pub record IsSteady {W : Type 0} (clock : Clock W) : Type 0 where
  pub slept : (n : ℕ) (w : W) → clock.monotonic w + n ≤ clock.monotonic (clock.sleep n w)
