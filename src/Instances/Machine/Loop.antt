-- ===== src/Instances/Machine/Loop.antt =====
-- `while time.time() < deadline:`, the polling loops of the instance manager.
use vanpilot.Prelude.{ℕ, zero, suc, Option, none, some, ltb, if◌then◌else◌}
use vanpilot.Exec.{out_of_fuel, on_option, pure, raise, ◌>>=◌}
use vanpilot.Instances.Machine.{Env, M, time_ms}

module _ (env : Env) {A : Type 0} where
  -- Each round tests the clock and runs the body, which sleeps; the body's `some` is its `return`.
  -- Without fuel left the loop raises `out_of_fuel`, which no code of the program does.
  unfoldable pub poll_until : ℕ → ℕ → M (Option A) → M (Option A)
  poll_until zero deadline body = raise out_of_fuel
  poll_until (suc fuel) deadline body =
      let again = poll_until fuel deadline body in
      let round = body >>= λ found. on_option found again (λ a. pure (some a)) in
      do now ← time_ms env; if ltb now deadline then round else pure none
