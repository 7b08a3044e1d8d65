-- ===== src/Mcp/Poll.antt =====
-- `_poll_for_confirmation` of mcp/src/handlers.py: asks the Android app, every quarter of a second,
-- what it displays. Times are milliseconds. `time` is an argument, and the world holds its clock.
pub mod Laws
use vanpilot.Prelude.{
  ℕ, zero, suc, ◌+◌, String, Bool, true, false, not, Option, none, some, ◌==◌, string_eq, ltb,
  if◌then◌else◌,
}
use vanpilot.Exec.{Exec, Result, ok, err, out_of_fuel}
use vanpilot.Exec.Clock.{Clock}

-- `_POLL_INTERVAL`
abbrev pub poll_interval : ℕ
poll_interval = 250

-- `try: current = _display_confirmer() except Exception: current = ""`
abbrev pub or_blank : Result String → String
or_blank (ok current) = current
or_blank (err e) = ""

module _ {W : Type 0} where
  -- the loop of `_poll_for_confirmation`, on fuel
  unfoldable pub poll_loop : ℕ → Clock W → Exec W String → String → ℕ → Exec W (Option String)
  poll_loop zero clock confirmer cache_key deadline w = (err out_of_fuel, w)
  poll_loop (suc n) clock confirmer cache_key deadline w =
      let (answer, w') = confirmer w in
      let rest = poll_loop n clock confirmer cache_key deadline (clock.sleep poll_interval w') in
      if not (ltb (clock.monotonic w) deadline)
      then (ok none, w)
      else (if or_blank answer == cache_key then (ok (some (or_blank answer)), w') else rest)

  -- `_poll_for_confirmation`
  unfoldable pub poll_for_confirmation :
      ℕ → Clock W → Exec W String → String → ℕ → Exec W (Option String)
  unfolding poll_loop
  poll_for_confirmation fuel clock confirmer cache_key timeout w =
      poll_loop fuel clock confirmer cache_key (clock.monotonic w + timeout) w
