-- ===== src/Instances/Lifecycle/Wait/Ends.antt =====
-- The waits of the lifecycle end before their fuel does, in a world whose clock keeps up.
use vanpilot.Prelude.{
  ℕ, suc, ◌+◌, ◌*◌, ◌/◌, ◌≤◌, ◌≡◌, ◌≢◌, String, Option, arith, Bool-cases, Option-cases, inl, inr,
  List, [], ◌∷◌,
}
use vanpilot.Prelude.Text.{codes, strip, same_codes, has_part, lower}
use vanpilot.Exec.{Exn, continue, handler, err, out_of_fuel, timeout_error, Result-cases, ◌>>=◌}
use vanpilot.Instances.Machine.{
  read, read_file, Env, M, Manager, Trace, ran, asked_time, time_ms, run, sleep, deadline_in,
}
use vanpilot.Instances.Machine.Loop.{poll_until}
use vanpilot.Instances.Machine.Clock.{IsClock, IsRound, clock, poll_until_ends}
use vanpilot.Instances.Lifecycle.Wait.{
  boot_round, wait_for_boot, read_if_there, dhu_round, wait_for_dhu, rounds, or_raise,
  is_file_not_found,
}

-- No call to the world answers by the mark that the model keeps for its loops.
pub record IsFuelled (env : Env) : Type 0 where
  pub run : (t : Trace) (args : List String) → env.run t args ≢ err out_of_fuel
  pub read : (t : Trace) (path : String) → env.read t path ≢ err out_of_fuel

module _ (env : Env) (is_clock : IsClock env) (is_fuelled : IsFuelled env) where
  boot_round-IsRound : (serial : String) → IsRound env 1000 (boot_round env serial)
  unfolding boot_round run sleep ◌>>=◌
  boot_round-IsRound serial =
      let args = "adb" ∷ "-s" ∷ serial ∷ "shell" ∷ "getprop" ∷ "sys.boot_completed" ∷ [] in
      record {
        lasts = λ m h. elim (Result-cases (env.run m.trace args)) [
          | inl (e, raised) ↦ absurd (ground (arith, raised, h))
          | inr (c, done) ↦ elim (Bool-cases (same_codes (strip (codes c.stdout)) (codes "1"))) [
            | inl booted ↦ absurd (ground (arith, done, booted, h))
            | inr starting ↦
                let f1 = is_clock.forward m.trace (ran args) in
                let f2 = is_clock.passes (ran args ∷ m.trace) 1000 in
                rw (done, starting, continue) (omega (arith, f1, f2))
          ]
        ];
        fuelled = λ m out. elim (Result-cases (env.run m.trace args)) [
          | inl (e, raised) ↦ is_fuelled.run m.trace args (ground (arith, raised, out))
          | inr (c, done) ↦ absurd (ground (arith, done, out))
        ];
      }

  -- a deadline, a loop with fuel for it, and the exception of a time-out
  wait_ends :
      {A : Type 0} (timeout n fuel step : ℕ) (body : M (Option A)) (e : Exn)
      → n ≡ suc fuel
      → IsRound env step body
      → e ≢ out_of_fuel
      → timeout ≤ fuel * step
      → (m : Manager)
      → ((deadline_in env timeout >>= λ deadline.
            poll_until env n deadline body >>= λ found. or_raise e found)
          m).0
        ≢ err out_of_fuel
  unfolding deadline_in time_ms ◌>>=◌
  wait_ends timeout n fuel step body e enough is_round other room m = rw enough (
      let m1 : Manager = record m { trace = asked_time ∷ m.trace } in
      let deadline = clock env m + timeout in
      let forward = is_clock.forward m.trace asked_time in
      let loop =
        poll_until_ends env is_clock step body is_round deadline fuel m1
          (omega (arith, room, forward)) in
      let (r, m2) = poll_until env (suc fuel) deadline body m1 in
      elim (Result-cases r) [
        | inl (e', raised) ↦ λ out. loop (ground (arith, raised, out))
        | inr (o, returned) ↦ elim (Option-cases o) [
          | inl missing ↦ λ out. other (ground (arith, returned, missing, out))
          | inr (a, found) ↦ λ out. absurd (ground (arith, returned, found, out))
        ]
      ])

  -- In a world whose clock does not go back and keeps up with the sleeps, and in which no call
  -- answers by the mark for missing fuel, `_wait_for_boot` never ends for want of fuel, for
  -- every timeout.
  pub wait_for_boot_ends :
      (timeout : ℕ) (serial : String) (m : Manager)
      → (wait_for_boot env timeout serial m).0 ≢ err out_of_fuel
  unfolding wait_for_boot
  wait_for_boot_ends timeout serial m =
      wait_ends timeout (rounds timeout 1000) (timeout / 1000 + 1) 1000 (boot_round env serial)
        timeout_error (omega arith) (boot_round-IsRound serial) (λ e. absurd (ground (arith, e)))
        (omega arith) m

  dhu_round-IsRound : (log_path : String) → IsRound env 500 (dhu_round env log_path)
  unfolding dhu_round read_if_there read sleep ◌>>=◌
  dhu_round-IsRound log_path = record {
    lasts = λ m h. elim (Result-cases (env.read m.trace log_path)) [
      | inl (e, raised) ↦ elim (Bool-cases (is_file_not_found e)) [
        | inl missing ↦
            let f1 = is_clock.forward m.trace (read_file log_path) in
            let f2 = is_clock.passes (read_file log_path ∷ m.trace) 500 in
            rw (raised, continue, handler, missing) (omega (arith, f1, f2))
        | inr other ↦ absurd (ground (arith, raised, other, h))
      ]
      | inr (c, done) ↦ elim (Bool-cases (has_part (lower c) (codes "verify returned"))) [
        | inl shown ↦ absurd (ground (arith, done, shown, h))
        | inr waiting ↦
            let f1 = is_clock.forward m.trace (read_file log_path) in
            let f2 = is_clock.passes (read_file log_path ∷ m.trace) 500 in
            rw (done, continue, waiting) (omega (arith, f1, f2))
      ]
    ];
    fuelled = λ m out. elim (Result-cases (env.read m.trace log_path)) [
      | inl (e, raised) ↦ elim (Bool-cases (is_file_not_found e)) [
        | inl missing ↦ absurd (ground (arith, raised, missing, out))
        | inr other ↦ is_fuelled.read m.trace log_path (ground (arith, raised, other, out))
      ]
      | inr (c, done) ↦ absurd (ground (arith, done, out))
    ];
  }

  -- In a world whose clock does not go back and keeps up with the sleeps, and in which no call
  -- answers by the mark for missing fuel, `_wait_for_dhu` never ends for want of fuel, whether
  -- the log is missing, unreadable or without the handshake.
  pub wait_for_dhu_ends :
      (timeout : ℕ) (log_path : String) (m : Manager)
      → (wait_for_dhu env timeout log_path m).0 ≢ err out_of_fuel
  unfolding wait_for_dhu
  wait_for_dhu_ends timeout log_path m =
      wait_ends timeout (rounds timeout 500) (timeout / 500 + 1) 500 (dhu_round env log_path)
        timeout_error (omega arith) (dhu_round-IsRound log_path) (λ e. absurd (ground (arith, e)))
        (omega arith) m
