-- ===== src/Instances/Machine/Clock.antt =====
-- A polling loop ends before its fuel does where the clock keeps up with the sleeps.
use vanpilot.Prelude.{
  ℕ, zero, suc, ◌+◌, ◌*◌, ◌≤◌, ◌≡◌, ◌≢◌, Option, none, some, arith, ltb, ltb→lt, Bool-cases, inl,
  inr, ◌∷◌, Option-cases,
}
use vanpilot.Exec.{ok, err, out_of_fuel, Result-cases, on_option, pure, ◌>>=◌}
use vanpilot.Instances.Machine.{Env, M, Manager, Trace, Effect, slept, asked_time, time_ms}
use vanpilot.Instances.Machine.Loop.{poll_until}

-- The clock does not go back, and a sleep of `ms` takes at least so long.
pub record IsClock (env : Env) : Type 0 where
  pub forward : (t : Trace) (e : Effect) → env.time_ms t ≤ env.time_ms (e ∷ t)
  pub passes : (t : Trace) (ms : ℕ) → env.time_ms t + ms ≤ env.time_ms (slept ms ∷ t)

abbrev pub clock : Env → Manager → ℕ
clock env m = env.time_ms m.trace

-- A round that finds nothing takes at least `step` ms, and no round ends for want of fuel.
pub record IsRound (env : Env) (step : ℕ) {A : Type 0} (body : M (Option A)) : Type 0 where
  pub lasts : (m : Manager) → (body m).0 ≡ ok none → clock env m + step ≤ clock env (body m).1
  pub fuelled : (m : Manager) → (body m).0 ≢ err out_of_fuel

module _ (env : Env) (is_clock : IsClock env) {A : Type 0} (step : ℕ) (body : M (Option A))
    (is_round : IsRound env step body) (deadline : ℕ) where
  round_ends :
      (again : M (Option A)) (m : Manager)
      → ((body m).0 ≡ ok none → (again (body m).1).0 ≢ err out_of_fuel)
      → ((body >>= λ found. on_option found again (λ a. pure (some a))) m).0 ≢ err out_of_fuel
  unfolding ◌>>=◌
  round_ends again m h = elim (Result-cases (body m).0) [
    | inl (e, raised) ↦ λ out. is_round.fuelled m (ground (arith, raised, out))
    | inr (o, returned) ↦ elim (Option-cases o) [
      | inl missing ↦
          λ out. h (ground (arith, returned, missing)) (ground (arith, returned, missing, out))
      | inr (a, found) ↦ λ out. absurd (ground (arith, returned, found, out))
    ]
  ]

  -- A polling loop with fuel left does not end for want of fuel, where the clock does not go back,
  -- a sleep takes its time, and the time to the deadline is at most `fuel` rounds of `step` ms.
  pub poll_until_ends :
      (fuel : ℕ) (m : Manager)
      → deadline ≤ clock env m + fuel * step
      → (poll_until env (suc fuel) deadline body m).0 ≢ err out_of_fuel
  unfolding poll_until ◌>>=◌ time_ms
  poll_until_ends zero m h = elim (Bool-cases (ltb (clock env m) deadline)) [
    | inl early ↦ absurd (omega (arith, h, ltb→lt _ _ early))
    | inr late ↦ λ out. absurd (ground (arith, late, out))
  ]
  poll_until_ends (suc fuel) m h = elim (Bool-cases (ltb (clock env m) deadline)) [
    | inl early ↦
        let m1 : Manager = record m { trace = asked_time ∷ m.trace } in
        let forward = is_clock.forward m.trace asked_time in
        rw early (
          round_ends (poll_until env (suc fuel) deadline body) m1 (λ missing.
            let lasts = is_round.lasts m1 missing in
            poll_until_ends fuel (body m1).1 (omega (arith, h, forward, lasts))))
    | inr late ↦ λ out. absurd (ground (arith, late, out))
  ]
