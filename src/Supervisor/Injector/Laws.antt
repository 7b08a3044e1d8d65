-- ===== src/Supervisor/Injector/Laws.antt =====
-- How a delivery ends, and what it leaves in the event store.
use vanpilot.Prelude.{
  ℕ, zero, suc, ◌+◌, ◌*◌, ◌≤◌, ◌<◌, ◌≡◌, inl, inr, refl, String, Bool, true, false, List, [], ◌∷◌,
  ◌++◌, arith, ltb, Bool-cases,
}
use vanpilot.Prelude.Int.{pos}
use vanpilot.Exec.{Result, ok}
use vanpilot.Exec.Clock.{IsSteady}
use vanpilot.Supervisor.Events.{Event, input_delivery_failure, add_event}
use vanpilot.Supervisor.Injector.{
  Machine, Injector, State, log_path, log_size, wait_loop, wait_for_response, emit_failure,
  on_response, inject,
}

none_left : (a b : ℕ) → a < b → b ≤ a → ⊥
none_left a b lt le = omega (arith, lt, le)

module _ {W : Type 0} where
  -- The world after `k` sleeps.
  unfoldable pub slept_world : ℕ → Machine W → ℕ → W → W
  slept_world zero m interval w = w
  slept_world (suc k) m interval w = slept_world k m interval (m.clock.sleep interval w)

  -- In each of the first `k` rounds from `w` on, the deadline was ahead and the log had not grown.
  abbrev pub Waits : Machine W → ℕ → String → ℕ → ℕ → W → ℕ → Type 0
  Waits m interval log_file size deadline w k =
      (i : ℕ)
      → i < k
      → (m.clock.monotonic (slept_world i m interval w) < deadline)
        × (log_size m log_file (slept_world i m interval w) ≤ size)

  -- How the wait from `w` on ends: in the first round in which the log has grown, before the
  -- deadline, or at the deadline, where the log had not grown in any round.
  pub data WaitEnds (m : Machine W) (interval : ℕ) (log_file : String) (size deadline : ℕ) (w : W)
      (r : Result Bool × W) : Type 0 where
    grown :
        (k : ℕ)
        → Waits m interval log_file size deadline w k
        → r ≡ (ok true, slept_world k m interval w)
        → m.clock.monotonic (slept_world k m interval w) < deadline
        → size < log_size m log_file (slept_world k m interval w)
        → WaitEnds m interval log_file size deadline w r
    expired :
        (k : ℕ)
        → Waits m interval log_file size deadline w k
        → r ≡ (ok false, slept_world k m interval w)
        → deadline ≤ m.clock.monotonic (slept_world k m interval w)
        → WaitEnds m interval log_file size deadline w r

  one_more :
      (m : Machine W) (interval : ℕ) (log_file : String) (size deadline : ℕ) (w : W) (k : ℕ)
      → m.clock.monotonic w < deadline
      → log_size m log_file w ≤ size
      → Waits m interval log_file size deadline (m.clock.sleep interval w) k
      → Waits m interval log_file size deadline w (suc k)
  unfolding slept_world
  one_more m interval log_file size deadline w k early less waits zero lt = (early, less)
  one_more m interval log_file size deadline w k early less waits (suc i) lt =
      waits i (omega (arith, lt))

  after_round :
      (m : Machine W) (interval : ℕ) (log_file : String) (size deadline : ℕ) (w : W)
      (r : Result Bool × W)
      → m.clock.monotonic w < deadline
      → log_size m log_file w ≤ size
      → WaitEnds m interval log_file size deadline (m.clock.sleep interval w) r
      → WaitEnds m interval log_file size deadline w r
  unfolding slept_world
  after_round m interval log_file size deadline w r early less (grown k waits e in_time more) =
      grown (suc k) (one_more m interval log_file size deadline w k early less waits) e in_time more
  after_round m interval log_file size deadline w r early less (expired k waits e late) =
      expired (suc k) (one_more m interval log_file size deadline w k early less waits) e late

  wait_loop-step :
      (n : ℕ) (m : Machine W) (interval : ℕ) (log_file : String) (size deadline : ℕ) (w : W)
      → (m.clock.monotonic w < deadline
          → WaitEnds m interval log_file size deadline
              (m.clock.sleep interval w)
              (wait_loop n m interval log_file size deadline (m.clock.sleep interval w)))
      → WaitEnds m interval log_file size deadline w
          (wait_loop (suc n) m interval log_file size deadline w)
  unfolding wait_loop slept_world
  wait_loop-step n m interval log_file size deadline w later =
      elim (Bool-cases (ltb (m.clock.monotonic w) deadline)) [
        | inr over ↦
            rw over (expired 0 (λ i lt. absurd (omega (arith, lt))) refl (ground (arith, over)))
        | inl open_ ↦ rw open_ (elim (Bool-cases (ltb size (log_size m log_file w))) [
          | inl more ↦ rw more (
              grown 0 (λ i lt. absurd (omega (arith, lt))) refl (ground (arith, open_))
                (ground (arith, more)))
          | inr less ↦ rw less (
              after_round m interval log_file size deadline w _ (ground (arith, open_))
                (ground (arith, less)) (later (ground (arith, open_))))
        ])
      ]

  wait_loop-WaitEnds :
      (n : ℕ) (m : Machine W) (interval : ℕ) (log_file : String) (size deadline : ℕ) (w : W)
      → IsSteady m.clock
      → deadline ≤ m.clock.monotonic w + n * interval
      → WaitEnds m interval log_file size deadline w
          (wait_loop (suc n) m interval log_file size deadline w)
  wait_loop-WaitEnds zero m interval log_file size deadline w steady fuel =
      wait_loop-step zero m interval log_file size deadline w
        (λ early. elim (none_left _ _ early (omega (arith, fuel))) [ ])
  wait_loop-WaitEnds (suc n) m interval log_file size deadline w steady fuel =
      wait_loop-step (suc n) m interval log_file size deadline w (λ early.
        wait_loop-WaitEnds n m interval log_file size deadline (m.clock.sleep interval w) steady
          (omega (arith, fuel, steady.slept interval w)))

  -- How a delivery ends, from the world `w` after the keys were sent: in the first round in which
  -- the log has grown, before the timeout and with no event, or after the timeout, through which
  -- the log has not grown, with one event of the failure.
  pub data InjectEnds (m : Machine W) (j : Injector) (log_file input agent_id : String) (size : ℕ)
      (events : List Event) (w : W) (r : Result Bool × State W) : Type 0 where
    answered :
        (k : ℕ)
        → Waits m j.poll_interval log_file size (m.clock.monotonic w + j.timeout) w k
        → m.clock.monotonic (slept_world k m j.poll_interval w) < m.clock.monotonic w + j.timeout
        → size < log_size m log_file (slept_world k m j.poll_interval w)
        → r ≡ (ok true, record { events = events; world = slept_world k m j.poll_interval w })
        → InjectEnds m j log_file input agent_id size events w r
    unanswered :
        (k : ℕ)
        → Waits m j.poll_interval log_file size (m.clock.monotonic w + j.timeout) w k
        → m.clock.monotonic w + j.timeout ≤ m.clock.monotonic (slept_world k m j.poll_interval w)
        → r ≡ (
          ok false,
          record {
            events =
                events
                ++ (record {
                  timestamp_ms = pos (m.wall_time (slept_world k m j.poll_interval w));
                  payload = input_delivery_failure input agent_id;
                })
                  ∷ [];
            world = slept_world k m j.poll_interval w;
          },
        )
        → InjectEnds m j log_file input agent_id size events w r

  on_response-InjectEnds :
      (m : Machine W) (j : Injector) (log_file input agent_id : String) (size : ℕ)
      (events : List Event) (w : W) (x : Result Bool × W)
      → WaitEnds m j.poll_interval log_file size (m.clock.monotonic w + j.timeout) w x
      → InjectEnds m j log_file input agent_id size events w (on_response m input agent_id events x)
  unfolding emit_failure add_event
  on_response-InjectEnds m j log_file input agent_id size events w x
        (grown k waits e in_time more) =
      answered k waits in_time more (rw (e, on_response) refl)
  on_response-InjectEnds m j log_file input agent_id size events w x (expired k waits e late) =
      unanswered k waits late (rw (e, on_response) refl)

  -- Where the keys could be sent, the clock keeps up with the sleeps and there is a round for
  -- each poll interval of the timeout and one more, inject returns: True, in the first round in
  -- which the log is larger than before the keys were sent, before the timeout has passed since
  -- then, with the event store as it was; or False, once the timeout has passed and the log had
  -- not grown in any round, with exactly one event added, the InputDeliveryFailure of the text
  -- and the agent.
  pub inject-InjectEnds :
      (n : ℕ) (m : Machine W) (j : Injector) (session_name input agent_id : String) (s : State W)
      → IsSteady m.clock
      → j.timeout ≤ n * j.poll_interval
      → (m.send_keys session_name input s.world).0 ≡ ok tt
      → InjectEnds m j
          (log_path j session_name)
          input
          agent_id
          (log_size m (log_path j session_name) s.world)
          s.events
          (m.send_keys session_name input s.world).1
          (inject (suc n) m j session_name input agent_id s)
  unfolding inject wait_for_response
  inject-InjectEnds n m j session_name input agent_id s steady fuel sent =
      let log_file = log_path j session_name in
      let size = log_size m log_file s.world in
      let (r, w) = m.send_keys session_name input s.world in
      rw sent (
        on_response-InjectEnds m j log_file input agent_id size s.events w _ (
          wait_loop-WaitEnds n m j.poll_interval log_file size (m.clock.monotonic w + j.timeout) w
            steady (omega (arith, fuel))))
