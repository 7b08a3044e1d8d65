-- ===== src/Mcp/Poll/Laws.antt =====
-- How long the wait for the Android app lasts, and what it ends with.
use vanpilot.Prelude.{
  ℕ, zero, suc, ◌+◌, ◌*◌, ◌≤◌, ◌<◌, ◌≡◌, ◌⊎◌, inl, inr, refl, String, true, not, Option, none, some,
  arith, ◌==◌, ==_iff, ==_refl, string_eq, ltb, Bool-cases, if◌then◌else◌,
}
use vanpilot.Exec.{Exec, Result, ok}
use vanpilot.Exec.Clock.{Clock}
use vanpilot.Mcp.Poll.{poll_interval, or_blank, poll_loop, poll_for_confirmation}

not_both : (m n : ℕ) → m < n → n ≤ m → ⊥
not_both m n lt le = omega (arith, lt, le)

ltb_of_lt : (m n : ℕ) → m < n → ltb m n ≡ true
ltb_of_lt m n h = ground (arith, h)

module _ {W : Type 0} where
  -- The clock of a world: no call sets it back, and a sleep lasts as long as it was asked to.
  pub record IsClock (clock : Clock W) (confirmer : Exec W String) : Type 0 where
    pub slept : (n : ℕ) (w : W) → clock.monotonic w + n ≤ clock.monotonic (clock.sleep n w)
    pub asked : (w : W) → clock.monotonic w ≤ clock.monotonic (confirmer w).1

  -- What the wait ends with: the key that was waited for, or nothing once the deadline is reached.
  pub data Ends (clock : Clock W) (cache_key : String) (deadline : ℕ)
      (r : Result (Option String) × W) : Type 0 where
    shown : r.0 ≡ ok (some cache_key) → Ends clock cache_key deadline r
    expired : r.0 ≡ ok none → deadline ≤ clock.monotonic r.1 → Ends clock cache_key deadline r

  -- One round of the loop.
  next : Clock W → Exec W String → W → W
  next clock confirmer w = clock.sleep poll_interval (confirmer w).1

  next_later :
      (clock : Clock W) (confirmer : Exec W String) (w : W)
      → IsClock clock confirmer
      → clock.monotonic w + poll_interval ≤ clock.monotonic (next clock confirmer w)
  unfolding next
  next_later clock confirmer w c = omega (arith, c.asked w, c.slept poll_interval (confirmer w).1)

  poll_loop-step :
      (n : ℕ) (clock : Clock W) (confirmer : Exec W String) (cache_key : String) (deadline : ℕ)
      (w : W)
      → poll_loop (suc n) clock confirmer cache_key deadline w ≡ (
          if not (ltb (clock.monotonic w) deadline)
          then (ok none, w)
          else (if or_blank (confirmer w).0 == cache_key
              then (ok (some (or_blank (confirmer w).0)), (confirmer w).1)
              else poll_loop n clock confirmer cache_key deadline (next clock confirmer w)))
  unfolding poll_loop next
  poll_loop-step n clock confirmer cache_key deadline w = refl

  -- The round whose answer is not the key: the deadline, or the answer, or the rounds that follow.
  round_Ends :
      (n : ℕ) (clock : Clock W) (confirmer : Exec W String) (cache_key : String) (deadline : ℕ)
      (w : W)
      → (clock.monotonic w < deadline
          → Ends clock cache_key deadline
              (poll_loop n clock confirmer cache_key deadline (next clock confirmer w)))
      → Ends clock cache_key deadline (poll_loop (suc n) clock confirmer cache_key deadline w)
  round_Ends n clock confirmer cache_key deadline w later =
      rw (poll_loop-step n clock confirmer cache_key deadline w)
        (elim (Bool-cases (ltb (clock.monotonic w) deadline)) [
          | inr over ↦ rw over (expired refl (ground (arith, over)))
          | inl open_ ↦ rw open_ (elim (Bool-cases (or_blank (confirmer w).0 == cache_key)) [
            | inl same ↦
                rw same (shown (rw ((==_iff (or_blank (confirmer w).0) cache_key).0 same) refl))
            | inr other ↦ rw other (later (ground (arith, open_)))
          ])
        ])

  poll_loop-Ends :
      (n : ℕ) (clock : Clock W) (confirmer : Exec W String) (cache_key : String) (deadline : ℕ)
      (w : W)
      → IsClock clock confirmer
      → deadline ≤ clock.monotonic w + n * poll_interval
      → Ends clock cache_key deadline (poll_loop (suc n) clock confirmer cache_key deadline w)
  poll_loop-Ends zero clock confirmer cache_key deadline w c fuel =
      round_Ends zero clock confirmer cache_key deadline w
        (λ early. elim (not_both _ _ early (omega (arith, fuel))) [ ])
  poll_loop-Ends (suc n) clock confirmer cache_key deadline w c fuel =
      round_Ends (suc n) clock confirmer cache_key deadline w (λ early.
        poll_loop-Ends n clock confirmer cache_key deadline (next clock confirmer w) c
          (omega (arith, fuel, next_later clock confirmer w c)))

  -- With a clock that keeps up with the sleeps and that no confirmer sets back, and a round for
  -- each quarter of a second of the timeout and one more, `_poll_for_confirmation` returns: the
  -- key, or None once the deadline is reached.
  pub poll_for_confirmation-Ends :
      (n : ℕ) (clock : Clock W) (confirmer : Exec W String) (cache_key : String) (timeout : ℕ)
      (w : W)
      → IsClock clock confirmer
      → timeout ≤ n * poll_interval
      → Ends clock cache_key
          (clock.monotonic w + timeout)
          (poll_for_confirmation (suc n) clock confirmer cache_key timeout w)
  unfolding poll_for_confirmation
  poll_for_confirmation-Ends n clock confirmer cache_key timeout w c fuel =
      poll_loop-Ends n clock confirmer cache_key (clock.monotonic w + timeout) w c
        (omega (arith, fuel))

  -- The world at the start of the round `k`, if no earlier round ends the loop.
  unfoldable pub at_round : ℕ → Clock W → Exec W String → W → W
  at_round zero clock confirmer w = w
  at_round (suc k) clock confirmer w =
      at_round k clock confirmer (clock.sleep poll_interval (confirmer w).1)

  at_round_later :
      (k : ℕ) (clock : Clock W) (confirmer : Exec W String) (w : W)
      → IsClock clock confirmer
      → clock.monotonic w ≤ clock.monotonic (at_round k clock confirmer w)
  unfolding at_round
  at_round_later zero clock confirmer w c = omega arith
  at_round_later (suc k) clock confirmer w c = omega (
    arith,
    c.asked w,
    c.slept poll_interval (confirmer w).1,
    at_round_later k clock confirmer (clock.sleep poll_interval (confirmer w).1) c,
  )

  rounds_late :
      (k : ℕ) (clock : Clock W) (confirmer : Exec W String) (w : W)
      → IsClock clock confirmer
      → clock.monotonic w + k * poll_interval ≤ clock.monotonic (at_round k clock confirmer w)
  unfolding at_round
  rounds_late zero clock confirmer w c = omega arith
  rounds_late (suc k) clock confirmer w c = omega (
    arith,
    c.asked w,
    c.slept poll_interval (confirmer w).1,
    rounds_late k clock confirmer (clock.sleep poll_interval (confirmer w).1) c,
  )

  -- Before the deadline, an answer that is the key ends the loop, and another goes on.
  early_round :
      (n : ℕ) (clock : Clock W) (confirmer : Exec W String) (cache_key : String) (deadline : ℕ)
      (w : W)
      → clock.monotonic w < deadline
      → ((confirmer w).0 ≡ ok cache_key)
        ⊎ ((poll_loop n clock confirmer cache_key deadline (next clock confirmer w)).0
            ≡ ok (some cache_key))
      → (poll_loop (suc n) clock confirmer cache_key deadline w).0 ≡ ok (some cache_key)
  early_round n clock confirmer cache_key deadline w early (inl answer) =
      rw
        (
          poll_loop-step n clock confirmer cache_key deadline w,
          ltb_of_lt _ _ early,
          answer,
          ==_refl cache_key,
        )
        refl
  early_round n clock confirmer cache_key deadline w early (inr rest) =
      rw (poll_loop-step n clock confirmer cache_key deadline w, ltb_of_lt _ _ early)
        (elim (Bool-cases (or_blank (confirmer w).0 == cache_key)) [
          | inl same ↦ rw same (rw ((==_iff (or_blank (confirmer w).0) cache_key).0 same) refl)
          | inr other ↦ rw other rest
        ])

  shown_in_round :
      (k n : ℕ) (clock : Clock W) (confirmer : Exec W String) (cache_key : String) (deadline : ℕ)
      (w : W)
      → IsClock clock confirmer
      → k ≤ n
      → clock.monotonic (at_round k clock confirmer w) < deadline
      → (confirmer (at_round k clock confirmer w)).0 ≡ ok cache_key
      → (poll_loop (suc n) clock confirmer cache_key deadline w).0 ≡ ok (some cache_key)
  unfolding at_round next
  shown_in_round zero n clock confirmer cache_key deadline w c le early answer =
      early_round n clock confirmer cache_key deadline w early (inl answer)
  shown_in_round (suc k) zero clock confirmer cache_key deadline w c le early answer =
      elim (not_both k (suc k) (omega arith) (omega (arith, le))) [ ]
  shown_in_round (suc k) (suc n) clock confirmer cache_key deadline w c le early answer =
      early_round (suc n) clock confirmer cache_key deadline w
        (omega (arith, early, at_round_later (suc k) clock confirmer w c))
        (inr (
          shown_in_round k n clock confirmer cache_key deadline (next clock confirmer w) c
            (omega (arith, le)) early answer))

  -- With such a clock and such fuel, if in some round that starts before the deadline the
  -- confirmer would answer with the key, `_poll_for_confirmation` returns the key.
  pub poll_for_confirmation_shown :
      (k n : ℕ) (clock : Clock W) (confirmer : Exec W String) (cache_key : String) (timeout : ℕ)
      (w : W)
      → IsClock clock confirmer
      → timeout ≤ n * poll_interval
      → clock.monotonic (at_round k clock confirmer w) < clock.monotonic w + timeout
      → (confirmer (at_round k clock confirmer w)).0 ≡ ok cache_key
      → (poll_for_confirmation (suc n) clock confirmer cache_key timeout w).0 ≡ ok (some cache_key)
  unfolding poll_for_confirmation
  poll_for_confirmation_shown k n clock confirmer cache_key timeout w c fuel early answer =
      shown_in_round k n clock confirmer cache_key (clock.monotonic w + timeout) w c
        (omega (arith, fuel, early, rounds_late k clock confirmer w c)) early answer
