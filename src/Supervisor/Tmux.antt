-- ===== src/Supervisor/Tmux.antt =====
-- supervisor/src/tmux_launcher.py: the commands of tmux, and what a session that refuses its keys
-- does to an injection. `subprocess.run` is an argument, of which the return code is used.
use vanpilot.Prelude.{ℕ, String, Bool, false, ◌≡◌, refl, List, [], ◌∷◌, ◌==◌, nat_eq, if◌then◌else◌}
use vanpilot.Prelude.Int.{ℤ, pos, negsuc}
use vanpilot.Exec.{Exec, ok, err, runtime_error, pure, raise, ◌>>=◌}
use vanpilot.Supervisor.Injector.{Machine, Injector, State, inject, after_keys}

-- `result.returncode == 0`
unfoldable pub is_zero : ℤ → Bool
is_zero (pos n) = n == 0
is_zero (negsuc n) = false

module _ {W : Type 0} (run : List String → Exec W ℤ) where
  abbrev checked : {A : Type 0} → A → ℤ → Exec W A
  checked a code = if is_zero code then pure a else raise runtime_error

  unfoldable pub start_session : String → Exec W String
  unfolding ◌>>=◌ is_zero
  start_session session_name =
      run ("tmux" ∷ "new-session" ∷ "-d" ∷ "-s" ∷ session_name ∷ []) >>= checked session_name

  unfoldable pub session_exists : String → Exec W Bool
  unfolding ◌>>=◌ is_zero
  session_exists session_name =
      run ("tmux" ∷ "has-session" ∷ "-t" ∷ session_name ∷ []) >>= λ code. pure (is_zero code)

  unfoldable pub send_keys : String → String → Exec W (Unit {0})
  unfolding ◌>>=◌ is_zero
  send_keys session_name text =
      run ("tmux" ∷ "send-keys" ∷ "-t" ∷ session_name ∷ text ∷ "Enter" ∷ []) >>= checked tt

  unfoldable pub kill_session : String → Exec W (Unit {0})
  unfolding ◌>>=◌ is_zero
  kill_session session_name =
      run ("tmux" ∷ "kill-session" ∷ "-t" ∷ session_name ∷ []) >>= checked tt

  -- An injection whose session does not exist, or refuses the keys, raises RuntimeError and adds no
  -- event.
  inject_refused :
      (fuel : ℕ) (m : Machine W) (j : Injector) (session_name text agent_id : String) (s : State W)
      (code : ℤ) (w : W)
      → run ("tmux" ∷ "send-keys" ∷ "-t" ∷ session_name ∷ text ∷ "Enter" ∷ []) s.world
        ≡ (ok code, w)
      → is_zero code ≡ false
      → inject fuel (record m { send_keys = send_keys }) j session_name text agent_id s
        ≡ (err runtime_error, record s { world = w })
  unfolding inject send_keys ◌>>=◌ raise
  inject_refused fuel m j session_name text agent_id s code w ran refused =
      rw (ran, refused, after_keys) refl
