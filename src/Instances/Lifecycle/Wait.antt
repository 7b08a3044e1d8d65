-- ===== src/Instances/Lifecycle/Wait.antt =====
-- The polling methods: boot, head unit and screenshots. A loop that sleeps `step` ms a round and
-- ends after `timeout` ms takes at most `timeout / step + 1` rounds; `rounds` gives it one more.
pub mod Ends
use vanpilot.Prelude.{
  ℕ, ◌+◌, ◌/◌, String, Bool, true, false, is_some, Option, none, some, [], ◌∷◌, ltb, if◌then◌else◌,
}
use vanpilot.Prelude.Text.{codes, concat, is_blank, strip, lower, has_part, same_codes}
use vanpilot.Exec.{
  Exn, runtime_error, timeout_error, file_not_found, on_option, pure, raise, catch, ◌>>=◌, ◌>>◌,
}
use vanpilot.Instances.Store.{Bytes, InstanceRecord}
use vanpilot.Instances.Machine.{Env, M, is_success, run, pipe_write, read, size, sleep, deadline_in}
use vanpilot.Instances.Machine.Loop.{poll_until}
use vanpilot.Instances.Lifecycle.Paths.{dhu_screenshot_path, emu_screenshot_path}

abbrev pub rounds : ℕ → ℕ → ℕ
rounds timeout step = timeout / step + 2

-- `_DEFAULT_SCREENSHOT_TIMEOUT`
abbrev pub screenshot_timeout : ℕ
screenshot_timeout = 5000

abbrev pub or_raise : {A : Type 0} → Exn → Option A → M A
or_raise e o = on_option o (raise e) (λ a. pure a)

abbrev pub is_file_not_found : Exn → Bool
is_file_not_found file_not_found = true
is_file_not_found _ = false

-- `"verify returned" in f.read().lower()`
abbrev shows_handshake : Option Bytes → Bool
shows_handshake none = false
shows_handshake (some content) = has_part (lower content) (codes "verify returned")

abbrev is_positive : Option ℕ → Bool
is_positive none = false
is_positive (some n) = ltb 0 n

abbrev pub or_empty : Option Bytes → Bytes
or_empty none = []
or_empty (some b) = b

-- a path that is neither `None` nor empty
abbrev pub filled_path : Option String → Option String
filled_path none = none
filled_path (some path) = if is_blank path then none else some path

module _ (env : Env) where
  -- `_wait_for_boot`
  boot_round : String → M (Option (Unit {0}))
  boot_round serial = do
    result ← run env ("adb" ∷ "-s" ∷ serial ∷ "shell" ∷ "getprop" ∷ "sys.boot_completed" ∷ [])
    if same_codes (strip (codes result.stdout)) (codes "1")
        then pure (some tt)
        else (do sleep env 1000; pure none)

  unfoldable pub wait_for_boot : ℕ → String → M (Unit {0})
  unfolding boot_round
  wait_for_boot timeout serial = do
    deadline ← deadline_in env timeout
    booted ← poll_until env (rounds timeout 1000) deadline (boot_round serial)
    or_raise timeout_error booted

  -- `_check_snapshot_sentinel`
  unfoldable pub check_snapshot_sentinel : String → M (Unit {0})
  check_snapshot_sentinel serial = do
    result ← run env (
        "adb" ∷ "-s" ∷ serial ∷ "shell" ∷ "ls" ∷ "/data/local/tmp/.vanpilot_snapshot_sentinel" ∷ [])
    if is_success result then pure tt else raise runtime_error

  -- `_wait_for_dhu`: a log that is not there yet is polled again
  read_if_there : String → M (Option Bytes)
  read_if_there path =
      catch (do content ← read env path; pure (some content))
        (λ e. if is_file_not_found e then pure none else raise e)

  dhu_round : String → M (Option (Unit {0}))
  unfolding read_if_there
  dhu_round log_path = do
    content ← read_if_there log_path
    if shows_handshake content then pure (some tt) else (do sleep env 500; pure none)

  unfoldable pub wait_for_dhu : ℕ → String → M (Unit {0})
  unfolding dhu_round
  wait_for_dhu timeout log_path = do
    deadline ← deadline_in env timeout
    connected ← poll_until env (rounds timeout 500) deadline (dhu_round log_path)
    or_raise timeout_error connected

  -- a file that is there and not empty is read
  take_file : String → M (Option Bytes)
  take_file path = do
    bytes ← size env path
    if is_positive bytes then (do png ← read env path; pure (some png)) else pure none

  take_or_sleep : ℕ → String → M (Option Bytes)
  unfolding take_file
  take_or_sleep ms path = do
    png ← take_file path
    if is_some png then pure png else (do sleep env ms; pure none)

  -- `screenshot_to_bytes`
  unfoldable pub screenshot_to_bytes : String → String → M Bytes
  unfolding take_or_sleep
  screenshot_to_bytes name pipe_path = do
    let path = dhu_screenshot_path name
    run env ("rm" ∷ "-f" ∷ path ∷ [])
    pipe_write env pipe_path (concat ("screenshot " ∷ path ∷ []))
    deadline ← deadline_in env screenshot_timeout
    png ← poll_until env (rounds screenshot_timeout 200) deadline (take_or_sleep 200 path)
    or_raise timeout_error png

  -- `screenshot`
  unfoldable pub screenshot : InstanceRecord → M Bytes
  unfolding screenshot_to_bytes
  screenshot record_ =
      on_option (filled_path record_.pipe_path) (raise runtime_error)
        (λ pipe_path. screenshot_to_bytes record_.name pipe_path)

  -- `emulator_screenshot_to_bytes`: no picture in time is an empty one
  unfoldable pub emulator_screenshot_to_bytes : String → M Bytes
  unfolding take_or_sleep
  emulator_screenshot_to_bytes serial = do
    let path = emu_screenshot_path serial
    run env ("rm" ∷ "-f" ∷ path ∷ [])
    run env
        ("bash" ∷ "-c" ∷ concat ("adb -s " ∷ serial ∷ " exec-out screencap -p > " ∷ path ∷ []) ∷ [])
    deadline ← deadline_in env screenshot_timeout
    png ← poll_until env (rounds screenshot_timeout 200) deadline (take_or_sleep 200 path)
    pure (or_empty png)

  -- `_wait_for_dhu_screenshot`, with its default timeout and interval
  focus_round : String → String → M (Option Bytes)
  unfolding take_file
  focus_round pipe_path path = do
    run env ("rm" ∷ "-f" ∷ path ∷ [])
    pipe_write env pipe_path (concat ("screenshot " ∷ path ∷ []))
    sleep env 2000
    take_file path

  unfoldable pub wait_for_dhu_screenshot : String → String → M Bytes
  unfolding focus_round
  wait_for_dhu_screenshot name pipe_path = do
    deadline ← deadline_in env 90000
    let path = dhu_screenshot_path name
    png ← poll_until env (rounds 90000 2000) deadline (focus_round pipe_path path)
    or_raise timeout_error png
