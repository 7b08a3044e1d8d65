-- ===== src/Instances/Lifecycle/Paths.antt =====
-- The names of files, pipes and devices that the f-strings of the lifecycle build.
use vanpilot.Prelude.{ℕ, String, [], ◌∷◌}
use vanpilot.Prelude.Text.{concat, str}

unfoldable pub serial_of : ℕ → String
serial_of console = concat ("emulator-" ∷ str console ∷ [])

unfoldable pub pipe_path_of : String → String
pipe_path_of name = concat ("/tmp/dhu_" ∷ name ∷ "_pipe" ∷ [])

unfoldable pub log_path_of : String → String
log_path_of name = concat ("/tmp/dhu_" ∷ name ∷ ".log" ∷ [])

-- `emu_log_path` of log_collector.py
unfoldable pub emu_log_path : String → String
emu_log_path name = concat ("/tmp/emu_" ∷ name ∷ ".log" ∷ [])

unfoldable pub dhu_screenshot_path : String → String
dhu_screenshot_path name = concat ("/tmp/dhu_" ∷ name ∷ "_screenshot.png" ∷ [])

unfoldable pub emu_screenshot_path : String → String
emu_screenshot_path serial = concat ("/tmp/emu_" ∷ serial ∷ "_screenshot.png" ∷ [])
