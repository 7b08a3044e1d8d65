-- ===== src/Instances/Lifecycle/Gpu.antt =====
-- The GPU mode of a snapshot: `_resolve_gpu_mode`, `_read_gpu_from_snapshot` and
-- `_read_gpu_from_config` of emulator_lifecycle.py. File contents are lists of bytes, and texts
-- that are taken from them stay lists.
use vanpilot.Prelude.{
  ℕ, String, Bool, Option, none, some, List, [], ◌∷◌, ◌++◌, ◌&&◌, leb, ◌==◌, nat_eq, if◌then◌else◌,
}
use vanpilot.Prelude.Text.{
  codes, concat, strip, same_codes, join_paths, file_lines, universal_newlines,
}
use vanpilot.Exec.{runtime_error, on_option, pure, raise, catch, ◌>>=◌}
use vanpilot.Instances.Store.{Bytes}
use vanpilot.Instances.Machine.{Env, M, read}
use vanpilot.Instances.Lifecycle.Wait.{is_file_not_found, or_raise}

abbrev pub is_printable : ℕ → Bool
is_printable b = leb 32 b && leb b 126

-- `if len(current) >= 2: strings.append(...)`
unfoldable pub flush : Bytes → List Bytes → List Bytes
flush (a ∷ b ∷ run_) strings = strings ++ (a ∷ b ∷ run_) ∷ []
flush _ strings = strings

-- the loop over the bytes, with `current` and `strings`
unfoldable pub scan_runs : Bytes → Bytes → List Bytes → List Bytes
unfolding flush
scan_runs [] current strings = flush current strings
scan_runs (b ∷ bytes) current strings =
    scan_runs bytes (if is_printable b then current ++ b ∷ [] else [])
      (if is_printable b then strings else flush current strings)

-- The printable runs of two bytes or more, in order.
unfoldable pub printable_runs : Bytes → List Bytes
unfolding scan_runs
printable_runs bytes = scan_runs bytes [] []

-- the string after the first "-gpu" that has one after it
unfoldable pub gpu_flag : List Bytes → Option Bytes
gpu_flag [] = none
gpu_flag (s ∷ []) = none
gpu_flag (s ∷ t ∷ strings) = if same_codes s (codes "-gpu") then some t else gpu_flag (t ∷ strings)

-- `line.partition("=")`: what stands before and after the first "="
unfoldable pub partition_eq : Bytes → Bytes × Bytes
partition_eq [] = ([], [])
partition_eq (b ∷ line) =
    let (key, value) = partition_eq line in if b == b'=' then ([], line) else (b ∷ key, value)

-- the loop over the lines of config.ini
unfoldable pub gpu_line : List Bytes → Option Bytes
unfolding partition_eq
gpu_line [] = none
gpu_line (line ∷ lines) =
    let (key, value) = partition_eq line in
    let rest = gpu_line lines in
    if same_codes (strip key) (codes "hw.gpu.mode") then some (strip value) else rest

-- bytes that are neither `None` nor empty
unfoldable pub filled_bytes : Option Bytes → Option Bytes
filled_bytes (some (b ∷ bytes)) = some (b ∷ bytes)
filled_bytes _ = none

-- a file that may be missing: `except FileNotFoundError`
abbrev if_missing : {A : Type 0} → M A → M A → M A
if_missing m h = catch m (λ e. if is_file_not_found e then h else raise e)

module _ (env : Env) where
  -- `_read_gpu_from_snapshot`
  unfoldable pub read_gpu_from_snapshot : String → String → M (Option Bytes)
  unfolding printable_runs gpu_flag
  read_gpu_from_snapshot avd_name snapshot_name =
      let path =
        join_paths env.avd_home
          (concat (avd_name ∷ ".avd" ∷ []) ∷ "snapshots" ∷ snapshot_name ∷ "snapshot.pb" ∷ []) in
      if_missing (do content ← read env path; pure (gpu_flag (printable_runs content))) (pure none)

  -- `_read_gpu_from_config`
  unfoldable pub read_gpu_from_config : String → M Bytes
  unfolding gpu_line
  read_gpu_from_config avd_name =
      let path = join_paths env.avd_home (concat (avd_name ∷ ".avd" ∷ []) ∷ "config.ini" ∷ []) in
      if_missing
        (do
          content ← read env path
          or_raise runtime_error (gpu_line (file_lines (universal_newlines content))))
        (raise runtime_error)

  -- `_resolve_gpu_mode`: an empty flag counts as none
  unfoldable pub resolve_gpu_mode : String → String → M Bytes
  unfolding filled_bytes read_gpu_from_snapshot read_gpu_from_config
  resolve_gpu_mode avd_name snapshot_name = do
    gpu ← read_gpu_from_snapshot avd_name snapshot_name
    on_option (filled_bytes gpu) (read_gpu_from_config avd_name) (λ mode. pure mode)
