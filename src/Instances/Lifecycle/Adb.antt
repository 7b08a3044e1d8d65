-- ===== src/Instances/Lifecycle/Adb.antt =====
-- The adb calls of emulator_lifecycle.py: shell, push, pull, snapshots and the APK install.
pub mod Temp
use vanpilot.Prelude.{ℕ, String, [], ◌∷◌, List, ◌++◌, ltb, ◌==◌, nat_eq, if◌then◌else◌}
use vanpilot.Prelude.Int.{ℤ, pos, negsuc}
use vanpilot.Exec.{runtime_error, value_error, pure, raise, ensure, swallow_os, ◌>>=◌, ◌>>◌}
use vanpilot.Instances.Store.{Bytes, InstanceRecord}
use vanpilot.Instances.Machine.{
  Env, M, Completed, is_success, run, run_within, mkstemp, fill, read, unlink,
}
use vanpilot.Instances.Lifecycle.Paths.{serial_of}

abbrev serial : InstanceRecord → String
serial record_ = serial_of record_.emulator_console_port

-- `timeout_s or 30`, held between 1 and 300
unfoldable pub shell_timeout : ℤ → ℕ
shell_timeout (negsuc n) = 1
shell_timeout (pos n) =
    let t = if n == 0 then 30 else n in
    let low = if ltb t 300 then t else 300 in if ltb low 1 then 1 else low

-- `if result.returncode != 0: raise RuntimeError(...)`
abbrev checked : Completed → M (Unit {0})
checked c = if is_success c then pure tt else raise runtime_error

module _ (env : Env) (record_ : InstanceRecord) where
  unfoldable pub adb_shell : List String → ℤ → M Completed
  unfolding shell_timeout
  adb_shell args timeout_s =
      run_within env (shell_timeout timeout_s)
        (("adb" ∷ "-s" ∷ serial record_ ∷ "shell" ∷ []) ++ args)

  -- the `finally` clauses
  unfoldable pub with_temp : {A : Type 0} → (String → M A) → M A
  with_temp body = do tmp ← mkstemp env; ensure (body tmp) (swallow_os (unlink env tmp))

  unfoldable pub adb_push : Bytes → String → M (Unit {0})
  unfolding with_temp
  adb_push content remote_path = with_temp λ tmp. do
    fill env tmp content
    result ← run_within env 60 ("adb" ∷ "-s" ∷ serial record_ ∷ "push" ∷ tmp ∷ remote_path ∷ [])
    checked result

  unfoldable pub adb_pull : String → M Bytes
  unfolding with_temp
  adb_pull remote_path = with_temp λ tmp. do
    result ← run_within env 60 ("adb" ∷ "-s" ∷ serial record_ ∷ "pull" ∷ remote_path ∷ tmp ∷ [])
    checked result
    read env tmp

  unfoldable pub save_snapshot : String → M (Unit {0})
  save_snapshot snapshot_name = do
    result ←
        run_within env 120
          ("adb" ∷ "-s" ∷ serial record_ ∷ "emu" ∷ "avd" ∷ "snapshot" ∷ "save" ∷ snapshot_name ∷ [])
    checked result

  unfoldable pub load_snapshot : String → M (Unit {0})
  load_snapshot snapshot_name = do
    result ←
        run_within env 120
          ("adb" ∷ "-s" ∷ serial record_ ∷ "emu" ∷ "avd" ∷ "snapshot" ∷ "load" ∷ snapshot_name ∷ [])
    checked result

  unfoldable pub install_apk : Bytes → M (Unit {0})
  unfolding with_temp
  install_apk [] = raise value_error
  install_apk (b ∷ bytes) = with_temp λ tmp. do
    fill env tmp (b ∷ bytes)
    result ← run env ("adb" ∷ "-s" ∷ serial record_ ∷ "install" ∷ "-r" ∷ tmp ∷ [])
    checked result
