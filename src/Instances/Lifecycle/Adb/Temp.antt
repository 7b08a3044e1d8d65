-- ===== src/Instances/Lifecycle/Adb/Temp.antt =====
-- The temporary files of push, pull and install are removed on every path.
use vanpilot.Prelude.{String, ◌≡◌, refl, [], ◌∷◌, ◌≢◌, arith}
use vanpilot.Exec.{ok, ensure, swallow_os, ◌>>=◌}
use vanpilot.Instances.Store.{Bytes, InstanceRecord}
use vanpilot.Instances.Machine.{Env, M, Manager, Trace, unlinked, unlink, mkstemp}
use vanpilot.Instances.Lifecycle.Adb.{with_temp, adb_push, adb_pull, install_apk}

-- The last thing that was done is the removal of `path`.
abbrev pub EndsBy : String → Manager → Type 0
EndsBy path m = (before : Trace) × (m.trace ≡ unlinked path ∷ before)

module _ (env : Env) (tmp : String) where
  swallow_unlink-EndsBy : (m : Manager) → EndsBy tmp (swallow_os (unlink env tmp) m).1
  unfolding unlink ◌>>=◌
  swallow_unlink-EndsBy m = (m.trace, ground arith)

  ensure-EndsBy :
      {A : Type 0} (body : M A) (m : Manager)
      → EndsBy tmp (ensure body (swallow_os (unlink env tmp)) m).1
  unfolding unlink ◌>>=◌
  ensure-EndsBy body m = ((body m).1.trace, ground arith)

module _ (env : Env) (record_ : InstanceRecord) (m : Manager) {tmp : String}
    (made : env.mkstemp m.trace ≡ ok tmp) where
  with_temp-EndsBy :
      {A : Type 0} (body : String → M A) → EndsBy tmp (with_temp env record_ body m).1
  unfolding with_temp mkstemp ◌>>=◌
  with_temp-EndsBy body = rw made (ensure-EndsBy env tmp (body tmp) _)

  -- Once the temporary file of `adb_push` is made, the last thing that the call does is to
  -- remove it, whatever adb, the file and the removal answer.
  pub adb_push-EndsBy :
      (content : Bytes) (remote_path : String)
      → EndsBy tmp (adb_push env record_ content remote_path m).1
  unfolding adb_push
  adb_push-EndsBy content remote_path = with_temp-EndsBy _

  -- Once the temporary file of `adb_pull` is made, the last thing that the call does is to
  -- remove it, also where adb fails or the pulled file cannot be read.
  pub adb_pull-EndsBy : (remote_path : String) → EndsBy tmp (adb_pull env record_ remote_path m).1
  unfolding adb_pull
  adb_pull-EndsBy remote_path = with_temp-EndsBy _

  -- Once the temporary file of `install_apk` is made for an APK that is not empty, the last
  -- thing that the call does is to remove it.
  pub install_apk-EndsBy : (apk : Bytes) → apk ≢ [] → EndsBy tmp (install_apk env record_ apk m).1
  unfolding install_apk
  install_apk-EndsBy [] h = absurd (h refl)
  install_apk-EndsBy (b ∷ apk) h = with_temp-EndsBy _
