-- ===== src/Instances/Video/Rpc.antt =====
-- `StartVideoCapture` and `StopVideoCapture` of instance_manager_service.py. They read the store
-- and write to the sessions only.
use vanpilot.Prelude.{String, true, not, some, ◌≡◌, refl, string_eq}
use vanpilot.Prelude.Int.{ℤ}
use vanpilot.Prelude.Dict.{lookup}
use vanpilot.Exec.{
  Exec, Exn, Status, runtime_error, aborted, not_found, failed_precondition, already_exists,
  internal, pure, raise, catch, when, on_option, err, ◌>>=◌, ◌>>◌, handler,
}
use vanpilot.Instances.Store.{Store, InstanceRecord, is_running}
use vanpilot.Instances.Lifecycle.Wait.{filled_path}
use vanpilot.Instances.Video.{CaptureSession, CaptureResult, Studio}
use vanpilot.Instances.Video.Sessions.{Host, start, stop}
use vanpilot.Instances.Video.Laws.{start_busy}

pub record CaptureRequest : Type 0 where
  pub name : String
  pub target_fps : ℤ
  pub max_duration_s : ℤ

-- `except RuntimeError` and `except Exception` of `StartVideoCapture`
abbrev pub refused : Exn → Status
refused runtime_error = already_exists
refused _ = internal

module _ {W : Type 0} (env : Studio W) (store : Store) where
  abbrev record_of : String → Exec (Host W) InstanceRecord
  record_of name = on_option (lookup name store) (raise (aborted not_found)) (λ r. pure r)

  unfoldable pub start_video_capture : CaptureRequest → Exec (Host W) String
  start_video_capture request = do
    r ← record_of request.name
    when (not (is_running r.state)) (raise (aborted failed_precondition))
    pipe_path ←
        on_option (filled_path r.pipe_path) (raise (aborted failed_precondition)) (λ p. pure p)
    catch (start env request.name pipe_path request.target_fps request.max_duration_s)
        (λ e. raise (aborted (refused e)))

  unfoldable pub stop_video_capture : String → Exec (Host W) CaptureResult
  stop_video_capture name = do
    record_of name
    result ← stop env name
    on_option result (raise (aborted not_found)) (λ c. pure c)

  -- `StartVideoCapture` for a running instance that has a session ends by ALREADY_EXISTS and changes
  -- nothing.
  pub start_video_capture_busy :
      (request : CaptureRequest) (h : Host W) (r : InstanceRecord) (s : CaptureSession)
      (pipe_path : String)
      → lookup request.name store ≡ some r
      → is_running r.state ≡ true
      → filled_path r.pipe_path ≡ some pipe_path
      → lookup request.name h.sessions ≡ some s
      → start_video_capture request h ≡ (err (aborted already_exists), h)
  unfolding start_video_capture ◌>>=◌ catch on_option
  start_video_capture_busy request h r s pipe_path found running piped busy =
      rw
        (
          found,
          running,
          piped,
          start_busy env request.name pipe_path request.target_fps request.max_duration_s h s busy,
          handler,
        )
        refl
