-- ===== src/Instances/Video/Laws.antt =====
-- Sessions: one for each instance, and gone with its frames once it is stopped.
use mathlib.Core.Path.{subst}
use vanpilot.Prelude.{
  ℕ, suc, ◌*◌, ◌≤◌, ◌≡◌, refl, String, none, some, [], ◌∷◌, arith, ==_refl, string_eq, nat_eq,
}
use vanpilot.Prelude.Int.{ℤ, pos_part}
use vanpilot.Prelude.Dict.{Dict, lookup, insert, lookup-insert, erase-insert}
use vanpilot.Exec.{ok, err, runtime_error, ◌>>=◌}
use vanpilot.Instances.Video.{CaptureSession, Studio, clamp_fps, duration_or_default, capture_loop}
use vanpilot.Instances.Video.Frames.{KeepsTime, EndsWithin, capture_loop_ends}
use vanpilot.Instances.Video.Stopping.{Stopped, stop-Stopped}
use vanpilot.Instances.Video.Sessions.{Host, new_session, start, stop}

clamp_fps_lem : (asked : ℤ) → (1 ≤ clamp_fps asked) × (clamp_fps asked ≤ 5)
unfolding clamp_fps
clamp_fps_lem asked = ground arith

insert-insert :
    {V : Type 0} (n : String) (v w : V) (d : Dict String V)
    → insert n w (insert n v d) ≡ insert n w d
unfolding insert
insert-insert n v w [] = ground (arith, ==_refl n)
insert-insert n v w ((j, u) ∷ d) = ground (arith, ==_refl n, insert-insert n v w d)

module _ {W : Type 0} (env : Studio W) where
  -- For any requested rate and duration, a screenshot function that does not set the clock back
  -- and a wait that ends by the event or lasts, the capture loop returns, and has counted at
  -- most as many frames as the rate, which start holds to one to five, times the seconds of the
  -- duration, which is thirty where it is zero.
  pub capture_loop-new_session :
      (capture_id name frame_dir pipe_path : String) (fps duration : ℤ) (now : ℕ) (w : W)
      → KeepsTime env
      → let s : CaptureSession = record (new_session env capture_id name fps duration frame_dir) {
        started_at = now;
      } in
        let limit = clamp_fps fps * pos_part (duration_or_default duration) in
        EndsWithin limit (capture_loop env (suc limit) s pipe_path w)
  unfolding new_session
  capture_loop-new_session capture_id name frame_dir pipe_path fps duration now w time =
      let (lo, hi) = clamp_fps_lem fps in capture_loop_ends env time _ pipe_path w lo hi refl

  -- `start` for an instance that has a session.
  pub start_busy :
      (name pipe_path : String) (fps duration : ℤ) (h : Host W) (s : CaptureSession)
      → lookup name h.sessions ≡ some s
      → start env name pipe_path fps duration h ≡ (err runtime_error, h)
  unfolding start ◌>>=◌
  start_busy name pipe_path fps duration h s found = rw found refl

  module _ (name pipe_path : String) (fps duration : ℤ) (h : Host W) where
    module _ (dir : String) (w : W) where
      -- the session that `start` registers, with its frames in `dir`, in the world `w`
      abbrev pub started : CaptureSession
      started = record (new_session env (env.new_id h.world).0 name fps duration dir) {
        started_at = env.clock.monotonic w;
      }

    start_ok :
        (dir : String) (w w' : W)
        → lookup name h.sessions ≡ none
        → env.mkdtemp name (env.new_id h.world).1 ≡ (ok dir, w)
        → env.start_thread (started dir w) pipe_path w ≡ (ok tt, w')
        → start env name pipe_path fps duration h ≡ (
          ok (env.new_id h.world).0,
          record { sessions = insert name (started dir w) h.sessions; world = w' },
        )
    unfolding start ◌>>=◌ new_session
    start_ok dir w w' free made threaded =
        rw (free, made, threaded, insert-insert name _ (started dir w) h.sessions) refl

module _ {W : Type 0} (env : Studio W) where
  -- Where an instance has no session, the frame directory can be made and the thread started,
  -- start returns the id of the session; and stop after it, whatever happened to the world in
  -- between, leaves the sessions as they were before, and, once the thread is joined, ends so:
  -- without a frame it removes the frame directory and returns no video; else it runs ffmpeg and
  -- reads the file, where one of the three exceptions of ffmpeg that are caught, or a missing
  -- file, counts as no bytes, removes the frame directory and returns these bytes and the count
  -- of the frames by then, or it raises every other exception and removes nothing. Each result
  -- has the id and the duration of the session.
  pub stop-start :
      (name pipe_path : String) (fps duration : ℤ) (h : Host W) (dir : String) (w w1 w2 : W)
      → lookup name h.sessions ≡ none
      → env.mkdtemp name (env.new_id h.world).1 ≡ (ok dir, w)
      → let s = started env name pipe_path fps duration h dir w in
        env.start_thread s pipe_path w ≡ (ok tt, w1)
        → let (r, after) = start env name pipe_path fps duration h in
          (r ≡ ok s.capture_id)
          × Stopped env s h.sessions w2 (stop env name (record after { world = w2 }))
  unfolding new_session
  stop-start name pipe_path fps duration h dir w w1 w2 free made threaded =
      let s = started env name pipe_path fps duration h dir w in
      let there : lookup name (insert name s h.sessions) ≡ some s =
        ground (arith, lookup-insert name name s h.sessions, ==_refl name) in
      let running : Host W = record { sessions = insert name s h.sessions; world = w2 } in
      let rest_is = erase-insert name s h.sessions free in
      rw (start_ok env name pipe_path fps duration h dir w w1 free made threaded) (
        refl,
        subst (λ rest. Stopped env s rest w2 (stop env name running)) rest_is
            (stop-Stopped env name s running there),
      )
