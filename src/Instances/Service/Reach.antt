-- ===== src/Instances/Service/Reach.antt =====
-- The states that the servicer reaches by any sequence of requests, in any world.
use mathlib.Core.Option
use vanpilot.Prelude.{ℕ, String, refl, ap, ◌∙◌, [], string_eq, Option-cases, inl, inr}
use vanpilot.Prelude.Dict.{lookup}
use vanpilot.Exec.{bind-pure, pure, ◌>>=◌}
use vanpilot.Exec.Keeps.{Keeps}
use vanpilot.Instances.Ports.{port_allocator}
use vanpilot.Instances.Store.Laws.{identity, directory, lookup-directory}
use vanpilot.Instances.Machine.{Env, M, Manager, Trace}
use vanpilot.Instances.Machine.Frame.{claims}
use vanpilot.Instances.Lifecycle.Create.{Timeouts}
use vanpilot.Instances.Store.{InstanceRecord}
use vanpilot.Instances.Background.{refresh, shutdown_all_instances}
use vanpilot.Instances.Background.Frame.{refresh-Keeps, shutdown_all_instances-Keeps}
use vanpilot.Instances.Service.{CreateRequest, create_instance, destroy_instance}
use vanpilot.Instances.Service.Claims.Creation.{new_identity, create_instance-Created}
use vanpilot.Instances.Service.Claims.Destruction.{
  destroy_instance-claims, destroy_instance_unknown,
}
use vanpilot.Instances.Service.Consistency.{
  IsConsistent, empty-IsConsistent, claim-IsConsistent, drop-IsConsistent,
}
use vanpilot.Instances.Service.Frame.{
  get_instance-Keeps, list_instances-Keeps, screenshot_instance-Keeps, restart_dhu-Keeps,
  dhu_command-Keeps, install_apk-Keeps, save_snapshot-Keeps, load_snapshot-Keeps, adb_shell-Keeps,
  adb_push-Keeps, adb_pull-Keeps,
}
use vanpilot.Instances.Service.Rpc.{Request, handle, instance_info, done}

-- The state agrees about who holds which ports.
abbrev pub Agrees : Manager → Type 0
Agrees m = IsConsistent (claims m)

module _ (env : Env) (timeouts : Timeouts) where
  create_instance-Agrees :
      (request : CreateRequest) (m : Manager)
      → Agrees m
      → Agrees (create_instance env timeouts request m).1
  create_instance-Agrees request m k = elim (create_instance-Created env timeouts request m) [
    | inl (e, raised, kept) ↦ rw kept k
    | inr (info, i, now, returned, lowest, ok_request, taken) ↦ rw taken (
        claim-IsConsistent request.name (new_identity request i now) i (claims m) k
          (lookup-directory request.name m.store ∙ ap (Option.map identity) ok_request.fresh) lowest
          refl (record { console = refl; adb = refl; aa_forward = refl }))
  ]

  destroy_instance-Agrees :
      (name : String) (m : Manager) → Agrees m → Agrees (destroy_instance env timeouts name m).1
  destroy_instance-Agrees name m k = elim (Option-cases (lookup name m.store)) [
    | inl missing ↦ rw (destroy_instance_unknown env timeouts name m missing) k
    | inr (r, found) ↦
        let there = lookup-directory name m.store ∙ ap (Option.map identity) found in
        let (i, holds, used) = k.owned name (identity r) there in
        let (_, after) = destroy_instance-claims env timeouts name i r m found holds.console used in
        rw after (drop-IsConsistent name (identity r) i (claims m) k there holds)
  ]

  -- a handler that leaves the claims alone, and its response
  reply :
      {A B : Type 0} (h : M A) (f : A → B) (m : Manager)
      → Keeps claims h
      → Agrees m
      → Agrees ((h >>= λ a. pure (f a)) m).1
  reply h f m k agrees = rw (bind-pure h f m, k.at m) agrees

  -- Every request, on a state whose ports and records agree, leaves them in agreement, however
  -- it ends and whatever the world answers.
  pub handle-Agrees :
      (request : Request) (m : Manager) → Agrees m → Agrees (handle env timeouts request m).1
  unfolding handle
  handle-Agrees (Request.create_instance r) m k =
      rw (bind-pure (create_instance env timeouts r) instance_info m) (create_instance-Agrees r m k)
  handle-Agrees (Request.destroy_instance n) m k =
      rw (bind-pure (destroy_instance env timeouts n) (λ _. done) m) (destroy_instance-Agrees n m k)
  handle-Agrees Request.list_instances m k = reply _ _ m list_instances-Keeps k
  handle-Agrees (Request.get_instance n) m k = reply _ _ m (get_instance-Keeps n) k
  handle-Agrees (Request.screenshot_instance n) m k =
      reply _ _ m (screenshot_instance-Keeps env n) k
  handle-Agrees (Request.restart_dhu n) m k = reply _ _ m (restart_dhu-Keeps env timeouts n) k
  handle-Agrees (Request.dhu_command n c b) m k = reply _ _ m (dhu_command-Keeps env n c b) k
  handle-Agrees (Request.install_apk r) m k = reply _ _ m (install_apk-Keeps env timeouts r) k
  handle-Agrees (Request.save_snapshot n s) m k = reply _ _ m (save_snapshot-Keeps env n s) k
  handle-Agrees (Request.load_snapshot n s) m k = reply _ _ m (load_snapshot-Keeps env n s) k
  handle-Agrees (Request.adb_shell n a t) m k = reply _ _ m (adb_shell-Keeps env n a t) k
  handle-Agrees (Request.adb_push n b p) m k = reply _ _ m (adb_push-Keeps env n b p) k
  handle-Agrees (Request.adb_pull n p) m k = reply _ _ m (adb_pull-Keeps env n p) k

-- A manager as `serve` makes it, on a trace of its own.
abbrev pub fresh_manager : ℕ → Trace → Manager
fresh_manager max_slots trace = record {
  store = [];
  ports = port_allocator max_slots;
  handles = [];
  trace = trace;
}

-- The states that requests reach, one after the other, with steps of the refresh loop between them
-- and a shutdown. A step of the refresh loop is about any record, so that it may be one that a
-- request has since taken out of the store.
pub data Reach (env : Env) (timeouts : Timeouts) (max_slots : ℕ) : Manager → Type 0 where
  initial : (trace : Trace) → Reach env timeouts max_slots (fresh_manager max_slots trace)
  step :
      (m : Manager) (request : Request)
      → Reach env timeouts max_slots m
      → Reach env timeouts max_slots (handle env timeouts request m).1
  refreshed :
      (m : Manager) (r : InstanceRecord)
      → Reach env timeouts max_slots m
      → Reach env timeouts max_slots (refresh env r m).1
  shut_down :
      (m : Manager)
      → Reach env timeouts max_slots m
      → Reach env timeouts max_slots (shutdown_all_instances env m).1

module _ (env : Env) (timeouts : Timeouts) (max_slots : ℕ) where
  -- After any sequence of requests on a new manager, of steps of the refresh loop for any record
  -- between them and of shutdowns, in any world, every instance holds the three ports of one
  -- used slot, no two instances those of the same slot, and every used slot is in range and held
  -- by an instance.
  pub Reach-Agrees : (m : Manager) → Reach env timeouts max_slots m → Agrees m
  unfolding directory
  Reach-Agrees _ (Reach.initial trace) = empty-IsConsistent max_slots
  Reach-Agrees _ (Reach.step m request r) = handle-Agrees env timeouts request m (Reach-Agrees m r)
  Reach-Agrees _ (Reach.refreshed m r k) = rw ((refresh-Keeps env r).at m) (Reach-Agrees m k)
  Reach-Agrees _ (Reach.shut_down m k) =
      rw ((shutdown_all_instances-Keeps env).at m) (Reach-Agrees m k)
