-- ===== src/Instances/Service/Rpc.antt =====
-- `_InstanceManagerGenericHandler` of instance_manager_service.py: the RPCs by name.
use vanpilot.Prelude.{String, Bool, List}
use vanpilot.Prelude.Int.{ℤ}
use vanpilot.Exec.{pure, ◌>>=◌, ◌>>◌}
use vanpilot.Instances.Store.{Bytes}
use vanpilot.Instances.Machine.{Env, M, Completed}
use vanpilot.Instances.Lifecycle.Create.{Timeouts}
use vanpilot.Instances.Service
use vanpilot.Instances.Service.{InstanceInfo, CreateRequest}
use vanpilot.Instances.Service.Device
use vanpilot.Instances.Service.Device.{Screenshots, CommandReply, InstallRequest}

-- A request of each method, without the two of the video capture.
pub data Request : Type 0 where
  create_instance : CreateRequest → Request
  destroy_instance get_instance screenshot_instance restart_dhu : String → Request
  list_instances : Request
  dhu_command : String → String → Bool → Request
  install_apk : InstallRequest → Request
  save_snapshot load_snapshot : String → String → Request
  adb_shell : String → List String → ℤ → Request
  adb_push : String → Bytes → String → Request
  adb_pull : String → String → Request

pub data Response : Type 0 where
  instance_info : InstanceInfo → Response
  instances : List InstanceInfo → Response
  done : Response
  screenshots : Screenshots → Response
  command_reply : CommandReply → Response
  completed : Completed → Response
  content : Bytes → Response

module _ (env : Env) (timeouts : Timeouts) where
  unfoldable pub handle : Request → M Response
  handle (Request.create_instance r) = do
    i ← Service.create_instance env timeouts r
    pure (instance_info i)
  handle (Request.destroy_instance n) = do Service.destroy_instance env timeouts n; pure done
  handle Request.list_instances = do l ← Service.list_instances; pure (instances l)
  handle (Request.get_instance n) = do i ← Service.get_instance n; pure (instance_info i)
  handle (Request.screenshot_instance n) = do
    s ← Device.screenshot_instance env n
    pure (screenshots s)
  handle (Request.restart_dhu n) = do i ← Device.restart_dhu env timeouts n; pure (instance_info i)
  handle (Request.dhu_command n c b) = do r ← Device.dhu_command env n c b; pure (command_reply r)
  handle (Request.install_apk r) = do i ← Device.install_apk env timeouts r; pure (instance_info i)
  handle (Request.save_snapshot n s) = do i ← Device.save_snapshot env n s; pure (instance_info i)
  handle (Request.load_snapshot n s) = do i ← Device.load_snapshot env n s; pure (instance_info i)
  handle (Request.adb_shell n args t) = do c ← Device.adb_shell env n args t; pure (completed c)
  handle (Request.adb_push n b p) = do Device.adb_push env n b p; pure done
  handle (Request.adb_pull n p) = do b ← Device.adb_pull env n p; pure (content b)
