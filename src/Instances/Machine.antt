-- ===== src/Instances/Machine.antt =====
-- The state of the instance manager's process and the world around it. The processes, files and
-- clocks that the program uses are not its own code: an `Env` answers each call, by any function
-- of what was done before it, and each call is written to the trace, the latest first.
-- `SubprocessRunner` of instance_manager/src/emulator_lifecycle.py is such an interface in the
-- source; `os`, `tempfile` and `time` are read the same way. Times are whole milliseconds.
pub mod Loop
pub mod Frame
pub mod Clock
use vanpilot.Prelude.{
  ℕ, ◌+◌, ◌==◌, nat_eq, String, Bool, false, Option, none, List, [], ◌∷◌, if◌then◌else◌,
}
use vanpilot.Prelude.Int.{ℤ, pos, negsuc}
use vanpilot.Prelude.Dict.{Dict}
use vanpilot.Exec.{
  Exec, Result, ok, err, pure, raise, gets, modify, called_process_error, ◌>>=◌, ◌>>◌,
}
use vanpilot.Instances.Ports.{PortAllocator}
use vanpilot.Instances.Store
use vanpilot.Instances.Store.{Store, Bytes, Assign, InstanceRecord}

-- A `subprocess.Popen`: its pid stands for the object.
abbrev pub Proc : Type 0
Proc = ℕ

pub data Signal : Type 0 where
  sigterm sigkill : Signal

-- What the program does to the world.
pub data Effect : Type 0 where
  ran : List String → Effect
  ran_within : ℕ → List String → Effect
  spawned : List String → Effect
  wrote_pipe : String → String → Effect
  polled terminated killed : Proc → Effect
  waited : Proc → ℕ → Effect
  looked_up_group : Proc → Effect
  signalled_group : ℕ → Signal → Effect
  opened : String → Effect
  measured : String → Effect
  read_file : String → Effect
  appended : String → String → Effect
  made_temp : Effect
  filled : String → Bytes → Effect
  unlinked : String → Effect
  slept : ℕ → Effect
  asked_time : Effect

abbrev pub Trace : Type 0
Trace = List Effect

-- `subprocess.CompletedProcess`
pub record Completed : Type 0 where
  pub returncode : ℤ
  pub stdout : String
  pub stderr : String

-- `result.returncode == 0`
abbrev pub is_success : Completed → Bool
is_success c = elim c.returncode [ pos n ↦ n == 0 | negsuc n ↦ false ]

-- The answers of the world to each call, given all that was done before it.
pub record Env : Type 0 where
  pub run : Trace → List String → Result Completed
  pub run_within : Trace → ℕ → List String → Result Completed
  pub popen : Trace → List String → Result Proc
  pub pipe_write : Trace → String → String → Result (Unit {0})
  pub is_alive : Trace → Proc → Bool
  pub terminate : Trace → Proc → Result (Unit {0})
  pub kill : Trace → Proc → Result (Unit {0})
  pub wait : Trace → Proc → ℕ → Result (Unit {0})
  pub getpgid : Trace → Proc → Result ℕ
  pub killpg : Trace → ℕ → Signal → Result (Unit {0})
  pub open_file : Trace → String → Result (Unit {0})
  pub size : Trace → String → Option ℕ
  pub read : Trace → String → Result Bytes
  pub append : Trace → String → String → Result (Unit {0})
  pub mkstemp : Trace → Result String
  pub fill : Trace → String → Bytes → Result (Unit {0})
  pub unlink : Trace → String → Result (Unit {0})
  pub time_ms : Trace → ℕ
  -- `os.environ.get("ANDROID_HOME", "")` and the folder of the virtual devices, from
  -- ANDROID_AVD_HOME or the user's home
  pub android_home : String
  pub avd_home : String

-- `_ProcessHandles`
pub record Handles : Type 0 where
  pub emulator : Option Proc
  pub dhu : Option Proc
  pub keeper : Option Proc
  pub socat : Option Proc

abbrev pub no_handles : Handles
no_handles = record { emulator = none; dhu = none; keeper = none; socat = none }

-- The objects of `InstanceStore`, `PortAllocator` and `EmulatorLifecycle`, and the trace.
pub record Manager : Type 0 where
  pub store : Store
  pub ports : PortAllocator
  pub handles : Dict String Handles
  pub trace : Trace

abbrev pub M : Type 0 → Type 0
M A = Exec Manager A

-- one call to the world: the answer, and its mark on the trace
abbrev pub ask : {A : Type 0} → Effect → (Trace → Result A) → M A
ask e answer m = (answer m.trace, record m { trace = e ∷ m.trace })

-- an operation of the store, of the ports
unfoldable pub on_store : {A : Type 0} → Exec Store A → M A
on_store f m = let (r, s) = f m.store in (r, record m { store = s })

unfoldable pub on_ports : {A : Type 0} → Exec PortAllocator A → M A
on_ports f m = let (r, p) = f m.ports in (r, record m { ports = p })

-- `self._store.update(name, ...)` and `self._store.get(name)`
unfoldable pub update : String → List Assign → M (Unit {0})
unfolding on_store
update name assigns = on_store (Store.update name assigns)

unfoldable pub get : String → M (Option InstanceRecord)
get name = gets (λ m. Store.get name m.store)

unfoldable pub set_handles : (Dict String Handles → Dict String Handles) → M (Unit {0})
set_handles f = modify (λ m. record m { handles = f m.handles })

module _ (env : Env) where
  unfoldable pub run : List String → M Completed
  run args = ask (ran args) (λ t. env.run t args)

  -- `run(..., timeout=...)`, in seconds
  unfoldable pub run_within : ℕ → List String → M Completed
  run_within seconds args = ask (ran_within seconds args) (λ t. env.run_within t seconds args)

  unfoldable pub popen : List String → M Proc
  popen args = ask (spawned args) (λ t. env.popen t args)

  unfoldable pub pipe_write : String → String → M (Unit {0})
  pipe_write path text = ask (wrote_pipe path text) (λ t. env.pipe_write t path text)

  -- `proc.poll() is None`
  unfoldable pub is_alive : Proc → M Bool
  is_alive p = ask (polled p) (λ t. ok (env.is_alive t p))

  unfoldable pub terminate : Proc → M (Unit {0})
  terminate p = ask (terminated p) (λ t. env.terminate t p)

  unfoldable pub kill : Proc → M (Unit {0})
  kill p = ask (killed p) (λ t. env.kill t p)

  -- `proc.wait(timeout=...)`
  unfoldable pub wait : Proc → ℕ → M (Unit {0})
  wait p ms = ask (waited p ms) (λ t. env.wait t p ms)

  unfoldable pub getpgid : Proc → M ℕ
  getpgid p = ask (looked_up_group p) (λ t. env.getpgid t p)

  unfoldable pub killpg : ℕ → Signal → M (Unit {0})
  killpg g s = ask (signalled_group g s) (λ t. env.killpg t g s)

  unfoldable pub open_file : String → M (Unit {0})
  open_file path = ask (opened path) (λ t. env.open_file t path)

  -- `os.path.exists` and `os.path.getsize`, asked one after the other
  unfoldable pub size : String → M (Option ℕ)
  size path = ask (measured path) (λ t. ok (env.size t path))

  unfoldable pub read : String → M Bytes
  read path = ask (read_file path) (λ t. env.read t path)

  unfoldable pub append : String → String → M (Unit {0})
  append path text = ask (appended path text) (λ t. env.append t path text)

  unfoldable pub mkstemp : M String
  mkstemp = ask made_temp env.mkstemp

  unfoldable pub fill : String → Bytes → M (Unit {0})
  fill path content = ask (filled path content) (λ t. env.fill t path content)

  unfoldable pub unlink : String → M (Unit {0})
  unlink path = ask (unlinked path) (λ t. env.unlink t path)

  unfoldable pub sleep : ℕ → M (Unit {0})
  sleep ms = ask (slept ms) (λ _. ok tt)

  -- `int(time.time() * 1000)`
  unfoldable pub time_ms : M ℕ
  time_ms = ask asked_time (λ t. ok (env.time_ms t))

  -- `run(..., check=True)`
  unfoldable pub run_checked : List String → M (Unit {0})
  unfolding run
  run_checked args = do c ← run args; if is_success c then pure tt else raise called_process_error

  -- the clock plus a timeout
  unfoldable pub deadline_in : ℕ → M ℕ
  unfolding time_ms
  deadline_in ms = do now ← time_ms; pure (now + ms)
