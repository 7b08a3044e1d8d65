-- ===== src/Instances/Machine/Frame.antt =====
-- What the calls to the world leave alone: the ports, and who is in the store with which identity.
use vanpilot.Prelude.{ℕ, String, true, ◌≡◌, refl, ap, List}
use vanpilot.Prelude.Dict.{Dict}
use vanpilot.Exec.Keeps.{Keeps, Keeps-modify, Keeps-gets, keeps_rules}
use vanpilot.Instances.Ports.{PortAllocator}
use vanpilot.Instances.Store.{Bytes, Assign}
use vanpilot.Instances.Store.Laws.{Identity, directory, keep_identity, directory-update}
use vanpilot.Instances.Machine.{
  Env, Manager, Handles, Proc, Signal, run, run_within, popen, pipe_write, is_alive, terminate,
  kill, wait, getpgid, killpg, open_file, size, read, append, mkstemp, fill, unlink, sleep, time_ms,
  update, get, set_handles, run_checked, deadline_in,
}

-- The claims on ports: the allocator and the directory.
abbrev pub claims : Manager → PortAllocator × Dict String Identity
claims m = (m.ports, directory m.store)

pub update-Keeps :
    (name : String) (assigns : List Assign)
    → keep_identity assigns ≡ true
    → Keeps claims (update name assigns)
unfolding update
update-Keeps name assigns keeps = record {
  at = λ m. ap (λ d. (m.ports, d)) (directory-update name assigns m.store keeps);
}

pub get-Keeps : (name : String) → Keeps claims (get name)
unfolding get
get-Keeps name = Keeps-gets _

pub set_handles-Keeps :
    (f : Dict String Handles → Dict String Handles) → Keeps claims (set_handles f)
unfolding set_handles
set_handles-Keeps f = Keeps-modify _ (λ m. refl)

module _ (env : Env) where
  pub run-Keeps : (args : List String) → Keeps claims (run env args)
  unfolding run
  run-Keeps args = record { at = λ m. refl }

  pub run_within-Keeps : (s : ℕ) (args : List String) → Keeps claims (run_within env s args)
  unfolding run_within
  run_within-Keeps s args = record { at = λ m. refl }

  pub popen-Keeps : (args : List String) → Keeps claims (popen env args)
  unfolding popen
  popen-Keeps args = record { at = λ m. refl }

  pub pipe_write-Keeps : (path text : String) → Keeps claims (pipe_write env path text)
  unfolding pipe_write
  pipe_write-Keeps path text = record { at = λ m. refl }

  pub is_alive-Keeps : (p : Proc) → Keeps claims (is_alive env p)
  unfolding is_alive
  is_alive-Keeps p = record { at = λ m. refl }

  pub terminate-Keeps : (p : Proc) → Keeps claims (terminate env p)
  unfolding terminate
  terminate-Keeps p = record { at = λ m. refl }

  pub kill-Keeps : (p : Proc) → Keeps claims (kill env p)
  unfolding kill
  kill-Keeps p = record { at = λ m. refl }

  pub wait-Keeps : (p ms : ℕ) → Keeps claims (wait env p ms)
  unfolding wait
  wait-Keeps p ms = record { at = λ m. refl }

  pub getpgid-Keeps : (p : Proc) → Keeps claims (getpgid env p)
  unfolding getpgid
  getpgid-Keeps p = record { at = λ m. refl }

  pub killpg-Keeps : (g : ℕ) (s : Signal) → Keeps claims (killpg env g s)
  unfolding killpg
  killpg-Keeps g s = record { at = λ m. refl }

  pub open_file-Keeps : (path : String) → Keeps claims (open_file env path)
  unfolding open_file
  open_file-Keeps path = record { at = λ m. refl }

  pub size-Keeps : (path : String) → Keeps claims (size env path)
  unfolding size
  size-Keeps path = record { at = λ m. refl }

  pub read-Keeps : (path : String) → Keeps claims (read env path)
  unfolding read
  read-Keeps path = record { at = λ m. refl }

  pub append-Keeps : (path text : String) → Keeps claims (append env path text)
  unfolding append
  append-Keeps path text = record { at = λ m. refl }

  pub mkstemp-Keeps : Keeps claims (mkstemp env)
  unfolding mkstemp
  mkstemp-Keeps = record { at = λ m. refl }

  pub fill-Keeps : (path : String) (content : Bytes) → Keeps claims (fill env path content)
  unfolding fill
  fill-Keeps path content = record { at = λ m. refl }

  pub unlink-Keeps : (path : String) → Keeps claims (unlink env path)
  unfolding unlink
  unlink-Keeps path = record { at = λ m. refl }

  pub sleep-Keeps : (ms : ℕ) → Keeps claims (sleep env ms)
  unfolding sleep
  sleep-Keeps ms = record { at = λ m. refl }

  pub time_ms-Keeps : Keeps claims (time_ms env)
  unfolding time_ms
  time_ms-Keeps = record { at = λ m. refl }

pub ruleset frame_rules = (
  keeps_rules, refl, update-Keeps, get-Keeps, set_handles-Keeps, run-Keeps, run_within-Keeps,
  popen-Keeps, pipe_write-Keeps, is_alive-Keeps, terminate-Keeps, kill-Keeps, wait-Keeps,
  getpgid-Keeps, killpg-Keeps, open_file-Keeps, size-Keeps, read-Keeps, append-Keeps, mkstemp-Keeps,
  fill-Keeps, unlink-Keeps, sleep-Keeps, time_ms-Keeps,
)

module _ (env : Env) where
  pub run_checked-Keeps : (args : List String) → Keeps claims (run_checked env args)
  unfolding run_checked
  run_checked-Keeps args = search frame_rules

  pub deadline_in-Keeps : (ms : ℕ) → Keeps claims (deadline_in env ms)
  unfolding deadline_in
  deadline_in-Keeps ms = search frame_rules

pub ruleset machine_rules = (frame_rules, run_checked-Keeps, deadline_in-Keeps)
