-- ===== src/Instances/Dashboard.antt =====
-- instance_manager/src/web_server.py: the routes of the dashboard, and the page of a screenshot. A
-- path is a list of code points, as `urlparse` has split it off. The pages' HTML is not modelled.
pub mod Laws
use vanpilot.Prelude.{
  ℕ, String, Bool, true, false, ◌||◌, Option, none, some, List, [], ◌∷◌, ◌++◌, ◌==◌, nat_eq,
  string_eq, ◌-◌, ◌/◌, ◌%◌, map, if◌then◌else◌,
}
use vanpilot.Prelude.Text.{codes, same_codes, text_of}
use vanpilot.Prelude.Dict.{lookup}
use vanpilot.Instances.Names.{is_alnum, is_name_char}
use vanpilot.Instances.Store.{
  Bytes, Store, InstanceState, InstanceRecord, list_all, creating, running, error, destroying,
}

-- `p`, and what follows it
unfoldable pub after_prefix : List ℕ → List ℕ → Option (List ℕ)
after_prefix [] cs = some cs
after_prefix (p ∷ ps) [] = none
after_prefix (p ∷ ps) (c ∷ cs) = let rest = after_prefix ps cs in if p == c then rest else none

abbrev onto : ℕ → List ℕ × List ℕ → List ℕ × List ℕ
onto c (name, rest) = (c ∷ name, rest)

-- `[a-zA-Z0-9._-]*`: as many characters as the class takes; nothing that a pattern has after it
-- is in the class
unfoldable pub name_part : List ℕ → List ℕ × List ℕ
name_part [] = ([], [])
name_part (c ∷ cs) = let rest = name_part cs in if is_name_char c then onto c rest else ([], c ∷ cs)

-- `tail$`
unfoldable pub ends_by : List ℕ → List ℕ → Bool
ends_by tail rest = same_codes rest tail || same_codes rest (tail ++ (10 ∷ []))

-- `([a-zA-Z0-9][a-zA-Z0-9._-]*)tail$`: the group
unfoldable pub match_group : List ℕ → List ℕ → Option (List ℕ)
unfolding name_part ends_by
match_group tail [] = none
match_group tail (c ∷ cs) =
    let (name, rest) = name_part cs in
    if is_alnum c then (if ends_by tail rest then some (c ∷ name) else none) else none

abbrev group_after : List ℕ → Option (List ℕ) → Option (List ℕ)
group_after tail none = none
group_after tail (some cs) = match_group tail cs

-- `^prefix([a-zA-Z0-9][a-zA-Z0-9._-]*)tail$`
unfoldable pub named : List ℕ → List ℕ → List ℕ → Option (List ℕ)
unfolding after_prefix match_group
named prefix tail path = group_after tail (after_prefix prefix path)

pub data Route : Type 0 where
  dashboard api_instances not_found : Route
  screenshot : (emulator : Bool) (name : List ℕ) → Route
  api_logs log_stream log_page : (name : List ℕ) → Route

-- `if m: ...; return`
abbrev pub or_else : Option (List ℕ) → (List ℕ → Route) → Route → Route
or_else none f next = next
or_else (some name) f next = f name

abbrev pub instances_path : List ℕ
instances_path = codes "/instances/"

abbrev pub api_logs_path : List ℕ
api_logs_path = codes "/api/logs/"

abbrev pub logs_path : List ℕ
logs_path = codes "/logs/"

-- `do_GET`
unfoldable pub route : List ℕ → Route
unfolding named
route path =
    if same_codes path (codes "/")
    then Route.dashboard
    else or_else (named instances_path (codes "/dhu-screenshot") path) (Route.screenshot false) (
        or_else (named instances_path (codes "/emu-screenshot") path) (Route.screenshot true) (
          if same_codes path (codes "/api/instances")
          then Route.api_instances
          else or_else (named api_logs_path [] path) Route.api_logs (
              or_else (named logs_path (codes "/stream") path) Route.log_stream
                (or_else (named logs_path [] path) Route.log_page Route.not_found))))

-- `if not png: send_error(404)`
abbrev filled_png : Option Bytes → Option Bytes
filled_png none = none
filled_png (some []) = none
filled_png (some (b ∷ bs)) = some (b ∷ bs)

abbrev png_of : Bool → Option InstanceRecord → Option Bytes
png_of emulator none = none
png_of true (some r) = filled_png r.last_emulator_screenshot_png
png_of false (some r) = filled_png r.last_screenshot_png

-- `_serve_screenshot`: the body, or `none` for status 404
unfoldable pub serve_screenshot : Option Store → Bool → String → Option Bytes
serve_screenshot none emulator name = none
serve_screenshot (some store) emulator name = png_of emulator (lookup name store)

-- `_STATE_NAMES`
unfoldable pub state_name : InstanceState → String
state_name InstanceState.creating = "CREATING"
state_name InstanceState.running = "RUNNING"
state_name InstanceState.error = "ERROR"
state_name InstanceState.destroying = "DESTROYING"

-- a dict of `_serve_api_instances`
pub record InstanceJson : Type 0 where
  pub name : String
  pub state : String
  pub emulator_console_port : ℕ
  pub adb_port : ℕ
  pub aa_forward_port : ℕ
  pub headful : Bool
  pub avd_name : String
  pub created_at_ms : ℕ

unfoldable pub instance_json : InstanceRecord → InstanceJson
unfolding state_name
instance_json r = record {
  name = r.name;
  state = state_name r.state;
  emulator_console_port = r.emulator_console_port;
  adb_port = r.adb_port;
  aa_forward_port = r.aa_forward_port;
  headful = r.headful;
  avd_name = r.avd_name;
  created_at_ms = r.created_at_ms;
}

-- `_serve_api_instances`: what `json.dumps` gets
unfoldable pub serve_api_instances : Option Store → List InstanceJson
unfolding instance_json
serve_api_instances none = []
serve_api_instances (some store) = map instance_json (list_all store)

-- `_serve_log_viewer`: whether there is a page
unfoldable pub has_log_page : Option Store → String → Bool
has_log_page none name = false
has_log_page (some store) name = elim (lookup name store) [ none ↦ false | some r ↦ true ]
