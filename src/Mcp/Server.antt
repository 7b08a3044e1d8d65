-- ===== src/Mcp/Server.antt =====
-- mcp/src/server.py: the JSON-RPC dispatch over standard input and output. A tool's handler, with
-- the binding of its arguments and `json.dumps` of its reply, is any function of the arguments that
-- may raise; `json.loads` is an argument, too.
pub mod Laws
pub mod Lines
use vanpilot.Prelude.{
  ℕ, String, Bool, true, false, not, ◌&&◌, Option, none, some, List, [], ◌∷◌, ◌++◌, ◌==◌, string_eq,
  if◌then◌else◌,
}
use vanpilot.Prelude.Int.{ℤ, negsuc}
use vanpilot.Prelude.Text.{is_blank}
use vanpilot.Exec.{
  Exec, Exn, Result, ok, err, attribute_error, type_error, pure, raise, modify, ◌>>=◌,
}
use vanpilot.Supervisor.Json.{Json, Fields, get_field}

-- The result of a response: the dicts of `_handle_initialize`, `_handle_tools_list` and
-- `_handle_tools_call`, this with the text of its content.
pub data Payload : Type 0 where
  initialized tool_definitions : Payload
  tool_result : (text : String) → Payload

pub data ErrorKind : Type 0 where
  missing_method parse_error : ErrorKind
  method_not_found unknown_tool : ErrorKind

-- the `code` of `_error_response`
unfoldable pub code_of : ErrorKind → ℤ
code_of ErrorKind.missing_method = negsuc 32599
code_of ErrorKind.method_not_found = negsuc 32600
code_of ErrorKind.unknown_tool = negsuc 32600
code_of ErrorKind.parse_error = negsuc 32699

-- `_success_response` and `_error_response`
pub data Response : Type 0 where
  success : (id : Option Json) → Payload → Response
  error : (id : Option Json) → ErrorKind → Response

-- the keys of `_HANDLERS`
pub data Tool : Type 0 where
  display_bitmap submit_bitmap get_screenshot calibrate_display : Tool

unfoldable pub tool_named : String → Option Tool
tool_named name =
    if name == "display_bitmap"
    then some Tool.display_bitmap
    else if name == "submit_bitmap"
    then some Tool.submit_bitmap
    else if name == "get_screenshot"
    then some Tool.get_screenshot
    else if name == "calibrate_display"
    then some Tool.calibrate_display
    else none

-- `_HANDLERS.get(tool_name)`: a list or a dict as the name is not hashable
unfoldable pub handler_of : Option Json → Result (Option Tool)
unfolding tool_named
handler_of (some (Json.text name)) = ok (tool_named name)
handler_of (some (Json.array _)) = err type_error
handler_of (some (Json.object _)) = err type_error
handler_of _ = ok none

abbrev non_null : Json → Option Json
non_null Json.null = none
non_null j = some j

abbrev pub value_in : Option Json → Option Json
value_in none = none
value_in (some j) = non_null j

-- `d.get(key)`: a JSON null and a missing key are both None
unfoldable pub get_value : String → Fields → Option Json
get_value key d = value_in (get_field key d)

abbrev pub or_empty_dict : Option Json → Json
or_empty_dict none = Json.object Fields.no_fields
or_empty_dict (some j) = j

-- `d.get(key, {})`: a JSON null is not replaced
unfoldable pub get_or_empty : String → Fields → Json
get_or_empty key d = or_empty_dict (get_field key d)

-- `method == s`
abbrev pub is_method : String → Json → Bool
is_method s (Json.text t) = t == s
is_method s _ = false

module _ {S : Type 0} (call : Tool → Fields → Exec S String) where
  -- `handler(**arguments)`
  unfoldable pub call_with : Tool → Json → Exec S String
  call_with tool (Json.object d) = call tool d
  call_with tool _ = raise type_error

  abbrev pub answer_tool : Option Json → Json → Option Tool → Exec S Response
  answer_tool id arguments none = pure (error id ErrorKind.unknown_tool)
  answer_tool id arguments (some tool) =
      call_with tool arguments >>= λ text. pure (success id (Payload.tool_result text))

  abbrev pub on_handler : Option Json → Json → Result (Option Tool) → Exec S Response
  on_handler id arguments (ok tool) = answer_tool id arguments tool
  on_handler id arguments (err e) = raise e

  -- `_handle_tools_call`
  unfoldable pub handle_tools_call : Option Json → Json → Exec S Response
  unfolding call_with handler_of get_value get_or_empty
  handle_tools_call id (Json.object d) =
      on_handler id (get_or_empty "arguments" d) (handler_of (get_value "name" d))
  handle_tools_call id _ = raise attribute_error

  -- the `if` on the method
  unfoldable pub dispatch : Option Json → Json → Json → Exec S Response
  unfolding handle_tools_call
  dispatch id method params =
      if is_method "initialize" method
      then pure (success id Payload.initialized)
      else if is_method "tools/list" method
      then pure (success id Payload.tool_definitions)
      else if is_method "tools/call" method
      then handle_tools_call id params
      else pure (error id ErrorKind.method_not_found)

  -- the guards of `handle_request`, on the method and the id
  unfoldable pub guarded : Option Json → Option Json → Json → Exec S (Option Response)
  unfolding dispatch
  guarded (some method) none params = pure none
  guarded none id params = pure (some (error id ErrorKind.missing_method))
  guarded (some method) (some id) params = dispatch (some id) method params >>= λ r. pure (some r)

  -- `handle_request`; a request that is no dict has no `get`
  unfoldable pub handle_request : Json → Exec S (Option Response)
  unfolding guarded get_value get_or_empty
  handle_request (Json.object d) =
      guarded (get_value "method" d) (get_value "id" d) (get_or_empty "params" d)
  handle_request _ = raise attribute_error

-- What `main` has written, the latest response last, and what the handlers work on.
pub record Server (S : Type 0) : Type 0 where
  pub written : List Response
  pub state : S

module _ {S : Type 0} (call : Tool → Fields → Exec S String) (loads : String → Option Json) where
  abbrev pub write : Option Response → Server S → Server S
  write none s = s
  write (some r) s = record s { written = s.written ++ (r ∷ []) }

  abbrev pub after_request : Server S → Result (Option Response) × S → Result (Unit {0}) × Server S
  after_request s (ok r, state) = (ok tt, write r (record s { state = state }))
  after_request s (err e, state) = (err e, record s { state = state })

  -- a line that is not blank: `json.loads` gives `none` where it raises `JSONDecodeError`
  abbrev pub on_request : Option Json → Exec (Server S) (Unit {0})
  on_request none s = (ok tt, write (some (error none ErrorKind.parse_error)) s)
  on_request (some request) s = after_request s (handle_request call request s.state)

  -- one round of the loop of `main`, on a line without its outer spaces
  unfoldable pub on_line : String → Exec (Server S) (Unit {0})
  unfolding handle_request
  on_line line s = if is_blank line then (ok tt, s) else on_request (loads line) s

  -- `main`
  unfoldable pub serve : List String → Exec (Server S) (Unit {0})
  unfolding on_line ◌>>=◌
  serve [] = pure tt
  serve (line ∷ rest) = on_line line >>= λ _. serve rest
