-- ===== src/Mcp/Tests/Rpc.antt =====
-- Runs of the JSON-RPC server. A line is its own request here: a stand-in for `json.loads`.
use vanpilot.Prelude.{
  ℕ, String, Option, true, ◌≡◌, refl, none, some, [], ◌∷◌, ◌==◌, string_eq, if◌then◌else◌,
}
use vanpilot.Exec.{Exec, ok, err, type_error, ◌>>=◌}
use vanpilot.Supervisor.Json.{Json, Fields, no_fields, field, object, text, number, get_field}
use vanpilot.Mcp.Server.{
  Tool, Response, Payload, Server, handle_request, serve, on_line, get_value, get_or_empty,
  dispatch, guarded, tool_named,
}
use vanpilot.Mcp.Server.Laws.{Answers, handle_request-Answers}
use vanpilot.Mcp.Server.Lines.{Breaks, serve_raises}

-- Every tool counts its call, but submit_bitmap, which raises as an argument is missing.
abbrev call : Tool → Fields → Exec ℕ String
call Tool.submit_bitmap d n = (err type_error, n)
call _ d n = (ok "{}", n)

abbrev list_tools : Fields
list_tools = field "method" (text "tools/list") (field "id" (number true) no_fields)

abbrev bad_call : Fields
bad_call = field "method" (text "tools/call") (
    field "id" (number true)
      (field "params" (object (field "name" (text "submit_bitmap") no_fields)) no_fields))

abbrev loads : String → Option Json
loads line =
    if line == "list"
    then some (object list_tools)
    else if line == "bad"
    then some (object bad_call)
    else none

abbrev idle : Server ℕ
idle = record { written = []; state = 0 }

abbrev listed : Server ℕ
listed = record {
  written = Response.success (some (number true)) Payload.tool_definitions ∷ [];
  state = 0;
}

handle_request-Answers_example :
    Answers
      (get_value "id" list_tools)
      (get_value "method" list_tools)
      0
      (handle_request call (object list_tools) 0)
handle_request-Answers_example = handle_request-Answers call list_tools 0

one_served : serve call loads ("list" ∷ []) idle ≡ (ok tt, listed)
unfolding serve on_line ◌>>=◌ handle_request guarded dispatch get_value get_or_empty get_field
one_served = refl

bad_breaks : Breaks call loads "bad" listed type_error 0
unfolding get_value get_or_empty get_field tool_named
bad_breaks =
    Breaks.bad_call bad_call (field "name" (text "submit_bitmap") no_fields) no_fields (number true)
      "submit_bitmap" Tool.submit_bitmap refl refl refl refl refl refl refl refl refl

serve_raises_example :
    serve call loads ("list" ∷ "bad" ∷ "list" ∷ []) idle
    ≡ (err type_error, record listed { state = 0 })
serve_raises_example =
    serve_raises call loads ("list" ∷ []) ("list" ∷ []) "bad" idle listed type_error 0 one_served
      bad_breaks
