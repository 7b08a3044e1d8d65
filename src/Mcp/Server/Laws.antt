-- ===== src/Mcp/Server/Laws.antt =====
-- Which requests are answered, and with which id.
use vanpilot.Prelude.{◌≡◌, refl, String, true, Option, none, some, ◌⊎◌, inl, inr, Bool-cases}
use vanpilot.Exec.{Exec, Exn, Result, ok, err, continue, ◌>>=◌}
use vanpilot.Supervisor.Json.{Json, Fields}
use vanpilot.Mcp.Server.{
  Payload, ErrorKind, Response, Tool, is_method, get_value, get_or_empty, handle_tools_call,
  dispatch, guarded, handle_request, answer_tool, call_with, handler_of, on_handler,
}

-- the `id` of a response
abbrev pub id_of : Response → Option Json
id_of (Response.success id payload) = id
id_of (Response.error id kind) = id

module _ {S : Type 0} where
  -- What a request with this id and this method is answered: nothing, and nothing is called, where
  -- it has a method and no id; an error where it has no method; else one response with its id,
  -- unless the handler of a tool raises.
  pub data Answers (id method : Option Json) (s : S) (r : Result (Option Response) × S)
      : Type 0 where
    notified : (m : Json) → method ≡ some m → id ≡ none → r ≡ (ok none, s) → Answers id method s r
    unnamed :
        method ≡ none
        → r ≡ (ok (some (Response.error id ErrorKind.missing_method)), s)
        → Answers id method s r
    answered :
        (m i : Json) (response : Response)
        → method ≡ some m
        → id ≡ some i
        → r.0 ≡ ok (some response)
        → id_of response ≡ id
        → Answers id method s r
    raised :
        (e : Exn) (m i : Json)
        → method ≡ some m
        → id ≡ some i
        → is_method "tools/call" m ≡ true
        → r.0 ≡ err e
        → Answers id method s r

  -- an answer of `_handle_tools_call`
  abbrev Replies : Option Json → Result Response × S → Type 0
  Replies id r =
      ((response : Response) × (r.0 ≡ ok response) × (id_of response ≡ id))
      ⊎ ((e : Exn) × (r.0 ≡ err e))

  module _ (call : Tool → Fields → Exec S String) where
    text_Replies :
        (id : Option Json) (o : Result String × S)
        → Replies id
            (continue o.0 (λ text s. (ok (Response.success id (Payload.tool_result text)), s)) o.1)
    text_Replies id (ok text, s) = inl (Response.success id (Payload.tool_result text), refl, refl)
    text_Replies id (err e, s) = inr (e, refl)

    answer_tool-Replies :
        (id : Option Json) (arguments : Json) (tool : Option Tool) (s : S)
        → Replies id (answer_tool call id arguments tool s)
    unfolding ◌>>=◌
    answer_tool-Replies id arguments none s = inl (_, refl, refl)
    answer_tool-Replies id arguments (some tool) s =
        text_Replies id (call_with call tool arguments s)

    on_handler-Replies :
        (id : Option Json) (arguments : Json) (h : Result (Option Tool)) (s : S)
        → Replies id (on_handler call id arguments h s)
    unfolding ◌>>=◌
    on_handler-Replies id arguments (ok tool) s = answer_tool-Replies id arguments tool s
    on_handler-Replies id arguments (err e) s = inr (e, refl)

    handle_tools_call-Replies :
        (id : Option Json) (params : Json) (s : S) → Replies id (handle_tools_call call id params s)
    unfolding handle_tools_call ◌>>=◌
    handle_tools_call-Replies id (Json.object d) s =
        on_handler-Replies id (get_or_empty "arguments" d) (handler_of (get_value "name" d)) s
    handle_tools_call-Replies id Json.null s = inr (_, refl)
    handle_tools_call-Replies id (Json.boolean b) s = inr (_, refl)
    handle_tools_call-Replies id (Json.number z) s = inr (_, refl)
    handle_tools_call-Replies id (Json.text t) s = inr (_, refl)
    handle_tools_call-Replies id (Json.array xs) s = inr (_, refl)

    -- The dispatch replies with the id, or raises, and only in a tool call.
    dispatch-Replies :
        (id : Option Json) (method params : Json) (s : S)
        → ((response : Response) × ((dispatch call id method params s).0 ≡ ok response)
            × (id_of response ≡ id))
          ⊎ ((e : Exn) × ((dispatch call id method params s).0 ≡ err e)
              × (is_method "tools/call" method ≡ true))
    unfolding dispatch ◌>>=◌
    dispatch-Replies id method params s = elim (Bool-cases (is_method "initialize" method)) [
      | inl same_name ↦ rw same_name (inl (_, refl, refl))
      | inr other ↦ rw other (elim (Bool-cases (is_method "tools/list" method)) [
        | inl same_name ↦ rw same_name (inl (_, refl, refl))
        | inr other ↦ rw other (elim (Bool-cases (is_method "tools/call" method)) [
          | inl same_name ↦ rw same_name (elim (handle_tools_call-Replies id params s) [
            | inl (response, replied, same) ↦ inl (response, replied, same)
            | inr (e, thrown) ↦ inr (e, thrown, refl)
          ])
          | inr other ↦ rw other (inl (_, refl, refl))
        ])
      ])
    ]

    guarded-Answers :
        (method id : Option Json) (params : Json) (s : S)
        → Answers id method s (guarded call method id params s)
    unfolding guarded ◌>>=◌
    guarded-Answers (some m) none params s = notified m refl refl refl
    guarded-Answers none none params s = unnamed refl refl
    guarded-Answers none (some id) params s = unnamed refl refl
    guarded-Answers (some m) (some id) params s = elim (dispatch-Replies (some id) m params s) [
      | inl (response, replied, same) ↦
          answered m id response refl refl (rw (replied, continue) refl) same
      | inr (e, thrown, tool_call) ↦ raised e m id refl refl tool_call (rw (thrown, continue) refl)
    ]

    -- For a request that is a JSON object, and any tool handlers, `handle_request` answers
    -- nothing and calls nothing where there is a method and no id, a null counting as missing;
    -- answers the error for a missing method, and calls nothing, where there is no method; else
    -- it returns one response, with the id of the request, or raises, and that only for the
    -- method tools/call.
    pub handle_request-Answers :
        (d : Fields) (s : S)
        → Answers
            (get_value "id" d)
            (get_value "method" d)
            s
            (handle_request call (Json.object d) s)
    unfolding handle_request
    handle_request-Answers d s =
        guarded-Answers (get_value "method" d) (get_value "id" d) (get_or_empty "params" d) s
