-- ===== src/Mcp/Server/Lines.antt =====
-- What `main` writes for the lines that it reads, and which lines end it.
use vanpilot.Prelude.{
  ◌≡◌, refl, ◌∙◌, sym, ap, String, Bool, true, false, Option, none, some, List, [], ◌∷◌, ◌++◌,
  arith, ◌⊎◌, inl, inr, string_eq,
}
use vanpilot.Prelude.Text.{is_blank}
use vanpilot.Exec.{
  Exec, Exn, Result, ok, err, Result-cases, attribute_error, raise, bind_ok, bind_err, ◌>>=◌,
}
use vanpilot.Supervisor.Json.{Json, Fields}
use vanpilot.Mcp.Server.{
  Response, ErrorKind, Tool, is_method, get_value, get_or_empty, handler_of, tool_named, call_with,
  handle_tools_call, dispatch, guarded, handle_request, Server, on_request, on_line, serve,
}
use vanpilot.Mcp.Server.Laws.{id_of}

abbrev is_object : Json → Bool
is_object (Json.object d) = true
is_object _ = false

module _ {S : Type 0} where
  abbrev with_state : Server S → S → Server S
  with_state s state = record s { state = state }

  abbrev with_response : Server S → Response → Server S
  with_response s r = record s { written = s.written ++ (r ∷ []) }

module _ {S : Type 0} (call : Tool → Fields → Exec S String) (loads : String → Option Json) where
  -- What a line that does not end the server does to it: a blank one nothing; one that is no JSON
  -- is answered with an error; a request with a method and no id does nothing; every other
  -- request is answered by one response with its id.
  pub data Handled (line : String) (s s' : Server S) : Type 0 where
    blank : is_blank line ≡ true → s' ≡ s → Handled line s s'
    unreadable :
        is_blank line ≡ false
        → loads line ≡ none
        → s' ≡ with_response s (Response.error none ErrorKind.parse_error)
        → Handled line s s'
    notified :
        (d : Fields) (m : Json)
        → is_blank line ≡ false
        → loads line ≡ some (Json.object d)
        → get_value "method" d ≡ some m
        → get_value "id" d ≡ none
        → s' ≡ s
        → Handled line s s'
    answered :
        (d : Fields) (response : Response) (state : S)
        → is_blank line ≡ false
        → loads line ≡ some (Json.object d)
        → handle_request call (Json.object d) s.state ≡ (ok (some response), state)
        → id_of response ≡ get_value "id" d
        → s' ≡ with_response (with_state s state) response
        → Handled line s s'

  -- A line that ends the server: JSON that is no object, or a call of a tool, with an id.
  pub data Fatal (line : String) (s : Server S) (e : Exn) (state : S) : Type 0 where
    no_object :
        (j : Json)
        → is_blank line ≡ false
        → loads line ≡ some j
        → is_object j ≡ false
        → e ≡ attribute_error
        → state ≡ s.state
        → Fatal line s e state
    tool_raised :
        (d : Fields) (m i : Json)
        → is_blank line ≡ false
        → loads line ≡ some (Json.object d)
        → get_value "method" d ≡ some m
        → is_method "tools/call" m ≡ true
        → get_value "id" d ≡ some i
        → handle_request call (Json.object d) s.state ≡ (err e, state)
        → Fatal line s e state

  -- What the lines do, one after the other, until one ends the server or there is none left.
  abbrev pub Served : List String → Server S → Result (Unit {0}) × Server S → Type 0
  Served [] s r = r ≡ (ok tt, s)
  Served (line ∷ rest) s r =
      ((s' : Server S) × Handled line s s' × Served rest s' r)
      ⊎ ((e : Exn) × (state : S) × Fatal line s e state × (r ≡ (err e, with_state s state)))

  -- how one round of the loop ends
  abbrev Round : String → Server S → Result (Unit {0}) × Server S → Type 0
  Round line s r =
      ((s' : Server S) × Handled line s s' × (r ≡ (ok tt, s')))
      ⊎ ((e : Exn) × (state : S) × Fatal line s e state × (r ≡ (err e, with_state s state)))

  plain_raises :
      (j : Json) (s : Server S)
      → is_object j ≡ false
      → on_request call loads (some j) s ≡ (err attribute_error, s)
  unfolding handle_request raise
  plain_raises (Json.object d) s h = absurd (ground (arith, h))
  plain_raises Json.null s h = refl
  plain_raises (Json.boolean b) s h = refl
  plain_raises (Json.number z) s h = refl
  plain_raises (Json.text t) s h = refl
  plain_raises (Json.array xs) s h = refl

  -- The lines that end the server with `e` and leave its handlers in `state`: JSON that is no
  -- object, and a call of a tool whose handler raises on the arguments that are given.
  pub data Breaks (line : String) (s : Server S) (e : Exn) (state : S) : Type 0 where
    plain :
        (j : Json)
        → is_blank line ≡ false
        → loads line ≡ some j
        → is_object j ≡ false
        → e ≡ attribute_error
        → state ≡ s.state
        → Breaks line s e state
    bad_call :
        (d params arguments : Fields) (i : Json) (name : String) (tool : Tool)
        → is_blank line ≡ false
        → loads line ≡ some (Json.object d)
        → get_value "id" d ≡ some i
        → get_value "method" d ≡ some (Json.text "tools/call")
        → get_or_empty "params" d ≡ Json.object params
        → get_value "name" params ≡ some (Json.text name)
        → tool_named name ≡ some tool
        → get_or_empty "arguments" params ≡ Json.object arguments
        → call tool arguments s.state ≡ (err e, state)
        → Breaks line s e state

  on_line-Breaks :
      (line : String) (s : Server S) (e : Exn) (state : S)
      → Breaks line s e state
      → on_line call loads line s ≡ (err e, with_state s state)
  unfolding on_line handle_request guarded dispatch handle_tools_call handler_of call_with ◌>>=◌
  on_line-Breaks line s e state (plain j full read shape same kept) =
      rw (full, read, same, kept) (plain_raises j s shape)
  on_line-Breaks line s e state
        (bad_call d params arguments i name tool full read given named with_params tool_name known
          with_arguments thrown) =
      rw (full, read, named, given, with_params, tool_name, known, with_arguments, thrown) refl

  serve_stops :
      (before after : List String) (line : String) (s s1 s2 : Server S) (e : Exn)
      → serve call loads before s ≡ (ok tt, s1)
      → on_line call loads line s1 ≡ (err e, s2)
      → serve call loads (before ++ (line ∷ after)) s ≡ (err e, s2)
  unfolding serve ◌>>=◌
  serve_stops [] after line s s1 s2 e served thrown =
      let here : s ≡ s1 = ap (λ p. p.1) served in
      bind_err (on_line call loads line) (λ _. serve call loads after)
        (ap (on_line call loads line) here ∙ thrown)
  serve_stops (first ∷ before) after line s s1 s2 e served thrown =
      elim (Result-cases (on_line call loads first s).0) [
        | inl (e', failed) ↦
            let run : serve call loads (first ∷ before) s
                ≡ (err e', (on_line call loads first s).1) =
              bind_err (on_line call loads first) (λ _. serve call loads before) (pair_of failed) in
            absurd (ground (arith, ap (λ p. p.0) (sym served ∙ run)))
        | inr (u, passed) ↦
            let step = pair_of passed in
            bind_ok (on_line call loads first) (λ _. serve call loads (before ++ (line ∷ after)))
              step
            ∙ serve_stops before after line (on_line call loads first s).1 s1 s2 e
                (sym (bind_ok (on_line call loads first) (λ _. serve call loads before) step)
                  ∙ served)
                thrown
      ]
    where
      pair_of :
          {r : Result (Unit {0})}
          → (on_line call loads first s).0 ≡ r
          → on_line call loads first s ≡ (r, (on_line call loads first s).1)
      pair_of h = ap (λ r. (r, (on_line call loads first s).1)) h

  -- Where main has served some lines and the next one is JSON but no object, or a tools/call
  -- with an id of a known tool whose handler raises on the given arguments, main raises
  -- AttributeError or what the handler raised, whatever the lines after it; what is written is
  -- what was written before that line.
  pub serve_raises :
      (before after : List String) (line : String) (s s1 : Server S) (e : Exn) (state : S)
      → serve call loads before s ≡ (ok tt, s1)
      → Breaks line s1 e state
      → serve call loads (before ++ (line ∷ after)) s ≡ (err e, record s1 { state = state })
  serve_raises before after line s s1 e state served breaks =
      serve_stops before after line s s1 (with_state s1 state) e served
        (on_line-Breaks line s1 e state breaks)
