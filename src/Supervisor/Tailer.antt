-- ===== src/Supervisor/Tailer.antt =====
-- supervisor/src/log_tailer.py: turns the assistant messages of the agents' JSONL logs into events.
-- `json.loads` and the reading of the files are arguments. A line is a list of code points.
pub mod Laws
use vanpilot.Prelude.{
  ℕ, zero, suc, ◌+◌, String, Bool, true, false, not, Option, none, some, List, [], ◌∷◌, ◌++◌, ◌==◌,
  ◌||◌, ◌&&◌, nat_eq, string_eq, ltb, leb, if◌then◌else◌,
}
use vanpilot.Prelude.Int.{pos}
use vanpilot.Prelude.Text.{strip, concat, is_blank}
use vanpilot.Prelude.Dict.{Dict, lookup, insert}
use vanpilot.Exec.{Result, ok, err, attribute_error, type_error, is_os_error}
use vanpilot.Exec.Fallible.{◌>>=◌}
use vanpilot.Supervisor.Events.{Event, text_message, add_event}
use vanpilot.Supervisor.Json.{
  Json, null, boolean, number, text, array, object, Items, no_items, item, Fields, get_field,
  is_truthy, is_text,
}

-- `block.get("text", "")`
abbrev pub text_field : Fields → Json
text_field fields = elim (get_field "text" fields) [ none ↦ text "" | some value ↦ value ]

abbrev pub part_of_block : Fields → List Json → List Json
part_of_block fields rest =
    if is_text "text" (get_field "type" fields) && is_truthy (text_field fields)
    then text_field fields ∷ rest
    else rest

-- the loop over the blocks: the texts that are not empty
unfoldable pub text_parts : Items → List Json
text_parts no_items = []
text_parts (item (object fields) rest) = part_of_block fields (text_parts rest)
text_parts (item block rest) = text_parts rest

-- `sep.join(parts)`, which takes nothing but texts
unfoldable pub join_parts : String → List Json → Result String
join_parts sep [] = ok ""
join_parts sep (text s ∷ []) = ok s
join_parts sep (text s ∷ p ∷ rest) =
    join_parts sep (p ∷ rest) >>= λ joined. ok (concat (s ∷ sep ∷ joined ∷ []))
join_parts sep (p ∷ rest) = err type_error

abbrev pub parse_parts : List Json → Result (Option String)
parse_parts [] = ok none
parse_parts (p ∷ rest) = join_parts " " (p ∷ rest) >>= λ s. ok (some s)

-- the branches on the content of a message
unfoldable pub parse_content : Option Json → Result (Option String)
unfolding text_parts join_parts
parse_content (some (text s)) = ok (if is_blank s then none else some s)
parse_content (some (array items)) = parse_parts (text_parts items)
parse_content _ = ok none

unfoldable pub parse_message : Option Json → Result (Option String)
unfolding parse_content
parse_message (some (object message)) = parse_content (get_field "content" message)
parse_message _ = ok none

-- what follows `json.loads`; `get` is no attribute of a value that is no dict
unfoldable pub parse_entry : Json → Result (Option String)
unfolding parse_message
parse_entry (object entry) =
    if not (is_text "assistant" (get_field "type" entry))
    then ok none
    else parse_message (get_field "message" entry)
parse_entry _ = err attribute_error

abbrev pub parse_loaded : Option Json → Result (Option String)
parse_loaded none = ok none
parse_loaded (some entry) = parse_entry entry

abbrev parse_stripped : (List ℕ → Option Json) → List ℕ → Result (Option String)
parse_stripped loads [] = ok none
parse_stripped loads (c ∷ cs) = parse_loaded (loads (c ∷ cs))

-- `parse_log_entry`: the value of the key "text", where there is one. `loads` is `json.loads`, with
-- `none` where it raises.
unfoldable pub parse_log_entry : (List ℕ → Option Json) → List ℕ → Result (Option String)
unfolding parse_entry
parse_log_entry loads line = parse_stripped loads (strip line)

-- a line boundary of `str.splitlines`; the reading as text has left no carriage return
abbrev pub is_break : ℕ → Bool
is_break c =
    c == 10
    || c == 11
    || c == 12
    || (leb 28 c && leb c 30)
    || c == 0x85
    || c == 0x2028
    || c == 0x2029

-- puts a code point in front of the first line
abbrev pub onto_first : ℕ → List (List ℕ) → List (List ℕ)
onto_first c [] = (c ∷ []) ∷ []
onto_first c (l ∷ ls) = (c ∷ l) ∷ ls

-- `str.splitlines`
unfoldable pub split_lines : List ℕ → List (List ℕ)
split_lines [] = []
split_lines (c ∷ cs) =
    let rest = split_lines cs in if is_break c then [] ∷ rest else onto_first c rest

pub record Tailer : Type 0 where
  pub offsets : Dict String ℕ
  pub events : List Event
  -- how often `_time_fn` was called
  pub readings : ℕ

-- the event of a parsed line, and what follows it; an exception ends the loop
abbrev pub emit_parsed :
    Result (Option String)
    → (ℕ → ℕ)
    → String
    → (Tailer → Result (Unit {0}) × Tailer)
    → Tailer
    → Result (Unit {0}) × Tailer
emit_parsed (err e) time_fn agent_id go_on t = (err e, t)
emit_parsed (ok none) time_fn agent_id go_on t = go_on t
emit_parsed (ok (some content)) time_fn agent_id go_on t =
    let event : Event = record {
      timestamp_ms = pos (time_fn t.readings);
      payload = text_message agent_id content;
    } in
    go_on (record t { events = add_event event t.events; readings = t.readings + 1 })

-- the loop over the lines; `time_fn n` is what the call number `n` of `_time_fn` returns
unfoldable pub emit_lines :
    (List ℕ → Option Json) → (ℕ → ℕ) → String → List (List ℕ) → Tailer → Result (Unit {0}) × Tailer
unfolding parse_log_entry
emit_lines loads time_fn agent_id [] t = (ok tt, t)
emit_lines loads time_fn agent_id (line ∷ lines) t =
    emit_parsed (parse_log_entry loads line) time_fn agent_id
      (emit_lines loads time_fn agent_id lines) t

-- a log file at one moment: `os.path.getsize`, `none` where it raises an `OSError`, and what the
-- reading from an offset returns, with the offset after it
pub record LogFile : Type 0 where
  pub size : Option ℕ
  pub read_from : ℕ → Result (List ℕ × ℕ)

abbrev pub or_zero : Option ℕ → ℕ
or_zero none = 0
or_zero (some n) = n

abbrev pub emit_read :
    (List ℕ → Option Json)
    → (ℕ → ℕ)
    → String
    → String
    → Result (List ℕ × ℕ)
    → Tailer
    → Result (Unit {0}) × Tailer
emit_read loads time_fn agent_id path (err e) t = if is_os_error e then (ok tt, t) else (err e, t)
emit_read loads time_fn agent_id path (ok (new_data, new_offset)) t =
    emit_lines loads time_fn agent_id (split_lines new_data)
      (record t { offsets = insert path new_offset t.offsets })

abbrev pub tail_sized :
    (List ℕ → Option Json)
    → (ℕ → ℕ)
    → String
    → String
    → LogFile
    → ℕ
    → Option ℕ
    → Tailer
    → Result (Unit {0}) × Tailer
tail_sized loads time_fn agent_id path file offset none t = (ok tt, t)
tail_sized loads time_fn agent_id path file offset (some file_size) t =
    let start = if ltb file_size offset then 0 else offset in
    if file_size == start
    then (ok tt, t)
    else emit_read loads time_fn agent_id path (file.read_from start) t

-- `LogTailer._tail_file`; `stem` is the file's name without its folder and extension
unfoldable pub tail_file :
    (List ℕ → Option Json)
    → (ℕ → ℕ)
    → (String → String)
    → String
    → LogFile
    → Tailer
    → Result (Unit {0}) × Tailer
unfolding emit_lines split_lines
tail_file loads time_fn stem path file t =
    tail_sized loads time_fn (stem path) path file (or_zero (lookup path t.offsets)) file.size t

abbrev pub continue_with :
    Result (Unit {0}) × Tailer → (Tailer → Result (Unit {0}) × Tailer) → Result (Unit {0}) × Tailer
continue_with (ok _, t) go_on = go_on t
continue_with (err e, t) go_on = (err e, t)

-- `LogTailer.poll_once`, on the files that `glob` finds
unfoldable pub poll_once :
    (List ℕ → Option Json)
    → (ℕ → ℕ)
    → (String → String)
    → Dict String LogFile
    → Tailer
    → Result (Unit {0}) × Tailer
unfolding tail_file
poll_once loads time_fn stem [] t = (ok tt, t)
poll_once loads time_fn stem ((path, file) ∷ files) t =
    continue_with (tail_file loads time_fn stem path file t) (poll_once loads time_fn stem files)
