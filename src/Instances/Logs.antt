-- ===== src/Instances/Logs.antt =====
-- `_clean_dhu_line`, `get_sources` and `read_recent` of instance_manager/src/log_collector.py. A line
-- is a list of code points. The files are an argument.
pub mod Laws
use vanpilot.Prelude.{
  ℕ, ◌+◌, ◌-◌, ◌*◌, String, Bool, true, false, not, Option, none, some, List, [], ◌∷◌, ◌++◌, ◌==◌,
  ◌&&◌, nat_eq, string_eq, contains, length, drop, if◌then◌else◌,
}
use vanpilot.Prelude.Text.{strip, is_blank, file_lines, universal_newlines}
use vanpilot.Prelude.Dict.{Dict}
use vanpilot.Exec.{Result, ok, err, is_os_error}
use vanpilot.Exec.Fallible.{◌>>=◌}
use vanpilot.Instances.Store.{InstanceRecord}
use vanpilot.Instances.Lifecycle.Paths.{emu_log_path}

-- `while cleaned.startswith("> "): cleaned = cleaned[2:]`
unfoldable pub drop_prompts : List ℕ → List ℕ
drop_prompts [] = []
drop_prompts (c ∷ []) = c ∷ []
drop_prompts (c ∷ d ∷ cs) =
    let rest = drop_prompts cs in if c == b'>' && d == b' ' then rest else c ∷ d ∷ cs

-- `cleaned == ">" or cleaned == ""`
abbrev pub is_prompt : List ℕ → Bool
is_prompt [] = true
is_prompt (c ∷ []) = c == b'>'
is_prompt (c ∷ d ∷ cs) = false

-- `_clean_dhu_line`
unfoldable pub clean_dhu_line : List ℕ → Option (List ℕ)
unfolding drop_prompts
clean_dhu_line line =
    let stripped = strip line in if is_prompt (drop_prompts stripped) then none else some stripped

pub record LogEntry : Type 0 where
  pub source : String
  pub content : List ℕ

-- `_DHU_OVERREAD_FACTOR`
abbrev pub overread_factor : ℕ
overread_factor = 2

-- `os.path.exists`, and opening a file and reading it with bad bytes replaced
pub record Files : Type 0 where
  pub exists : String → Bool
  pub read : String → Result (List ℕ)

-- `if path and os.path.exists(path)`
abbrev pub source_if : Files → String → Option String → Dict String String
source_if files name none = []
source_if files name (some path) =
    if not (is_blank path) && files.exists path then (name, path) ∷ [] else []

-- `get_sources`; `service_log_path` is what the collector was made with
unfoldable pub get_sources : Files → Option String → InstanceRecord → Dict String String
get_sources files service_log_path r =
    source_if files "dhu" r.log_path
    ++ (source_if files "emulator" (some (emu_log_path r.name))
        ++ source_if files "service" service_log_path)

-- `collections.deque(f, maxlen=n)`
unfoldable pub last_lines : ℕ → List (List ℕ) → List (List ℕ)
last_lines n lines = drop (length lines - n) lines

-- `line.rstrip("\n")`, for a line with at most one newline, which is its last code point
unfoldable pub chomp : List ℕ → List ℕ
chomp [] = []
chomp (c ∷ cs) = let rest = chomp cs in if c == 10 then rest else c ∷ rest

-- `source_entries[-n:]`
unfoldable pub trim : ℕ → List LogEntry → List LogEntry
trim n entries = if n == 0 then entries else drop (length entries - n) entries

abbrev pub cleaned : String → List ℕ → Option (List ℕ)
cleaned source text = if source == "dhu" then clean_dhu_line text else some text

abbrev pub entry_of : String → Option (List ℕ) → List LogEntry → List LogEntry
entry_of source none rest = rest
entry_of source (some text) rest = (record { source = source; content = text }) ∷ rest

-- the loop over the lines
unfoldable pub entries_of : String → List (List ℕ) → List LogEntry
unfolding clean_dhu_line chomp
entries_of source [] = []
entries_of source (line ∷ lines) =
    entry_of source (cleaned source (chomp line)) (entries_of source lines)

abbrev pub entries_read : ℕ → String → Result (List ℕ) → Result (List LogEntry)
entries_read n source (err e) = if is_os_error e then ok [] else err e
entries_read n source (ok text) =
    let maxlen = if source == "dhu" then n * overread_factor else n in
    ok (trim n (entries_of source (last_lines maxlen (file_lines (universal_newlines text)))))

-- `not sources or source_name in sources`
abbrev pub is_wanted : String → List String → Bool
is_wanted source [] = true
is_wanted source (s ∷ rest) = contains source (s ∷ rest)

-- the body of the loop over the sources
unfoldable pub read_source : Files → ℕ → List String → String → String → Result (List LogEntry)
unfolding entries_of last_lines trim
read_source files n sources source path =
    if is_wanted source sources then entries_read n source (files.read path) else ok []

-- the loop over the sources
unfoldable pub read_each : Files → ℕ → List String → Dict String String → Result (List LogEntry)
unfolding read_source
read_each files n sources [] = ok []
read_each files n sources ((source, path) ∷ rest) =
    read_source files n sources source path >>= λ entries.
    read_each files n sources rest >>= λ others. ok (entries ++ others)

-- `read_recent`; no `sources` and an empty set mean all of them
unfoldable pub read_recent :
    Files → Option String → InstanceRecord → ℕ → List String → Result (List LogEntry)
unfolding get_sources read_each
read_recent files service_log_path r n sources =
    read_each files n sources (get_sources files service_log_path r)
