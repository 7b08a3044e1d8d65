-- ===== src/Instances/Logs/Laws.antt =====
-- Which lines the log collector drops, and how many entries it returns.
use vanpilot.Prelude.{
  ℕ, ◌+◌, ◌-◌, ◌*◌, ◌≤◌, ◌<◌, ◌≡◌, ◌↔◌, ◌⊎◌, refl, ap, String, Bool, true, false, Option, none,
  some, List, [], ◌∷◌, ◌++◌, arith, ◌==◌, ◌&&◌, ==_iff, nat_eq, string_eq, length, length-append,
  length-drop, Bool-cases, inl, inr, if◌then◌else◌,
}
use vanpilot.Prelude.Text.{strip, file_lines, universal_newlines}
use vanpilot.Prelude.Dict.{Dict}
use vanpilot.Exec.{Result, ok, err, is_os_error}
use vanpilot.Exec.Fallible.{bind_ok}
use vanpilot.Instances.Store.{InstanceRecord}
use vanpilot.Instances.Lifecycle.Paths.{emu_log_path}
use vanpilot.Instances.Logs.{
  LogEntry, Files, drop_prompts, is_prompt, clean_dhu_line, source_if, get_sources, last_lines,
  entries_of, trim, overread_factor, entries_read, is_wanted, read_source, read_each, read_recent,
}

-- Nothing but prompts: any number of "> ", and then nothing or ">".
pub data IsNoise : List ℕ → Type 0 where
  nothing : IsNoise []
  prompt : IsNoise (b'>' ∷ [])
  prompts : (cs : List ℕ) → IsNoise cs → IsNoise (b'>' ∷ b' ' ∷ cs)

both_true : (b c : Bool) → (b && c) ≡ true → (b ≡ true) × (c ≡ true)
both_true true c h = (refl, h)
both_true false c h = cc

false_ne : ◌≡◌ {A = Bool} false true → ⊥
false_ne h = cc

some_ne : (l : List ℕ) → ◌≡◌ {A = Option (List ℕ)} (some l) none → ⊥
some_ne l h = cc

drop_prompts_complete : (cs : List ℕ) → IsNoise cs → is_prompt (drop_prompts cs) ≡ true
unfolding drop_prompts
drop_prompts_complete _ nothing = refl
drop_prompts_complete _ prompt = refl
drop_prompts_complete _ (prompts cs h) = drop_prompts_complete cs h

drop_prompts_sound : (cs : List ℕ) → is_prompt (drop_prompts cs) ≡ true → IsNoise cs
unfolding drop_prompts
drop_prompts_sound [] h = nothing
drop_prompts_sound (c ∷ []) h = rw ((==_iff c b'>').0 h) prompt
drop_prompts_sound (c ∷ d ∷ cs) h = elim (Bool-cases (c == b'>' && d == b' ')) [
  | inl both ↦
      let (first, second) = both_true (c == b'>') (d == b' ') both in
      rw ((==_iff c b'>').0 first, (==_iff d b' ').0 second)
        (prompts cs (drop_prompts_sound cs (rw both at h)))
  | inr other ↦ elim (false_ne (rw other at h)) [ ]
]

-- `_clean_dhu_line` drops a line exactly when what is left of it without its outer spaces is any
-- number of "> " followed by nothing or by ">", and returns any other line without its outer
-- spaces.
pub clean_dhu_line_iff :
    (line : List ℕ)
    → ((clean_dhu_line line ≡ none) ↔ IsNoise (strip line))
      × ((clean_dhu_line line ≡ none) ⊎ (clean_dhu_line line ≡ some (strip line)))
unfolding clean_dhu_line
clean_dhu_line_iff line = elim (Bool-cases (is_prompt (drop_prompts (strip line)))) [
  | inl noise ↦
      (((λ h. drop_prompts_sound (strip line) noise), (λ h. rw noise refl)), inl (rw noise refl))
  | inr other ↦ (
    (
      (λ h. elim (some_ne (strip line) (rw other at h)) [ ]),
      (λ h. elim (false_ne (rw other at (drop_prompts_complete (strip line) h))) [ ]),
    ),
    inr (rw other refl),
  )
]

length-trim : (n : ℕ) (entries : List LogEntry) → 0 < n → length (trim n entries) ≤ n
unfolding trim
length-trim n entries h = ground (arith, length-drop (length entries - n) entries)

length-entries_read :
    (n : ℕ) (source : String) (r : Result (List ℕ)) (entries : List LogEntry)
    → 0 < n
    → entries_read n source r ≡ ok entries
    → length entries ≤ n
length-entries_read n source (err e) entries h read = elim (Bool-cases (is_os_error e)) [
  | inl caught ↦ ground (arith, read, caught)
  | inr other ↦ ground (arith, read, other)
]
length-entries_read n source (ok text) entries h read =
    let maxlen = if source == "dhu" then n * overread_factor else n in
    let all = entries_of source (last_lines maxlen (file_lines (universal_newlines text))) in
    ground (arith, length-trim n all h, read)

length-read_source :
    (files : Files) (n : ℕ) (sources : List String) (source path : String) (entries : List LogEntry)
    → 0 < n
    → read_source files n sources source path ≡ ok entries
    → length entries ≤ n
unfolding read_source
length-read_source files n sources source path entries h read =
    elim (Bool-cases (is_wanted source sources)) [
      | inl wanted ↦ length-entries_read n source (files.read path) entries h (rw wanted at read)
      | inr other ↦ ground (arith, read, other)
    ]

length-read_each :
    (files : Files) (n : ℕ) (sources : List String) (d : Dict String String)
    (entries : List LogEntry)
    → 0 < n
    → read_each files n sources d ≡ ok entries
    → length entries ≤ length d * n
unfolding read_each
length-read_each files n sources [] entries h read = ground (arith, read)
length-read_each files n sources ((source, path) ∷ rest) entries h read =
    let (first, e, read1) = bind_ok (read_source files n sources source path) _ entries read in
    let (others, e', read2) = bind_ok (read_each files n sources rest) _ entries read1 in
    let here = length-read_source files n sources source path first h e in
    let ih = length-read_each files n sources rest others h e' in
    ground (arith, here, ih, read2, length-append first others)

length-source_if :
    (files : Files) (name : String) (o : Option String) → length (source_if files name o) ≤ 1
length-source_if files name none = omega arith
length-source_if files name (some path) = ground arith

length-get_sources :
    (files : Files) (service : Option String) (r : InstanceRecord)
    → length (get_sources files service r) ≤ 3
unfolding get_sources
length-get_sources files service r =
    let dhu = source_if files "dhu" r.log_path in
    let emulator = source_if files "emulator" (some (emu_log_path r.name)) in
    let last = source_if files "service" service in
    omega (
      arith,
      length-append dhu (emulator ++ last),
      length-append emulator last,
      length-source_if files "dhu" r.log_path,
      length-source_if files "emulator" (some (emu_log_path r.name)),
      length-source_if files "service" service,
    )

times_three : (k n m : ℕ) → m ≤ k * n → k ≤ 3 → m ≤ 3 * n
times_three k n m h le =
    let e : 3 ≡ k + (3 - k) = omega (arith, le) in omega (arith, h, ap (λ (j : ℕ). j * n) e)

-- For a positive number of lines, what `read_recent` returns has at most that many entries for
-- each of the three sources.
pub length-read_recent :
    (files : Files) (service : Option String) (r : InstanceRecord) (n : ℕ) (sources : List String)
    (entries : List LogEntry)
    → 0 < n
    → read_recent files service r n sources ≡ ok entries
    → length entries ≤ 3 * n
unfolding read_recent
length-read_recent files service r n sources entries h read =
    times_three (length (get_sources files service r)) n (length entries)
      (length-read_each files n sources (get_sources files service r) entries h read)
      (length-get_sources files service r)
