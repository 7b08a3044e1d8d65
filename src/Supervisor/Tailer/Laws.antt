-- ===== src/Supervisor/Tailer/Laws.antt =====
-- Which lines of a log become events.
use vanpilot.Prelude.{
  ℕ, ◌<◌, ◌≡◌, ◌≢◌, refl, sym, ap, ◌∙◌, String, false, Option, none, some, List, [], ◌∷◌, ◌++◌,
  arith, ◌==◌, ==_refl, nat_eq, string_eq, ltb, Bool-cases, inl, inr,
}
use vanpilot.Prelude.Dict.{Dict, lookup, insert, lookup-insert}
use vanpilot.Exec.{Exn, Result, ok, err}
use vanpilot.Supervisor.Json.{Json}
use vanpilot.Supervisor.Tailer.{
  Tailer, LogFile, parse_log_entry, is_break, onto_first, split_lines, emit_parsed, emit_lines,
  or_zero, tail_file, continue_with,
}

onto_first-append :
    (c : ℕ) (ls ms : List (List ℕ)) → ls ≢ [] → onto_first c (ls ++ ms) ≡ onto_first c ls ++ ms
onto_first-append c [] ms h = elim (h refl) [ ]
onto_first-append c (l ∷ ls) ms h = refl

cons_ne : (l : List ℕ) (ls : List (List ℕ)) → (l ∷ ls) ≢ []
cons_ne l ls h = cc

onto_first_ne : (c : ℕ) (ls : List (List ℕ)) → onto_first c ls ≢ []
onto_first_ne c [] h = cc
onto_first_ne c (l ∷ ls) h = cc

ends_line : (a : List ℕ) → split_lines (a ++ 10 ∷ []) ≢ []
unfolding split_lines
ends_line [] h = cc
ends_line (c ∷ a) h = elim (Bool-cases (is_break c)) [
  | inl at_break ↦ cons_ne [] (split_lines (a ++ 10 ∷ [])) (rw at_break at h)
  | inr inside ↦ onto_first_ne c (split_lines (a ++ 10 ∷ [])) (rw inside at h)
]

-- Text that follows a newline splits on its own.
split_lines-append :
    (a b : List ℕ) → split_lines (a ++ 10 ∷ b) ≡ split_lines (a ++ 10 ∷ []) ++ split_lines b
unfolding split_lines
split_lines-append [] b = refl
split_lines-append (c ∷ a) b = elim (Bool-cases (is_break c)) [
  | inl at_break ↦ rw at_break (ap (λ ls. [] ∷ ls) (split_lines-append a b))
  | inr inside ↦ rw inside (
      ap (onto_first c) (split_lines-append a b)
      ∙ onto_first-append c (split_lines (a ++ 10 ∷ [])) (split_lines b) (ends_line a))
]

emit_parsed-append :
    (r : Result (Option String)) (time_fn : ℕ → ℕ) (agent_id : String)
    (whole first second : Tailer → Result (Unit {0}) × Tailer) (t : Tailer)
    → ((u : Tailer) → whole u ≡ continue_with (first u) second)
    → emit_parsed r time_fn agent_id whole t
      ≡ continue_with (emit_parsed r time_fn agent_id first t) second
emit_parsed-append (err e) time_fn agent_id whole first second t h = refl
emit_parsed-append (ok none) time_fn agent_id whole first second t h = h t
emit_parsed-append (ok (some content)) time_fn agent_id whole first second t h = h _

emit_lines-append :
    (loads : List ℕ → Option Json) (time_fn : ℕ → ℕ) (agent_id : String) (ls ms : List (List ℕ))
    (t : Tailer)
    → emit_lines loads time_fn agent_id (ls ++ ms) t
      ≡ continue_with
          (emit_lines loads time_fn agent_id ls t)
          (emit_lines loads time_fn agent_id ms)
unfolding emit_lines
emit_lines-append loads time_fn agent_id [] ms t = refl
emit_lines-append loads time_fn agent_id (l ∷ ls) ms t =
    emit_parsed-append (parse_log_entry loads l) time_fn agent_id
      (emit_lines loads time_fn agent_id (ls ++ ms)) (emit_lines loads time_fn agent_id ls)
      (emit_lines loads time_fn agent_id ms) t
      (λ u. emit_lines-append loads time_fn agent_id ls ms u)

-- The offsets play no part in the events.
with_offsets : Dict String ℕ → Result (Unit {0}) × Tailer → Result (Unit {0}) × Tailer
with_offsets o (r, t) = (r, record t { offsets = o })

emit_parsed-offsets :
    (o : Dict String ℕ) (r : Result (Option String)) (time_fn : ℕ → ℕ) (agent_id : String)
    (go_on : Tailer → Result (Unit {0}) × Tailer) (t : Tailer)
    → ((u : Tailer) → go_on (record u { offsets = o }) ≡ with_offsets o (go_on u))
    → emit_parsed r time_fn agent_id go_on (record t { offsets = o })
      ≡ with_offsets o (emit_parsed r time_fn agent_id go_on t)
unfolding with_offsets
emit_parsed-offsets o (err e) time_fn agent_id go_on t h = refl
emit_parsed-offsets o (ok none) time_fn agent_id go_on t h = h t
emit_parsed-offsets o (ok (some content)) time_fn agent_id go_on t h = h _

emit_lines-offsets :
    (loads : List ℕ → Option Json) (time_fn : ℕ → ℕ) (agent_id : String) (o : Dict String ℕ)
    (ls : List (List ℕ)) (t : Tailer)
    → emit_lines loads time_fn agent_id ls (record t { offsets = o })
      ≡ with_offsets o (emit_lines loads time_fn agent_id ls t)
unfolding emit_lines with_offsets
emit_lines-offsets loads time_fn agent_id o [] t = refl
emit_lines-offsets loads time_fn agent_id o (l ∷ ls) t =
    emit_parsed-offsets o (parse_log_entry loads l) time_fn agent_id
      (emit_lines loads time_fn agent_id ls) t
      (λ u. emit_lines-offsets loads time_fn agent_id o ls u)

insert-insert :
    (k : String) (v w : ℕ) (d : Dict String ℕ) → insert k v (insert k w d) ≡ insert k v d
unfolding insert
insert-insert k v w [] = rw (==_refl k) refl
insert-insert k v w ((j, x) ∷ d) = elim (Bool-cases (k == j)) [
  | inl same ↦ rw (same, ==_refl k) refl
  | inr other ↦ rw other (rw (other, insert-insert k v w d) refl)
]

-- A file that has grown past the offset is read, and the offset moves to the end.
tail_file-read :
    (loads : List ℕ → Option Json) (time_fn : ℕ → ℕ) (stem : String → String) (path : String)
    (file : LogFile) (n size : ℕ) (new_data : List ℕ) (t : Tailer)
    → or_zero (lookup path t.offsets) ≡ n
    → file.size ≡ some size
    → n < size
    → file.read_from n ≡ ok (new_data, size)
    → tail_file loads time_fn stem path file t
      ≡ with_offsets
          (insert path size t.offsets)
          (emit_lines loads time_fn (stem path) (split_lines new_data) t)
unfolding tail_file
tail_file-read loads time_fn stem path file n size new_data t at_n sized grown read =
    rw (sized, at_n, not_smaller, not_same, read)
      (emit_lines-offsets loads time_fn (stem path) (insert path size t.offsets)
        (split_lines new_data) t)
  where
    not_smaller : ltb size n ≡ false
    not_smaller = ground (arith, grown)

    not_same : (size == n) ≡ false
    not_same = ground (arith, grown)

-- What a first run that returned, and then a second, leave behind.
second_run :
    (x : Result (Unit {0}) × Tailer) (go_on : Tailer → Result (Unit {0}) × Tailer)
    (o : Dict String ℕ)
    → x.0 ≡ ok tt
    → with_offsets o (go_on x.1) ≡ with_offsets o (continue_with x go_on)
second_run (ok _, t) go_on o h = refl
second_run (err e, t) go_on o h = cc

-- For a log whose first part ends in a newline and whose reading raises nothing, tailing it
-- after the first part and again after it has grown leaves exactly the events, offsets and
-- result of tailing the grown log once.
pub tail_file_twice :
    (loads : List ℕ → Option Json) (time_fn : ℕ → ℕ) (stem : String → String) (path : String)
    (first second : LogFile) (a b : List ℕ) (n m k : ℕ) (t : Tailer)
    → or_zero (lookup path t.offsets) ≡ n
    → first.size ≡ some m
    → n < m
    → first.read_from n ≡ ok (a ++ 10 ∷ [], m)
    → second.size ≡ some k
    → m < k
    → second.read_from m ≡ ok (b, k)
    → second.read_from n ≡ ok (a ++ 10 ∷ b, k)
    → (tail_file loads time_fn stem path first t).0 ≡ ok tt
    → tail_file loads time_fn stem path second (tail_file loads time_fn stem path first t).1
      ≡ tail_file loads time_fn stem path second t
unfolding with_offsets
tail_file_twice loads time_fn stem path first second a b n m k t at_n sized grown read sized' grown'
      read' whole returned =
    let emit = emit_lines loads time_fn (stem path) in
    let la = split_lines (a ++ 10 ∷ []) in
    let lb = split_lines b in
    let one =
      tail_file-read loads time_fn stem path first n m (a ++ 10 ∷ []) t at_n sized grown read in
    let u = (emit la t).1 in
    let known : or_zero (lookup path (insert path m t.offsets)) ≡ m =
      rw (lookup-insert path path m t.offsets, ==_refl path) refl in
    let two =
      tail_file-read loads time_fn stem path second m k b
        (record u { offsets = insert path m t.offsets }) known sized' grown' read' in
    let both =
      tail_file-read loads time_fn stem path second n k (a ++ 10 ∷ b) t at_n sized'
        (omega (arith, grown, grown')) whole in
    let ran : (emit la t).0 ≡ ok tt = ap (λ x. x.0) (sym one) ∙ returned in
    let end_ = insert path k t.offsets in
    ap (λ x. tail_file loads time_fn stem path second x.1) one
    ∙ two
    ∙ ap (λ x. with_offsets (insert path k (insert path m t.offsets)) x)
        (emit_lines-offsets loads time_fn (stem path) (insert path m t.offsets) lb u)
    ∙ ap (λ o. with_offsets o (emit lb u)) (insert-insert path k m t.offsets)
    ∙ second_run (emit la t) (emit lb) end_ ran
    ∙ ap (with_offsets end_) (sym (emit_lines-append loads time_fn (stem path) la lb t))
    ∙ ap (λ ls. with_offsets end_ (emit ls t)) (sym (split_lines-append a b))
    ∙ sym both

emit_stops :
    (loads : List ℕ → Option Json) (time_fn : ℕ → ℕ) (agent_id : String) (bad : List ℕ)
    (after : List (List ℕ)) (e : Exn) (t : Tailer)
    → parse_log_entry loads bad ≡ err e
    → emit_lines loads time_fn agent_id (bad ∷ after) t ≡ (err e, t)
unfolding emit_lines
emit_stops loads time_fn agent_id bad after e t raised = rw raised refl

continue_with_ok :
    (x : Result (Unit {0}) × Tailer) (go_on : Tailer → Result (Unit {0}) × Tailer)
    → x.0 ≡ ok tt
    → continue_with x go_on ≡ go_on x.1
continue_with_ok (ok _, t) go_on h = refl
continue_with_ok (err e, t) go_on h = cc

-- A file that has not grown is not read.
tail_file-same :
    (loads : List ℕ → Option Json) (time_fn : ℕ → ℕ) (stem : String → String) (path : String)
    (file : LogFile) (size : ℕ) (t : Tailer)
    → or_zero (lookup path t.offsets) ≡ size
    → file.size ≡ some size
    → tail_file loads time_fn stem path file t ≡ (ok tt, t)
unfolding tail_file
tail_file-same loads time_fn stem path file size t at_size sized =
    rw (sized, at_size, not_smaller, ==_refl size) refl
  where
    not_smaller : ltb size size ≡ false
    not_smaller = ground arith

-- Where a line raises in `parse_log_entry` after lines that do not, `_tail_file` raises the
-- same, has added the events of the lines before it only, and a second call on the same log
-- returns and adds nothing, so that the lines after it are lost.
pub tail_file_raises :
    (loads : List ℕ → Option Json) (time_fn : ℕ → ℕ) (stem : String → String) (path : String)
    (file : LogFile) (n size : ℕ) (new_data bad : List ℕ) (before after : List (List ℕ)) (e : Exn)
    (t : Tailer)
    → or_zero (lookup path t.offsets) ≡ n
    → file.size ≡ some size
    → n < size
    → file.read_from n ≡ ok (new_data, size)
    → split_lines new_data ≡ before ++ bad ∷ after
    → (emit_lines loads time_fn (stem path) before t).0 ≡ ok tt
    → parse_log_entry loads bad ≡ err e
    → let u = (tail_file loads time_fn stem path file t).1 in
      ((tail_file loads time_fn stem path file t).0 ≡ err e)
      × (u.events ≡ (emit_lines loads time_fn (stem path) before t).1.events)
      × (tail_file loads time_fn stem path file u ≡ (ok tt, u))
unfolding with_offsets
tail_file_raises loads time_fn stem path file n size new_data bad before after e t at_n sized grown
      read lines early raised =
    let emit = emit_lines loads time_fn (stem path) in
    let ran : emit (before ++ bad ∷ after) t ≡ (err e, (emit before t).1) =
      emit_lines-append loads time_fn (stem path) before (bad ∷ after) t
      ∙ continue_with_ok (emit before t) (emit (bad ∷ after)) early
      ∙ emit_stops loads time_fn (stem path) bad after e (emit before t).1 raised in
    let one : tail_file loads time_fn stem path file t
        ≡ (err e, record (emit before t).1 { offsets = insert path size t.offsets }) =
      tail_file-read loads time_fn stem path file n size new_data t at_n sized grown read
      ∙ ap (λ ls. with_offsets (insert path size t.offsets) (emit ls t)) lines
      ∙ ap (with_offsets (insert path size t.offsets)) ran in
    let known : or_zero (lookup path (insert path size t.offsets)) ≡ size =
      rw (lookup-insert path path size t.offsets, ==_refl path) refl in
    (
      ap (λ x. x.0) one,
      ap (λ x. x.1.events) one,
      ap (λ x. tail_file loads time_fn stem path file x.1) one
          ∙ tail_file-same loads time_fn stem path file size
              (record (emit before t).1 { offsets = insert path size t.offsets }) known sized
          ∙ ap (λ x. (ok tt, x.1)) (sym one),
    )
