-- ===== src/Supervisor/Bitmaps/Fetch.antt =====
-- `GetBitmap` and `ReconcileCache` of supervisor/src/sync_service.py, on the bitmap store of
-- supervisor/src/mcp_bridge.py, which hands every call to the tracker. One round of the loop reads
-- the clock and the state of the call, and waits; what it reads, and the bitmaps that others store
-- while it waits, is given for each round.
use vanpilot.Prelude.{
  ℕ, ◌+◌, zero, suc, String, Bool, true, false, ◌≡◌, Option, none, some, List, [], ◌∷◌, ◌∙◌, arith,
  is_some, string_eq, ==_iff, contains, leb, ltb, get_elem?, Option-cases, inl, inr, ◌||◌, not,
  if◌then◌else◌,
}
use vanpilot.Prelude.Int.{ℤ, pos, negsuc}
use vanpilot.Prelude.Dict.{Dict}
use vanpilot.Supervisor.Bitmaps.{
  Bytes, Tracker, get_bitmap, get_sent_keys, mark_sent, wait_for_new_bitmap,
}
use vanpilot.Supervisor.Bitmaps.Laws.{get_sent_keys-mark_sent, get_bitmap-mark_sent}

pub record Round : Type 0 where
  -- the two readings of `time.monotonic()`, in ms
  pub now : ℕ
  pub now_again : ℕ
  -- `context is None or context.is_active()`
  pub active : Bool
  pub arrivals : Dict String Bytes

abbrev pub is_positive : ℤ → Bool
is_positive (pos n) = ltb 0 n
is_positive (negsuc n) = false

-- `time.monotonic() + wait_ms / 1000.0 if wait_ms > 0 else 0`
abbrev pub deadline_of : ℤ → ℕ → ℕ
deadline_of (pos n) started = if ltb 0 n then started + n else 0
deadline_of (negsuc n) started = 0

-- the loop: `none` while it still waits when the rounds end, `some none` for the empty response
unfoldable pub fetch_loop :
    String → String → ℤ → ℕ → List Round → Tracker → Option (Option Bytes) × Tracker
fetch_loop client key wait_ms deadline [] t = (none, t)
fetch_loop client key wait_ms deadline (r ∷ rounds) t =
    let waited = if ltb r.now_again deadline then (wait_for_new_bitmap r.arrivals t).1 else t in
    let rest = fetch_loop client key wait_ms deadline rounds waited in
    elim (get_bitmap key t) [
      | some data_ ↦ (some (some data_), mark_sent client key t)
      | none ↦
          if not (is_positive wait_ms) || leb deadline r.now
          then (some none, t)
          else (if not r.active then (some none, t) else rest)
    ]

unfoldable pub fetch_bitmap :
    String → String → ℤ → ℕ → List Round → Tracker → Option (Option Bytes) × Tracker
unfolding fetch_loop
fetch_bitmap client key wait_ms started rounds t =
    fetch_loop client key wait_ms (deadline_of wait_ms started) rounds t

-- A round in which the loop ends in any case.
abbrev pub IsLast : ℤ → ℕ → Round → Type 0
IsLast wait_ms started r =
    (not (is_positive wait_ms) || leb (deadline_of wait_ms started) r.now || not r.active) ≡ true

fetch_loop_returns :
    (client key : String) (wait_ms : ℤ) (deadline n : ℕ) (rounds : List Round) (r : Round)
    (t : Tracker)
    → get_elem? rounds n ≡ some r
    → (not (is_positive wait_ms) || leb deadline r.now || not r.active) ≡ true
    → is_some (fetch_loop client key wait_ms deadline rounds t).0 ≡ true
unfolding fetch_loop
fetch_loop_returns client key wait_ms deadline n [] r t at_n last = absurd (ground arith)
fetch_loop_returns client key wait_ms deadline zero (q ∷ rounds) r t at_n last =
    elim (Option-cases (get_bitmap key t)) [
      | inl missing ↦ ground arith
      | inr (d, found) ↦ ground arith
    ]
fetch_loop_returns client key wait_ms deadline (suc n) (q ∷ rounds) r t at_n last =
    let waited = if ltb q.now_again deadline then (wait_for_new_bitmap q.arrivals t).1 else t in
    let ih = fetch_loop_returns client key wait_ms deadline n rounds r waited at_n last in
    elim (Option-cases (get_bitmap key t)) [
      | inl missing ↦ ground (arith, ih)
      | inr (d, found) ↦ ground (arith, ih)
    ]

-- A call of `GetBitmap` has returned by the first round of its loop that finds the deadline
-- reached, the wait not positive or the client gone.
pub fetch_bitmap_returns :
    (client key : String) (wait_ms : ℤ) (started n : ℕ) (rounds : List Round) (r : Round)
    (t : Tracker)
    → get_elem? rounds n ≡ some r
    → IsLast wait_ms started r
    → is_some (fetch_bitmap client key wait_ms started rounds t).0 ≡ true
unfolding fetch_bitmap
fetch_bitmap_returns client key wait_ms started =
    fetch_loop_returns client key wait_ms (deadline_of wait_ms started)

-- What the tracker knows after an answer.
abbrev Delivered : String → String → Option (Option Bytes) × Tracker → Type 0
Delivered client key (answer, t) =
    (data_ : Bytes)
    → answer ≡ some (some data_)
    → (get_bitmap key t ≡ some data_) × (contains key (get_sent_keys client t) ≡ true)

if-Delivered :
    (client key : String) (b : Bool) (p q : Option (Option Bytes) × Tracker)
    → Delivered client key p
    → Delivered client key q
    → Delivered client key (if b then p else q)
if-Delivered client key true p q hp hq = hp
if-Delivered client key false p q hp hq = hq

nothing-Delivered : (client key : String) (t : Tracker) → Delivered client key (some none, t)
nothing-Delivered client key t d e = absurd (ground arith)

found-Delivered :
    (client key : String) (data_ : Bytes) (t : Tracker)
    → get_bitmap key t ≡ some data_
    → Delivered client key (some (some data_), mark_sent client key t)
found-Delivered client key data_ t found d e = (
  get_bitmap-mark_sent key client key t ∙ found ∙ ground (arith, e),
  ground (
    arith,
    get_sent_keys-mark_sent client client key key t,
    ==_iff client client,
    ==_iff key key,
  ),
)

fetch_loop-Delivered :
    (client key : String) (wait_ms : ℤ) (deadline : ℕ) (rounds : List Round) (t : Tracker)
    → Delivered client key (fetch_loop client key wait_ms deadline rounds t)
unfolding fetch_loop
fetch_loop-Delivered client key wait_ms deadline [] t = λ d e. absurd (ground arith)
fetch_loop-Delivered client key wait_ms deadline (q ∷ rounds) t =
    let waited = if ltb q.now_again deadline then (wait_for_new_bitmap q.arrivals t).1 else t in
    let ih = fetch_loop-Delivered client key wait_ms deadline rounds waited in
    let nothing = nothing-Delivered client key t in
    elim (Option-cases (get_bitmap key t)) [
      | inl missing ↦
          rw (missing, fetch_loop)
            (if-Delivered client key (not (is_positive wait_ms) || leb deadline q.now) _ _ nothing
              (if-Delivered client key (not q.active) _ _ nothing ih))
      | inr (d, found) ↦ rw (found, fetch_loop) (found-Delivered client key d t found)
    ]

-- A bitmap that `GetBitmap` returns is the one stored under its key, and the key then counts as
-- sent to the client.
pub fetch_bitmap_found :
    (client key : String) (wait_ms : ℤ) (started : ℕ) (rounds : List Round) (t : Tracker)
    (data_ : Bytes)
    → (fetch_bitmap client key wait_ms started rounds t).0 ≡ some (some data_)
    → let t' = (fetch_bitmap client key wait_ms started rounds t).1 in
      (get_bitmap key t' ≡ some data_) × (contains key (get_sent_keys client t') ≡ true)
unfolding fetch_bitmap
fetch_bitmap_found client key wait_ms started =
    fetch_loop-Delivered client key wait_ms (deadline_of wait_ms started)
