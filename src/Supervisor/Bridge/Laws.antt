-- ===== src/Supervisor/Bridge/Laws.antt =====
-- What a client gets of a submitted bitmap.
use vanpilot.Prelude.{
  ℕ, String, true, ◌≡◌, refl, Option, some, List, [], ◌∷◌, ◌++◌, arith, not, string_eq, ==_iff,
  contains, is_some,
}
use vanpilot.Prelude.Int.{ℤ, pos}
use vanpilot.Supervisor.Events.{Event, add_event, bitmap_payload, leb_ℤ}
use vanpilot.Supervisor.Events.Laws.{of_time}
use vanpilot.Supervisor.Bitmaps.{Bytes, Tracker, get_bitmap, has_bitmap}
use vanpilot.Supervisor.Bitmaps.Laws.{get_bitmap-store_bitmap, reconcile_missing}
use vanpilot.Supervisor.Bitmaps.Fetch.{Round, fetch_bitmap, fetch_loop}
use vanpilot.Supervisor.Bridge.{put, Stores, on_bitmap_submitted, reconcile_cache, client_id}

get_bitmap-put :
    (key : String) (image : Bytes) (t : Tracker) → get_bitmap key (put key image t) ≡ some image
get_bitmap-put key image t = ground (arith, get_bitmap-store_bitmap key key image t, ==_iff key key)

has_bitmap-get_bitmap : (key : String) (t : Tracker) → has_bitmap key t ≡ is_some (get_bitmap key t)
unfolding has_bitmap get_bitmap
has_bitmap-get_bitmap key t = refl

-- Once `on_bitmap_submitted` has returned, a call of `GetBitmap` for its key returns its image
-- in the first round, for every client, wait and clock.
pub fetch_bitmap-on_bitmap_submitted :
    (now : ℕ) (key : String) (image : Bytes) (s : Stores) (client : String) (wait_ms : ℤ)
    (started : ℕ) (r : Round) (rounds : List Round)
    → (fetch_bitmap client key wait_ms started
        (r ∷ rounds)
        (on_bitmap_submitted now key image s).tracker).0
      ≡ some (some image)
unfolding fetch_bitmap fetch_loop on_bitmap_submitted
fetch_bitmap-on_bitmap_submitted now key image s client wait_ms started r rounds =
    rw (get_bitmap-put key image s.tracker, fetch_loop) refl

of_time-add_event :
    (t : ℤ) (e : Event) (events : List Event)
    → of_time t (add_event e events) ≡ of_time t events ++ of_time t (e ∷ [])
unfolding of_time add_event
of_time-add_event t e [] = refl
of_time-add_event t e (x ∷ xs) = ground (arith, of_time-add_event t e xs)

leb_ℤ_refl : (t : ℤ) → leb_ℤ t t ≡ true
unfolding leb_ℤ
leb_ℤ_refl t = ground arith

-- `on_bitmap_submitted` adds one event of its time, with its key and image, after the stored
-- events of that time.
pub of_time-on_bitmap_submitted :
    (now : ℕ) (key : String) (image : Bytes) (s : Stores)
    → of_time (pos now) (on_bitmap_submitted now key image s).events
      ≡ of_time (pos now) s.events
        ++ (record { timestamp_ms = pos now; payload = bitmap_payload key image }) ∷ []
unfolding on_bitmap_submitted of_time
of_time-on_bitmap_submitted now key image s = ground (
  arith,
  of_time-add_event (pos now)
      (record { timestamp_ms = pos now; payload = bitmap_payload key image }) s.events,
  leb_ℤ_refl (pos now),
)

-- After `on_bitmap_submitted` a ReconcileCache reports its key as missing exactly when the
-- client did not name it.
pub reconcile_cache-on_bitmap_submitted :
    (now : ℕ) (key : String) (image : Bytes) (s : Stores) (peer : Option String)
    (present : List String)
    → contains key (reconcile_cache peer present (on_bitmap_submitted now key image s)).0
      ≡ not (contains key present)
unfolding reconcile_cache on_bitmap_submitted
reconcile_cache-on_bitmap_submitted now key image s peer present = ground (
  arith,
  reconcile_missing (client_id peer) key present (put key image s.tracker),
  has_bitmap-get_bitmap key (put key image s.tracker),
  get_bitmap-put key image s.tracker,
)
