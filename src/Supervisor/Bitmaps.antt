-- ===== src/Supervisor/Bitmaps.antt =====
-- supervisor/src/bitmap_cache_tracker.py: the bitmaps, and which client was sent which. The lock
-- makes every method one step. A Python set is a list that is only asked for membership.
pub mod Laws
pub mod Fetch
pub mod Refinement
use vanpilot.Prelude.{
  ℕ, String, Bool, true, false, ◌||◌, not, Option, none, some, List, [], ◌∷◌, string_eq, contains,
  if◌then◌else◌,
}
use vanpilot.Prelude.Dict.{Dict, keys, lookup, insert, erase, has_key}

abbrev pub Bytes : Type 0
Bytes = List ℕ

pub record Tracker : Type 0 where
  pub bitmaps : Dict String Bytes
  pub sent : Dict String (List String)
  -- whether `_new_bitmap_event` is set
  pub woken : Bool

-- `BitmapCacheTracker.__init__`
abbrev pub empty_tracker : Tracker
empty_tracker = record { bitmaps = []; sent = []; woken = false }

unfoldable pub store_bitmap : String → Bytes → Tracker → Tracker
store_bitmap cache_key image_data t = record t {
  bitmaps = insert cache_key image_data t.bitmaps;
  woken = true;
}

-- the bitmaps that other threads store, one after the other
unfoldable pub store_all : Dict String Bytes → Tracker → Tracker
unfolding store_bitmap
store_all [] t = t
store_all ((cache_key, image_data) ∷ rest) t = store_all rest (store_bitmap cache_key image_data t)

-- `wait_for_new_bitmap`, while the bitmaps `arrivals` are stored by other threads: whether the
-- event was set, which it no longer is afterwards
unfoldable pub wait_for_new_bitmap : Dict String Bytes → Tracker → Bool × Tracker
unfolding store_all
wait_for_new_bitmap arrivals t =
    let t' = store_all arrivals t in (t'.woken, record t' { woken = false })

unfoldable pub get_bitmap : String → Tracker → Option Bytes
get_bitmap cache_key t = lookup cache_key t.bitmaps

unfoldable pub has_bitmap : String → Tracker → Bool
has_bitmap cache_key t = has_key cache_key t.bitmaps

unfoldable pub all_keys : Tracker → List String
all_keys t = keys t.bitmaps

-- `set.add`
unfoldable pub add : String → List String → List String
add k ks = if contains k ks then ks else k ∷ ks

abbrev pub or_no_keys : Option (List String) → List String
or_no_keys none = []
or_no_keys (some ks) = ks

unfoldable pub get_sent_keys : String → Tracker → List String
get_sent_keys client_id t = or_no_keys (lookup client_id t.sent)

unfoldable pub mark_sent : String → String → Tracker → Tracker
unfolding add
mark_sent client_id cache_key t =
    let ks = or_no_keys (lookup client_id t.sent) in
    record t { sent = insert client_id (add cache_key ks) t.sent }

unfoldable pub clear_client : String → Tracker → Tracker
clear_client client_id t = record t { sent = erase client_id t.sent }

-- the difference of two sets
unfoldable pub without : List String → List String → List String
without [] ks = []
without (k ∷ xs) ks = let rest = without xs ks in if contains k ks then rest else k ∷ rest

unfoldable pub reconcile : String → List String → Tracker → List String × Tracker
unfolding without
reconcile client_id present_keys t = (
  without (keys t.bitmaps) present_keys,
  record t { sent = insert client_id present_keys t.sent },
)
