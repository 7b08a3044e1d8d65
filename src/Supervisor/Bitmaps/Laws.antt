-- ===== src/Supervisor/Bitmaps/Laws.antt =====
-- What the operations of the tracker do to what it answers.
use vanpilot.Prelude.{
  String, ◌≡◌, refl, ◌||◌, ◌&&◌, not, some, List, [], ◌∷◌, arith, ◌==◌, string_eq, ==_iff, contains,
  Bool-cases, inl, inr, if◌then◌else◌,
}
use vanpilot.Prelude.Dict.{keys, lookup, lookup-insert, lookup-erase, contains-keys}
use vanpilot.Supervisor.Bitmaps.{
  or_no_keys, Bytes, Tracker, store_bitmap, get_bitmap, has_bitmap, add, get_sent_keys, mark_sent,
  clear_client, without, reconcile,
}

-- A stored bitmap is what `get_bitmap` answers for its key, and for no other key.
pub get_bitmap-store_bitmap :
    (j k : String) (image : Bytes) (t : Tracker)
    → get_bitmap j (store_bitmap k image t) ≡ (if j == k then some image else get_bitmap j t)
unfolding get_bitmap store_bitmap
get_bitmap-store_bitmap j k image t = lookup-insert j k image t.bitmaps

contains-add : (j k : String) (ks : List String) → contains j (add k ks) ≡ (j == k || contains j ks)
unfolding add
contains-add j k ks = ground (arith, ==_iff j k)

contains-without :
    (k : String) (xs ks : List String)
    → contains k (without xs ks) ≡ (contains k xs && not (contains k ks))
unfolding without
contains-without k [] ks = refl
contains-without k (x ∷ xs) ks = ground (arith, ==_iff k x, contains-without k xs ks)

-- `mark_sent` adds its key to those of its client, and to those of no other client.
pub get_sent_keys-mark_sent :
    (c d k j : String) (t : Tracker)
    → contains j (get_sent_keys c (mark_sent d k t))
      ≡ ((c == d && j == k) || contains j (get_sent_keys c t))
unfolding get_sent_keys mark_sent
get_sent_keys-mark_sent c d k j t = elim (Bool-cases (c == d)) [
  | inl same ↦ ground (
    arith,
    (==_iff c d).0 same,
    ==_iff c d,
    lookup-insert c d (add k (or_no_keys (lookup d t.sent))) t.sent,
    contains-add j k (or_no_keys (lookup d t.sent)),
  )
  | inr differ ↦ ground (arith, lookup-insert c d (add k (or_no_keys (lookup d t.sent))) t.sent)
]

pub get_bitmap-mark_sent :
    (j client k : String) (t : Tracker) → get_bitmap j (mark_sent client k t) ≡ get_bitmap j t
unfolding get_bitmap mark_sent
get_bitmap-mark_sent j client k t = refl

-- After `clear_client` no key counts as sent to the client, and those of the other clients are
-- as before.
pub get_sent_keys-clear_client :
    (c d : String) (t : Tracker)
    → get_sent_keys c (clear_client d t) ≡ (if c == d then [] else get_sent_keys c t)
unfolding get_sent_keys clear_client
get_sent_keys-clear_client c d t = ground (arith, lookup-erase c d t.sent)

-- reconcile reports a key as missing exactly when a bitmap is stored under it and the client did
-- not name it.
pub reconcile_missing :
    (client k : String) (present : List String) (t : Tracker)
    → contains k (reconcile client present t).0 ≡ (has_bitmap k t && not (contains k present))
unfolding reconcile has_bitmap
reconcile_missing client k present t =
    ground (arith, contains-without k (keys t.bitmaps) present, contains-keys k t.bitmaps)

-- After reconcile the keys that count as sent to the client are those that it named; those of
-- the other clients and all bitmaps are as before.
pub reconcile_sent :
    (client c k : String) (present : List String) (t : Tracker)
    → let t' = (reconcile client present t).1 in
      (get_sent_keys c t' ≡ (if c == client then present else get_sent_keys c t))
      × (get_bitmap k t' ≡ get_bitmap k t)
unfolding reconcile get_sent_keys get_bitmap
reconcile_sent client c k present t = (ground (arith, lookup-insert c client present t.sent), refl)
