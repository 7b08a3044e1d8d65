-- ===== src/Supervisor/Bitmaps/Refinement.antt =====
-- The tracker as two functions: which bytes a key has, and which keys count as sent to a client.
use mathlib.Core.Path.{fun_ext}
use vanpilot.Prelude.{
  String, Bool, true, false, ◌≡◌, refl, ap, ◌∙◌, Option, some, List, [], ◌∷◌, ◌==◌, ◌||◌, ◌&&◌,
  string_eq, contains, if◌then◌else◌,
}
use vanpilot.Prelude.Dict.{Dict}
use vanpilot.Supervisor.Bitmaps.{
  Bytes, Tracker, store_bitmap, store_all, wait_for_new_bitmap, get_bitmap, get_sent_keys,
  mark_sent, clear_client, reconcile,
}
use vanpilot.Supervisor.Bitmaps.Laws.{
  get_bitmap-store_bitmap, get_sent_keys-mark_sent, get_bitmap-mark_sent,
  get_sent_keys-clear_client, reconcile_sent,
}

-- A call that writes.
pub data Call : Type 0 where
  store : (key : String) (image : Bytes) → Call
  mark : (client key : String) → Call
  clear : (client : String) → Call
  reconcile_with : (client : String) (present : List String) → Call
  wait : (arrivals : Dict String Bytes) → Call

unfoldable pub apply : Call → Tracker → Tracker
apply (store key image) t = store_bitmap key image t
apply (mark client key) t = mark_sent client key t
apply (clear client) t = clear_client client t
apply (reconcile_with client present) t = (reconcile client present t).1
apply (wait arrivals) t = (wait_for_new_bitmap arrivals t).1

unfoldable pub run : List Call → Tracker → Tracker
run [] t = t
run (c ∷ cs) t = run cs (apply c t)

-- What a client of the tracker can see.
pub record Sight : Type 0 where
  pub bitmap : String → Option Bytes
  pub is_sent : String → String → Bool

abbrev pub sight : Tracker → Sight
sight t = record {
  bitmap = λ key. get_bitmap key t;
  is_sent = λ client key. contains key (get_sent_keys client t);
}

abbrev put_bitmap : String → Bytes → Sight → Sight
put_bitmap key image a = record a { bitmap = λ k. if k == key then some image else a.bitmap k }

abbrev put_all : Dict String Bytes → Sight → Sight
put_all [] a = a
put_all ((key, image) ∷ rest) a = put_all rest (put_bitmap key image a)

-- The same call on the two functions.
pub change : Call → Sight → Sight
change (store key image) a = put_bitmap key image a
change (mark client key) a = record a {
  is_sent = λ c k. (c == client && k == key) || a.is_sent c k;
}
change (clear client) a = record a { is_sent = λ c k. if c == client then false else a.is_sent c k }
change (reconcile_with client present) a = record a {
  is_sent = λ c k. if c == client then contains k present else a.is_sent c k;
}
change (wait arrivals) a = put_all arrivals a

pub replay : List Call → Sight → Sight
replay [] a = a
replay (c ∷ cs) a = replay cs (change c a)

same_sight :
    (a b : Sight)
    → ((key : String) → a.bitmap key ≡ b.bitmap key)
    → ((client key : String) → a.is_sent client key ≡ b.is_sent client key)
    → a ≡ b
same_sight a b p q =
    let bitmaps = fun_ext p in
    let sents = fun_ext (λ c. fun_ext (q c)) in
    λ i. record { bitmap = bitmaps i; is_sent = sents i }

contains-if :
    (b : Bool) (k : String) (xs ys : List String)
    → contains k (if b then xs else ys) ≡ (if b then contains k xs else contains k ys)
contains-if true k xs ys = refl
contains-if false k xs ys = refl

sight-store_bitmap :
    (key : String) (image : Bytes) (t : Tracker)
    → sight (store_bitmap key image t) ≡ put_bitmap key image (sight t)
unfolding store_bitmap get_sent_keys
sight-store_bitmap key image t =
    same_sight _ _ (λ k. get_bitmap-store_bitmap k key image t) (λ c k. refl)

sight-store_all :
    (arrivals : Dict String Bytes) (t : Tracker)
    → sight (store_all arrivals t) ≡ put_all arrivals (sight t)
unfolding store_all
sight-store_all [] t = refl
sight-store_all ((key, image) ∷ rest) t =
    sight-store_all rest (store_bitmap key image t)
    ∙ ap (put_all rest) (sight-store_bitmap key image t)

sight-apply : (c : Call) (t : Tracker) → sight (apply c t) ≡ change c (sight t)
unfolding apply change clear_client get_bitmap wait_for_new_bitmap store_all get_sent_keys
sight-apply (store key image) t = sight-store_bitmap key image t
sight-apply (mark client key) t =
    same_sight _ _ (λ k. get_bitmap-mark_sent k client key t)
      (λ c k. get_sent_keys-mark_sent c client key k t)
sight-apply (clear client) t =
    same_sight _ _ (λ k. refl)
      (λ c k.
        ap (contains k) (get_sent_keys-clear_client c client t)
        ∙ contains-if (c == client) k [] (get_sent_keys c t))
sight-apply (reconcile_with client present) t =
    same_sight _ _ (λ k. (reconcile_sent client client k present t).1)
      (λ c k.
        ap (contains k) (reconcile_sent client c k present t).0
        ∙ contains-if (c == client) k present (get_sent_keys c t))
sight-apply (wait arrivals) t = sight-store_all arrivals t

-- Any sequence of calls that write to the tracker does to what can be read of it, the bytes of
-- each key and whether a key counts as sent to a client, what the same calls do to two
-- functions.
pub run_refines : (cs : List Call) (t : Tracker) → sight (run cs t) ≡ replay cs (sight t)
unfolding run replay
run_refines [] t = refl
run_refines (c ∷ cs) t = run_refines cs (apply c t) ∙ ap (replay cs) (sight-apply c t)
