-- ===== src/Supervisor/Events/Laws.antt =====
-- What `get_events` returns.
use vanpilot.Prelude.{
  ℕ, zero, suc, ◌≤◌, ◌≡◌, refl, ap, ◌∙◌, true, false, ◌&&◌, List, [], ◌∷◌, arith, leb→le, length,
  take, length-take, if◌then◌else◌, Bool-cases, inl, inr,
}
use vanpilot.Prelude.Int.{ℤ, pos, negsuc, ◌≤ℤ◌}
use vanpilot.Supervisor.Events.{
  Event, leb_ℤ, at_or_after, insert_by_time, sort_by_time, slice_to, get_events,
}

-- The events of a list come in the order of their times, none before `low`.
unfoldable pub SortedFrom : ℤ → List Event → Type 0
SortedFrom low [] = Unit {0}
SortedFrom low (e ∷ es) = (low ≤ℤ e.timestamp_ms) × SortedFrom e.timestamp_ms es

-- the events of the time `t`, in the order of the list
unfoldable pub of_time : ℤ → List Event → List Event
of_time t [] = []
of_time t (e ∷ es) =
    let rest = of_time t es in
    if leb_ℤ t e.timestamp_ms && leb_ℤ e.timestamp_ms t then e ∷ rest else rest

leb_ℤ→≤ : (a b : ℤ) → leb_ℤ a b ≡ true → a ≤ℤ b
unfolding leb_ℤ
leb_ℤ→≤ a b h = leb→le _ _ h

leb_ℤ_false : (a b : ℤ) → leb_ℤ a b ≡ false → b ≤ℤ a
unfolding leb_ℤ
leb_ℤ_false a b h = ground arith

-- Equal times are on the same side of a bound.
same_side : (since t u : ℤ) → (leb_ℤ t u && leb_ℤ u t) ≡ true → leb_ℤ since t ≡ leb_ℤ since u
unfolding leb_ℤ
same_side since t u h = ground arith

same_pair :
    (t u v : ℤ)
    → (leb_ℤ t u && leb_ℤ u t) ≡ true
    → (leb_ℤ t v && leb_ℤ v t) ≡ true
    → leb_ℤ u v ≡ true
unfolding leb_ℤ
same_pair t u v hu hv = ground arith

insert_by_time-SortedFrom :
    (low : ℤ) (e : Event) (xs : List Event)
    → low ≤ℤ e.timestamp_ms
    → SortedFrom low xs
    → SortedFrom low (insert_by_time e xs)
unfolding SortedFrom insert_by_time
insert_by_time-SortedFrom low e [] h s = (h, tt)
insert_by_time-SortedFrom low e (x ∷ xs) h (hx, s) =
    elim (Bool-cases (leb_ℤ e.timestamp_ms x.timestamp_ms)) [
      | inl before ↦ rw before (h, (leb_ℤ→≤ _ _ before, s))
      | inr later ↦
          rw later (hx, insert_by_time-SortedFrom x.timestamp_ms e xs (leb_ℤ_false _ _ later) s)
    ]

weaken : (low low' : ℤ) (xs : List Event) → low' ≤ℤ low → SortedFrom low xs → SortedFrom low' xs
unfolding SortedFrom
weaken low low' [] h s = tt
weaken low low' (e ∷ es) h (he, s) = (omega (arith, h, he), s)

sort_by_time-SortedFrom :
    (since : ℤ) (xs : List Event) → SortedFrom since (sort_by_time (at_or_after since xs))
unfolding sort_by_time at_or_after SortedFrom
sort_by_time-SortedFrom since [] = tt
sort_by_time-SortedFrom since (e ∷ es) = elim (Bool-cases (leb_ℤ since e.timestamp_ms)) [
  | inl kept ↦
      rw kept
        (insert_by_time-SortedFrom since e _ (leb_ℤ→≤ _ _ kept) (sort_by_time-SortedFrom since es))
  | inr dropped ↦ rw dropped (sort_by_time-SortedFrom since es)
]

take-SortedFrom :
    (n : ℕ) (low : ℤ) (xs : List Event) → SortedFrom low xs → SortedFrom low (take n xs)
unfolding SortedFrom
take-SortedFrom zero low xs s = tt
take-SortedFrom (suc n) low [] s = tt
take-SortedFrom (suc n) low (e ∷ es) (h, s) = (h, take-SortedFrom n e.timestamp_ms es s)

-- The events that `get_events` returns come in the order of their times and none is from before
-- the bound, for every `max_count`, negative ones too.
pub get_events-SortedFrom :
    (since max_count : ℤ) (events : List Event)
    → SortedFrom since (get_events since max_count events)
unfolding get_events slice_to
get_events-SortedFrom since (pos n) events =
    take-SortedFrom n since _ (sort_by_time-SortedFrom since events)
get_events-SortedFrom since (negsuc n) events =
    take-SortedFrom _ since _ (sort_by_time-SortedFrom since events)

of_time-insert :
    (t : ℤ) (e : Event) (xs : List Event)
    → of_time t (insert_by_time e xs) ≡ (
        if leb_ℤ t e.timestamp_ms && leb_ℤ e.timestamp_ms t then e ∷ of_time t xs else of_time t xs)
unfolding of_time insert_by_time
of_time-insert t e [] = refl
of_time-insert t e (x ∷ xs) =
    ground (arith, same_pair t e.timestamp_ms x.timestamp_ms, of_time-insert t e xs)

of_time-sort :
    (since t : ℤ) (xs : List Event)
    → of_time t (sort_by_time (at_or_after since xs)) ≡ (if leb_ℤ since t then of_time t xs else [])
unfolding of_time sort_by_time at_or_after
of_time-sort since t [] = ground arith
of_time-sort since t (e ∷ es) = ground (
  arith,
  same_side since t e.timestamp_ms,
  of_time-sort since t es,
  of_time-insert t e (sort_by_time (at_or_after since es)),
)

take_all : (n : ℕ) (xs : List Event) → length xs ≤ n → take n xs ≡ xs
take_all zero [] h = refl
take_all zero (x ∷ xs) h = absurd (omega arith)
take_all (suc n) [] h = refl
take_all (suc n) (x ∷ xs) h = ap (λ r. x ∷ r) (take_all n xs (omega arith))

length-insert : (e : Event) (xs : List Event) → length (insert_by_time e xs) ≡ suc (length xs)
unfolding insert_by_time
length-insert e [] = refl
length-insert e (x ∷ xs) = ground (arith, length-insert e xs)

length-sort :
    (since : ℤ) (xs : List Event) → length (sort_by_time (at_or_after since xs)) ≤ length xs
unfolding sort_by_time at_or_after
length-sort since [] = omega arith
length-sort since (e ∷ es) =
    ground (arith, length-sort since es, length-insert e (sort_by_time (at_or_after since es)))

-- With room for all stored events, `get_events` returns for every time from the bound on exactly
-- the stored events of that time, in the order in which they were added, and none from before
-- the bound.
pub get_events_complete :
    (since t : ℤ) (n : ℕ) (events : List Event)
    → length events ≤ n
    → of_time t (get_events since (pos n) events) ≡ (if leb_ℤ since t then of_time t events else [])
unfolding get_events slice_to
get_events_complete since t n events h =
    let room = length-sort since events in
    ap (of_time t) (take_all n (sort_by_time (at_or_after since events)) (omega (arith, room, h)))
    ∙ of_time-sort since t events

-- `get_events` with a `max_count` that is not negative returns at most so many events.
pub length-get_events :
    (since : ℤ) (n : ℕ) (events : List Event) → length (get_events since (pos n) events) ≤ n
unfolding get_events slice_to
length-get_events since n events =
    let l = length-take n (sort_by_time (at_or_after since events)) in omega (arith, l)
