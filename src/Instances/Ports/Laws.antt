-- ===== src/Instances/Ports/Laws.antt =====
-- What `allocate` and `release` do to the set of used slots.
use native.Mathlib.Nat.{zero-add}
use vanpilot.Prelude.{
  ℕ, zero, suc, ◌+◌, ◌≤◌, ◌<◌, ◌≡◌, inl, inr, refl, true, false, none, some, Option-cases, ◌↔◌,
  List, [], ◌∷◌, arith, ◌==◌, nat_eq, ==_iff, contains, Bool-cases, if◌then◌else◌,
}
use vanpilot.Exec.{ok, err, runtime_error}
use vanpilot.Instances.Ports.{
  PortSlot, PortAllocator, port_slot, first_free, discard, allocate, release,
}

pub contains-discard :
    (i j : ℕ) (used : List ℕ)
    → contains j (discard i used) ≡ (if j == i then false else contains j used)
unfolding discard
contains-discard i j [] = ground arith
contains-discard i j (k ∷ used) = ground (arith, contains-discard i j used)

-- The slot that the search returns is in range and free, and every slot before it is taken.
pub record IsLowest (from upto : ℕ) (used : List ℕ) (i : ℕ) : Type 0 where
  pub above : from ≤ i
  pub below : i < upto
  pub free : contains i used ≡ false
  pub taken : (j : ℕ) → from ≤ j → j < i → contains j used ≡ true

first_free-some :
    (rounds from i : ℕ) (used : List ℕ)
    → first_free rounds from used ≡ some i
    → IsLowest from (from + rounds) used i
unfolding first_free
first_free-some zero from i used h = cc
first_free-some (suc rounds) from i used h = elim (Bool-cases (contains from used)) [
  | inl busy ↦ step busy (first_free-some rounds (from + 1) i used (ground arith))
  | inr open_slot ↦ here open_slot (ground arith)
]
  where
    step :
        contains from used ≡ true
        → IsLowest (from + 1) (from + 1 + rounds) used i
        → IsLowest from (from + suc rounds) used i
    step busy r = record {
      above = omega (arith, r.above);
      below = omega (arith, r.below);
      free = r.free;
      taken = λ j lo hi. elim (Bool-cases (j == from)) [
        | inl same ↦ rw ((==_iff j from).0 same) busy
        | inr differ ↦ r.taken j (ground arith) hi
      ];
    }

    here : contains from used ≡ false → from ≡ i → IsLowest from (from + suc rounds) used i
    here open_slot e = record {
      above = omega arith;
      below = omega arith;
      free = rw (← e) open_slot;
      taken = λ j lo hi. absurd (omega arith);
    }

first_free-none :
    (rounds from : ℕ) (used : List ℕ)
    → first_free rounds from used ≡ none
    → (j : ℕ) → from ≤ j
    → j < from + rounds
    → contains j used ≡ true
unfolding first_free
first_free-none zero from used h j lo hi = absurd (omega arith)
first_free-none (suc rounds) from used h j lo hi = elim (Bool-cases (j == from)) [
  | inl same ↦ rw ((==_iff j from).0 same) (ground arith)
  | inr differ ↦
      first_free-none rounds (from + 1) used (ground arith) j (ground arith) (omega arith)
]

-- What a call of `allocate` that returned `p` did.
abbrev pub Allocated : PortAllocator → PortAllocator → PortSlot → Type 0
Allocated a b p =
    (i : ℕ) × IsLowest 0 a.max_slots a.used i
    × (p ≡ port_slot i)
    × (b ≡ record a { used = i ∷ a.used })

-- A successful allocate returns the ports of the lowest free slot below `max_slots` and marks
-- just that slot as used.
pub allocate-Allocated :
    (a : PortAllocator) {p : PortSlot} → (allocate a).0 ≡ ok p → Allocated a (allocate a).1 p
unfolding allocate
allocate-Allocated a {p} h = elim (Option-cases (first_free a.max_slots 0 a.used)) [
  | inl full ↦ absurd (ground arith)
  | inr (i, found) ↦ (
    i,
    rw (← zero-add a.max_slots) (first_free-some a.max_slots 0 i a.used found),
    ground arith,
    ground arith,
  )
]

abbrev pub AllUsed : PortAllocator → Type 0
AllUsed a = (j : ℕ) → j < a.max_slots → contains j a.used ≡ true

-- allocate raises RuntimeError with the allocator unchanged exactly when every slot below
-- `max_slots` is used.
pub allocate_full : (a : PortAllocator) → (allocate a ≡ (err runtime_error, a)) ↔ AllUsed a
unfolding allocate
allocate_full a = elim (Option-cases (first_free a.max_slots 0 a.used)) [
  | inl full ↦ (
    λ _ j hi. first_free-none a.max_slots 0 a.used full j (omega arith) (omega arith),
    λ _. ground arith,
  )
  | inr (i, found) ↦ (
    λ e. absurd (ground (arith, e)),
    λ all. absurd (
        let r = first_free-some a.max_slots 0 i a.used found in
        let in_range : i < a.max_slots = omega (arith, r.below) in
        ground (arith, r.free, all i in_range)),
  )
]

pub discard_absent : (i : ℕ) (used : List ℕ) → contains i used ≡ false → discard i used ≡ used
unfolding discard
discard_absent i [] h = refl
discard_absent i (j ∷ used) h = ground (arith, discard_absent i used)

-- Releasing the slot that allocate returned restores the allocator.
pub release-allocate :
    (a : PortAllocator) {p : PortSlot}
    → (allocate a).0 ≡ ok p
    → release p.slot_index (allocate a).1 ≡ (ok tt, a)
unfolding allocate release discard port_slot
release-allocate a {p} h = elim (Option-cases (first_free a.max_slots 0 a.used)) [
  | inl full ↦ absurd (ground arith)
  | inr (i, found) ↦
      ground (arith, discard_absent i a.used, (first_free-some a.max_slots 0 i a.used found).free)
]
