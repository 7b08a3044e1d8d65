-- ===== src/Instances/Service/Interleaving/Sound.antt =====
-- Who owns which slot while requests overlap, and what one operation of a thread may change.
use vanpilot.Prelude.{
  ℕ, String, true, false, ◌≡◌, ◌≢◌, ◌⊎◌, inl, inr, ◌<◌, refl, sym, ◌∙◌, ap, Option, none, some,
  ◌==◌, arith, string_eq, nat_eq, ==_iff, contains, Bool-cases,
}
use vanpilot.Prelude.Dict.{lookup}
use vanpilot.Instances.Ports.{PortSlot, port_slot}
use vanpilot.Instances.Ports.Disjoint.{slot_of_port}
use vanpilot.Instances.Store.Laws.{Identity, identity}
use vanpilot.Instances.Service.Claims.{Claims}
use vanpilot.Instances.Service.Consistency.{Holds}
use vanpilot.Instances.Service.Interleaving.{Phase, set}

abbrev pub slot_of : Option Identity → Option ℕ
slot_of none = none
slot_of (some x) = slot_of_port x.console

-- The slot that a name owns, by what its thread is at and by its record: a slot that is allocated
-- and not recorded yet is the thread's, a record whose slot is released owns none.
unfoldable pub own : Phase → Option Identity → Option ℕ
unfolding slot_of_port
own (Phase.recording r p) x = slot_of_port p.console_port
own Phase.removing x = none
own (Phase.allocating r) x = none
own _ x = slot_of x

-- The record is of a slot.
abbrev pub Slotted : Option Identity → Type 0
Slotted o = (x : Identity) → o ≡ some x → (i : ℕ) × Holds x i

-- The record is there and of the slot with these ports.
abbrev pub Recorded : PortSlot → Option Identity → Type 0
Recorded p o = (i : ℕ) × (x : Identity) × (p ≡ port_slot i) × (o ≡ some x) × Holds x i

-- What a thread knows of its name and of its record.
unfoldable pub Fits : String → Phase → Option Identity → Type 0
Fits n Phase.idle o = Slotted o
Fits n (Phase.checking r) o = (r.name ≡ n) × Slotted o
Fits n (Phase.allocating r) o = (r.name ≡ n) × (o ≡ none)
Fits n (Phase.recording r p) o = (r.name ≡ n) × (o ≡ none) × (i : ℕ) × (p ≡ port_slot i)
Fits n (Phase.launching r p) o = (r.name ≡ n) × Recorded p o
Fits n (Phase.releasing p) o = Recorded p o
Fits n Phase.finding o = Slotted o
Fits n (Phase.marking r) o = (o ≡ some (identity r)) × (i : ℕ) × Holds (identity r) i
Fits n (Phase.stopping r) o = (o ≡ some (identity r)) × (i : ℕ) × Holds (identity r) i
Fits n (Phase.freeing r) o = (o ≡ some (identity r)) × (i : ℕ) × Holds (identity r) i
Fits n Phase.removing o = (x : Identity) × (o ≡ some x)

abbrev pub owned_by : Claims → (String → Phase) → String → Option ℕ
owned_by c phase n = own (phase n) (lookup n c.1)

-- No two names own one slot, and the used slots are exactly the owned ones.
pub record IsSound (c : Claims) (phase : String → Phase) : Type 0 where
  pub fits : (n : String) → Fits n (phase n) (lookup n c.1)
  pub apart :
      (n n' : String) (i : ℕ) → owned_by c phase n ≡ some i → owned_by c phase n' ≡ some i → n ≡ n'
  pub used : (n : String) (i : ℕ) → owned_by c phase n ≡ some i → contains i c.0.used ≡ true
  pub held : (i : ℕ) → contains i c.0.used ≡ true → (n : String) × (owned_by c phase n ≡ some i)
  pub in_range : (i : ℕ) → contains i c.0.used ≡ true → i < c.0.max_slots

-- What one operation of the thread of `n`, from `p` to `p'`, may do to the claims.
pub record Advances (n : String) (c : Claims) (p : Phase) (c' : Claims) (p' : Phase) : Type 0 where
  pub others : (m : String) → (m == n) ≡ false → lookup m c'.1 ≡ lookup m c.1
  pub fits : Fits n p' (lookup n c'.1)
  pub gains :
      (i : ℕ)
      → own p' (lookup n c'.1) ≡ some i
      → (own p (lookup n c.1) ≡ some i) ⊎ (contains i c.0.used ≡ false)
  pub used : (i : ℕ) → own p' (lookup n c'.1) ≡ some i → contains i c'.0.used ≡ true
  pub stays :
      (i : ℕ)
      → contains i c.0.used ≡ true
      → own p (lookup n c.1) ≢ some i
      → contains i c'.0.used ≡ true
  pub accounted :
      (i : ℕ)
      → contains i c'.0.used ≡ true
      → (own p' (lookup n c'.1) ≡ some i)
        ⊎ ((contains i c.0.used ≡ true) × (own p (lookup n c.1) ≢ some i))
  pub in_range : (i : ℕ) → contains i c'.0.used ≡ true → i < c'.0.max_slots

module _ (n : String) (c c' : Claims) (phase : String → Phase) (p' : Phase) where
  at_self : (x : Option Identity) → own (set phase n p' n) x ≡ own p' x
  at_self x = ap (λ p. own p x) (ground (arith, ==_iff n n))

  at_other :
      (m : String)
      → (m == n) ≡ false
      → Advances n c (phase n) c' p'
      → owned_by c' (set phase n p') m ≡ owned_by c phase m
  at_other m differ a = rw (differ, a.others m differ) refl

  -- the owner after the operation is the thread that moved, or it was the owner before
  came_from :
      (m : String) (i : ℕ)
      → Advances n c (phase n) c' p'
      → owned_by c' (set phase n p') m ≡ some i
      → ((m ≡ n) × (own p' (lookup n c'.1) ≡ some i))
        ⊎ (((m == n) ≡ false) × (owned_by c phase m ≡ some i))
  came_from m i a h = elim (Bool-cases (m == n)) [
    | inl same ↦
        let is_n = (==_iff m n).0 same in
        let here : owned_by c' (set phase n p') m ≡ own p' (lookup m c'.1) = rw same refl in
        inl (is_n, ap (λ k. own p' (lookup k c'.1)) (sym is_n) ∙ sym here ∙ h)
    | inr differ ↦ inr (differ, sym (at_other m differ a) ∙ h)
  ]

  -- another name does not own what the thread that moved owns now
  not_taken :
      (m : String) (i : ℕ)
      → IsSound c phase
      → Advances n c (phase n) c' p'
      → (m == n) ≡ false
      → owned_by c phase m ≡ some i
      → own p' (lookup n c'.1) ≢ some i
  not_taken m i k a differ theirs mine = elim (a.gains i mine) [
    | inl before ↦ absurd (ground (arith, k.apart m n i theirs before, ==_iff m n, differ))
    | inr free ↦ absurd (ground (arith, free, k.used m i theirs))
  ]

  -- An operation that does no more keeps the slots apart and accounted for.
  pub Advances-IsSound :
      IsSound c phase → Advances n c (phase n) c' p' → IsSound c' (set phase n p')
  Advances-IsSound k a = record {
    fits = λ m. elim (Bool-cases (m == n)) [
      | inl same ↦ rw (same, (==_iff m n).0 same) a.fits
      | inr differ ↦ rw (differ, a.others m differ) (k.fits m)
    ];
    apart = λ m m' i h h'. elim (came_from m i a h) [
      | inl (is_n, mine) ↦ elim (came_from m' i a h') [
        | inl (is_n', _) ↦ is_n ∙ sym is_n'
        | inr (differ, theirs) ↦ absurd (not_taken m' i k a differ theirs mine)
      ]
      | inr (differ, theirs) ↦ elim (came_from m' i a h') [
        | inl (_, mine) ↦ absurd (not_taken m i k a differ theirs mine)
        | inr (_, theirs') ↦ k.apart m m' i theirs theirs'
      ]
    ];
    used = λ m i h. elim (came_from m i a h) [
      | inl (_, mine) ↦ a.used i mine
      | inr (differ, theirs) ↦
          a.stays i (k.used m i theirs)
            (λ before. absurd (ground (arith, k.apart m n i theirs before, ==_iff m n, differ)))
    ];
    held = λ i h. elim (a.accounted i h) [
      | inl mine ↦ (n, at_self (lookup n c'.1) ∙ mine)
      | inr (taken, not_mine) ↦ still_held i k a taken not_mine
    ];
    in_range = a.in_range;
  }
    where
      still_held :
          (i : ℕ)
          → IsSound c phase
          → Advances n c (phase n) c' p'
          → contains i c.0.used ≡ true
          → own (phase n) (lookup n c.1) ≢ some i
          → (m : String) × (owned_by c' (set phase n p') m ≡ some i)
      still_held i k a taken not_mine =
          let (m, theirs) = k.held i taken in
          elim (Bool-cases (m == n)) [
            | inl same ↦ absurd (not_mine (rw (← (==_iff m n).0 same) theirs))
            | inr differ ↦ (m, at_other m differ a ∙ theirs)
          ]
