-- ===== src/Instances/Service/Consistency.antt =====
-- The ports and the records agree, after any sequence of requests.
use vanpilot.Prelude.{
  ℕ, String, true, false, ◌≡◌, ◌≢◌, ◌⊎◌, ◌<◌, ap, sym, ◌∙◌, none, some, List, [], arith, ◌==◌,
  nat_eq, string_eq, ==_iff, contains, Bool-cases, inl, inr,
}
use vanpilot.Prelude.Dict.{Dict, lookup, insert, erase, lookup-insert, lookup-erase}
use vanpilot.Instances.Ports.{port_slot, port_allocator, discard}
use vanpilot.Instances.Ports.Laws.{IsLowest, contains-discard}
use vanpilot.Instances.Store.Laws.{Identity}
use vanpilot.Instances.Service.Claims.{Claims, claim}

-- The ports of an instance are those of a slot.
pub record Holds (x : Identity) (i : ℕ) : Type 0 where
  pub console : x.console ≡ (port_slot i).console_port
  pub adb : x.adb ≡ (port_slot i).adb_port
  pub aa_forward : x.aa_forward ≡ (port_slot i).aa_forward_port

-- Every instance holds the ports of a slot that is marked as used, no two instances those of one
-- slot; and every used slot is in range and held by an instance.
pub record IsConsistent (c : Claims) : Type 0 where
  pub owned :
      (n : String) (x : Identity)
      → lookup n c.1 ≡ some x
      → (i : ℕ) × Holds x i × (contains i c.0.used ≡ true)
  pub named : (n : String) (x : Identity) → lookup n c.1 ≡ some x → x.name ≡ n
  pub apart :
      (n n' : String) (x x' : Identity)
      → lookup n c.1 ≡ some x
      → lookup n' c.1 ≡ some x'
      → x.console ≡ x'.console
      → n ≡ n'
  pub in_range : (i : ℕ) → contains i c.0.used ≡ true → i < c.0.max_slots
  pub held :
      (i : ℕ)
      → contains i c.0.used ≡ true
      → (n : String) × (x : Identity) × (lookup n c.1 ≡ some x) × Holds x i

pub empty-IsConsistent : (max_slots : ℕ) → IsConsistent (port_allocator max_slots, [])
unfolding port_allocator lookup
empty-IsConsistent max_slots = record {
  owned = λ n x h. absurd (ground arith);
  named = λ n x h. absurd (ground arith);
  apart = λ n n' x x' h h' e. absurd (ground arith);
  in_range = λ i h. absurd (ground arith);
  held = λ i h. absurd (ground arith);
}

slot-injective : (i j : ℕ) → (port_slot i).console_port ≡ (port_slot j).console_port → i ≡ j
unfolding port_slot
slot-injective i j h = omega arith

inserted :
    (m n : String) (x y : Identity) (d : Dict String Identity)
    → lookup m (insert n x d) ≡ some y
    → ((m ≡ n) × (y ≡ x)) ⊎ (lookup m d ≡ some y)
inserted m n x y d h = elim (Bool-cases (m == n)) [
  | inl same ↦ inl ((==_iff m n).0 same, ground (arith, lookup-insert m n x d))
  | inr differ ↦ inr (ground (arith, lookup-insert m n x d))
]

erased :
    (m n : String) (y : Identity) (d : Dict String Identity)
    → lookup m (erase n d) ≡ some y
    → ((m == n) ≡ false) × (lookup m d ≡ some y)
erased m n y d h = elim (Bool-cases (m == n)) [
  | inl same ↦ absurd (ground (arith, lookup-erase m n d))
  | inr differ ↦ (differ, ground (arith, lookup-erase m n d))
]

-- Who holds the ports of one slot holds no other.
Holds-injective : (x y : Identity) (i j : ℕ) → Holds x i → Holds y j → x.console ≡ y.console → i ≡ j
Holds-injective x y i j hx hy e = slot-injective i j (sym hx.console ∙ e ∙ hy.console)

Holds-console : (x y : Identity) (i : ℕ) → Holds x i → Holds y i → x.console ≡ y.console
Holds-console x y i hx hy = hx.console ∙ sym hy.console

-- No instance holds a free slot.
free_slot :
    (m : String) (x y : Identity) (i : ℕ) (c : Claims)
    → IsConsistent c
    → contains i c.0.used ≡ false
    → Holds x i
    → lookup m c.1 ≡ some y
    → x.console ≢ y.console
free_slot m x y i c k free holds there e =
    let (j, holds_j, used_j) = k.owned m y there in
    let same = Holds-injective x y i j holds holds_j e in
    absurd (ground (arith, same, free, used_j))

-- Taking a free slot for a new name keeps the claims consistent.
pub claim-IsConsistent :
    (n : String) (x : Identity) (i : ℕ) (c : Claims)
    → IsConsistent c
    → lookup n c.1 ≡ none
    → IsLowest 0 c.0.max_slots c.0.used i
    → x.name ≡ n
    → Holds x i
    → IsConsistent (claim n x i c)
claim-IsConsistent n x i c k absent lowest name_of holds = record {
  owned = λ m y h. elim (inserted m n x y c.1 h) [
    | inl (_, is_x) ↦ (i, rw is_x holds, ground arith)
    | inr there ↦ let (j, holds_j, used_j) = k.owned m y there in (j, holds_j, ground arith)
  ];
  named = λ m y h. elim (inserted m n x y c.1 h) [
    | inl (is_n, is_x) ↦ rw (is_n, is_x) name_of
    | inr there ↦ k.named m y there
  ];
  apart = λ m m' y y' h h' e. elim (inserted m n x y c.1 h) [
    | inl (is_n, is_x) ↦ elim (inserted m' n x y' c.1 h') [
      | inl (is_n', _) ↦ is_n ∙ sym is_n'
      | inr there ↦ absurd (free_slot m' x y' i c k lowest.free holds there (rw (← is_x) e))
    ]
    | inr found ↦ elim (inserted m' n x y' c.1 h') [
      | inl (_, is_x) ↦ absurd (free_slot m x y i c k lowest.free holds found (rw (← is_x) (sym e)))
      | inr there ↦ k.apart m m' y y' found there e
    ]
  ];
  in_range = λ j h. elim (Bool-cases (j == i)) [
    | inl same ↦ rw ((==_iff j i).0 same) lowest.below
    | inr differ ↦ k.in_range j (ground arith)
  ];
  held = λ j h. elim (Bool-cases (j == i)) [
    | inl same ↦
        (n, x, ground (arith, lookup-insert n n x c.1, ==_iff n n), rw ((==_iff j i).0 same) holds)
    | inr differ ↦
        let (m, y, there, holds_j) = k.held j (ground arith) in
        (m, y, ground (arith, lookup-insert m n x c.1, ==_iff m n), holds_j)
  ];
}

pub not_discarded :
    (i j : ℕ) (used : List ℕ)
    → contains j (discard i used) ≡ true
    → ((j == i) ≡ false) × (contains j used ≡ true)
not_discarded i j used h = elim (Bool-cases (j == i)) [
  | inl same ↦ absurd (ground (arith, contains-discard i j used))
  | inr other ↦ (other, ground (arith, contains-discard i j used))
]

-- The holder of another slot stays.
not_erased :
    (m n : String) (x y : Identity) (i j : ℕ) (d : Dict String Identity)
    → lookup m d ≡ some y
    → lookup n d ≡ some x
    → Holds x i
    → Holds y j
    → (j == i) ≡ false
    → lookup m (erase n d) ≡ some y
not_erased m n x y i j d found there holds holds_j other = elim (Bool-cases (m == n)) [
  | inl same ↦
      let is_x : x ≡ y = ground (arith, (==_iff m n).0 same, found, there) in
      let slots = Holds-injective x y i j holds holds_j (ap (λ z. z.console) is_x) in
      absurd (ground (arith, slots, other))
  | inr differ ↦ ground (arith, lookup-erase m n d)
]

-- Releasing the slot of an instance with its record keeps the claims consistent.
pub drop-IsConsistent :
    (n : String) (x : Identity) (i : ℕ) (c : Claims)
    → IsConsistent c
    → lookup n c.1 ≡ some x
    → Holds x i
    → IsConsistent (record c.0 { used = discard i c.0.used }, erase n c.1)
drop-IsConsistent n x i c k there holds = record {
  owned = λ m y h.
      let (differ, found) = erased m n y c.1 h in
      let (j, holds_j, used_j) = k.owned m y found in
      (
        j,
        holds_j,
        elim (Bool-cases (j == i)) [
          | inl same ↦
              let holds_i : Holds y i = rw (← (==_iff j i).0 same) holds_j in
              let is_n = k.apart m n y x found there (Holds-console y x i holds_i holds) in
              absurd (ground (arith, differ, ==_iff m n, is_n))
          | inr other ↦ ground (arith, contains-discard i j c.0.used)
        ],
      );
  named = λ m y h. k.named m y (erased m n y c.1 h).1;
  apart = λ m m' y y' h h' e. k.apart m m' y y' (erased m n y c.1 h).1 (erased m' n y' c.1 h').1 e;
  in_range = λ j h. k.in_range j (not_discarded i j c.0.used h).1;
  held = λ j h.
      let (other, used_j) = not_discarded i j c.0.used h in
      let (m, y, found, holds_j) = k.held j used_j in
      (m, y, not_erased m n x y i j c.1 found there holds holds_j other, holds_j);
}
