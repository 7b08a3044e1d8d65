-- ===== src/Instances/Ports.antt =====
-- instance_manager/src/port_allocator.py: the slots of three ports each. The set `_used` is a list
-- that is only asked for membership; the lock makes every method one step.
pub mod Laws
pub mod Disjoint
use vanpilot.Prelude.{
  ℕ, zero, suc, ◌+◌, ◌*◌, Option, none, some, List, [], ◌∷◌, ◌==◌, nat_eq, contains, if◌then◌else◌,
}
use vanpilot.Exec.{Exec, Result, ok, err, runtime_error, value_error}

abbrev pub base_console : ℕ
base_console = 5554

abbrev pub base_aa_fwd : ℕ
base_aa_fwd = 5277

pub record PortSlot : Type 0 where
  pub slot_index : ℕ
  pub console_port : ℕ
  pub adb_port : ℕ
  pub aa_forward_port : ℕ

unfoldable pub port_slot : ℕ → PortSlot
port_slot i = record {
  slot_index = i;
  console_port = base_console + 2 * i;
  adb_port = base_console + 2 * i + 1;
  aa_forward_port = base_aa_fwd + i;
}

pub record PortAllocator : Type 0 where
  pub max_slots : ℕ
  pub used : List ℕ

-- `PortAllocator.__init__`
unfoldable pub port_allocator : ℕ → PortAllocator
port_allocator max_slots = record { max_slots = max_slots; used = [] }

-- `for i in range(self._max_slots): if i not in self._used`, with the rounds left and `i`
unfoldable pub first_free : ℕ → ℕ → List ℕ → Option ℕ
first_free zero i used = none
first_free (suc rounds) i used =
    let rest = first_free rounds (i + 1) used in if contains i used then rest else some i

-- `set.discard`
unfoldable pub discard : ℕ → List ℕ → List ℕ
discard i [] = []
discard i (j ∷ used) = let rest = discard i used in if i == j then rest else j ∷ rest

unfoldable pub allocate : Exec PortAllocator PortSlot
unfolding port_slot
allocate a = elim (first_free a.max_slots 0 a.used) [
  | none ↦ (err runtime_error, a)
  | some i ↦ (ok (port_slot i), record a { used = i ∷ a.used })
]

unfoldable pub release : ℕ → Exec PortAllocator (Unit {0})
release i a =
    if contains i a.used
    then (ok tt, record a { used = discard i a.used })
    else (err value_error, a)
