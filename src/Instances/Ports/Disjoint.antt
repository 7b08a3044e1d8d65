-- ===== src/Instances/Ports/Disjoint.antt =====
-- The port numbers of different slots.
use vanpilot.Prelude.{
  ℕ, ◌-◌, ◌/◌, ◌<◌, ◌≤◌, ◌≡◌, ◌≢◌, refl, Option, none, some, arith, ltb, if◌then◌else◌,
}
use vanpilot.Instances.Ports.{PortSlot, port_slot, base_console}

-- A number that is none of the three ports of a slot.
abbrev pub Avoids : ℕ → PortSlot → Type 0
Avoids n p = (n ≢ p.console_port) × (n ≢ p.adb_port) × (n ≢ p.aa_forward_port)

-- With at most 277 slots, no port of a slot is a port of another slot.
pub port_slot_disjoint :
    (max_slots i j : ℕ)
    → max_slots ≤ 277
    → i < max_slots
    → j < max_slots
    → i ≢ j
    → Avoids (port_slot i).console_port (port_slot j)
      × Avoids (port_slot i).adb_port (port_slot j)
      × Avoids (port_slot i).aa_forward_port (port_slot j)
unfolding port_slot
port_slot_disjoint max_slots i j few hi hj ne = omega arith

-- The bound is sharp: the forwarded port of slot 277 is the console port of slot 0.
pub port_slot_overlap : (port_slot 277).aa_forward_port ≡ (port_slot 0).console_port
unfolding port_slot
port_slot_overlap = refl

-- `(record.emulator_console_port - 5554) // 2` in `DestroyInstance`
-- A port below the base gives a negative index, which no set of slots holds: `none`.
unfoldable pub slot_of_port : ℕ → Option ℕ
slot_of_port console =
    if ltb console base_console then none else some ((console - base_console) / 2)

-- The slot that `DestroyInstance` computes from the console port is the slot of that port.
pub slot_of_port-port_slot : (i : ℕ) → slot_of_port (port_slot i).console_port ≡ some i
unfolding slot_of_port port_slot
slot_of_port-port_slot i = ground arith
