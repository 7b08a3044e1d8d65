-- ===== src/Instances/Tests/Overlap.antt =====
-- Runs of two requests that overlap.
use vanpilot.Prelude.{String, ◌≡◌, refl, [], string_eq, false}
use vanpilot.Prelude.Dict.{lookup}
use vanpilot.Instances.Ports.{allocate, first_free, port_slot, port_allocator}
use vanpilot.Exec.{◌>>=◌}
use vanpilot.Instances.Names.{is_safe_name}
use vanpilot.Instances.Machine.{get, on_ports}
use vanpilot.Instances.Machine.Frame.{claims}
use vanpilot.Instances.Lifecycle.Create.{default_timeouts}
use vanpilot.Instances.Service.{CreateRequest}
use vanpilot.Instances.Service.Interleaving.{Phase, System, advanced, set, Step, Run, advance}
use vanpilot.Instances.Service.Interleaving.Sound.{IsSound}
use vanpilot.Instances.Service.Interleaving.Laws.{Run-IsSound}
use vanpilot.Instances.Tests.{quiet, start, van}

abbrev bus : CreateRequest
bus = record { name = "bus"; avd_name = ""; snapshot_name = ""; headful = false }

abbrev at_rest : System
at_rest = record { manager = start; phase = λ _. Phase.idle }

abbrev begun : System
begun = record at_rest { phase = set at_rest.phase "van" (Phase.checking van) }

abbrev both_begun : System
both_begun = record begun { phase = set begun.phase "bus" (Phase.checking bus) }

abbrev next : String → System → System
next = advanced quiet default_timeouts

-- both have passed the checks, then both have a slot
abbrev both_allocated : System
both_allocated = next "van" (next "bus" (next "bus" (next "van" both_begun)))

both_allocated_run : Run quiet default_timeouts 2 both_allocated
both_allocated_run =
    let r : Run quiet default_timeouts 2 at_rest = Run.start [] in
    let r0 = Run.later r (Step.begin_create van refl) in
    let r1 = Run.later r0 (Step.begin_create bus refl) in
    let r2 = Run.later r1 (Step.advances "van") in
    let r3 = Run.later r2 (Step.advances "bus") in
    let r4 = Run.later r3 (Step.advances "bus") in Run.later r4 (Step.advances "van")

Run-IsSound_example : IsSound (claims both_allocated.manager) both_allocated.phase
Run-IsSound_example = Run-IsSound quiet default_timeouts 2 both_allocated both_allocated_run

-- The one that was first to allocate has slot 0.
slots :
    (both_allocated.phase "bus" ≡ Phase.recording bus (port_slot 0))
    × (both_allocated.phase "van" ≡ Phase.recording van (port_slot 1))
unfolding advance ◌>>=◌ is_safe_name get lookup on_ports allocate first_free port_allocator
slots = (refl, refl)
