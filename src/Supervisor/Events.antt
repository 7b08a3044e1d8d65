-- ===== src/Supervisor/Events.antt =====
-- supervisor/src/event_store.py: the events, in the order in which they were added. The lock makes
-- every method one step.
pub mod Laws
use vanpilot.Prelude.{
  ℕ, ◌+◌, ◌-◌, String, Bool, List, [], ◌∷◌, ◌++◌, leb, length, take, if◌then◌else◌,
}
use vanpilot.Prelude.Int.{ℤ, pos, negsuc, pos_part, neg_part}

-- the `oneof` of `sync_pb2.Event`, without the kinds that the supervisor never makes
pub data Payload : Type 0 where
  text_message : (agent_id content : String) → Payload
  watchdog_timeout : (agent_id : String) (silent_duration_ms : ℕ) → Payload
  bitmap_payload : (cache_key : String) (image_data : List ℕ) → Payload
  display_command : (cache_key : String) → Payload
  input_delivery_failure : (attempted_input target_agent_id : String) → Payload

pub record Event : Type 0 where
  pub timestamp_ms : ℤ
  pub payload : Payload

unfoldable pub leb_ℤ : ℤ → ℤ → Bool
leb_ℤ a b = leb (pos_part a + neg_part b) (pos_part b + neg_part a)

-- `_make_hardcoded_events`
abbrev pub hardcoded_events : List Event
hardcoded_events =
    (record {
      timestamp_ms = pos 1000;
      payload = text_message "lead" "VanPilot supervisor online. Awaiting instructions.";
    })
    ∷ (record {
      timestamp_ms = pos 2000;
      payload = text_message "lead" "Agent team initialized with 1 member.";
    })
    ∷ (record { timestamp_ms = pos 3000; payload = watchdog_timeout "researcher" 30000 })
    ∷ []

-- `[e for e in events if e.timestamp_ms >= since]`
unfoldable pub at_or_after : ℤ → List Event → List Event
at_or_after since [] = []
at_or_after since (e ∷ es) =
    let rest = at_or_after since es in if leb_ℤ since e.timestamp_ms then e ∷ rest else rest

-- `list.sort(key=lambda e: e.timestamp_ms)`, which is stable: an event goes before the later
-- ones of its own time
unfoldable pub insert_by_time : Event → List Event → List Event
insert_by_time e [] = e ∷ []
insert_by_time e (x ∷ xs) =
    let rest = insert_by_time e xs in
    if leb_ℤ e.timestamp_ms x.timestamp_ms then e ∷ x ∷ xs else x ∷ rest

unfoldable pub sort_by_time : List Event → List Event
unfolding insert_by_time
sort_by_time [] = []
sort_by_time (e ∷ es) = insert_by_time e (sort_by_time es)

-- `xs[:n]`: a negative `n` drops as many from the end
unfoldable pub slice_to : List Event → ℤ → List Event
slice_to xs (pos n) = take n xs
slice_to xs (negsuc n) = take (length xs - (n + 1)) xs

-- `EventStore.get_events`
unfoldable pub get_events : ℤ → ℤ → List Event → List Event
unfolding at_or_after sort_by_time slice_to
get_events since max_count events = slice_to (sort_by_time (at_or_after since events)) max_count

-- `EventStore.add_event`
unfoldable pub add_event : Event → List Event → List Event
add_event e events = events ++ e ∷ []
