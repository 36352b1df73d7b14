-- ===== src/Xhci/Commands/Tests.antt =====
-- The theorem on commands at a concrete command, Enable Slot, and the event that answers it.
use original_os_with_rust.Prelude.{
  ◌≡◌, ◌≢◌, refl, arith, ok, some, [], ◌∷◌, ◌++◌, map, true, set, replicate,
}
use original_os_with_rust.Volatile.{read_bits}
use original_os_with_rust.Xhci.Trb.{GenericTrbEntry, default_trb, trb_type, cycle_state}
use original_os_with_rust.Xhci.Ring.{CommandRing, new_ring}
use original_os_with_rust.Xhci.Ring.Inv.{IsRing}
use original_os_with_rust.Xhci.Ring.Command.{Pushed}
use original_os_with_rust.Xhci.Ring.Default.{fresh, fresh-IsRing}
use original_os_with_rust.Xhci.Event.{EventRing, Waiter, poll}
use original_os_with_rust.Xhci.Event.Stale.{live, give}
use original_os_with_rust.Xhci.Event.Poll.{IsEventRing, head}
use original_os_with_rust.Xhci.Commands.{CommandSession, send_command}
use original_os_with_rust.Xhci.Commands.Answer.{
  command_waiter, Answered, sent, send_command-Answered,
}

abbrev enable_slot : GenericTrbEntry
enable_slot = record { «data» = 0; option = 0; control = 0x2400 }

enable_slot_kind : trb_type enable_slot ≢ 6
unfolding trb_type read_bits
enable_slot_kind e = absurd (omega arith)

-- The event ring before the controller has answered, and after.
abbrev silent : EventRing
silent = record {
  ring = new_ring 0x9000;
  cycle_state_ours = true;
  erdp = some 0x9008;
  wait_list = [];
}

abbrev answered : EventRing
answered = record {
  ring = record (new_ring 0x9000) {
    trb =
        set (replicate 16 default_trb) 0
          (record { «data» = 0x8000; option = 0x1000000; control = 0x1008401 });
  };
  cycle_state_ours = true;
  erdp = some 0x9008;
  wait_list = command_waiter 0x8000 ∷ [];
}

answered-IsEventRing : IsEventRing answered 0x9008
answered-IsEventRing = record {
  size = refl;
  in_range = omega arith;
  aligned = refl;
  register = refl;
}

answered_cycle : cycle_state (head answered) ≡ true
unfolding cycle_state read_bits
answered_cycle = refl

abbrev driver : CommandSession
driver = record { doorbells = 7 ∷ 7 ∷ []; event_ring = silent; command_ring = fresh 0x8000 }

send_command-Answered_example :
    (ring : CommandRing) × (c' : EventRing) × (w : Waiter) × (send_command driver enable_slot
      ≡ (sent driver ring (7 ∷ []) 0x8000, ok 0x8000))
    × ((sent driver ring (7 ∷ []) 0x8000).event_ring.wait_list ≡ answered.wait_list)
    × IsRing ring
    × Pushed (fresh 0x8000) ring enable_slot
    × (poll answered ≡ (c', ok tt))
    × (c'.wait_list ≡ map (give (head answered)) (live []) ++ (w ∷ []))
    × Answered 0x8000 (head answered) w
send_command-Answered_example =
    send_command-Answered driver enable_slot 7 (7 ∷ []) answered 0x9008 (fresh-IsRing 0x8000)
      (omega arith) enable_slot_kind refl answered-IsEventRing refl answered_cycle
