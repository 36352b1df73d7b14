-- ===== src/Xhci/Tests.antt =====
-- The theorems on the host controller's driver at concrete inputs.
use original_os_with_rust.Prelude.{
  ℕ, ◌+◌, ◌*◌, ◌<◌, ◌≡◌, ◌≢◌, refl, arith, ok, some, none, [], ◌∷◌, map,
}
use original_os_with_rust.Prelude.{true, false, set, replicate, bit_or}
use original_os_with_rust.Words.Ops.{shl, wrap}
use original_os_with_rust.Volatile.{read_bits}
use original_os_with_rust.Volatile.Fields.{field}
use original_os_with_rust.Xhci.Trb.{
  GenericTrbEntry, default_trb, trb_type, cycle_state, new_setup, from_setup,
}
use original_os_with_rust.Xhci.Trb.{data_stage_in, status_stage_out, req_type_dir_device_to_host}
use original_os_with_rust.Xhci.Ring.{CommandRing, push, new_ring}
use original_os_with_rust.Xhci.Ring.Inv.{IsRing}
use original_os_with_rust.Xhci.Ring.Command.{Pushed, push-Pushed}
use original_os_with_rust.Xhci.Ring.Default.{fresh, fresh-IsRing}
use original_os_with_rust.Xhci.Event.{EventRing, Waiter, poll}
use original_os_with_rust.Xhci.Event.Stale.{live, give}
use original_os_with_rust.Xhci.Event.Poll.{IsEventRing, head, taken, poll_lem}
use original_os_with_rust.Xhci.Context.{
  EndpointContext, DeviceContext, high_speed, psi, set_port_speed, new_control_endpoint,
}
use original_os_with_rust.Xhci.Context.Fields.{
  IsControl, new_control_endpoint-IsControl, set_port_speed-lost,
}
use original_os_with_rust.Xhci.Controller.{Session, request_descriptor}
use original_os_with_rust.Xhci.Controller.Requests.{Requested, next_index}
use original_os_with_rust.Xhci.Controller.Descriptor.{request_descriptor-Requested, new_setup-out}
use original_os_with_rust.Prelude.{◌≤◌, err, invalid_slot, get_elem?}
use original_os_with_rust.Xhci.Port.{notify_ep}
use original_os_with_rust.Volatile.{extract_bits}
use original_os_with_rust.Xhci.Scratchpad.{alloc_scratchpad, alloc_bufs, area}
use original_os_with_rust.Xhci.Regs.{
  OperationalRegisters, page_size, num_scratchpad_bufs, CapabilityRegisters, num_of_ports,
  doorbell_regs,
}
use original_os_with_rust.Xhci.Regs.Doorbells.{doorbell_regs-slots}

abbrev ring0 : CommandRing
ring0 = fresh 0x8000

-- A command to enable a slot.
abbrev enable_slot : GenericTrbEntry
enable_slot = record { «data» = 0; option = 0; control = 0x2400 }

enable_slot_type : trb_type enable_slot ≢ 6
unfolding trb_type read_bits
enable_slot_type e = absurd (omega arith)

push-Pushed_example :
    (c' : CommandRing) × (push ring0 enable_slot ≡ (c', ok (0x8000 + 0 * 16)))
    × IsRing c'
    × Pushed ring0 c' enable_slot
push-Pushed_example =
    push-Pushed ring0 enable_slot (fresh-IsRing 0x8000) (omega arith) enable_slot_type

-- A completion of the command at 0x8000, written by the controller.
abbrev completion : GenericTrbEntry
completion = record { «data» = 0x8000; option = 0x1000000; control = 0x8401 }

abbrev waiting : ℕ → Waiter
waiting addr = record {
  alive = true;
  info = record { cond = record { trb_type = none; trb_addr = some addr; slot = none }; trbs = [] };
}

abbrev events : EventRing
events = record {
  ring = record (new_ring 0x9000) { trb = set (replicate 16 default_trb) 0 completion };
  cycle_state_ours = true;
  erdp = some 0x9008;
  wait_list = waiting 0x8000 ∷ record (waiting 0x8000) { alive = false } ∷ waiting 0x8010 ∷ [];
}

events-IsEventRing : IsEventRing events 0x9008
events-IsEventRing = record { size = refl; in_range = omega arith; aligned = refl; register = refl }

poll_lem_example :
    (cycle_state (head events) ≡ true
      → poll events ≡ (
        record (taken events 0x9008) {
          wait_list = map (give (head events)) (live events.wait_list);
        },
        ok tt,
      ))
    × (cycle_state (head events) ≢ true → poll events ≡ (events, ok tt))
poll_lem_example = poll_lem events 0x9008 events-IsEventRing

abbrev session : Session
session = record { doorbells = replicate 9 0; event_ring = events; ctrl_ep_ring = ring0 }

request_descriptor-Requested_example :
    (s' : Session) × (request_descriptor session 1 2 0 0 0xa000 1 9
      ≡ (s', ok (0x8000 + next_index ring0 * 16)))
    × Requested session s' 1
        (0x8000 + next_index ring0 * 16)
        (from_setup (
          new_setup req_type_dir_device_to_host 6
            (bit_or (shl 16 2 8) 0)
            0
            (wrap 16 (wrap 64 (1 * 9)))))
        (data_stage_in 0xa000 1 9)
        status_stage_out
request_descriptor-Requested_example =
    request_descriptor-Requested session 1 2 0 0 0xa000 1 9 (fresh-IsRing 0x8000) (omega arith)

new_setup-out_example : read_bits 32 (new_setup 128 6 0x0100 0 18).control 16 2 ≡ 2
new_setup-out_example = new_setup-out 128 6 0x0100 0 18 (omega arith) (omega arith)

new_control_endpoint-IsControl_example :
    (ep : EndpointContext) × (new_control_endpoint 64 0x8000 ≡ ok ep) × IsControl ep 64 0x8000
new_control_endpoint-IsControl_example =
    new_control_endpoint-IsControl 64 0x8000 (omega arith) (omega arith)

abbrev device0 : DeviceContext
device0 = record { slot_ctx0 = 0x08000000; slot_ctx1 = 0; ep_ctx = [] }

high_speed-lt : psi high_speed < 16
unfolding psi
high_speed-lt = omega arith

set_port_speed-lost_example :
    (c' : DeviceContext) × (set_port_speed device0 high_speed ≡ ok c')
    × (field 20 4 c'.slot_ctx0 ≡ 0)
set_port_speed-lost_example = set_port_speed-lost device0 high_speed high_speed-lt (omega arith)

abbrev capabilities : CapabilityRegisters
capabilities = record {
  caplength = 0x40;
  hcsparams1 = 0x08001040;
  hcsparams2 = 0x0820000f;
  dboff = 0x2000;
  rtsoff = 0x1000;
}

doorbell_regs-slots_example :
    (9 ≤ num_of_ports capabilities
      → get_elem? (doorbell_regs 0xfebd0000 capabilities) 9 ≡ some (0xfebd0000 + 0x2000 + 4 * 9))
    × (num_of_ports capabilities < 9
        → notify_ep (doorbell_regs 0xfebd0000 capabilities) 9 1 ≡ err invalid_slot)
doorbell_regs-slots_example = doorbell_regs-slots 0xfebd0000 9 1 capabilities

-- A controller with pages of 4096 bytes that asks for two scratchpad buffers.
abbrev two_buffers : CapabilityRegisters
two_buffers = record {
  caplength = 32;
  hcsparams1 = 0;
  hcsparams2 = 0x10000000;
  dboff = 0;
  rtsoff = 0;
}

abbrev small_pages : OperationalRegisters
small_pages = record { usbcmd = 0; pagesize = 1; crcr = 0; config = 0 }

small_pages_lem : page_size small_pages ≡ ok 4096
unfolding page_size
small_pages_lem = refl

-- The heap that gives areas of a page and 32 bytes one after the other: the copies are not at a multiple
-- of the page size.
scratchpad_test :
    alloc_scratchpad (λ k layout. 0x10000 + k * 0x1020) two_buffers small_pages
    ≡ ok (record { table = 0x11020; bufs = 0x13060 ∷ 0x150a0 ∷ [] })
unfolding alloc_scratchpad alloc_bufs area page_size num_scratchpad_bufs extract_bits
scratchpad_test = refl
