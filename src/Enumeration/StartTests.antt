-- ===== src/Enumeration/StartTests.antt =====
-- The start of a controller that follows its command register at once.
use original_os_with_rust.Enumeration.{◌>>=◌}
use original_os_with_rust.Enumeration.Start.{
  reset_xhc, modify, wait_register, init_primary_event_ring, init_slots_and_contexts, start_xhc,
}
use original_os_with_rust.Xhci.Scratchpad.{alloc_scratchpad, alloc_bufs, area}
use original_os_with_rust.Xhci.Regs.{page_size, init_irs, num_of_device_slots, num_scratchpad_bufs}
use original_os_with_rust.Xhci.Ring.{default_command_ring, write}
use original_os_with_rust.Xhci.Trb.{trb_link, set_trb_type, write_control, code, set_toggle_cycle}
use original_os_with_rust.Volatile.{write_bits, extract_bits}
use original_os_with_rust.Prelude.{
  ℕ, Bool, true, false, ◌+◌, ◌*◌, ◌-◌, ◌≡◌, refl, bit_and, Option, some, Result, ok, err,
  no_response, List, [], ◌∷◌,
}
use original_os_with_rust.Enumeration.{
  Call, Event, Device, trace, result, Register, read_register, write_register, usbcmd, usbsts,
  read_portsc, write_portsc, command, own_context, control, show,
}
use original_os_with_rust.Enumeration.Machine.{Steps, Ends}
use original_os_with_rust.Enumeration.Start.{Areas, new_controller}
use original_os_with_rust.Enumeration.Started.{
  StartPhase, fresh, StartStep, IsStarted, new_controller-Started,
}

-- The run bit that was last written; the reset bit is cleared at once.
abbrev last_command : List Event → ℕ
last_command [] = 1
last_command (e ∷ past) = command_in e.asked (last_command past)
  where
    command_in : Call → ℕ → ℕ
    command_in (write_register usbcmd v) old = bit_and v 1
    command_in _ old = old

abbrev register_value : List Event → Register → ℕ
register_value past usbcmd = last_command past
register_value past usbsts = 1 - last_command past
register_value past _ = 0

abbrev hardware : Device
hardware past (read_register r) = register_value past r
hardware past (write_register r value) = tt
hardware past (read_portsc port) = 0
hardware past (write_portsc port value) = tt
hardware past (command trb memory) = err no_response
hardware past (own_context slot output_context) = tt
hardware past (control slot request) = err no_response
hardware past (show changes) = tt

abbrev areas : Areas
areas = record {
  cap_regs = record {
    caplength = 32;
    hcsparams1 = 0x8001040;
    hcsparams2 = 0;
    dboff = 0x2000;
    rtsoff = 0x1000;
  };
  op_regs = record { usbcmd = 0; pagesize = 1; crcr = 0; config = 0 };
  irs = record { management = 0; moderation = 0; erst_size = 0; erst_base = 0; erdp = 0 };
  scratchpad = λ k layout. 0x100000 + k * 0x1020;
  dcbaa = 0x200000;
  event_ring = 0x210000;
  erst = 0x220000;
  command_ring = 0x230000;
  rounds = 3;
}

new_controller-Started_example :
    (p : StartPhase) × Steps (StartStep areas) fresh (trace hardware [] (new_controller areas)) p
    × Ends (StartStep areas) (IsStarted areas) p (result hardware [] (new_controller areas))
new_controller-Started_example = new_controller-Started areas hardware

-- Whether the program has returned without an error.
abbrev has_returned : {A : Type 0} → Option (Result A) → Bool
has_returned (some (ok a)) = true
has_returned _ = false

new_controller_test : has_returned (result hardware [] (new_controller areas)) ≡ true
unfolding result new_controller ◌>>=◌ reset_xhc modify wait_register alloc_scratchpad page_size
    default_command_ring trb_link set_trb_type write_control write_bits code set_toggle_cycle write
    init_primary_event_ring init_slots_and_contexts start_xhc extract_bits init_irs
    num_of_device_slots num_scratchpad_bufs alloc_bufs area
new_controller_test = refl
