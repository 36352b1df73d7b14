-- ===== src/Enumeration/Start.antt =====
-- xhci.rs: `Controller::new`, as a program that reads and writes the controller's registers.
use original_os_with_rust.Prelude.{
  ℕ, zero, suc, ◌==◌, if◌then◌else◌, Bool, true, not, bit_and, bit_or, none, [], replicate,
}
use original_os_with_rust.Words.Ops.{not_word}
use original_os_with_rust.Xhci.Ring.{CommandRing, new_ring, default_command_ring, num_trb}
use original_os_with_rust.Xhci.Event.{EventRing}
use original_os_with_rust.Xhci.Commands.{DeviceContextBaseAddressArray}
use original_os_with_rust.Xhci.Regs.{
  CapabilityRegisters, OperationalRegisters, InterrupterRegisterSet, init_irs, num_of_device_slots,
}
use original_os_with_rust.Xhci.Scratchpad.{Heap, ScratchpadBuffers, alloc_scratchpad}
use original_os_with_rust.Enumeration.{
  Io, done, running, pure, send, ◌>>=◌, ◌>>◌, Register, read_register, write_register, usbcmd,
  usbsts, config, dcbaap, crcr, erst_size, erst_base, erdp, management,
}

-- The registers that do not change, the addresses of what is allocated, the interrupter's registers as
-- they are found, and the number of rounds that a loop is followed for.
pub record Areas : Type 0 where
  pub cap_regs : CapabilityRegisters
  pub op_regs : OperationalRegisters
  pub irs : InterrupterRegisterSet
  pub scratchpad : Heap
  pub dcbaa : ℕ
  pub event_ring : ℕ
  pub erst : ℕ
  pub command_ring : ℕ
  pub rounds : ℕ

-- The entry of the event ring's segment table, in memory.
pub record EventRingSegmentTableEntry : Type 0 where
  pub ring_segment_base_address : ℕ
  pub ring_segment_size : ℕ

-- `EventRingSegmentTableEntry::new`; the number of TRBs fits 16 bits.
unfoldable pub new_segment : ℕ → EventRingSegmentTableEntry
new_segment ring = record { ring_segment_base_address = ring; ring_segment_size = num_trb }

-- `DeviceContextBaseAddressArray::new`.
unfoldable pub new_device_contexts : ScratchpadBuffers → DeviceContextBaseAddressArray
new_device_contexts buffers = record {
  scratchpad_table_ptr = buffers.table;
  inner_context = replicate 255 0;
  context = replicate 255 none;
}

pub record NewController : Type 0 where
  pub scratchpad_buffers : ScratchpadBuffers
  pub device_context_base_array : DeviceContextBaseAddressArray
  pub event_ring_segment : EventRingSegmentTableEntry
  pub primary_event_ring : EventRing
  pub command_ring : CommandRing

-- `EventRing::new` at an address.
abbrev pub new_event_ring : ℕ → EventRing
new_event_ring phys_addr = record {
  ring = new_ring phys_addr;
  cycle_state_ours = true;
  erdp = none;
  wait_list = [];
}

-- `register.write(f(register.read()))`.
unfoldable pub modify : Register → (ℕ → ℕ) → Io (Unit {0})
modify r f = do value ← send (read_register r); send (write_register r (f value))

-- `while` with a test of a register, `n` times at most.
unfoldable pub wait_register : ℕ → Register → (ℕ → Bool) → Io (Unit {0})
wait_register zero r busy = running
wait_register (suc n) r busy = do
  value ← send (read_register r)
  let again = wait_register n r busy
  if busy value then again else pure tt

-- `CMD_RUN_STOP`, `CMD_HC_RESET` and `STATUS_HC_HALTED`.
abbrev pub run_stop : ℕ
run_stop = 1

abbrev pub hc_reset : ℕ
hc_reset = 2

abbrev pub is_clear : ℕ → ℕ → Bool
is_clear bits value = bit_and value bits == 0

unfoldable pub reset_xhc : ℕ → Io (Unit {0})
reset_xhc n = do
  modify usbcmd (λ v. bit_and v (not_word 32 run_stop))
  wait_register n usbsts (is_clear 1)
  modify usbcmd (λ v. bit_or v hc_reset)
  wait_register n usbcmd (λ v. not (is_clear hc_reset v))

unfoldable pub start_xhc : ℕ → Io (Unit {0})
start_xhc n = do
  modify usbcmd (λ v. bit_or v run_stop)
  wait_register n usbsts (λ v. not (is_clear 1 v))

unfoldable pub init_primary_event_ring : Areas → EventRing → Io EventRing
init_primary_event_ring a ring = do
  r ← done (init_irs 0 a.irs ring a.erst)
  send (write_register erst_size r.0.erst_size)
  send (write_register erdp r.0.erdp)
  send (write_register erst_base r.0.erst_base)
  send (write_register management r.0.management)
  pure r.1

-- `set_num_device_slots` and `set_dcbaa_ptr`.
unfoldable pub init_slots_and_contexts : Areas → Io (Unit {0})
init_slots_and_contexts a = do
  modify config (λ c. bit_or (bit_and c (not_word 64 0xff)) (num_of_device_slots a.cap_regs))
  send (write_register dcbaap a.dcbaa)

unfoldable pub new_controller : Areas → Io NewController
new_controller a = do
  reset_xhc a.rounds
  buffers ← done (alloc_scratchpad a.scratchpad a.cap_regs a.op_regs)
  commands ← done (default_command_ring a.command_ring)
  events ← init_primary_event_ring a (new_event_ring a.event_ring)
  init_slots_and_contexts a
  send (write_register crcr (bit_or a.command_ring 1))
  start_xhc a.rounds
  pure (record {
    scratchpad_buffers = buffers;
    device_context_base_array = new_device_contexts buffers;
    event_ring_segment = new_segment a.event_ring;
    primary_event_ring = events;
    command_ring = commands;
  })
