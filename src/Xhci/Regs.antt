-- ===== src/Xhci/Regs.antt =====
-- xhci.rs: the capability, operational and runtime registers, and the pointers of the doorbells.
pub mod Doorbells
use original_os_with_rust.Prelude.{
  ℕ, zero, suc, ◌+◌, ◌-◌, ◌*◌, ◌/◌, ◌%◌, ◌^◌, Bool, not, ltb, ◌==◌, if◌then◌else◌,
}
use original_os_with_rust.Prelude.{
  Result, ok, err, bad_argument, out_of_range, Option, some, List, [], ◌∷◌, bit_and, bit_or,
}
use original_os_with_rust.Words.Ops.{shl, shr, not_word}
use original_os_with_rust.Volatile.{extract_bits}
use original_os_with_rust.Xhci.Event.{EventRing}

pub record CapabilityRegisters : Type 0 where
  pub caplength : ℕ
  pub hcsparams1 : ℕ
  pub hcsparams2 : ℕ
  pub dboff : ℕ
  pub rtsoff : ℕ

unfoldable pub num_of_device_slots : CapabilityRegisters → ℕ
num_of_device_slots r = extract_bits 32 r.hcsparams1 0 8

unfoldable pub num_scratchpad_bufs : CapabilityRegisters → ℕ
num_scratchpad_bufs r =
    bit_or (shl 32 (extract_bits 32 r.hcsparams2 21 5) 5) (extract_bits 32 r.hcsparams2 27 5)

unfoldable pub num_of_ports : CapabilityRegisters → ℕ
num_of_ports r = extract_bits 32 r.hcsparams1 24 8

-- `count_ones` and `trailing_zeros` of the low `w` digits.
abbrev count_ones : ℕ → ℕ → ℕ
count_ones zero x = 0
count_ones (suc w) x = x % 2 + count_ones w (x / 2)

abbrev trailing_zeros : ℕ → ℕ → ℕ
trailing_zeros zero x = 0
trailing_zeros (suc w) x = if x % 2 == 1 then 0 else suc (trailing_zeros w (x / 2))

pub record OperationalRegisters : Type 0 where
  pub usbcmd : ℕ
  pub pagesize : ℕ
  pub crcr : ℕ
  pub config : ℕ

unfoldable pub page_size : OperationalRegisters → Result ℕ
page_size r =
    let page_size_bits = bit_and r.pagesize 0xffff in
    if not (count_ones 32 page_size_bits == 1)
    then err bad_argument
    else ok (shl 64 1 (trailing_zeros 32 page_size_bits + 12))

-- `set_cmd_ring_ctrl`, from the ring's address.
unfoldable pub set_cmd_ring_ctrl : OperationalRegisters → ℕ → OperationalRegisters
set_cmd_ring_ctrl r phys_addr = record r { crcr = bit_or phys_addr 1 }

unfoldable pub set_num_device_slots : OperationalRegisters → ℕ → OperationalRegisters
set_num_device_slots r num = record r { config = bit_or (bit_and r.config (not_word 64 0xff)) num }

unfoldable pub set_command_bits : OperationalRegisters → ℕ → OperationalRegisters
set_command_bits r bits = record r { usbcmd = bit_or r.usbcmd bits }

unfoldable pub clear_command_bits : OperationalRegisters → ℕ → OperationalRegisters
clear_command_bits r bits = record r { usbcmd = bit_and r.usbcmd (not_word 32 bits) }

pub record InterrupterRegisterSet : Type 0 where
  pub management : ℕ
  pub moderation : ℕ
  pub erst_size : ℕ
  pub erst_base : ℕ
  pub erdp : ℕ

-- `init_irs` on the register set at `index`, with the address of the segment table.
unfoldable pub init_irs :
    ℕ → InterrupterRegisterSet → EventRing → ℕ → Result (InterrupterRegisterSet × EventRing)
init_irs index irs ring erst_phys_addr =
    if ltb index 1024
    then ok (
      record irs {
        erst_size = 1;
        erdp = ring.ring.phys_addr;
        erst_base = erst_phys_addr;
        management = 0;
      },
      record ring { erdp = some ring.ring.phys_addr },
    )
    else err out_of_range

-- The pointers from doorbell `i` on, `n` of them.
unfoldable pub doorbells_from : ℕ → ℕ → ℕ → List ℕ
doorbells_from base i zero = []
doorbells_from base i (suc n) = (base + 4 * i) ∷ doorbells_from base (suc i) n

-- The doorbells of `setup_xhc_registers`: `0..=num_slots`, where num_slots is the number of ports.
unfoldable pub doorbell_regs : ℕ → CapabilityRegisters → List ℕ
doorbell_regs bar0 r = doorbells_from (bar0 + r.dboff) 0 (suc (num_of_ports r))
