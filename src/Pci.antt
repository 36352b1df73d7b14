-- ===== src/Pci.antt =====
-- pci.rs: addresses of functions, the configuration registers and BAR0. The configuration space
-- belongs to the devices: its state and its accesses of 16 and 32 bits are parameters.
pub mod Bdf
pub mod Bar
pub mod Attach
pub mod Tests
use original_os_with_rust.Prelude.{
  ℕ, zero, suc, ◌+◌, ◌-◌, ◌*◌, ◌/◌, ◌%◌, ◌^◌, Bool, not, ◌&&◌, ◌||◌, ltb, ◌==◌, if◌then◌else◌,
}
use original_os_with_rust.Prelude.{
  Result, ok, err, ◌>>=◌, to_option, Option, none, some, List, [], ◌∷◌, bit_and, bit_or,
}
use original_os_with_rust.Prelude.{bdf_out_of_range, config_read_range, config_write_range, bad_bar}
use original_os_with_rust.Words.Ops.{shl, shr, wrap, not_word, add_word}

pub record VendorDeviceId : Type 0 where
  pub vendor : ℕ
  pub device : ℕ

pub record BusDeviceFunction : Type 0 where
  pub id : ℕ

-- `BusDeviceFunction::new`.
unfoldable pub new_bdf : ℕ → ℕ → ℕ → Result BusDeviceFunction
new_bdf bus device function =
    if not (ltb bus 256) || not (ltb device 32) || not (ltb function 8)
    then err bdf_out_of_range
    else ok (record {
      id = wrap 16 (bit_or (bit_or (shl 64 bus 8) (shl 64 device 3)) (shl 64 function 0));
    })

unfoldable pub bus : BusDeviceFunction → ℕ
bus b = shr 64 (bit_and b.id 0xff00) 8

unfoldable pub device : BusDeviceFunction → ℕ
device b = shr 64 (bit_and b.id 0x00f8) 3

unfoldable pub function : BusDeviceFunction → ℕ
function b = shr 64 (bit_and b.id 7) 0

-- `BusDeviceFunctionIterator::next`: the item, and the next identifier after the call.
unfoldable pub next_bdf : ℕ → Option BusDeviceFunction × ℕ
next_bdf next_id =
    if ltb 0xffff next_id
    then (none, next_id)
    else (some (record { id = wrap 16 next_id }), suc next_id)

-- The loop over the iterator, with fuel: none when the fuel ends first.
unfoldable pub collect_bdf : ℕ → ℕ → Option (List BusDeviceFunction)
collect_bdf zero next_id = none
collect_bdf (suc fuel) next_id =
    let (item, next_id') = next_bdf next_id in
    let rest = collect_bdf fuel next_id' in
    elim item [ none ↦ some [] | some b ↦ elim rest [ none ↦ none | some bs ↦ some (b ∷ bs) ] ]

-- `ConfigRegisters::<T>::read` and `write`: the address used, for a `T` of `size` bytes.
unfoldable pub read_address : ℕ → ℕ → ℕ → Result ℕ
read_address size ecm_base byte_offset =
    if not (ltb byte_offset 256) || not (byte_offset % size == 0)
    then err config_read_range
    else ok (ecm_base + byte_offset / size * size)

unfoldable pub write_address : ℕ → ℕ → ℕ → Result ℕ
write_address size ecm_base byte_offset =
    if not (ltb byte_offset 256) || not (byte_offset % size == 0)
    then err config_write_range
    else ok (ecm_base + byte_offset / size * size)

pub record Pci : Type 0 where
  pub ecm_start : ℕ
  pub ecm_end : ℕ

-- `Pci::new`, from the base address of the only entry.
unfoldable pub new_pci : ℕ → Pci
new_pci base = record { ecm_start = base; ecm_end = add_word 64 base (2 ^ 24) }

unfoldable pub ecm_base : Pci → BusDeviceFunction → ℕ
ecm_base pci b = add_word 64 pci.ecm_start (shl 64 b.id 12)

-- The accesses to the configuration space.
pub record ConfigSpace (S : Type 0) : Type 0 where
  pub load16 : S → ℕ → ℕ
  pub load32 : S → ℕ → ℕ
  pub store32 : S → ℕ → ℕ → S

pub record BarMem64 : Type 0 where
  pub addr : ℕ
  pub size : ℕ

-- `write(..)?` and what follows.
abbrev pub after_write : {S A : Type 0} → S × Result (Unit {0}) → (S → S × Result A) → S × Result A
after_write (s, ok _) next = next s
after_write (s, err e) next = (s, err e)

module _ {S : Type 0} (space : ConfigSpace S) (pci : Pci) (b : BusDeviceFunction) where
  unfoldable pub read_register_u16 : S → ℕ → Result ℕ
  read_register_u16 s byte_offset =
      read_address 2 (ecm_base pci b) byte_offset >>= λ a. ok (space.load16 s a)

  unfoldable pub read_vendor_id_and_device_id : S → Option VendorDeviceId
  read_vendor_id_and_device_id s = elim (to_option (read_register_u16 s 0)) [
    | none ↦ none
    | some vendor ↦ elim (to_option (read_register_u16 s 2)) [
      | none ↦ none
      | some device ↦
          if vendor == 0xffff && device == 0xffff
          then none
          else some (record { vendor = vendor; device = device })
    ]
  ]

  unfoldable pub read_register_u32 : S → ℕ → Result ℕ
  read_register_u32 s byte_offset =
      read_address 4 (ecm_base pci b) byte_offset >>= λ a. ok (space.load32 s a)

  unfoldable pub write_register_u32 : S → ℕ → ℕ → S × Result (Unit {0})
  write_register_u32 s byte_offset value = elim (write_address 4 (ecm_base pci b) byte_offset) [
    | err e ↦ (s, err e)
    | ok a ↦ (space.store32 s a value, ok tt)
  ]

  unfoldable pub read_register_u64 : S → ℕ → Result ℕ
  read_register_u64 s byte_offset = read_register_u32 s byte_offset >>= λ lo.
      read_register_u32 s (byte_offset + 4) >>= λ hi. ok (bit_or (shl 64 hi 32) lo)

  unfoldable pub write_register_u64 : S → ℕ → ℕ → S × Result (Unit {0})
  write_register_u64 s byte_offset value =
      after_write (write_register_u32 s byte_offset (wrap 32 value))
        (λ s1. write_register_u32 s1 (byte_offset + 4) (wrap 32 (shr 64 value 32)))

  -- `try_bar0_mem64` for a BAR of the right type.
  unfoldable pub probe_bar0 : S → ℕ → S × Result BarMem64
  probe_bar0 s bar0 = after_write (write_register_u64 s 0x10 (2 ^ 64 - 1)) (λ s1.
      elim (read_register_u64 s1 0x10) [
        | err e ↦ (s1, err e)
        | ok probe ↦ after_write (write_register_u64 s1 0x10 bar0) (λ s2. (
          s2,
          ok (record {
            addr = bit_and bar0 (not_word 64 15);
            size = add_word 64 1 (not_word 64 (bit_and probe (not_word 64 15)));
          }),
        ))
      ])

  unfoldable pub try_bar0_mem64 : S → S × Result BarMem64
  try_bar0_mem64 s = elim (read_register_u64 s 0x10) [
    | err e ↦ (s, err e)
    | ok bar0 ↦ if bit_and bar0 7 == 4 then probe_bar0 s bar0 else (s, err bad_bar)
  ]

  unfoldable pub set_command_and_status_flags : S → ℕ → S × Result (Unit {0})
  set_command_and_status_flags s flags = elim (read_register_u32 s 4) [
    | err e ↦ (s, err e)
    | ok cmd_and_status ↦ write_register_u32 s 4 (bit_or flags cmd_and_status)
  ]

  unfoldable pub enable_bus_master : S → S × Result (Unit {0})
  enable_bus_master s = set_command_and_status_flags s (2 ^ 2)

  unfoldable pub disable_interrupt : S → S × Result (Unit {0})
  disable_interrupt s = set_command_and_status_flags s (2 ^ 10)

-- The list of `PciXhciDriver::supports`.
unfoldable pub supports : VendorDeviceId → Bool
supports vp =
    (vp.vendor == 0x1b36 && vp.device == 0x000d)
    || (vp.vendor == 0x8086 && vp.device == 0x31a8)
    || (vp.vendor == 0x8086 && vp.device == 0x02ed)
