-- ===== src/Pci/Attach.antt =====
-- pci.rs and xhci.rs: how the driver takes over a device: its command register, its BAR, the page
-- attributes of the BAR's memory, and the registers in it.
use original_os_with_rust.Prelude.{
  ℕ, ◌+◌, ◌-◌, ◌*◌, ◌/◌, ◌%◌, ◌^◌, ◌≤◌, ◌<◌, ◌≡◌, ◌⊎◌, inl, inr, refl, arith, ap, ◌∙◌, max, bit_or,
  Result, ok, err, panic, Option, none, some, List,
}
use original_os_with_rust.Words.Ops.{add_word}
use original_os_with_rust.Words.Masks.{bit_or_fields}
use original_os_with_rust.Paging.{read_write_io, attr_bits}
use original_os_with_rust.Paging.Mapping.{Request, Cell, Outcome, create_mapping}
use original_os_with_rust.Paging.Mapping.Pages.{pages, page, page_value, look_in}
use original_os_with_rust.Paging.Mapping.Create.{create_mapping-maps}
use original_os_with_rust.Xhci.Port.{new_portsc}
use original_os_with_rust.Xhci.Regs.{CapabilityRegisters, num_of_ports, doorbell_regs}
use original_os_with_rust.Pci.{
  Pci, BusDeviceFunction, ConfigSpace, BarMem64, after_write, disable_interrupt, enable_bus_master,
  try_bar0_mem64,
}

-- The request of `BarMem64::disable_cache`.
abbrev pub io_request : BarMem64 → Request
io_request bar = record {
  virt_start = bar.addr;
  virt_end = add_word 64 bar.addr bar.size;
  phys = bar.addr;
  attr = read_write_io;
}

abbrev expect_table : Outcome (ℕ → Cell 3) → Option (Result (ℕ → Cell 3))
expect_table none = none
expect_table (some (table, addr, err e)) = some (err panic)
expect_table (some (table, addr, ok _)) = some (ok table)

-- `BarMem64::disable_cache` on the current page table.
unfoldable pub disable_cache : (ℕ → Cell 3) → BarMem64 → Option (Result (ℕ → Cell 3))
disable_cache table bar = expect_table (create_mapping table (io_request bar))

-- The addresses that `setup_xhc_registers` computes.
pub record XhcRegisters : Type 0 where
  pub cap_regs : ℕ
  pub op_regs : ℕ
  pub rt_regs : ℕ
  pub portsc : List ℕ
  pub doorbells : List ℕ

unfoldable pub setup_xhc_registers : BarMem64 → CapabilityRegisters → XhcRegisters
setup_xhc_registers bar0 r = record {
  cap_regs = bar0.addr;
  op_regs = bar0.addr + r.caplength;
  rt_regs = bar0.addr + r.rtsoff;
  portsc = new_portsc bar0.addr r.caplength (num_of_ports r);
  doorbells = doorbell_regs bar0.addr r;
}

-- The accesses to the configuration space that `PciXhciDriver::attach` begins with.
unfoldable pub take_device :
    {S : Type 0} → ConfigSpace S → Pci → BusDeviceFunction → S → S × Result BarMem64
take_device space pci b s =
    after_write (disable_interrupt space pci b s)
      (λ s1. after_write (enable_bus_master space pci b s1) (λ s2. try_bar0_mem64 space pci b s2))

-- A BAR of whole pages below 2^48.
pub record IsPageBar (bar : BarMem64) : Type 0 where
  pub aligned : bar.addr % 4096 ≡ 0
  pub whole : bar.size % 4096 ≡ 0
  pub some_pages : 0 < bar.size
  pub in_space : bar.addr + bar.size ≤ 2 ^ 48

io_value :
    (bar : BarMem64) (r : ℕ)
    → bar.addr % 4096 ≡ 0
    → bar.addr ≤ r * 4096
    → page_value (io_request bar) r ≡ r * 4096 + 27
unfolding attr_bits
io_value bar r aligned low =
    ap (λ a. bit_or a 27)
      (let e : bar.addr + (r - bar.addr / 4096) * 4096 ≡ r * 2 ^ 12 = omega (arith, aligned, low) in
        e)
    ∙ bit_or_fields 12 r 27 (omega arith)

-- For a BAR of whole pages below 2^48, `disable_cache` succeeds, and afterwards each page of the BAR is
-- expect_table to itself with the attributes of device memory, and every other page as before.
pub disable_cache-maps :
    (table : ℕ → Cell 3) (bar : BarMem64)
    → IsPageBar bar
    → (table' : ℕ → Cell 3) × (disable_cache table bar ≡ some (ok table'))
      × ((r : ℕ)
          → bar.addr ≤ r * 4096
          → r * 4096 < bar.addr + bar.size
          → look_in 3 table' r ≡ r * 4096 + 27)
      × ((r : ℕ)
          → r < 2 ^ 36
          → (r * 4096 < bar.addr) ⊎ (bar.addr + bar.size ≤ r * 4096)
          → look_in 3 table' r ≡ look_in 3 table r)
unfolding disable_cache pages attr_bits
disable_cache-maps table bar fit =
    let q = io_request bar in
    let (table', addr, run, inside, outside) = create_mapping-maps q table (record {
      aligned = fit.aligned;
      physical = omega (arith, fit.in_space, fit.whole, fit.some_pages);
      virtual = omega (arith, fit.in_space, fit.whole, fit.some_pages, fit.aligned);
    }) in
    (
      table',
      rw (disable_cache, run) refl,
      λ r low high.
          inside r (omega (arith, low)) (omega (arith, high, low, fit.in_space))
          ∙ io_value bar r fit.aligned low,
      λ r small ends. outside r small (ends_at r ends),
    )
  where
    ends_at :
        (r : ℕ)
        → (r * 4096 < bar.addr) ⊎ (bar.addr + bar.size ≤ r * 4096)
        → (r < page (io_request bar) 0)
          ⊎ (page
                (io_request bar)
                (max 1 ((add_word 64 bar.addr bar.size - bar.addr + 4095) / 4096))
              ≤ r)
    ends_at r (inl low) = inl (omega (arith, low, fit.aligned))
    ends_at r (inr high) =
        inr (omega (arith, high, fit.aligned, fit.whole, fit.some_pages, fit.in_space))
