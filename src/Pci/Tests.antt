-- ===== src/Pci/Tests.antt =====
-- The theorems on PCI at concrete inputs.
use original_os_with_rust.Prelude.{
  ℕ, ◌+◌, ◌-◌, ◌*◌, ◌/◌, ◌%◌, ◌^◌, ◌≤◌, ◌<◌, ◌≡◌, ◌⊎◌, refl, arith, ap, ◌∙◌,
}
use original_os_with_rust.Prelude.{ok, some, ◌==◌, if◌then◌else◌, bit_or}
use original_os_with_rust.Paging.Mapping.{Cell, absent}
use original_os_with_rust.Paging.Mapping.Pages.{look_in}
use original_os_with_rust.Pci.Attach.{disable_cache, disable_cache-maps}
use original_os_with_rust.Words.Masks.{bit_or_fields}
use original_os_with_rust.Pci.{
  BusDeviceFunction, new_bdf, bus, device, function, collect_bdf, ecm_base, new_pci, Pci, BarMem64,
}
use original_os_with_rust.Pci.{
  ConfigSpace, read_register_u64, write_register_u64, try_bar0_mem64, read_register_u32,
}
use original_os_with_rust.Pci.{write_register_u32, read_address, write_address}
use original_os_with_rust.Pci.Bdf.{new_bdf-parts, ids_from, collect-all, ecm_base-parts}
use original_os_with_rust.Pci.Bar.{IsBar, try_bar0_mem64-size}

new_bdf-parts_example :
    (i : BusDeviceFunction) × (new_bdf 1 2 3 ≡ ok i)
    × (bus i ≡ 1)
    × (device i ≡ 2)
    × (function i ≡ 3)
    × (i.id < 2 ^ 16)
new_bdf-parts_example = new_bdf-parts 1 2 3 (omega arith) (omega arith) (omega arith)

collect-all_example : collect_bdf 70000 0 ≡ some (ids_from 0 65536)
collect-all_example = collect-all 70000 (omega arith)

ecm_base-parts_example :
    (i : BusDeviceFunction) × (new_bdf 1 2 3 ≡ ok i)
    × (ecm_base (new_pci 0xb0000000) i ≡ 0xb0000000 + (1 * 2 ^ 20 + 2 * 2 ^ 15 + 3 * 2 ^ 12))
ecm_base-parts_example =
    ecm_base-parts 0xb0000000 1 2 3 (omega arith) (omega arith) (omega arith) (omega arith)

-- A device whose only register is a BAR of 2^14 bytes; the space starts at 0.
abbrev bar_space : ConfigSpace ℕ
bar_space = record {
  load16 = λ s a. 0;
  load32 = λ s a. if a == 16 then s % 2 ^ 32 else s / 2 ^ 32;
  store32 = λ s a v.
      if a == 16 then s / 2 ^ 32 * 2 ^ 32 + (v / 2 ^ 14 * 2 ^ 14 + 4) else v * 2 ^ 32 + s % 2 ^ 32;
}

abbrev pci0 : Pci
pci0 = record { ecm_start = 0; ecm_end = 2 ^ 24 }

abbrev function0 : BusDeviceFunction
function0 = record { id = 0 }

two_words : (s : ℕ) → s < 2 ^ 64 → bit_or (s / 2 ^ 32 * 2 ^ 32 % 2 ^ 64) (s % 2 ^ 32) ≡ s
two_words s h =
    ap (λ t. bit_or t (s % 2 ^ 32))
      (let e : s / 2 ^ 32 * 2 ^ 32 % 2 ^ 64 ≡ s / 2 ^ 32 * 2 ^ 32 = omega arith in e)
    ∙ bit_or_fields 32 (s / 2 ^ 32) (s % 2 ^ 32) (omega arith)
    ∙ omega arith

bar_answers :
    (t v : ℕ)
    → v < 2 ^ 64
    → read_register_u64 bar_space pci0 function0
        (write_register_u64 bar_space pci0 function0 t 16 v).0
        16
      ≡ ok (v / 2 ^ 14 * 2 ^ 14 + 4)
unfolding read_register_u64 read_register_u32 write_register_u64 write_register_u32 read_address
    write_address ecm_base
bar_answers t v h = ap ok (two_words _ (omega arith) ∙ omega arith)

bar0-IsBar : IsBar bar_space pci0 function0 0xfebd0004 14 4
unfolding read_register_u64 read_register_u32 write_register_u64 write_register_u32 read_address
    write_address ecm_base
bar0-IsBar = record {
  low = omega arith;
  high = omega arith;
  flags-lt = omega arith;
  kind = refl;
  value = 0xfebd0004;
  value-lt = omega arith;
  fixed = refl;
  reads = refl;
  store = λ t v. (write_register_u64 bar_space pci0 function0 t 16 v).0;
  writes = λ t v h. refl;
  answers = bar_answers;
}

try_bar0_mem64-size_example : try_bar0_mem64 bar_space pci0 function0 0xfebd0004 ≡ (
  bar0-IsBar.store (bar0-IsBar.store 0xfebd0004 (2 ^ 64 - 1)) bar0-IsBar.value,
  ok (record { addr = bar0-IsBar.value / 16 * 16; size = 2 ^ 14 }),
)
try_bar0_mem64-size_example =
    try_bar0_mem64-size bar_space pci0 function0 0xfebd0004 14 4 bar0-IsBar

-- A BAR of four pages, on a page table without entries.
abbrev four_page_bar : BarMem64
four_page_bar = record { addr = 0xfebf0000; size = 0x4000 }

abbrev no_entries : ℕ → Cell 3
no_entries i = absent

disable_cache-maps_example :
    (table' : ℕ → Cell 3) × (disable_cache no_entries four_page_bar ≡ some (ok table'))
    × ((r : ℕ)
        → 0xfebf0000 ≤ r * 4096
        → r * 4096 < 0xfebf0000 + 0x4000
        → look_in 3 table' r ≡ r * 4096 + 27)
    × ((r : ℕ)
        → r < 2 ^ 36
        → (r * 4096 < 0xfebf0000) ⊎ (0xfebf0000 + 0x4000 ≤ r * 4096)
        → look_in 3 table' r ≡ look_in 3 no_entries r)
disable_cache-maps_example = disable_cache-maps no_entries four_page_bar (record {
  aligned = omega arith;
  whole = omega arith;
  some_pages = omega arith;
  in_space = omega arith;
})
