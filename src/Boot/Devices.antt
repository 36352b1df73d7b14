-- ===== src/Boot/Devices.antt =====
-- init.rs: `init_hpet` and `init_pci`.
use original_os_with_rust.Prelude.{
  ℕ, ◌==◌, if◌then◌else◌, Option, none, some, Result, ok, err, panic, ◌>>=◌, to_option,
}
use original_os_with_rust.Mutex.{Mutex}
use original_os_with_rust.Hpet.{Hpet, HpetRegisters, new_hpet, set_global_hpet}
use original_os_with_rust.Acpi.{AcpiMcfgDescriptor, num_of_ecam, ecam_entry}
use original_os_with_rust.Acpi.Rsdp.{
  Tables, AcpiRsdpStruct, AcpiHpetDescriptor, hpet, mcfg, base_address,
}
use original_os_with_rust.Pci.{Pci, new_pci}

-- `expect` on an option, and on a result.
abbrev pub expect_some : {A : Type 0} → Option A → Result A
expect_some none = err panic
expect_some (some a) = ok a

-- The timer behind the lock, from the table's descriptor; `registers_at` has the registers in memory.
abbrev pub with_hpet :
    (ℕ → HpetRegisters)
    → Mutex (Option Hpet)
    → Result (Option AcpiHpetDescriptor)
    → Mutex (Option Hpet) × Result (Unit {0})
with_hpet registers_at m found =
    elim (found >>= λ o. expect_some o >>= λ d.
    expect_some (to_option (base_address d)) >>= λ at. new_hpet (registers_at at)) [
      | err e ↦ (m, err e)
      | ok h ↦ set_global_hpet m h
    ]

unfoldable pub init_hpet :
    Tables
    → (ℕ → HpetRegisters)
    → AcpiRsdpStruct
    → Mutex (Option Hpet)
    → Option (Mutex (Option Hpet) × Result (Unit {0}))
init_hpet t registers_at r m = elim (hpet t r) [
  | none ↦ none
  | some found ↦ some (with_hpet registers_at m found)
]

-- `Pci::new` on a table.
unfoldable pub pci_of : AcpiMcfgDescriptor → Result Pci
pci_of m =
    if num_of_ecam m == 1
    then (expect_some (ecam_entry m 0) >>= λ e. ok (new_pci e.ecm_base_addr))
    else err panic

abbrev pub with_mcfg : Option AcpiMcfgDescriptor → Result (Option Pci)
with_mcfg none = ok none
with_mcfg (some m) = pci_of m >>= λ pci. ok (some pci)

-- `init_pci` up to `probe_devices`, with the access to the configuration space that it makes, if any.
unfoldable pub init_pci : Tables → AcpiRsdpStruct → Option (Result (Option Pci))
init_pci t r = elim (mcfg t r) [ none ↦ none | some found ↦ some (found >>= with_mcfg) ]
