-- ===== src/Acpi/Tests.antt =====
-- The theorems on ACPI tables at concrete inputs.
use original_os_with_rust.Prelude.{ℕ, ◌+◌, ◌*◌, ◌≡◌, ◌⊎◌, none, some, ok, ◌==◌, if◌then◌else◌}
use original_os_with_rust.Acpi.{Xsdt}
use original_os_with_rust.Acpi.Rsdp.{
  Tables, AcpiRsdpStruct, hpet, hpet_signature, NoTable, FirstAt, hpet-first,
}

-- Three tables, of which the second is HPET.
abbrev xsdt : Xsdt
xsdt = record {
  header = record { place = 0x8000; signature = 0x54445358; length = 60 };
  entry = λ i. record {
    place = 0x9000 + i * 256;
    signature = if i == 1 then hpet_signature else 0x43495041;
    length = 60;
  };
}

abbrev tables : Tables
tables = record {
  xsdt_at = λ place. xsdt;
  hpet_at = λ place. record { address = record { address_space_id = 0; address = 0xfed00000 } };
  ecam_at = λ place i. record { ecm_base_addr = 0xb0000000; start_pci_bus = 0; end_pci_bus = 255 };
}

abbrev root : AcpiRsdpStruct
root = record { xsdt = 0x8000 }

hpet-first_example :
    ((hpet tables root ≡ some (ok none)) × NoTable xsdt hpet_signature)
    ⊎ ((k : ℕ) × (hpet tables root ≡ some (ok (some (tables.hpet_at (xsdt.entry k).place))))
        × FirstAt xsdt hpet_signature k)
hpet-first_example = hpet-first tables root
