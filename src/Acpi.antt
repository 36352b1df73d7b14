-- ===== src/Acpi.antt =====
-- acpi.rs: the search for a table in the XSDT, and the entries of MCFG. The tables lie in memory: an entry
-- of the XSDT is the header it points to, an entry of MCFG is its record, each given by a function of the index.
pub mod Find
pub mod Rsdp
pub mod Tests
use original_os_with_rust.Prelude.{
  ℕ, zero, suc, ◌+◌, ◌/◌, leb, ◌==◌, if◌then◌else◌, Option, none, some,
}
use original_os_with_rust.Prelude.{Result, ok, err, not_memory_space, panic}
use original_os_with_rust.Words.Ops.{sub_word}

-- The signature's four bytes as a number, and the address that the header stands at.
pub record SystemDescriptionTableHeader : Type 0 where
  pub place : ℕ
  pub signature : ℕ
  pub length : ℕ

pub record Xsdt : Type 0 where
  pub header : SystemDescriptionTableHeader
  pub entry : ℕ → SystemDescriptionTableHeader

unfoldable pub num_of_tables : Xsdt → ℕ
num_of_tables x = sub_word 64 x.header.length 36 / 8

-- `XsdtIterator::next`: the item, and the index after the call.
unfoldable pub next_table : Xsdt → ℕ → Option SystemDescriptionTableHeader × ℕ
next_table x index =
    if leb (num_of_tables x) index then (none, index) else (some (x.entry index), suc index)

-- `find` on the iterator, with fuel: none when the fuel ends first.
unfoldable pub find_from : ℕ → Xsdt → ℕ → ℕ → Option (Option SystemDescriptionTableHeader)
find_from zero x sig index = none
find_from (suc fuel) x sig index =
    let (item, index') = next_table x index in
    let rest = find_from fuel x sig index' in
    elim item [ none ↦ some none | some e ↦ if e.signature == sig then some (some e) else rest ]

unfoldable pub find_table : Xsdt → ℕ → Option (Option SystemDescriptionTableHeader)
find_table x sig = find_from (suc (num_of_tables x)) x sig 0

-- `AcpiTable::new`.
unfoldable pub new_table : ℕ → SystemDescriptionTableHeader → Result SystemDescriptionTableHeader
new_table sig header = if header.signature == sig then ok header else err panic

pub record GenericAddress : Type 0 where
  pub address_space_id : ℕ
  pub address : ℕ

unfoldable pub address_in_memory_space : GenericAddress → Result ℕ
address_in_memory_space a = if a.address_space_id == 0 then ok a.address else err not_memory_space

pub record EcamEntry : Type 0 where
  pub ecm_base_addr : ℕ
  pub start_pci_bus : ℕ
  pub end_pci_bus : ℕ

pub record AcpiMcfgDescriptor : Type 0 where
  pub header : SystemDescriptionTableHeader
  pub ecam : ℕ → EcamEntry

unfoldable pub num_of_ecam : AcpiMcfgDescriptor → ℕ
num_of_ecam m = sub_word 64 m.header.length 44 / 16

unfoldable pub ecam_entry : AcpiMcfgDescriptor → ℕ → Option EcamEntry
ecam_entry m index = if leb (num_of_ecam m) index then none else some (m.ecam index)
