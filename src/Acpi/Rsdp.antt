-- ===== src/Acpi/Rsdp.antt =====
-- acpi.rs: the tables that the root pointer leads to. What stands in memory is a function of the address.
use original_os_with_rust.Prelude.{
  ℕ, arith, ◌≡◌, ◌≢◌, ◌<◌, ◌⊎◌, inl, inr, refl, ap, ◌∙◌, ≡→==, Option, none, some, Result, ok,
  ◌>>=◌,
}
use original_os_with_rust.Acpi.{
  Xsdt, SystemDescriptionTableHeader, GenericAddress, EcamEntry, AcpiMcfgDescriptor, find_table,
  new_table, address_in_memory_space, num_of_tables,
}
use original_os_with_rust.Acpi.Find.{IsFirst, found, missing, find_table-IsFirst}

pub record AcpiHpetDescriptor : Type 0 where
  pub address : GenericAddress

unfoldable pub base_address : AcpiHpetDescriptor → Result ℕ
base_address d = address_in_memory_space d.address

pub record AcpiRsdpStruct : Type 0 where
  pub xsdt : ℕ

-- The tables in memory.
pub record Tables : Type 0 where
  pub xsdt_at : ℕ → Xsdt
  pub hpet_at : ℕ → AcpiHpetDescriptor
  pub ecam_at : ℕ → ℕ → EcamEntry

-- "HPET" and "MCFG".
abbrev pub hpet_signature : ℕ
hpet_signature = 0x54455048

abbrev pub mcfg_signature : ℕ
mcfg_signature = 0x4746434d

-- `map(Table::new)` on what was found.
abbrev pub mapped :
    {A : Type 0}
    → (SystemDescriptionTableHeader → Result A)
    → Option (Option SystemDescriptionTableHeader)
    → Option (Result (Option A))
mapped f none = none
mapped f (some none) = some (ok none)
mapped f (some (some header)) = some (f header >>= λ table. ok (some table))

unfoldable pub hpet : Tables → AcpiRsdpStruct → Option (Result (Option AcpiHpetDescriptor))
hpet t r =
    mapped (λ header. new_table hpet_signature header >>= λ h. ok (t.hpet_at h.place))
      (find_table (t.xsdt_at r.xsdt) hpet_signature)

unfoldable pub mcfg : Tables → AcpiRsdpStruct → Option (Result (Option AcpiMcfgDescriptor))
mcfg t r =
    mapped
      (λ header. new_table mcfg_signature header >>= λ h.
        ok (record { header = h; ecam = t.ecam_at h.place }))
      (find_table (t.xsdt_at r.xsdt) mcfg_signature)

-- The index of the first table with a signature, or that there is none.
abbrev pub FirstAt : Xsdt → ℕ → ℕ → Type 0
FirstAt x sig k =
    (k < num_of_tables x)
    × ((x.entry k).signature ≡ sig)
    × ((j : ℕ) → j < k → (x.entry j).signature ≢ sig)

abbrev pub NoTable : Xsdt → ℕ → Type 0
NoTable x sig = (j : ℕ) → j < num_of_tables x → (x.entry j).signature ≢ sig

new_table-ok :
    (sig : ℕ) (header : SystemDescriptionTableHeader)
    → header.signature ≡ sig
    → new_table sig header ≡ ok header
unfolding new_table
new_table-ok sig header e = rw (new_table, ≡→== header.signature sig e) refl

module _ {A : Type 0} (x : Xsdt) (sig : ℕ) (at : SystemDescriptionTableHeader → A) where
  abbrev read_table : SystemDescriptionTableHeader → Result A
  read_table header = new_table sig header >>= λ h. ok (at h)

  by_first :
      (o : Option SystemDescriptionTableHeader)
      → IsFirst x sig 0 o
      → ((mapped read_table (some o) ≡ some (ok none)) × NoTable x sig)
        ⊎ ((k : ℕ) × (mapped read_table (some o) ≡ some (ok (some (at (x.entry k)))))
            × FirstAt x sig k)
  by_first o (missing e absent) =
      inl (ap (λ o'. mapped read_table (some o')) e, λ j h. absent j (omega arith) h)
  by_first o (found k low small e same first) = inr (
    k,
    ap (λ o'. mapped read_table (some o')) e
        ∙ ap (λ r. some (r >>= (λ h. ok (at h)) >>= λ table. ok (some table)))
            (new_table-ok sig (x.entry k) same),
    (small, same, λ j h. first j (omega arith) h),
  )

-- The table HPET is that of the first entry with its signature, or none when there is no such entry: the
-- search ends, and the assertion on the signature does not fail.
pub hpet-first :
    (t : Tables) (r : AcpiRsdpStruct)
    → let x = t.xsdt_at r.xsdt in
      ((hpet t r ≡ some (ok none)) × NoTable x hpet_signature)
      ⊎ ((k : ℕ) × (hpet t r ≡ some (ok (some (t.hpet_at (x.entry k).place))))
          × FirstAt x hpet_signature k)
unfolding hpet
hpet-first t r =
    let x = t.xsdt_at r.xsdt in
    let (o, e, first) = find_table-IsFirst x hpet_signature in
    rw (hpet, e) (by_first x hpet_signature (λ h. t.hpet_at h.place) o first)
