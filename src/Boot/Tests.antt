-- ===== src/Boot/Tests.antt =====
-- The theorem on the page tables at a memory map of two entries.
use original_os_with_rust.Prelude.{
  ℕ, zero, suc, ◌*◌, ◌^◌, ◌<◌, ◌≡◌, inl, inr, refl, arith, some, ok, List, [], ◌∷◌, All,
}
use original_os_with_rust.Uefi.{
  EfiMemoryDescriptor, MemoryMapHolder, iter, conventional_memory, memory_mapped_io,
}
use original_os_with_rust.Paging.Mapping.{Cell}
use original_os_with_rust.Boot.{init_paging, total_memory_pages, total_memory_size_mib, end_of_mem}
use original_os_with_rust.Boot.Identity.{Below, IsIdentityTable, init_paging-identity}

abbrev high_memory : EfiMemoryDescriptor
high_memory = record {
  memory_type = conventional_memory;
  physical_start = 0x100000000;
  virtual_start = 0;
  number_of_pages = 0x100;
  attribute = 15;
}

abbrev device : EfiMemoryDescriptor
device = record {
  memory_type = memory_mapped_io;
  physical_start = 0xffffffffff000;
  virtual_start = 0;
  number_of_pages = 1;
  attribute = 15;
}

-- Entries of 48 bytes: memory at 4 GiB, then devices out of the reach of the tables.
abbrev two_entries : MemoryMapHolder
two_entries = record {
  entry_at = λ ofs. elim ofs [ zero ↦ high_memory | suc k ↦ device ];
  memory_map_size = 96;
  map_key = 1;
  descriptor_size = 48;
  descriptor_version = 1;
}

two_entries-Below : (i : ℕ) → i * 48 < 96 → Below (2 ^ 48) (two_entries.entry_at (i * 48))
two_entries-Below zero h = inr (omega arith)
two_entries-Below (suc zero) h = inl refl
two_entries-Below (suc (suc i)) h = absurd (omega arith)

init_paging-identity_example :
    (es : List EfiMemoryDescriptor) × (end : ℕ) × (table : ℕ → Cell 3) × (iter two_entries
      ≡ some es)
    × (init_paging two_entries ≡ some (ok table))
    × All (Below end) es
    × IsIdentityTable end table
init_paging-identity_example = init_paging-identity two_entries (omega arith) two_entries-Below

end_of_mem_test : end_of_mem (2 ^ 32) (high_memory ∷ device ∷ []) ≡ 0x100100000
unfolding end_of_mem
end_of_mem_test = refl

total_memory_test : total_memory_size_mib (high_memory ∷ device ∷ []) ≡ 1
unfolding total_memory_size_mib total_memory_pages
total_memory_test = refl
