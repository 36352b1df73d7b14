-- ===== src/Boot.antt =====
-- init.rs: what the kernel does with the memory map, the screen and the timer when it starts.
pub mod Identity
pub mod Devices
pub mod Tests
use original_os_with_rust.Prelude.{ℕ, ◌+◌, ◌*◌, ◌/◌, ◌^◌, Bool, true, false, if◌then◌else◌, max}
use original_os_with_rust.Prelude.{Option, none, some, Result, ok, err, panic, List, [], ◌∷◌}
use original_os_with_rust.Words.Ops.{wrap, add_word}
use original_os_with_rust.Uefi.{
  EfiMemoryType, EfiMemoryDescriptor, MemoryMapHolder, iter, is_conventional, conventional_memory,
  loader_code, loader_data,
}
use original_os_with_rust.Paging.{not_present, read_write_kernel}
use original_os_with_rust.Paging.Mapping.{Request, Cell, zeroed, Outcome, create_mapping}

-- The first arm of the `match` in `init_paging`.
abbrev pub is_kernel_memory : EfiMemoryType → Bool
is_kernel_memory conventional_memory = true
is_kernel_memory loader_code = true
is_kernel_memory loader_data = true
is_kernel_memory _ = false

-- The address after a descriptor's memory.
abbrev pub end_of : EfiMemoryDescriptor → ℕ
end_of e = add_word 64 e.physical_start (wrap 64 (e.number_of_pages * 4096))

-- The body of the loop of `init_paging`.
abbrev pub extend : ℕ → EfiMemoryDescriptor → ℕ
extend end e = if is_kernel_memory e.memory_type then max end (end_of e) else end

-- The loop of `init_paging`, from a value of `end_of_mem`.
unfoldable pub end_of_mem : ℕ → List EfiMemoryDescriptor → ℕ
end_of_mem end [] = end
end_of_mem end (e ∷ es) = end_of_mem (extend end e) es

-- `PML4::new()`.
abbrev pub new_pml4 : ℕ → Cell 3
new_pml4 i = zeroed 3

-- The requests of the two calls of `create_mapping`.
abbrev pub whole_memory : ℕ → Request
whole_memory end = record { virt_start = 0; virt_end = end; phys = 0; attr = read_write_kernel }

abbrev pub page_zero : Request
page_zero = record { virt_start = 0; virt_end = 4096; phys = 0; attr = not_present }

-- `expect` on what `create_mapping` returns, and the rest.
abbrev pub expect_mapped :
    Outcome (ℕ → Cell 3)
    → ((ℕ → Cell 3) → Option (Result (ℕ → Cell 3)))
    → Option (Result (ℕ → Cell 3))
expect_mapped none rest = none
expect_mapped (some (table, addr, err e)) rest = some (err panic)
expect_mapped (some (table, addr, ok _)) rest = rest table

-- The calls of `create_mapping` with a known end; the result is the table for CR3.
unfoldable pub map_memory : ℕ → Option (Result (ℕ → Cell 3))
map_memory end =
    expect_mapped (create_mapping new_pml4 (whole_memory end))
      (λ table. expect_mapped (create_mapping table page_zero) (λ table'. some (ok table')))

unfoldable pub init_paging : MemoryMapHolder → Option (Result (ℕ → Cell 3))
init_paging m = elim (iter m) [ none ↦ none | some es ↦ map_memory (end_of_mem (2 ^ 32) es) ]

-- The loop of `init_allocator`.
unfoldable pub total_memory_pages : ℕ → List EfiMemoryDescriptor → ℕ
total_memory_pages total [] = total
total_memory_pages total (e ∷ es) =
    total_memory_pages
      (if is_conventional e.memory_type then add_word 64 total e.number_of_pages else total) es

-- The size that `init_allocator` shows.
unfoldable pub total_memory_size_mib : List EfiMemoryDescriptor → ℕ
total_memory_size_mib es = wrap 64 (total_memory_pages 0 es * 4096) / 1024 / 1024
