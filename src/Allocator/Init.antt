-- ===== src/Allocator/Init.antt =====
-- `init_with_mmap` of allocator.rs: the chain that the allocator starts with.
pub mod Start
use original_os_with_rust.Prelude.{ℕ, ◌+◌, ◌-◌, ◌*◌, leb, ◌==◌, if◌then◌else◌, false, List, [], ◌∷◌}
use original_os_with_rust.Words.Ops.{wrap}
use original_os_with_rust.Uefi.{EfiMemoryDescriptor, is_conventional}
use original_os_with_rust.Allocator.{Header, new_from_addr}

-- `add_free_from_descriptor`; page 0 is left out, and so is an area of one page or less.
unfoldable pub add_free_from_descriptor : List Header → EfiMemoryDescriptor → List Header
add_free_from_descriptor chain desc =
    let whole = wrap 64 (desc.number_of_pages * 4096) in
    let start_addr = if desc.physical_start == 0 then 4096 else desc.physical_start in
    let size = if desc.physical_start == 0 then whole - 4096 else whole in
    if leb size 4096 then chain else record (new_from_addr start_addr) { size = size } ∷ chain

-- `init_with_mmap`, over the items of the memory map's iterator.
unfoldable pub init_with_mmap : List Header → List EfiMemoryDescriptor → List Header
init_with_mmap chain [] = chain
init_with_mmap chain (d ∷ ds) =
    init_with_mmap
      (if is_conventional d.memory_type then add_free_from_descriptor chain d else chain) ds
