-- ===== src/Uefi.antt =====
-- uefi.rs: the memory map that the firmware hands over, its iterator, the configuration tables and
-- the last calls of the boot services. The bytes of the map and the firmware's answers are arguments.
pub mod MemoryMap
pub mod Vram
pub mod Config
use original_os_with_rust.Prelude.{
  ℕ, zero, suc, ◌+◌, Bool, true, false, ◌&&◌, leb, ◌==◌, if◌then◌else◌,
}
use original_os_with_rust.Prelude.{Option, none, some, List, [], ◌∷◌, Result, ok, err, panic}

pub data EfiMemoryType : Type 0 where
  reserved loader_code loader_data boot_services_code boot_services_data : EfiMemoryType
  runtime_services_code runtime_services_data conventional_memory unusable_memory : EfiMemoryType
  acpi_reclaim_memory acpi_memory_nvs memory_mapped_io : EfiMemoryType
  memory_mapped_io_port_space pal_code persistent_memory : EfiMemoryType

pub record EfiMemoryDescriptor : Type 0 where
  pub memory_type : EfiMemoryType
  pub physical_start : ℕ
  pub virtual_start : ℕ
  pub number_of_pages : ℕ
  pub attribute : ℕ

-- `memory_type() == EfiMemoryType::CONVENTIONAL_MEMORY`.
abbrev pub is_conventional : EfiMemoryType → Bool
is_conventional conventional_memory = true
is_conventional _ = false

-- `MemoryMapHolder`; `entry_at` reads the buffer as a descriptor from a byte offset on.
pub record MemoryMapHolder : Type 0 where
  pub entry_at : ℕ → EfiMemoryDescriptor
  pub memory_map_size : ℕ
  pub map_key : ℕ
  pub descriptor_size : ℕ
  pub descriptor_version : ℕ

-- `MemoryMapIterator::next`: the item and the next offset.
-- The offset is below the size of the map before a step, which is at most that of its buffer, and is added
-- to without a wrap-around.
unfoldable pub next : MemoryMapHolder → ℕ → Option (EfiMemoryDescriptor × ℕ)
next m ofs =
    if leb m.memory_map_size ofs then none else some (m.entry_at ofs, ofs + m.descriptor_size)

-- A `for` loop's items from an offset on, with fuel.
unfoldable pub collect : ℕ → MemoryMapHolder → ℕ → Option (List EfiMemoryDescriptor)
unfolding next
collect zero m ofs = none
collect (suc fuel) m ofs = elim (next m ofs) [
  | none ↦ some []
  | some (d, ofs') ↦ elim (collect fuel m ofs') [ none ↦ none | some ds ↦ some (d ∷ ds) ]
]

-- `MemoryMapHolder::iter` run to its end; one round for each byte of the map is more than enough.
unfoldable pub iter : MemoryMapHolder → Option (List EfiMemoryDescriptor)
iter m = collect (suc m.memory_map_size) m 0
