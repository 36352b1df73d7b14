-- ===== src/Allocator/Tests.antt =====
-- Runs of the allocator, and its theorems at concrete inputs.
use original_os_with_rust.Prelude.{
  ℕ, ◌*◌, ◌^◌, ◌≤◌, ◌<◌, ◌≡◌, ◌≢◌, ◌⊎◌, refl, arith, inl, inr, ok, err, All,
}
use original_os_with_rust.Prelude.{some, out_of_range, true, false, List, [], ◌∷◌}
use original_os_with_rust.Uefi.{EfiMemoryDescriptor, MemoryMapHolder, iter}
use original_os_with_rust.Uefi.{conventional_memory, loader_code}
use original_os_with_rust.Uefi.MemoryMap.{entries, Counts, iter-entries}
use original_os_with_rust.Allocator.{leading_zeros, provide, provide_rounded, place}
use original_os_with_rust.Allocator.{
  Header, Allocation, sizes, round_up_to_nearest_pow2, alloc_with_options, dealloc,
}
use original_os_with_rust.Allocator.RoundUp.{round_up-IsNextPow2}
use original_os_with_rust.Allocator.Provide.{IsLayout}
use original_os_with_rust.Allocator.Chain.{IsChain, Has}
use original_os_with_rust.Allocator.Chain.Grant.{Grants, Denies, alloc-Grants}
use original_os_with_rust.Allocator.Chain.Free.{freed, dealloc-frees}
use original_os_with_rust.Allocator.Init.{init_with_mmap, add_free_from_descriptor}
use original_os_with_rust.Allocator.Init.Start.{IsMap, IsFree, init-IsChain}

-- The cases of `round_up_to_nearest_pow2_tests`.
rounds :
    (round_up_to_nearest_pow2 0 ≡ err out_of_range)
    × (round_up_to_nearest_pow2 1 ≡ ok 1)
    × (round_up_to_nearest_pow2 3 ≡ ok 4)
    × (round_up_to_nearest_pow2 8 ≡ ok 8)
    × (round_up_to_nearest_pow2 9 ≡ ok 16)
unfolding round_up_to_nearest_pow2 leading_zeros
rounds = (refl, refl, refl, refl, refl)

round_up-IsNextPow2_example :
    (k : ℕ) × (round_up_to_nearest_pow2 5 ≡ ok (2 ^ k)) × (k < 64) × (5 ≤ 2 ^ k) × (2 ^ k < 2 * 5)
round_up-IsNextPow2_example = round_up-IsNextPow2 5 (omega arith) (omega arith)

-- Two free regions: the first is too small for a page.
abbrev regions : List Header
regions =
    record { addr = 0x1000; size = 0x1000; is_allocated = false }
    ∷ record { addr = 0x10000; size = 0x8000; is_allocated = false }
    ∷ []

regions-IsChain : IsChain regions
regions-IsChain = ground arith

-- A block of 100 bytes at a multiple of 64 comes from the end of the first region.
small_block :
    alloc_with_options regions 100 64
    ≡ ok (record {
      addr = 0x1f80;
      chain =
          record { addr = 0x1000; size = 0xf60; is_allocated = false }
          ∷ record { addr = 0x1f60; size = 0xa0; is_allocated = true }
          ∷ record { addr = 0x10000; size = 0x8000; is_allocated = false }
          ∷ [];
    })
unfolding alloc_with_options provide round_up_to_nearest_pow2 leading_zeros provide_rounded place
small_block = refl

page-IsLayout : IsLayout 4096 12
page-IsLayout = omega arith

alloc-Grants_example :
    (r : Allocation) × (alloc_with_options regions 4096 (2 ^ 12) ≡ ok r)
    × IsChain r.chain
    × (Grants regions 4096 12 r ⊎ Denies regions 4096 12 r)
alloc-Grants_example = alloc-Grants regions 4096 12 regions-IsChain page-IsLayout

abbrev taken_block : Header
taken_block = record { addr = 0x1f60; size = 0xa0; is_allocated = true }

abbrev used : List Header
used = record { addr = 0x1000; size = 0xf60; is_allocated = false } ∷ taken_block ∷ []

used-IsChain : IsChain used
used-IsChain = ground arith

dealloc-frees_example :
    let out = dealloc used 0x1f80 in
    IsChain out
    × Has (freed taken_block) out
    × ((g : Header) → Has g used → g.addr ≢ 0x1f60 → Has g out)
    × (sizes out ≡ sizes used)
dealloc-frees_example = dealloc-frees used taken_block used-IsChain (inr (inl refl))

abbrev area : ℕ → ℕ → EfiMemoryDescriptor
area start pages = record {
  memory_type = conventional_memory;
  physical_start = start;
  virtual_start = 0;
  number_of_pages = pages;
  attribute = 0;
}

abbrev memory_map : List EfiMemoryDescriptor
memory_map =
    area 0 16 ∷ record (area 0x10000 16) { memory_type = loader_code } ∷ area 0x20000 16 ∷ []

memory_map-IsMap : IsMap memory_map
memory_map-IsMap = ground arith

-- Page 0 is left out, and so is the loader's code.
starts :
    init_with_mmap [] memory_map
    ≡ record { addr = 0x20000; size = 0x10000; is_allocated = false }
      ∷ record { addr = 0x1000; size = 0xf000; is_allocated = false }
      ∷ []
unfolding init_with_mmap add_free_from_descriptor
starts = refl

init-IsChain_example :
    IsChain (init_with_mmap [] memory_map) × All IsFree (init_with_mmap [] memory_map)
init-IsChain_example = init-IsChain memory_map memory_map-IsMap

abbrev holder : MemoryMapHolder
holder = record {
  entry_at = λ ofs. area (ofs * 4096) 1;
  memory_map_size = 144;
  map_key = 0;
  descriptor_size = 48;
  descriptor_version = 1;
}

iter-entries_example : (n : ℕ) × (iter holder ≡ some (entries holder 0 n)) × Counts holder 0 n
iter-entries_example = iter-entries holder (omega arith)
