-- ===== src/Allocator/Blocks/Tests.antt =====
-- A run of calls of the allocator: a block of 100 bytes is allocated and freed.
use original_os_with_rust.Prelude.{◌^◌, ◌≡◌, refl, arith, inl, inr, ok, true, false, List, [], ◌∷◌}
use original_os_with_rust.Allocator.{
  Header, Allocation, alloc_with_options, dealloc, leading_zeros, provide, provide_rounded, place,
  round_up_to_nearest_pow2,
}
use original_os_with_rust.Allocator.Provide.{IsLayout}
use original_os_with_rust.Allocator.Chain.{IsChain}
use original_os_with_rust.Allocator.Blocks.{
  blocks, allocated, freed, HeapSteps, alloc, free, ChainSteps,
}
use original_os_with_rust.Allocator.Blocks.Release.{ChainSteps-HeapSteps}

abbrev region : List Header
region = record { addr = 0x1000; size = 0x1000; is_allocated = false } ∷ []

region-IsChain : IsChain region
region-IsChain = ground arith

abbrev hundred : Allocation
hundred = record {
  addr = 0x1f80;
  chain =
      record { addr = 0x1000; size = 0xf60; is_allocated = false }
      ∷ record { addr = 0x1f60; size = 0xa0; is_allocated = true }
      ∷ [];
}

alloc_hundred : alloc_with_options region 100 (2 ^ 6) ≡ ok hundred
unfolding alloc_with_options provide round_up_to_nearest_pow2 leading_zeros provide_rounded place
alloc_hundred = refl

hundred-IsLayout : IsLayout 100 6
hundred-IsLayout = omega arith

both_calls :
    ChainSteps region (allocated 100 0x1f80 ∷ freed 0x1f80 ∷ []) (dealloc hundred.chain 0x1f80)
both_calls = ChainSteps.next (alloc 100 6 hundred hundred-IsLayout alloc_hundred) (
    ChainSteps.next
      (free (record { addr = 0x1f60; size = 0xa0; is_allocated = true }) (inr (inl refl)) refl)
      ChainSteps.stop)

ChainSteps-HeapSteps_example :
    HeapSteps
      (blocks region)
      (allocated 100 0x1f80 ∷ freed 0x1f80 ∷ [])
      (blocks (dealloc hundred.chain 0x1f80))
ChainSteps-HeapSteps_example =
    ChainSteps-HeapSteps region (dealloc hundred.chain 0x1f80)
      (allocated 100 0x1f80 ∷ freed 0x1f80 ∷ []) region-IsChain both_calls
