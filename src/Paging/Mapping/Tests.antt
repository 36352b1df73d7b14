-- ===== src/Paging/Mapping/Tests.antt =====
-- The theorem on `create_mapping` at a concrete request, which two page tables share.
use original_os_with_rust.Prelude.{ℕ, ◌^◌, ◌≤◌, ◌<◌, ◌≡◌, ◌⊎◌, arith, some, ok}
use original_os_with_rust.Paging.{read_write_kernel}
use original_os_with_rust.Paging.Mapping.{Request, Cell, absent, create_mapping}
use original_os_with_rust.Paging.Mapping.Pages.{pages, page, page_value, look_in}
use original_os_with_rust.Paging.Mapping.Loop.{IsRequest}
use original_os_with_rust.Paging.Mapping.Create.{create_mapping-maps}

abbrev four_pages : Request
four_pages = record {
  virt_start = 0x1fe000;
  virt_end = 0x202000;
  phys = 0x5000;
  attr = read_write_kernel;
}

abbrev new_pml4 : ℕ → Cell 3
new_pml4 i = absent

four_pages-IsRequest : IsRequest four_pages
unfolding pages
four_pages-IsRequest = record {
  aligned = omega arith;
  physical = omega arith;
  virtual = omega arith;
}

create_mapping-maps_example :
    (pml4' : ℕ → Cell 3) × (addr : ℕ) × (create_mapping new_pml4 four_pages
      ≡ some (pml4', addr, ok tt))
    × ((r : ℕ)
        → page four_pages 0 ≤ r
        → r < page four_pages (pages four_pages)
        → look_in 3 pml4' r ≡ page_value four_pages r)
    × ((r : ℕ)
        → r < 2 ^ 36
        → (r < page four_pages 0) ⊎ (page four_pages (pages four_pages) ≤ r)
        → look_in 3 pml4' r ≡ look_in 3 new_pml4 r)
create_mapping-maps_example = create_mapping-maps four_pages new_pml4 four_pages-IsRequest
