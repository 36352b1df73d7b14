-- ===== src/Xhci/Scratchpad.antt =====
-- xhci.rs: `ScratchpadBuffers::alloc`. The heap is given by the address that it answers to its k-th
-- allocation with a layout, 0 when it has no memory left.
use original_os_with_rust.Prelude.{
  ℕ, zero, suc, ◌+◌, ◌*◌, ◌==◌, if◌then◌else◌, max, Result, ok, err, panic, ◌>>=◌, List, [], ◌∷◌,
}
use original_os_with_rust.Xhci.Regs.{
  CapabilityRegisters, OperationalRegisters, page_size, num_scratchpad_bufs,
}

pub record Layout : Type 0 where
  pub size : ℕ
  pub align : ℕ

abbrev pub Heap : Type 0
Heap = ℕ → Layout → ℕ

-- The pointers in the table, and its address.
pub record ScratchpadBuffers : Type 0 where
  pub table : ℕ
  pub bufs : List ℕ

-- An allocation. `Box::from` panics on a null pointer; a slice made from a null pointer has no defined
-- behaviour, and the model ends there in the same way.
unfoldable pub area : Heap → ℕ → Layout → Result ℕ
area heap k layout = if heap k layout == 0 then err panic else ok (heap k layout)

-- The loop over `n` entries, with `i` allocations made before: an area of one page, and
-- `Box::<[u8]>::from`, which copies it to a new area with the alignment of a byte.
unfoldable pub alloc_bufs : Heap → (size n i : ℕ) → Result (List ℕ)
alloc_bufs heap size zero i = ok []
alloc_bufs heap size (suc n) i = area heap i (record { size = size; align = size }) >>= λ page.
    area heap (i + 1) (record { size = size; align = 1 }) >>= λ buf.
    alloc_bufs heap size n (i + 2) >>= λ bufs. ok (buf ∷ bufs)

-- The layouts are valid: the page size is a power of two, and the sizes are below 2^63. The table, too,
-- is copied to a new area by `Box::from`.
unfoldable pub alloc_scratchpad :
    Heap → CapabilityRegisters → OperationalRegisters → Result ScratchpadBuffers
alloc_scratchpad heap cap_regs op_regs = page_size op_regs >>= λ size.
    let n = max (num_scratchpad_bufs cap_regs) 1 in
    area heap 0 (record { size = 8 * n; align = size }) >>= λ page.
    area heap 1 (record { size = 8 * n; align = 8 }) >>= λ table.
    alloc_bufs heap size n 2 >>= λ bufs. ok (record { table = table; bufs = bufs })
