-- ===== src/Boot/Identity.antt =====
-- init.rs: the page tables that the kernel starts with.
use original_os_with_rust.Prelude.{
  ℕ, zero, suc, bit_or, ◌+◌, ◌-◌, ◌*◌, ◌/◌, ◌^◌, ◌≤◌, ◌<◌, ◌≡◌, ◌⊎◌, inl, inr, refl, arith, ap, sym,
  ◌∙◌,
}
use original_os_with_rust.Prelude.{true, false, Bool-cases, some, ok, List, [], ◌∷◌, All, subst}
use original_os_with_rust.Words.Masks.{bit_or_fields}
use original_os_with_rust.Uefi.{EfiMemoryDescriptor, MemoryMapHolder, iter}
use original_os_with_rust.Uefi.MemoryMap.{entries, iter-entries}
use original_os_with_rust.Paging.{attr_bits}
use original_os_with_rust.Paging.Mapping.{Cell}
use original_os_with_rust.Paging.Mapping.Pages.{pages, page_value, look, look_in}
use original_os_with_rust.Paging.Mapping.Create.{create_mapping-maps}
use original_os_with_rust.Boot.{
  is_kernel_memory, end_of, extend, end_of_mem, new_pml4, whole_memory, page_zero, map_memory,
  init_paging,
}

-- The memory of a descriptor ends at `end` or before it, if the kernel maps it.
abbrev pub Below : ℕ → EfiMemoryDescriptor → Type 0
Below end e =
    (is_kernel_memory e.memory_type ≡ false) ⊎ (e.physical_start + e.number_of_pages * 4096 ≤ end)

-- The page `r` is mapped to itself, for the kernel to read and to write.
abbrev pub IsIdentity : (ℕ → Cell 3) → ℕ → Type 0
IsIdentity table r = look_in 3 table r ≡ r * 4096 + 3

end_of-fit :
    (e : EfiMemoryDescriptor)
    → e.physical_start + e.number_of_pages * 4096 ≤ 2 ^ 48
    → end_of e ≡ e.physical_start + e.number_of_pages * 4096
end_of-fit e h = omega arith

kernel_fits :
    (end : ℕ) (e : EfiMemoryDescriptor)
    → is_kernel_memory e.memory_type ≡ true
    → Below end e
    → e.physical_start + e.number_of_pages * 4096 ≤ end
kernel_fits end e kernel (inl other) = ground arith
kernel_fits end e kernel (inr h) = h

-- One round keeps the bounds of the end, and takes in the descriptor.
extend-Below :
    (end : ℕ) (e : EfiMemoryDescriptor)
    → end ≤ 2 ^ 48
    → Below (2 ^ 48) e
    → (end ≤ extend end e) × (extend end e ≤ 2 ^ 48) × Below (extend end e) e
extend-Below end e h fit = elim (Bool-cases (is_kernel_memory e.memory_type)) [
  | inl kernel ↦
      let small = kernel_fits (2 ^ 48) e kernel fit in
      let same = end_of-fit e small in
      rw kernel (omega arith, omega (arith, same, small, h), inr (omega (arith, same)))
  | inr other ↦ rw other (omega arith, h, inl refl)
]

Below-trans : (a b : ℕ) (e : EfiMemoryDescriptor) → a ≤ b → Below a e → Below b e
Below-trans a b e h (inl other) = inl other
Below-trans a b e h (inr small) = inr (omega (arith, small))

-- The end is not below the value that the loop starts with, it stays within 48 bits, and the memory of
-- each descriptor is before it.
end_of_mem-Below :
    (end : ℕ) (es : List EfiMemoryDescriptor)
    → end ≤ 2 ^ 48
    → All (Below (2 ^ 48)) es
    → (end ≤ end_of_mem end es) × (end_of_mem end es ≤ 2 ^ 48) × All (Below (end_of_mem end es)) es
unfolding end_of_mem
end_of_mem-Below end [] h fits = (omega arith, h, tt)
end_of_mem-Below end (e ∷ es) h (fit, fits) =
    let (more, small, in_it) = extend-Below end e h fit in
    let (low, high, all) = end_of_mem-Below (extend end e) es small fits in
    (omega (arith, more, low), high, (Below-trans _ _ e low in_it, all))

page_value_kernel : (end r : ℕ) → page_value (whole_memory end) r ≡ r * 4096 + 3
unfolding attr_bits
page_value_kernel end r =
    ap (λ a. bit_or a 3) (let e : 0 + (r - 0 / 4096) * 4096 ≡ r * 2 ^ 12 = omega arith in e)
    ∙ bit_or_fields 12 r 3 (omega arith)

map_memory-maps :
    (end : ℕ)
    → 4096 ≤ end
    → end ≤ 2 ^ 48
    → (table : ℕ → Cell 3) × (map_memory end ≡ some (ok table))
      × ((r : ℕ) → 0 < r → r * 4096 < end → IsIdentity table r)
      × (look_in 3 table 0 ≡ 0)
      × ((r : ℕ) → r < 2 ^ 36 → end ≤ r * 4096 → look_in 3 table r ≡ 0)
unfolding map_memory pages look attr_bits
map_memory-maps end low high =
    let (t1, a1, e1, in1, out1) =
      create_mapping-maps (whole_memory end) new_pml4 (record {
        aligned = refl;
        physical = omega (arith, high);
        virtual = omega (arith, high);
      }) in
    let (t2, a2, e2, in2, out2) =
      create_mapping-maps page_zero t1
        (record { aligned = refl; physical = omega arith; virtual = omega arith }) in
    (
      t2,
      rw (map_memory, e1, e2) refl,
      λ r pos h.
          out2 r (omega (arith, h, high)) (inr (omega (arith, pos)))
          ∙ in1 r (omega arith) (omega (arith, h, pos))
          ∙ page_value_kernel end r,
      in2 0 (omega arith) (omega arith) ∙ refl,
      λ r small past.
          out2 r small (inr (omega (arith, past, low)))
          ∙ out1 r small (inr (omega (arith, past, low)))
          ∙ refl,
    )

entries-All :
    (P : EfiMemoryDescriptor → Type 0) (m : MemoryMapHolder) (ofs n : ℕ)
    → ((i : ℕ) → i < n → P (m.entry_at (ofs + i * m.descriptor_size)))
    → All P (entries m ofs n)
entries-All P m ofs zero h = tt
entries-All P m ofs (suc n) h = (
  subst (λ k. P (m.entry_at k)) (omega arith) (h 0 (omega arith)),
  entries-All P m (ofs + m.descriptor_size) n
      (λ i lt. subst (λ k. P (m.entry_at k)) (grind arith) (h (suc i) (omega arith))),
)

-- The table in CR3 maps the kernel's memory, the lowest 4 GiB at least, to itself, but for page 0.
pub record IsIdentityTable (end : ℕ) (table : ℕ → Cell 3) : Type 0 where
  pub low_memory : 2 ^ 32 ≤ end
  pub identity : (r : ℕ) → 0 < r → r * 4096 < end → look_in 3 table r ≡ r * 4096 + 3
  pub null_page : look_in 3 table 0 ≡ 0
  pub nothing_else : (r : ℕ) → r < 2 ^ 36 → end ≤ r * 4096 → look_in 3 table r ≡ 0

zero_add : (n : ℕ) → n ≡ 0 + n
zero_add n = omega arith

-- When the descriptor size is not 0 and the memory that the kernel maps ends within 48 bits,
-- `init_paging` ends without a panic, and its table maps the page r to itself for reading and writing for
-- each r below an end that is 4 GiB or more and not before the end of any conventional or loader
-- memory of the map; only page 0, and what is not below the end, is absent.
pub init_paging-identity :
    (m : MemoryMapHolder)
    → 0 < m.descriptor_size
    → ((i : ℕ)
        → i * m.descriptor_size < m.memory_map_size
        → Below (2 ^ 48) (m.entry_at (i * m.descriptor_size)))
    → (es : List EfiMemoryDescriptor) × (end : ℕ) × (table : ℕ → Cell 3) × (iter m ≡ some es)
      × (init_paging m ≡ some (ok table))
      × All (Below end) es
      × IsIdentityTable end table
unfolding init_paging
init_paging-identity m pos fits =
    let (n, e, counts) = iter-entries m pos in
    let es = entries m 0 n in
    let all = entries-All (Below (2 ^ 48)) m 0 n (λ i lt.
      subst (λ k. Below (2 ^ 48) (m.entry_at k)) (zero_add _)
        (fits i (subst (λ k. k < m.memory_map_size) (sym (zero_add _)) (counts.inside i lt)))) in
    let (low, high, below) = end_of_mem-Below (2 ^ 32) es (omega arith) all in
    let (table, run, identity, null, rest) =
      map_memory-maps (end_of_mem (2 ^ 32) es) (omega (arith, low)) high in
    (
      es,
      end_of_mem (2 ^ 32) es,
      table,
      e,
      rw (init_paging, e) run,
      below,
      record { low_memory = low; identity = identity; null_page = null; nothing_else = rest },
    )
