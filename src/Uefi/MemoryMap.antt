-- ===== src/Uefi/MemoryMap.antt =====
-- uefi.rs: the iterator of the memory map.
use original_os_with_rust.Prelude.{ℕ, zero, suc, ◌+◌, ◌*◌, ◌≤◌, ◌<◌, ◌≡◌, arith, leb, true, false}
use original_os_with_rust.Prelude.{Bool-cases, le→leb, leb→le, List, [], ◌∷◌, some, inl, inr}
use original_os_with_rust.Uefi.{EfiMemoryDescriptor, MemoryMapHolder, collect, iter}

-- The entries at `ofs`, `ofs + descriptor_size`, and so on, as many as asked for.
abbrev pub entries : MemoryMapHolder → ℕ → ℕ → List EfiMemoryDescriptor
entries m ofs zero = []
entries m ofs (suc n) = m.entry_at ofs ∷ entries m (ofs + m.descriptor_size) n

-- `n` is the number of entries that begin inside the map, from `ofs` on.
pub record Counts (m : MemoryMapHolder) (ofs n : ℕ) : Type 0 where
  pub inside : (i : ℕ) → i < n → ofs + i * m.descriptor_size < m.memory_map_size
  pub reaches_end : m.memory_map_size ≤ ofs + n * m.descriptor_size

Counts-suc :
    (m : MemoryMapHolder) (ofs n : ℕ)
    → ofs < m.memory_map_size
    → Counts m (ofs + m.descriptor_size) n
    → Counts m ofs (suc n)
Counts-suc m ofs n h r = record {
  inside = inside;
  reaches_end = omega (arith, r.reaches_end, suc_mul n);
}
  where
    suc_mul : (i : ℕ) → suc i * m.descriptor_size ≡ i * m.descriptor_size + m.descriptor_size
    suc_mul i = grind arith

    inside : (i : ℕ) → i < suc n → ofs + i * m.descriptor_size < m.memory_map_size
    inside zero lt = omega arith
    inside (suc i) lt = omega (arith, r.inside i (omega arith), suc_mul i)

module _ (m : MemoryMapHolder) (ofs : ℕ) where
  collect-past : (f : ℕ) → leb m.memory_map_size ofs ≡ true → collect (suc f) m ofs ≡ some []
  unfolding collect
  collect-past f past = rw (past, collect)

  collect-more :
      (f : ℕ) (ds : List EfiMemoryDescriptor)
      → leb m.memory_map_size ofs ≡ false
      → collect f m (ofs + m.descriptor_size) ≡ some ds
      → collect (suc f) m ofs ≡ some (m.entry_at ofs ∷ ds)
  unfolding collect
  collect-more f ds more e = ground arith

  ended : m.memory_map_size ≤ ofs → Counts m ofs 0
  ended h = record { inside = λ i lt. absurd (omega arith); reaches_end = omega arith }

collect-entries :
    (fuel : ℕ) (m : MemoryMapHolder) (ofs : ℕ)
    → 0 < m.descriptor_size
    → m.memory_map_size ≤ ofs + fuel
    → (n : ℕ) × (collect (suc fuel) m ofs ≡ some (entries m ofs n)) × Counts m ofs n
collect-entries zero m ofs pos enough =
    (0, collect-past m ofs 0 (le→leb _ _ (omega arith)), ended m ofs (omega arith))
collect-entries (suc fuel) m ofs pos enough =
    let (n, e, r) = collect-entries fuel m (ofs + m.descriptor_size) pos (omega arith) in
    elim (Bool-cases (leb m.memory_map_size ofs)) [
      | inl past ↦ (0, collect-past m ofs (suc fuel) past, ended m ofs (leb→le _ _ past))
      | inr more ↦ (
        suc n,
        collect-more m ofs (suc fuel) (entries m (ofs + m.descriptor_size) n) more e,
        Counts-suc m ofs n (ground arith) r,
      )
    ]

-- With a nonzero descriptor size the loop over the memory map ends, and it has read, in order, just
-- the entries that begin inside the map.
pub iter-entries :
    (m : MemoryMapHolder)
    → 0 < m.descriptor_size
    → (n : ℕ) × (iter m ≡ some (entries m 0 n)) × Counts m 0 n
unfolding iter
iter-entries m pos = collect-entries m.memory_map_size m 0 pos (omega arith)
