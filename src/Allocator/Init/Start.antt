-- ===== src/Allocator/Init/Start.antt =====
-- allocator.rs: the chain of headers that `init_with_mmap` leaves.
use original_os_with_rust.Prelude.{
  ◌+◌, ◌-◌, ◌*◌, ◌%◌, ◌^◌, ◌≤◌, ◌<◌, ◌≡◌, ◌⊎◌, inl, inr, arith, true, false,
}
use original_os_with_rust.Prelude.{Bool-cases, List, [], ◌∷◌, All, leb, ◌==◌, subst, sym}
use original_os_with_rust.Uefi.{EfiMemoryDescriptor, is_conventional}
use original_os_with_rust.Allocator.{Header}
use original_os_with_rust.Allocator.Init.{add_free_from_descriptor, init_with_mmap}
use original_os_with_rust.Allocator.Provide.{IsHeader}
use original_os_with_rust.Allocator.Chain.{IsChain, Apart, Disjoint, All-map}

-- A descriptor of whole pages below the top of the memory.
pub record IsArea (d : EfiMemoryDescriptor) : Type 0 where
  pub page_aligned : d.physical_start % 4096 ≡ 0
  pub in_memory : d.physical_start + d.number_of_pages * 4096 < 2 ^ 64

abbrev pub AreasApart : EfiMemoryDescriptor → EfiMemoryDescriptor → Type 0
AreasApart d e =
    (d.physical_start + d.number_of_pages * 4096 ≤ e.physical_start)
    ⊎ (e.physical_start + e.number_of_pages * 4096 ≤ d.physical_start)

-- The conventional areas of the map are well formed and apart from one another.
abbrev pub IsMap : List EfiMemoryDescriptor → Type 0
IsMap [] = Unit
IsMap (d ∷ ds) =
    (is_conventional d.memory_type ≡ true
      → IsArea d × All (λ e. is_conventional e.memory_type ≡ true → AreasApart d e) ds)
    × IsMap ds

-- A free region above page 0.
abbrev pub IsFree : Header → Type 0
IsFree h = (h.is_allocated ≡ false) × (4096 ≤ h.addr)

-- `h` is apart from every conventional area of the list.
abbrev ApartFrom : List EfiMemoryDescriptor → Header → Type 0
ApartFrom ds h =
    All
      (λ e.
        is_conventional e.memory_type ≡ true
        → (h.addr + h.size ≤ e.physical_start)
          ⊎ (e.physical_start + e.number_of_pages * 4096 ≤ h.addr))
      ds

-- What holds of the chain while `ds` are still to come.
record Ready (ds : List EfiMemoryDescriptor) (chain : List Header) : Type 0 where
  headers : All IsHeader chain
  disjoint : Disjoint chain
  free : All IsFree chain
  apart : All (ApartFrom ds) chain

Ready-skip :
    (d : EfiMemoryDescriptor) (ds : List EfiMemoryDescriptor) (chain : List Header)
    → Ready (d ∷ ds) chain
    → Ready ds chain
Ready-skip d ds chain r = record {
  headers = r.headers;
  disjoint = r.disjoint;
  free = r.free;
  apart = All-map (ApartFrom (d ∷ ds)) (ApartFrom ds) chain (λ h p. p.1) r.apart;
}

-- What `add_free_from_descriptor` puts in front of the chain.
record IsPart (d : EfiMemoryDescriptor) (h : Header) : Type 0 where
  header : IsHeader h
  free : IsFree h
  low : d.physical_start ≤ h.addr
  high : h.addr + h.size ≤ d.physical_start + d.number_of_pages * 4096

data Added (d : EfiMemoryDescriptor) (chain : List Header) : Type 0 where
  unchanged : add_free_from_descriptor chain d ≡ chain → Added d chain
  front : (h : Header) → add_free_from_descriptor chain d ≡ h ∷ chain → IsPart d h → Added d chain

add-Added : (d : EfiMemoryDescriptor) (chain : List Header) → IsArea d → Added d chain
unfolding add_free_from_descriptor
add-Added d chain v = elim (Bool-cases (d.physical_start == 0)) [
  | inl null ↦ elim (Bool-cases (leb (d.number_of_pages * 4096 % 2 ^ 64 - 4096) 4096)) [
    | inl small ↦ unchanged (rw (null, small))
    | inr large ↦
        front (record { addr = 4096; size = d.number_of_pages * 4096 - 4096; is_allocated = false })
          (ground arith) (ground arith)
  ]
  | inr above ↦ elim (Bool-cases (leb (d.number_of_pages * 4096 % 2 ^ 64) 4096)) [
    | inl small ↦ unchanged (rw (above, small))
    | inr large ↦
        front
          (record {
            addr = d.physical_start;
            size = d.number_of_pages * 4096;
            is_allocated = false;
          })
          (ground arith) (ground arith)
  ]
]

Ready-add :
    (d : EfiMemoryDescriptor) (ds : List EfiMemoryDescriptor) (chain : List Header)
    → IsArea d
    → is_conventional d.memory_type ≡ true
    → All (λ e. is_conventional e.memory_type ≡ true → AreasApart d e) ds
    → Ready (d ∷ ds) chain
    → Added d chain
    → Ready ds (add_free_from_descriptor chain d)
Ready-add d ds chain v c away r (unchanged e) = subst (Ready ds) (sym e) (Ready-skip d ds chain r)
Ready-add d ds chain v c away r (front h e p) = subst (Ready ds) (sym e) (record {
  headers = (p.header, r.headers);
  disjoint = (
    All-map (ApartFrom (d ∷ ds)) (Apart h) chain (λ g q. ground (arith, q.0 c)) r.apart,
    r.disjoint,
  );
  free = (p.free, r.free);
  apart = (
    All-map (λ e. is_conventional e.memory_type ≡ true → AreasApart d e)
        (λ e.
          is_conventional e.memory_type ≡ true
          → (h.addr + h.size ≤ e.physical_start)
            ⊎ (e.physical_start + e.number_of_pages * 4096 ≤ h.addr))
        ds (λ e q t. ground (arith, q t)) away,
    (Ready-skip d ds chain r).apart,
  );
})

init-Ready :
    (ds : List EfiMemoryDescriptor) (chain : List Header)
    → IsMap ds
    → Ready ds chain
    → Ready [] (init_with_mmap chain ds)
unfolding init_with_mmap
init-Ready [] chain m r = r
init-Ready (d ∷ ds) chain m r = elim (Bool-cases (is_conventional d.memory_type)) [
  | inl c ↦
      let (area, away) = m.0 c in
      rw c (
        init-Ready ds (add_free_from_descriptor chain d) m.1
          (Ready-add d ds chain area c away r (add-Added d chain area)))
  | inr other ↦ rw other (init-Ready ds chain m.1 (Ready-skip d ds chain r))
]

-- From a map whose conventional areas are page-aligned and do not overlap, the allocator starts
-- with a chain of well-formed, disjoint headers that are all free and stand above page 0.
pub init-IsChain :
    (ds : List EfiMemoryDescriptor)
    → IsMap ds
    → IsChain (init_with_mmap [] ds) × All IsFree (init_with_mmap [] ds)
init-IsChain ds m =
    let r = init-Ready ds [] m (record { headers = tt; disjoint = tt; free = tt; apart = tt }) in
    (record { headers = r.headers; disjoint = r.disjoint }, r.free)
