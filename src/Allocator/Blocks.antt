-- ===== src/Allocator/Blocks.antt =====
-- What the heap of allocator.rs is to its callers: a bag of live blocks. Allocation adds a block that
-- shares no byte with the live ones, or gives a null pointer; freeing a live block takes it out.
pub mod Refine
pub mod Release
pub mod Tests
use original_os_with_rust.Prelude.{
  ℕ, ◌+◌, ◌-◌, ◌%◌, ◌^◌, ◌≤◌, ◌<◌, ◌≡◌, ◌≢◌, ◌⊎◌, inl, inr, refl, ap, ap₂, sym, ◌∙◌, subst, arith,
}
use original_os_with_rust.Prelude.{
  Bool, true, false, if◌then◌else◌, ◌==◌, List, [], ◌∷◌, ◌++◌, All, ok, Bool-cases,
}
use original_os_with_rust.Allocator.{Header, Allocation, alloc_with_options, dealloc}
use original_os_with_rust.Allocator.Provide.{IsHeader, IsLayout, cut_at, block_pow}
use original_os_with_rust.Allocator.Chain.{IsChain, Has, Apart, Disjoint}
use mathlib.Core.List.{Memᴰ, Perm}

-- A block as the caller has it: its pointer, and the bytes from there on.
pub record Block : Type 0 where
  pub addr : ℕ
  pub size : ℕ

abbrev pub block_of : Header → Block
block_of h = record { addr = h.addr + 32; size = h.size - 32 }

-- The live blocks: those of the allocated headers.
unfoldable pub blocks : List Header → List Block
blocks [] = []
blocks (h ∷ hs) = let rest = blocks hs in if h.is_allocated then block_of h ∷ rest else rest

abbrev pub ApartBlocks : Block → Block → Type 0
ApartBlocks b c = (b.addr + b.size ≤ c.addr) ⊎ (c.addr + c.size ≤ b.addr)

-- What a caller sees of a call: the size and the pointer of an allocation, the pointer it frees.
pub data Call : Type 0 where
  allocated : ℕ → ℕ → Call
  freed : ℕ → Call

-- The specification: a step of a bag of live blocks.
pub data HeapStep (live : List Block) : Call → List Block → Type 0 where
  grants :
      {live' : List Block} (size : ℕ) (b : Block)
      → size ≤ b.size
      → All (ApartBlocks b) live
      → Perm live' (b ∷ live)
      → HeapStep live (allocated size b.addr) live'
  denies :
      {live' : List Block} (size : ℕ) → Perm live' live → HeapStep live (allocated size 0) live'
  takes :
      {live' : List Block} (b : Block) → Perm live (b ∷ live') → HeapStep live (freed b.addr) live'

pub data HeapSteps : List Block → List Call → List Block → Type 0 where
  stop : {live : List Block} → HeapSteps live [] live
  next :
      {live live' live'' : List Block} {c : Call} {cs : List Call}
      → HeapStep live c live'
      → HeapSteps live' cs live''
      → HeapSteps live (c ∷ cs) live''

-- The implementation: the calls that a caller makes, who frees live blocks only.
pub data ChainStep (hs : List Header) : Call → List Header → Type 0 where
  alloc :
      (size a : ℕ) (r : Allocation)
      → IsLayout size a
      → alloc_with_options hs size (2 ^ a) ≡ ok r
      → ChainStep hs (allocated size r.addr) r.chain
  free :
      (h : Header)
      → Has h hs
      → h.is_allocated ≡ true
      → ChainStep hs (freed (h.addr + 32)) (dealloc hs (h.addr + 32))

pub data ChainSteps : List Header → List Call → List Header → Type 0 where
  stop : {hs : List Header} → ChainSteps hs [] hs
  next :
      {hs hs' hs'' : List Header} {c : Call} {cs : List Call}
      → ChainStep hs c hs'
      → ChainSteps hs' cs hs''
      → ChainSteps hs (c ∷ cs) hs''

pub blocks-append : (xs ys : List Header) → blocks (xs ++ ys) ≡ blocks xs ++ blocks ys
unfolding blocks
blocks-append [] ys = refl
blocks-append (x ∷ xs) ys = elim (Bool-cases x.is_allocated) [
  | inl e ↦ rw (e, blocks-append xs ys) refl
  | inr e ↦ rw (e, blocks-append xs ys) refl
]

pub blocks-taken :
    (h : Header) (hs : List Header)
    → h.is_allocated ≡ true
    → blocks (h ∷ hs) ≡ block_of h ∷ blocks hs
unfolding blocks
blocks-taken h hs e = rw e refl

pub blocks-free :
    (h : Header) (hs : List Header) → h.is_allocated ≡ false → blocks (h ∷ hs) ≡ blocks hs
unfolding blocks
blocks-free h hs e = rw e refl

-- What is apart from headers is apart from their blocks.
pub blocks-Apart :
    (h : Header) (hs : List Header) → All (Apart h) hs → All (ApartBlocks (block_of h)) (blocks hs)
unfolding blocks
blocks-Apart h [] p = tt
blocks-Apart h (g ∷ hs) p = elim (Bool-cases g.is_allocated) [
  | inl e ↦
      subst (λ l. All (ApartBlocks (block_of h)) l) (sym (blocks-taken g hs e))
        (omega (arith, p.0), blocks-Apart h hs p.1)
  | inr e ↦
      subst (λ l. All (ApartBlocks (block_of h)) l) (sym (blocks-free g hs e))
        (blocks-Apart h hs p.1)
]
