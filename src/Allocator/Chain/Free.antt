-- ===== src/Allocator/Chain/Free.antt =====
-- `dealloc` of allocator.rs on a chain.
use original_os_with_rust.Prelude.{ℕ, ◌+◌, ◌^◌, ◌≤◌, ◌<◌, ◌≡◌, ◌≢◌, inl, inr, refl, sym}
use original_os_with_rust.Prelude.{subst, arith, false, List, [], ◌∷◌, All, ◌==◌, if◌then◌else◌}
use original_os_with_rust.Allocator.{Header, sizes, dealloc}
use original_os_with_rust.Allocator.Provide.{IsHeader}
use original_os_with_rust.Allocator.Chain.{IsChain, Has, Apart, Disjoint}

-- The header with its flag cleared.
abbrev pub freed : Header → Header
freed h = record h { is_allocated = false }

-- What `dealloc` makes of one header.
abbrev pub cleared : ℕ → Header → Header
cleared ptr h = if h.addr + 32 == ptr then freed h else h

-- Both only change the flag.
record SamePlace (h g : Header) : Type 0 where
  addr : g.addr ≡ h.addr
  size : g.size ≡ h.size

data Flagged : List Header → List Header → Type 0 where
  nil : Flagged [] []
  cons :
      {h g : Header} {hs gs : List Header}
      → SamePlace h g
      → Flagged hs gs
      → Flagged (h ∷ hs) (g ∷ gs)

dealloc-Flagged : (hs : List Header) (ptr : ℕ) → Flagged hs (dealloc hs ptr)
unfolding dealloc
dealloc-Flagged [] ptr = nil
dealloc-Flagged (h ∷ hs) ptr = cons (ground arith) (dealloc-Flagged hs ptr)

Flagged-IsHeader : {hs gs : List Header} → Flagged hs gs → All IsHeader hs → All IsHeader gs
Flagged-IsHeader nil v = tt
Flagged-IsHeader (cons p f) (v, vs) = (ground arith, Flagged-IsHeader f vs)

Flagged-Apart :
    {h g : Header} {hs gs : List Header}
    → SamePlace h g
    → Flagged hs gs
    → All (Apart h) hs
    → All (Apart g) gs
Flagged-Apart p nil v = tt
Flagged-Apart p (cons q f) (v, vs) = (ground arith, Flagged-Apart p f vs)

Flagged-Disjoint : {hs gs : List Header} → Flagged hs gs → Disjoint hs → Disjoint gs
Flagged-Disjoint nil d = tt
Flagged-Disjoint (cons p f) (d, ds) = (Flagged-Apart p f d, Flagged-Disjoint f ds)

dealloc-IsChain : (hs : List Header) (ptr : ℕ) → IsChain hs → IsChain (dealloc hs ptr)
dealloc-IsChain hs ptr v = record {
  headers = Flagged-IsHeader (dealloc-Flagged hs ptr) v.headers;
  disjoint = Flagged-Disjoint (dealloc-Flagged hs ptr) v.disjoint;
}

sizes-Flagged : {hs gs : List Header} → Flagged hs gs → sizes gs ≡ sizes hs
sizes-Flagged nil = refl
sizes-Flagged (cons p f) = omega (arith, p.size, sizes-Flagged f)

Has-dealloc :
    (hs : List Header) (ptr : ℕ) (h : Header)
    → 32 ≤ ptr
    → ptr < 2 ^ 64
    → Has h hs
    → Has (cleared ptr h) (dealloc hs ptr)
unfolding dealloc
Has-dealloc (g ∷ hs) ptr h lo hi (inl e) = inl (ground arith)
Has-dealloc (g ∷ hs) ptr h lo hi (inr m) = inr (Has-dealloc hs ptr h lo hi m)
Has-dealloc [] ptr h lo hi m = absurd m

pub All-Has : (P : Header → Type 0) (hs : List Header) (h : Header) → All P hs → Has h hs → P h
All-Has P (g ∷ hs) h p (inl e) = subst P (sym e) p.0
All-Has P (g ∷ hs) h p (inr m) = All-Has P hs h p.1 m
All-Has P [] h p m = absurd m

-- Freeing the pointer of a listed block keeps the chain well formed and disjoint; the block is
-- listed as free, at its place and with its size, every header at another address is listed as it
-- was, and no byte is lost.
pub dealloc-frees :
    (hs : List Header) (block : Header)
    → IsChain hs
    → Has block hs
    → let out = dealloc hs (block.addr + 32) in
      IsChain out
      × Has (freed block) out
      × ((g : Header) → Has g hs → g.addr ≢ block.addr → Has g out)
      × (sizes out ≡ sizes hs)
dealloc-frees hs block v m =
    let ok = All-Has IsHeader hs block v.headers m in
    let lo : 32 ≤ block.addr + 32 = omega arith in
    let hi : block.addr + 32 < 2 ^ 64 = omega (arith, ok.in_memory, ok.holds_header) in
    (
      dealloc-IsChain hs (block.addr + 32) v,
      subst (λ h. Has h (dealloc hs (block.addr + 32))) (clears block)
          (Has-dealloc hs (block.addr + 32) block lo hi m),
      λ g l ne.
          subst (λ h. Has h (dealloc hs (block.addr + 32))) (leaves g ne)
            (Has-dealloc hs (block.addr + 32) g lo hi l),
      sizes-Flagged (dealloc-Flagged hs (block.addr + 32)),
    )
  where
    clears : (h : Header) → cleared (h.addr + 32) h ≡ freed h
    clears h = ground arith

    leaves : (g : Header) → g.addr ≢ block.addr → cleared (block.addr + 32) g ≡ g
    leaves g ne = ground arith
