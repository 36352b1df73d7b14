-- ===== src/Allocator/Blocks/Refine.antt =====
-- allocator.rs: the heap against its specification, the bag of live blocks.
use original_os_with_rust.Prelude.{
  ℕ, ◌+◌, ◌-◌, ◌^◌, ◌≡◌, inl, inr, refl, ap, ap₂, sym, ◌∙◌, subst, arith,
}
use original_os_with_rust.Prelude.{
  true, false, if◌then◌else◌, ◌==◌, List, [], ◌∷◌, ◌++◌, All, ok, err, Result, Bool-cases,
}
use original_os_with_rust.Allocator.{Header, Allocation, alloc_with_options}
use original_os_with_rust.Allocator.Provide.{IsLayout, IsRounding, rounding, cut_at, block_pow}
use original_os_with_rust.Allocator.Align.{max_pow}
use original_os_with_rust.Allocator.Chain.{IsChain, Apart, Disjoint}
use original_os_with_rust.Allocator.Chain.Alloc.{Served, Exhausted, alloc-Outcome}
use original_os_with_rust.Allocator.Chain.Grant.{Served-IsChain}
use original_os_with_rust.Allocator.Blocks.{
  block_of, blocks, ApartBlocks, allocated, HeapStep, grants, denies, blocks-append, blocks-taken,
  blocks-free, blocks-Apart,
}
use mathlib.Core.List.{Perm, perm_middle, append_assoc, append-nil}
use mathlib.Core.List.Perm as P

Disjoint-at :
    (xs : List Header) (h : Header) (ys : List Header)
    → Disjoint (xs ++ (h ∷ ys))
    → All (Apart h) (xs ++ ys)
Disjoint-at [] h ys d = d.0
Disjoint-at (x ∷ xs) h ys d = (flip (at xs d.0), Disjoint-at xs h ys d.1)
  where
    flip : Apart x h → Apart h x
    flip (inl e) = inr e
    flip (inr e) = inl e

    at : (zs : List Header) → All (Apart x) (zs ++ (h ∷ ys)) → Apart x h
    at [] p = p.0
    at (z ∷ zs) p = at zs p.1

-- The padding of a cut.
abbrev pads_at : Header → ℕ → ℕ → List Header
pads_at h size t =
    if t + size == h.addr + h.size
    then []
    else record { addr = t + size; size = h.addr + h.size - (t + size); is_allocated = false } ∷ []

blocks-pads : (h : Header) (size t : ℕ) → blocks (pads_at h size t) ≡ []
unfolding blocks
blocks-pads h size t = elim (Bool-cases (t + size == h.addr + h.size)) [
  | inl e ↦ rw e refl
  | inr e ↦ rw e refl
]

module _ (hs : List Header) (a k : ℕ) (r : Allocation) (v : IsChain hs) (s : Served hs a k r) where
  abbrev below : Header
  below = record s.region { size = r.addr - 32 - s.region.addr }

  abbrev taken : Header
  taken = record { addr = r.addr - 32; size = 2 ^ block_pow k + 32; is_allocated = true }

  abbrev rest : List Header
  rest = pads_at s.region (2 ^ block_pow k) r.addr ++ s.after

  live : blocks hs ≡ blocks s.before ++ blocks s.after
  live =
      ap blocks s.split
      ∙ blocks-append s.before (s.region ∷ s.after)
      ∙ ap (λ l. blocks s.before ++ l) (blocks-free s.region s.after s.free)

  blocks-rest : blocks rest ≡ blocks s.after
  blocks-rest =
      blocks-append (pads_at s.region (2 ^ block_pow k) r.addr) s.after
      ∙ ap (λ l. l ++ blocks s.after) (blocks-pads s.region (2 ^ block_pow k) r.addr)

  chain_lem : r.chain ≡ s.before ++ (below ∷ taken ∷ rest)
  unfolding cut_at
  chain_lem = s.chain

  live_after : blocks r.chain ≡ blocks s.before ++ (block_of taken ∷ blocks s.after)
  live_after =
      ap blocks chain_lem
      ∙ blocks-append s.before (below ∷ taken ∷ rest)
      ∙ ap (λ l. blocks s.before ++ l)
          (blocks-free below (taken ∷ rest) s.free
            ∙ blocks-taken taken rest refl
            ∙ ap (λ l. block_of taken ∷ l) blocks-rest)

  live_elsewhere : blocks ((s.before ++ (below ∷ [])) ++ rest) ≡ blocks hs
  unfolding blocks
  live_elsewhere =
      blocks-append (s.before ++ (below ∷ [])) rest
      ∙ ap₂ (λ l m. l ++ m)
          (blocks-append s.before (below ∷ [])
            ∙ ap (λ l. blocks s.before ++ l) (blocks-free below [] s.free)
            ∙ append-nil (blocks s.before))
          blocks-rest
      ∙ sym live

  fresh : All (ApartBlocks (block_of taken)) (blocks hs)
  fresh =
      let apart = Disjoint-at (s.before ++ (below ∷ [])) taken rest (
        subst Disjoint (chain_lem ∙ sym (append_assoc s.before (below ∷ []) (taken ∷ rest)))
          (Served-IsChain hs a k r v s).disjoint) in
      subst (λ l. All (ApartBlocks (block_of taken)) l) live_elsewhere
        (blocks-Apart taken ((s.before ++ (below ∷ [])) ++ rest) apart)

  one_more : Perm (blocks r.chain) (block_of taken ∷ blocks hs)
  one_more =
      subst (λ l. Perm l (block_of taken ∷ blocks hs)) (sym live_after)
        (subst
          (λ l. Perm (blocks s.before ++ (block_of taken ∷ blocks s.after)) (block_of taken ∷ l))
          (sym live) (perm_middle (blocks s.before) (blocks s.after)))

  pub Served-HeapStep :
      (size : ℕ) → IsRounding size k → HeapStep (blocks hs) (allocated size r.addr) (blocks r.chain)
  Served-HeapStep size q =
      subst (λ p. HeapStep (blocks hs) (allocated size p) (blocks r.chain))
        (let e : r.addr - 32 + 32 ≡ r.addr = omega (arith, s.fits.above) in e)
        (grants size (block_of taken) (omega (arith, q.enough, max_pow k)) fresh one_more)

Exhausted-HeapStep :
    (hs : List Header) (size a k : ℕ) (r : Allocation)
    → Exhausted hs a k r
    → HeapStep (blocks hs) (allocated size r.addr) (blocks r.chain)
Exhausted-HeapStep hs size a k r x =
    subst (λ p. HeapStep (blocks hs) (allocated size p) (blocks r.chain)) (sym x.null)
      (denies size (subst (λ l. Perm (blocks l) (blocks hs)) (sym x.chain) (P.refl (blocks hs))))

-- What a result holds, for a result that is known to be there.
chosen : {A : Type 0} → A → Result A → A
chosen d (ok x) = x
chosen d (err e) = d

pub alloc-HeapStep :
    (hs : List Header) (size a : ℕ) (r : Allocation)
    → IsChain hs
    → IsLayout size a
    → alloc_with_options hs size (2 ^ a) ≡ ok r
    → IsChain r.chain × HeapStep (blocks hs) (allocated size r.addr) (blocks r.chain)
unfolding chosen
alloc-HeapStep hs size a r v l e =
    let (k, q) = rounding size l in
    let (r', e', o) = alloc-Outcome hs size a k v.headers l q in
    subst (λ x. IsChain x.chain × HeapStep (blocks hs) (allocated size x.addr) (blocks x.chain))
      (ap (chosen r) (sym e' ∙ e))
      (elim o [
        | inl s ↦ (Served-IsChain hs a k r' v s, Served-HeapStep hs a k r' v s size q)
        | inr x ↦ (subst IsChain (sym x.chain) v, Exhausted-HeapStep hs size a k r' x)
      ])
