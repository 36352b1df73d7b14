-- ===== src/Allocator/Blocks/Release.antt =====
-- allocator.rs: `dealloc` on the bag of live blocks, and runs of calls.
use original_os_with_rust.Prelude.{
  ℕ, ◌+◌, ◌^◌, ◌≤◌, ◌<◌, ◌≡◌, inl, inr, refl, ap, ap₂, sym, ◌∙◌, subst, arith,
}
use original_os_with_rust.Prelude.{true, false, List, [], ◌∷◌, All, Bool-cases}
use original_os_with_rust.Allocator.{Header, dealloc}
use original_os_with_rust.Allocator.Provide.{IsHeader}
use original_os_with_rust.Allocator.Chain.{IsChain, Has, Apart, Disjoint}
use original_os_with_rust.Allocator.Chain.Free.{dealloc-frees, cleared, All-Has}
use original_os_with_rust.Allocator.Blocks.{
  block_of, blocks, Call, HeapStep, takes, HeapSteps, ChainStep, alloc, free, ChainSteps,
  blocks-taken, blocks-free,
}
use original_os_with_rust.Allocator.Blocks.Refine.{alloc-HeapStep}
use mathlib.Core.List.{Perm}
use mathlib.Core.List.Perm as P

dealloc-cleared :
    (g : Header) (hs : List Header) (ptr : ℕ)
    → 32 ≤ ptr
    → ptr < 2 ^ 64
    → dealloc (g ∷ hs) ptr ≡ cleared ptr g ∷ dealloc hs ptr
unfolding dealloc
dealloc-cleared g hs ptr lo hi = ground arith

abbrev pointer : Header → ℕ
pointer h = h.addr + 32

pointer-lo : (h : Header) → 32 ≤ pointer h
pointer-lo h = omega arith

pointer-hi : (h : Header) → IsHeader h → pointer h < 2 ^ 64
pointer-hi h v = omega (arith, v.in_memory, v.holds_header)

cleared_other : (g h : Header) → IsHeader g → IsHeader h → Apart g h → cleared (pointer h) g ≡ g
cleared_other g h u v apart = ground arith

cleared_other' : (g h : Header) → IsHeader g → IsHeader h → Apart h g → cleared (pointer h) g ≡ g
cleared_other' g h u v apart = ground arith

-- The headers apart from a freed one are as before.
dealloc-Apart :
    (h : Header) (hs : List Header)
    → IsHeader h
    → All IsHeader hs
    → All (Apart h) hs
    → dealloc hs (pointer h) ≡ hs
unfolding dealloc
dealloc-Apart h [] u v p = refl
dealloc-Apart h (g ∷ hs) u v p =
    dealloc-cleared g hs (pointer h) (pointer-lo h) (pointer-hi h u)
    ∙ ap₂ (λ x l. x ∷ l) (cleared_other' g h v.0 u p.0) (dealloc-Apart h hs u v.1 p.1)

-- The freed header is the first of the chain.
first-Perm :
    (h : Header) (hs : List Header)
    → IsHeader h
    → All IsHeader hs
    → All (Apart h) hs
    → h.is_allocated ≡ true
    → Perm (blocks (h ∷ hs)) (block_of h ∷ blocks (dealloc (h ∷ hs) (pointer h)))
unfolding blocks
first-Perm h hs u v p e =
    subst (λ l. Perm l (block_of h ∷ blocks (dealloc (h ∷ hs) (pointer h))))
      (sym (blocks-taken h hs e))
      (subst (λ l. Perm (block_of h ∷ blocks hs) (block_of h ∷ blocks l))
        (sym (
          dealloc-cleared h hs (pointer h) (pointer-lo h) (pointer-hi h u)
          ∙ ap₂ (λ x l. x ∷ l) (cleared_self h) (dealloc-Apart h hs u v p)))
        (P.refl (block_of h ∷ blocks hs)))
  where
    cleared_self : (h : Header) → cleared (h.addr + 32) h ≡ record h { is_allocated = false }
    cleared_self h = ground arith

-- A header in front of the freed one.
later-Perm :
    (g h : Header) (hs : List Header)
    → IsHeader g
    → IsHeader h
    → Apart g h
    → Perm (blocks hs) (block_of h ∷ blocks (dealloc hs (pointer h)))
    → Perm (blocks (g ∷ hs)) (block_of h ∷ blocks (dealloc (g ∷ hs) (pointer h)))
later-Perm g h hs u v apart p =
    subst (λ l. Perm (blocks (g ∷ hs)) (block_of h ∷ blocks l))
      (sym (
        dealloc-cleared g hs (pointer h) (pointer-lo h) (pointer-hi h v)
        ∙ ap (λ x. x ∷ dealloc hs (pointer h)) (cleared_other g h u v apart)))
      (elim (Bool-cases g.is_allocated) [
        | inl e ↦
            subst (λ l. Perm l (block_of h ∷ blocks (g ∷ dealloc hs (pointer h))))
              (sym (blocks-taken g hs e))
              (subst (λ l. Perm (block_of g ∷ blocks hs) (block_of h ∷ l))
                (sym (blocks-taken g (dealloc hs (pointer h)) e))
                (P.trans (P.cons (block_of g) p)
                  (P.swap (block_of h) (block_of g) (blocks (dealloc hs (pointer h))))))
        | inr e ↦
            subst (λ l. Perm l (block_of h ∷ blocks (g ∷ dealloc hs (pointer h))))
              (sym (blocks-free g hs e))
              (subst (λ l. Perm (blocks hs) (block_of h ∷ l))
                (sym (blocks-free g (dealloc hs (pointer h)) e)) p)
      ])

dealloc-Perm :
    (hs : List Header) (h : Header)
    → All IsHeader hs
    → Disjoint hs
    → Has h hs
    → h.is_allocated ≡ true
    → Perm (blocks hs) (block_of h ∷ blocks (dealloc hs (pointer h)))
dealloc-Perm [] h v d m e = absurd m
dealloc-Perm (g ∷ hs) h v d (inl same) e =
    subst (λ x. Perm (blocks (g ∷ hs)) (block_of x ∷ blocks (dealloc (g ∷ hs) (pointer x))))
      (sym same)
      (first-Perm g hs v.0 v.1 d.0 (subst (λ (x : Header). x.is_allocated ≡ true) same e))
dealloc-Perm (g ∷ hs) h v d (inr m) e =
    later-Perm g h hs v.0 (All-Has IsHeader hs h v.1 m) (All-Has (Apart g) hs h d.0 m)
      (dealloc-Perm hs h v.1 d.1 m e)

ChainStep-HeapStep :
    (hs hs' : List Header) (c : Call)
    → IsChain hs
    → ChainStep hs c hs'
    → IsChain hs' × HeapStep (blocks hs) c (blocks hs')
ChainStep-HeapStep hs hs' c v (alloc size a r l e) = alloc-HeapStep hs size a r v l e
ChainStep-HeapStep hs hs' c v (free h m e) =
    ((dealloc-frees hs h v m).0, takes (block_of h) (dealloc-Perm hs h v.headers v.disjoint m e))

-- Any run of calls on a well-formed, disjoint chain, by a caller who asks for valid layouts and
-- frees the pointers of live blocks, is a run of the specification on the bag of live blocks: each
-- allocation adds one block of at least the size at the returned pointer, apart from all live
-- blocks, or returns null and changes nothing; each call of `dealloc` takes its block out.
pub ChainSteps-HeapSteps :
    (hs hs' : List Header) (cs : List Call)
    → IsChain hs
    → ChainSteps hs cs hs'
    → HeapSteps (blocks hs) cs (blocks hs')
ChainSteps-HeapSteps hs hs' cs v ChainSteps.stop = HeapSteps.stop
ChainSteps-HeapSteps hs hs' cs v (ChainSteps.next {hs' = mid} {c = c} {cs = rest} step run) =
    let (w, abstract_step) = ChainStep-HeapStep hs mid c v step in
    HeapSteps.next abstract_step (ChainSteps-HeapSteps mid hs' rest w run)
