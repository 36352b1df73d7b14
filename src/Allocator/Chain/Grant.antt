-- ===== src/Allocator/Chain/Grant.antt =====
-- What a caller of `alloc_with_options` of allocator.rs gets.
use original_os_with_rust.Prelude.{
  ℕ, ◌+◌, ◌-◌, ◌*◌, ◌/◌, ◌%◌, ◌^◌, ◌≤◌, ◌<◌, ◌≡◌, ◌≢◌, ◌⊎◌, inl, inr,
}
use original_os_with_rust.Prelude.{
  refl, ap, sym, ◌∙◌, subst, arith, true, List, [], ◌∷◌, ◌++◌, All, ok,
}
use original_os_with_rust.Words.Powers.{pow-add}
use original_os_with_rust.Words.Masks.{div-mod_field}
use native.Mathlib.Nat.{mul-mod_left}
use original_os_with_rust.Allocator.{Header, Allocation, sizes, alloc_with_options}
use original_os_with_rust.Allocator.Align.{multiple_of_32, max_pow}
use original_os_with_rust.Allocator.Provide.{
  IsHeader, cut_at, block_pow, IsLayout, IsRounding, rounding,
}
use original_os_with_rust.Allocator.Chain.{
  IsChain, Has, Disjoint, cut-IsHeader, cut-Tiles, cut-Within, cut-Disjoint, Disjoint-replace,
  All-replace, All-at, Tiles,
}
use original_os_with_rust.Allocator.Chain.Alloc.{Served, Exhausted, Refuses, alloc-Outcome}

pub Has-append_left : (g : Header) (xs ys : List Header) → Has g xs → Has g (xs ++ ys)
Has-append_left g (x ∷ xs) ys (inl e) = inl e
Has-append_left g (x ∷ xs) ys (inr m) = inr (Has-append_left g xs ys m)
Has-append_left g [] ys m = absurd m

pub Has-append_right : (g : Header) (xs ys : List Header) → Has g ys → Has g (xs ++ ys)
Has-append_right g [] ys m = m
Has-append_right g (x ∷ xs) ys m = inr (Has-append_right g xs ys m)

-- A header other than the replaced one is still there.
Has-replace :
    (g : Header) (before : List Header) (h : Header) (xs after : List Header)
    → g ≢ h
    → Has g (before ++ (h ∷ after))
    → Has g (before ++ (xs ++ after))
Has-replace g [] h xs after ne (inl e) = absurd (ne e)
Has-replace g [] h xs after ne (inr m) = Has-append_right g xs after m
Has-replace g (b ∷ bs) h xs after ne (inl e) = inl e
Has-replace g (b ∷ bs) h xs after ne (inr m) = inr (Has-replace g bs h xs after ne m)

sizes-append : (xs ys : List Header) → sizes (xs ++ ys) ≡ sizes xs + sizes ys
sizes-append [] ys = omega arith
sizes-append (x ∷ xs) ys = omega (arith, sizes-append xs ys)

-- Headers that tile a stretch have its length in all.
sizes-Tiles : (lo hi : ℕ) (hs : List Header) → Tiles lo hi hs → lo + sizes hs ≡ hi
sizes-Tiles lo hi [] t = omega arith
sizes-Tiles lo hi (h ∷ hs) t = omega (arith, sizes-Tiles (lo + h.size) hi hs t.1)

-- The caller's view of a block.
pub record Grants (hs : List Header) (size a : ℕ) (r : Allocation) : Type 0 where
  pub aligned : r.addr % 2 ^ a ≡ 0
  pub nonnull : 32 < r.addr
  pub block : Header
  pub listed : Has block r.chain
  pub taken : block.is_allocated ≡ true
  pub stands_below : block.addr + 32 ≡ r.addr
  pub holds : size + 32 ≤ block.size
  pub kept : (g : Header) → Has g hs → g.is_allocated ≡ true → Has g r.chain
  pub total : sizes r.chain ≡ sizes hs

-- The caller's view of a null pointer; `2 ^ k` is the rounded size.
pub record Denies (hs : List Header) (size a : ℕ) (r : Allocation) : Type 0 where
  pub null : r.addr ≡ 0
  pub unchanged : r.chain ≡ hs
  pub k : ℕ
  pub rounded : IsRounding size k
  pub full : All (Refuses a k) hs

block_unit : (k : ℕ) → 2 ^ block_pow k % 32 ≡ 0
block_unit k = omega (arith, multiple_of_32 (block_pow k) 1 (omega arith))

-- A multiple of a power of two is one of each smaller power.
multiple_of_smaller : (a b x : ℕ) → a ≤ b → x % 2 ^ b ≡ 0 → x % 2 ^ a ≡ 0
multiple_of_smaller a b x h e =
    let s : b - a + a ≡ b = omega arith in
    let whole : x ≡ x / 2 ^ b * 2 ^ b = omega (arith, div-mod_field b x) in
    ap (λ y. y % 2 ^ a) (whole ∙ ap (λ j. x / 2 ^ b * 2 ^ j) (sym s) ∙ regroup)
    ∙ mul-mod_left (x / 2 ^ b * 2 ^ (b - a)) (2 ^ a)
  where
    regroup : x / 2 ^ b * 2 ^ (b - a + a) ≡ x / 2 ^ b * 2 ^ (b - a) * 2 ^ a
    regroup = rw (pow-add (b - a) a) (omega arith)

module _ (hs : List Header) (a k : ℕ) (r : Allocation) (v : IsChain hs) (s : Served hs a k r) where
  region-IsHeader : IsHeader s.region
  region-IsHeader =
      All-at IsHeader s.before s.region s.after (subst (λ l. All IsHeader l) s.split v.headers)

  abbrev pieces : List Header
  pieces = cut_at s.region (2 ^ block_pow k) r.addr

  pieces-Tiles : Tiles s.region.addr (s.region.addr + s.region.size) pieces
  pieces-Tiles =
      cut-Tiles s.region (2 ^ block_pow k) (block_pow a) r.addr region-IsHeader s.fits
        (block_unit k)

  pub Served-IsChain : IsChain r.chain
  Served-IsChain =
      let size = 2 ^ block_pow k in
      let p = block_pow a in
      subst IsChain (sym s.chain) (record {
        headers =
            All-replace IsHeader s.before s.region pieces s.after
              (subst (λ l. All IsHeader l) s.split v.headers)
              (cut-IsHeader s.region size p r.addr region-IsHeader s.fits (block_unit k));
        disjoint =
            Disjoint-replace s.before s.region pieces s.after (subst Disjoint s.split v.disjoint)
              (cut-Disjoint s.region size p r.addr region-IsHeader s.fits (block_unit k))
              (cut-Within s.region size p r.addr region-IsHeader s.fits (block_unit k));
      })

  abbrev block : Header
  block = record { addr = r.addr - 32; size = 2 ^ block_pow k + 32; is_allocated = true }

  block-listed : Has block r.chain
  unfolding cut_at
  block-listed =
      subst (λ l. Has block l) (sym s.chain)
        (Has-append_right block s.before (pieces ++ s.after) (inr (inl refl)))

  taken_kept : (g : Header) → Has g hs → g.is_allocated ≡ true → Has g r.chain
  taken_kept g m e =
      subst (λ l. Has g l) (sym s.chain)
        (Has-replace g s.before s.region pieces s.after
          (λ q. cc (ap (λ (h : Header). h.is_allocated) q, e, s.free))
          (subst (λ l. Has g l) s.split m))

  total_kept : sizes r.chain ≡ sizes hs
  total_kept = omega (
    arith,
    ap sizes s.chain,
    ap sizes s.split,
    sizes-append s.before (s.region ∷ s.after),
    sizes-append s.before (pieces ++ s.after),
    sizes-append pieces s.after,
    sizes-Tiles s.region.addr (s.region.addr + s.region.size) pieces pieces-Tiles,
  )

  pub Served-Grants : (size : ℕ) → IsRounding size k → Grants hs size a r
  Served-Grants size q = record {
    aligned = multiple_of_smaller a (block_pow a) r.addr (omega arith) s.fits.multiple;
    nonnull = omega (arith, s.fits.above);
    block = block;
    listed = block-listed;
    taken = refl;
    stands_below = omega (arith, s.fits.above);
    holds = omega (arith, max_pow k, q.enough);
    kept = taken_kept;
    total = total_kept;
  }

-- With a valid layout, an allocation from a chain of well-formed, disjoint headers returns; the
-- chain it leaves is again well formed and disjoint. Either the pointer is a multiple of the
-- alignment behind the header of an allocated block of at least the size, every header that was
-- allocated before is still there, and no byte is lost; or it is null, the chain is unchanged,
-- and every region is allocated or too small for the rounded request.
pub alloc-Grants :
    (hs : List Header) (size a : ℕ)
    → IsChain hs
    → IsLayout size a
    → (r : Allocation) × (alloc_with_options hs size (2 ^ a) ≡ ok r)
      × IsChain r.chain
      × (Grants hs size a r ⊎ Denies hs size a r)
alloc-Grants hs size a v l =
    let (k, q) = rounding size l in
    let (r, e, o) = alloc-Outcome hs size a k v.headers l q in
    (r, e, outcome-IsChain k r o, outcome-Grants k q r o)
  where
    outcome-IsChain :
        (k : ℕ) (r : Allocation) → Served hs a k r ⊎ Exhausted hs a k r → IsChain r.chain
    outcome-IsChain k r (inl s) = Served-IsChain hs a k r v s
    outcome-IsChain k r (inr x) = subst IsChain (sym x.chain) v

    outcome-Grants :
        (k : ℕ)
        → IsRounding size k
        → (r : Allocation) → Served hs a k r ⊎ Exhausted hs a k r
        → Grants hs size a r ⊎ Denies hs size a r
    outcome-Grants k q r (inl s) = inl (Served-Grants hs a k r v s size q)
    outcome-Grants k q r (inr x) =
        inr (record { null = x.null; unchanged = x.chain; k = k; rounded = q; full = x.refused })
