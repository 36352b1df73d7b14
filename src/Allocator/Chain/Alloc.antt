-- ===== src/Allocator/Chain/Alloc.antt =====
-- `alloc_with_options` of allocator.rs: first fit, and what it does to the chain.
use original_os_with_rust.Prelude.{ℕ, ◌+◌, ◌^◌, ◌<◌, ◌≡◌, ◌⊎◌, inl, inr}
use original_os_with_rust.Prelude.{refl, ap, ◌∙◌, arith, true, false, Bool-cases}
use original_os_with_rust.Prelude.{List, [], ◌∷◌, ◌++◌, All, ok, none, some}
use original_os_with_rust.Allocator.{Header, Allocation, provide, alloc_with_options}
use original_os_with_rust.Allocator.Align.{block_addr}
use original_os_with_rust.Allocator.Provide.{
  IsHeader, Fits, fit_lem, cut_at, provide_rounded-cut, provide_rounded-none, block_pow,
  block_pow-le, IsLayout, IsRounding, provide-provide_rounded, room_below_top,
}
use native.Mathlib.Decide.{dec_le}

-- A region that is taken, or too small for the rounded request.
abbrev pub Refuses : ℕ → ℕ → Header → Type 0
Refuses a k h = (h.is_allocated ≡ true) ⊎ (h.size < 2 ^ block_pow k + 64 + 2 ^ block_pow a)

-- The first region that does not refuse was cut at the returned address.
pub record Served (hs : List Header) (a k : ℕ) (r : Allocation) : Type 0 where
  pub before : List Header
  pub region : Header
  pub after : List Header
  pub split : hs ≡ before ++ (region ∷ after)
  pub refused : All (Refuses a k) before
  pub free : region.is_allocated ≡ false
  pub fits : Fits region (2 ^ block_pow k) (block_pow a) r.addr
  pub chain : r.chain ≡ before ++ (cut_at region (2 ^ block_pow k) r.addr ++ after)

-- A null pointer, and every region refuses.
pub record Exhausted (hs : List Header) (a k : ℕ) (r : Allocation) : Type 0 where
  pub null : r.addr ≡ 0
  pub chain : r.chain ≡ hs
  pub refused : All (Refuses a k) hs

-- What one header does with a request.
data Offer (h : Header) (size a k : ℕ) : Type 0 where
  refuses : provide h size (2 ^ a) ≡ ok none → Refuses a k h → Offer h size a k
  cuts :
      (t : ℕ)
      → provide h size (2 ^ a)
        ≡ ok (some (record { addr = t; headers = cut_at h (2 ^ block_pow k) t }))
      → h.is_allocated ≡ false
      → Fits h (2 ^ block_pow k) (block_pow a) t
      → Offer h size a k

module _ {size a k : ℕ} (l : IsLayout size a) (r : IsRounding size k) where
  refusal : (h : Header) → Refuses a k h → Offer h size a k
  refusal h why =
      refuses
        (provide-provide_rounded h size a k r
          ∙ provide_rounded-none h (2 ^ block_pow k) (2 ^ block_pow a) (room_below_top l r) why)
        why

  offer : (h : Header) → IsHeader h → Offer h size a k
  offer h v = elim (Bool-cases h.is_allocated) [
    | inl taken ↦ refusal h (inl taken)
    | inr free ↦ elim (dec_le (2 ^ block_pow k + 64 + 2 ^ block_pow a) h.size) [
      | yes room ↦
          cuts (block_addr (h.addr + h.size) (2 ^ block_pow k) (2 ^ block_pow a))
            (provide-provide_rounded h size a k r
              ∙ provide_rounded-cut h (2 ^ block_pow k) (block_pow a) v free (omega arith)
                  (block_pow-le l) room)
            free (fit_lem h (2 ^ block_pow k) (block_pow a) v (omega arith) (block_pow-le l) room)
      | no tight ↦ refusal h (inr (omega arith))
    ]
  ]

abbrev pub Outcome : List Header → ℕ → ℕ → ℕ → Type 0
Outcome hs size a k =
    (r : Allocation) × (alloc_with_options hs size (2 ^ a) ≡ ok r)
    × (Served hs a k r ⊎ Exhausted hs a k r)

cons-Served :
    {a k : ℕ} (h : Header) (hs : List Header) (r : Allocation)
    → Refuses a k h
    → Served hs a k r
    → Served (h ∷ hs) a k (record r { chain = h ∷ r.chain })
cons-Served h hs r why s = record {
  before = h ∷ s.before;
  region = s.region;
  after = s.after;
  split = ap (λ l. h ∷ l) s.split;
  refused = (why, s.refused);
  free = s.free;
  fits = s.fits;
  chain = ap (λ l. h ∷ l) s.chain;
}

module _ {size a k : ℕ} where
  alloc_step :
      (h : Header) (hs : List Header)
      → Offer h size a k
      → Outcome hs size a k
      → Outcome (h ∷ hs) size a k
  unfolding alloc_with_options
  alloc_step h hs (cuts t e free fits) rest = (
    record { addr = t; chain = cut_at h (2 ^ block_pow k) t ++ hs },
    rw e,
    inl (record {
      before = [];
      region = h;
      after = hs;
      split = refl;
      refused = tt;
      free = free;
      fits = fits;
      chain = refl;
    }),
  )
  alloc_step h hs (refuses e why) (r, er, inl s) =
      (record r { chain = h ∷ r.chain }, rw (e, er), inl (cons-Served h hs r why s))
  alloc_step h hs (refuses e why) (r, er, inr x) = (
    record r { chain = h ∷ r.chain },
    rw (e, er),
    inr (record { null = x.null; chain = ap (λ l. h ∷ l) x.chain; refused = (why, x.refused) }),
  )

-- On well-formed headers an allocation with a valid layout never fails an assertion: it cuts the
-- first region that has room, or returns a null pointer when none has.
pub alloc-Outcome :
    (hs : List Header) (size a k : ℕ)
    → All IsHeader hs
    → IsLayout size a
    → IsRounding size k
    → Outcome hs size a k
alloc-Outcome [] size a k v l r = (
  record { addr = 0; chain = [] },
  unfold alloc_with_options in refl,
  inr (record { null = refl; chain = refl; refused = tt }),
)
alloc-Outcome (h ∷ hs) size a k v l r =
    alloc_step h hs (offer l r h v.0) (alloc-Outcome hs size a k v.1 l r)
