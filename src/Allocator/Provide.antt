-- ===== src/Allocator/Provide.antt =====
-- `Header::provide` of allocator.rs: what it cuts from a free region, and when it refuses.
use original_os_with_rust.Prelude.{ℕ, ◌+◌, ◌-◌, ◌*◌, ◌/◌, ◌%◌, ◌^◌, ◌≤◌, ◌<◌, ◌≡◌, ◌⊎◌}
use original_os_with_rust.Prelude.{ap, ◌∙◌, arith, max, true, false, ◌==◌, ◌||◌, not}
use original_os_with_rust.Prelude.{if◌then◌else◌, List, [], ◌∷◌, none, some, ok}
use original_os_with_rust.Allocator.{Header, can_provide, place, provide_rounded, provide}
use original_os_with_rust.Allocator.{round_up_to_nearest_pow2}
use native.Mathlib.Nat.{mul-mod_left, mod-eq_of_lt}
use original_os_with_rust.Words.Powers.{pow-pos, pow-le}
use native.Mathlib.Decide.{dec_le}
use original_os_with_rust.Allocator.Align.{block_addr, block_addr_lem, multiple_of_32, max_pow}
use original_os_with_rust.Allocator.RoundUp.{round_up-IsNextPow2}

-- A header stands on a 32-byte boundary, above the null page's first bytes, in front of a region
-- that holds the header itself, has whole 32-byte units and ends below the top of the memory.
pub record IsHeader (h : Header) : Type 0 where
  pub addr_aligned : h.addr % 32 ≡ 0
  pub size_aligned : h.size % 32 ≡ 0
  pub holds_header : 32 ≤ h.size
  pub nonnull : 32 ≤ h.addr
  pub in_memory : h.addr + h.size < 2 ^ 64

-- The three parts of a region when a block of `size` bytes is cut at `t`: what stays free below,
-- the block behind its header, and the padding up to the end, if there is any.
unfoldable pub cut_at : Header → ℕ → ℕ → List Header
cut_at h size t =
    record h { size = t - 32 - h.addr }
    ∷ record { addr = t - 32; size = size + 32; is_allocated = true }
    ∷ (if t + size == h.addr + h.size
        then []
        else record { addr = t + size; size = h.addr + h.size - (t + size); is_allocated = false }
          ∷ [])

-- `t` is where a block fits.
pub record Fits (h : Header) (size a t : ℕ) : Type 0 where
  pub multiple : t % 2 ^ a ≡ 0
  pub unit : t % 32 ≡ 0
  pub above : h.addr + 64 < t
  pub below : t + size ≤ h.addr + h.size
  pub last : h.addr + h.size < t + size + 2 ^ a

pub fit_lem :
    (h : Header) (size a : ℕ)
    → IsHeader h
    → 5 ≤ a
    → a ≤ 64
    → size + 64 + 2 ^ a ≤ h.size
    → Fits h size a (block_addr (h.addr + h.size) size (2 ^ a))
fit_lem h size a v low high room =
    let (e, fits, last) =
      block_addr_lem (h.addr + h.size) size a high (omega (arith, v.in_memory)) v.in_memory in
    record {
      multiple = rw e (mul-mod_left ((h.addr + h.size - size) / 2 ^ a) (2 ^ a));
      unit = ap (λ x. x % 32) e ∙ multiple_of_32 a ((h.addr + h.size - size) / 2 ^ a) low;
      above = omega arith;
      below = fits;
      last = last;
    }

-- At such a place the assertion holds and no sum wraps.
place-cut :
    (h : Header) (size a t : ℕ)
    → IsHeader h
    → Fits h size a t
    → place h size t ≡ ok (some (record { addr = t; headers = cut_at h size t }))
unfolding place cut_at
place-cut h size a t v f = ground arith

-- With the room that `can_provide` asks for, a free region is cut; no assertion fails.
pub provide_rounded-cut :
    (h : Header) (size a : ℕ)
    → IsHeader h
    → h.is_allocated ≡ false
    → 5 ≤ a
    → a ≤ 64
    → size + 64 + 2 ^ a ≤ h.size
    → let t = block_addr (h.addr + h.size) size (2 ^ a) in
      provide_rounded h size (2 ^ a) ≡ ok (some (record { addr = t; headers = cut_at h size t }))
unfolding provide_rounded
provide_rounded-cut h size a v free low high room =
    rw (mod-eq_of_lt v.in_memory, open_guard)
      (place-cut h size a (block_addr (h.addr + h.size) size (2 ^ a)) v
        (fit_lem h size a v low high room))
  where
    open_guard : (h.is_allocated || not (can_provide h size (2 ^ a))) ≡ false
    open_guard = ground arith

-- A region that is taken or too small is refused.
pub provide_rounded-none :
    (h : Header) (size align : ℕ)
    → size + 64 + align < 2 ^ 64
    → (h.is_allocated ≡ true) ⊎ (h.size < size + 64 + align)
    → provide_rounded h size align ≡ ok none
unfolding provide_rounded
provide_rounded-none h size align fits why = ground arith

-- What `provide` makes of its arguments: `size` and `2 ^ a` become `2 ^ block_pow k` and
-- `2 ^ block_pow a`, where `2 ^ k` is the least power of two that is not below `size`.
abbrev pub block_pow : ℕ → ℕ
block_pow k = max k 5

-- `size` and `2 ^ a` are the fields of a `Layout`: a power of two, and rounded up to it the size
-- is below 2^63.
pub record IsLayout (size a : ℕ) : Type 0 where
  pub nonzero : 0 < size
  pub small : size + 2 ^ a ≤ 2 ^ 63

pub record IsRounding (size k : ℕ) : Type 0 where
  pub returns : round_up_to_nearest_pow2 size ≡ ok (2 ^ k)
  pub enough : size ≤ 2 ^ k
  pub least : 2 ^ k < 2 * size
  pub few : k < 64

pub rounding : {a : ℕ} (size : ℕ) → IsLayout size a → (k : ℕ) × IsRounding size k
rounding {a} size l =
    let (k, e, few, enough, least) =
      round_up-IsNextPow2 size l.nonzero (omega (arith, pow-pos a, l.small)) in
    (k, record { returns = e; enough = enough; least = least; few = few })

pub provide-provide_rounded :
    (h : Header) (size a k : ℕ)
    → IsRounding size k
    → provide h size (2 ^ a) ≡ provide_rounded h (2 ^ block_pow k) (2 ^ block_pow a)
unfolding provide
provide-provide_rounded h size a k r = rw (r.returns, provide) (rw (max_pow k, max_pow a))

-- The sum in `can_provide` does not wrap.
pub room_below_top :
    {size a k : ℕ}
    → IsLayout size a
    → IsRounding size k
    → 2 ^ block_pow k + 64 + 2 ^ block_pow a < 2 ^ 64
room_below_top {size} {a} {k} l r =
    omega (
      arith,
      max_pow k,
      max_pow a,
      l.small,
      l.nonzero,
      pow-le k 63 (omega (arith, r.few)),
      pow-pos a,
    )

pub block_pow-le : {size a : ℕ} → IsLayout size a → block_pow a ≤ 64
block_pow-le {size} {a} l = elim (dec_le a 64) [
  | yes small ↦ omega arith
  | no large ↦ absurd (omega (arith, pow-le 64 a (omega arith), l.small))
]
