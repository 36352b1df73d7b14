-- ===== src/Allocator/Align.antt =====
-- The address arithmetic of `Header::provide`: a block is cut from the end of the region and
-- aligned downwards.
use original_os_with_rust.Prelude.{
  ℕ, ◌+◌, ◌-◌, ◌*◌, ◌/◌, ◌%◌, ◌^◌, ◌≤◌, ◌<◌, ◌≡◌, arith, ap, ap₂, sym,
}
use original_os_with_rust.Prelude.{◌∙◌, bit_and, max}
use native.Mathlib.Decide.{dec_le}
use original_os_with_rust.Words.Bits.{bit_and_split, bit_and-zero}
use original_os_with_rust.Words.Powers.{pow-pos, pow-add, pow-le}
use original_os_with_rust.Words.Masks.{div-mod_field, mod_field-lt, ones_low, div-lt}
use original_os_with_rust.Words.Ops.{sub_word, not_word}

pred_mul : (m n : ℕ) → 0 < m → m * n ≡ (m - 1) * n + n
pred_mul m n h = let e : m ≡ m - 1 + 1 = omega arith in ap (λ k. k * n) e ∙ omega arith

not_ones : (r a : ℕ) → 2 ^ (r + a) - 1 - (2 ^ a - 1) ≡ (2 ^ r - 1) * 2 ^ a + 0
not_ones r a = rw (pow-add r a) (omega (arith, pow-pos a, pred_mul (2 ^ r) (2 ^ a) (pow-pos r)))

-- `x & !(2^a - 1)` clears the low digits.
pub align_down :
    (a x : ℕ) → a ≤ 64 → x < 2 ^ 64 → bit_and x (not_word 64 (2 ^ a - 1)) ≡ x / 2 ^ a * 2 ^ a
align_down a x ha hx =
    let r = 64 - a in
    let e : r + a ≡ 64 = omega arith in
    ap₂ bit_and (sym (div-mod_field a x)) (ap (λ n. 2 ^ n - 1 - (2 ^ a - 1)) (sym e) ∙ not_ones r a)
    ∙ bit_and_split a (x / 2 ^ a) (x % 2 ^ a) (2 ^ r - 1) 0 (mod_field-lt a x) (pow-pos a)
    ∙ omega (
      arith,
      ap (λ (t : ℕ). t * 2 ^ a) (ones_low r (x / 2 ^ a) (div-lt r a x (rw e hx))),
      bit_and-zero (x % 2 ^ a),
    )

-- The address that `provide` computes for a block of `size` bytes below `end`.
abbrev pub block_addr : ℕ → ℕ → ℕ → ℕ
block_addr top size align = bit_and (sub_word 64 top size) (not_word 64 (align - 1))

-- It is a multiple of the alignment, and the highest one that leaves room for the block.
pub block_addr_lem :
    (top size a : ℕ)
    → a ≤ 64
    → size ≤ top
    → top < 2 ^ 64
    → (block_addr top size (2 ^ a) ≡ (top - size) / 2 ^ a * 2 ^ a)
      × (block_addr top size (2 ^ a) + size ≤ top)
      × (top < block_addr top size (2 ^ a) + size + 2 ^ a)
block_addr_lem top size a ha fits small =
    let sub : sub_word 64 top size ≡ top - size = omega arith in
    let down : block_addr top size (2 ^ a) ≡ (top - size) / 2 ^ a * 2 ^ a =
      ap (λ x. bit_and x (not_word 64 (2 ^ a - 1))) sub
      ∙ align_down a (top - size) ha (omega arith) in
    (
      down,
      omega (arith, down, div-mod_field a (top - size)),
      omega (arith, down, div-mod_field a (top - size), mod_field-lt a (top - size)),
    )

-- From 32 on a power of two is a multiple of 32, and so is every multiple of it.
pub multiple_of_32 : (a q : ℕ) → 5 ≤ a → q * 2 ^ a % 32 ≡ 0
multiple_of_32 a q h =
    let e : a - 5 + 5 ≡ a = omega arith in
    ap (λ k. q * 2 ^ k % 32) (sym e) ∙ ap (λ k. q * k % 32) (pow-add (a - 5) 5) ∙ omega arith

pub max_pow : (k : ℕ) → max (2 ^ k) 32 ≡ 2 ^ max k 5
max_pow k = elim (dec_le k 5) [
  | yes small ↦ let e : max k 5 ≡ 5 = omega arith in rw e (omega (arith, pow-le k 5 small))
  | no large ↦ let e : max k 5 ≡ k = omega arith in rw e (omega (arith, pow-le 5 k (omega arith)))
]
