-- ===== src/Words/Masks.antt =====
-- Fields of a word: a number as `high * 2 ^ k + low`, and what masks make of it.
use original_os_with_rust.Prelude.{ℕ, zero, suc, ◌+◌, ◌-◌, ◌*◌, ◌/◌, ◌%◌, ◌^◌, ◌<◌}
use original_os_with_rust.Prelude.{bit_and, bit_or, ◌≡◌, refl, ap, ap₂, ◌∙◌, sym, arith}
use original_os_with_rust.Words.Powers.{pow-pos, pow-add}
use original_os_with_rust.Words.Bits.{bit_and_step, bit_and_split, bit_or_split}
use original_os_with_rust.Words.Bits.{bit_and-zero, bit_or-zero, bit_or_zero_left}
use native.Mathlib.Nat.{pow-suc, div-div-eq-div-mul, add-zero}

pub div_field : (k a b : ℕ) → b < 2 ^ k → (a * 2 ^ k + b) / 2 ^ k ≡ a
div_field k a b h = grind (arith, pow-pos k)

pub mod_field : (k a b : ℕ) → b < 2 ^ k → (a * 2 ^ k + b) % 2 ^ k ≡ b
mod_field k a b h = grind (arith, pow-pos k, div_field k a b h)

pub div-mod_field : (k a : ℕ) → a / 2 ^ k * 2 ^ k + a % 2 ^ k ≡ a
div-mod_field k a = omega arith

pub mod_field-lt : (k a : ℕ) → a % 2 ^ k < 2 ^ k
mod_field-lt k a = omega (arith, pow-pos k)

ones_step : (k : ℕ) → 2 ^ suc k - 1 ≡ (2 ^ k - 1) * 2 + 1
ones_step k = omega (arith, pow-suc 2 k, pow-pos k)

-- A number of `k` digits is not changed by the mask.
pub ones_low : (k a : ℕ) → a < 2 ^ k → bit_and a (2 ^ k - 1) ≡ a
ones_low zero a h = omega (arith, bit_and-zero a)
ones_low (suc k) a h = omega (
  arith,
  bit_and_step a (2 ^ suc k - 1),
  ones_step k,
  pow-suc 2 k,
  pow-pos k,
  ap₂ bit_and (let e : a / 2 ≡ a / 2 = refl in e)
      (let e : (2 ^ suc k - 1) / 2 ≡ 2 ^ k - 1 = omega (arith, ones_step k) in e),
  ones_low k (a / 2) (omega (arith, pow-suc 2 k)),
)

-- `a & (2^k - 1)` keeps the low `k` digits.
pub bit_and_ones : (k a : ℕ) → bit_and a (2 ^ k - 1) ≡ a % 2 ^ k
bit_and_ones k a = omega (
  arith,
  ap₂ bit_and (div-mod_field k a) (let e : 0 * 2 ^ k + (2 ^ k - 1) ≡ 2 ^ k - 1 = omega arith in e),
  bit_and_split k (a / 2 ^ k) (a % 2 ^ k) 0 (2 ^ k - 1) (mod_field-lt k a)
      (omega (arith, pow-pos k)),
  ap (λ (t : ℕ). t * 2 ^ k) (bit_and-zero (a / 2 ^ k)),
  ones_low k (a % 2 ^ k) (mod_field-lt k a),
)

-- `(a << k) | b` puts `b` under `a`.
pub bit_or_fields : (k a b : ℕ) → b < 2 ^ k → bit_or (a * 2 ^ k) b ≡ a * 2 ^ k + b
bit_or_fields k a b h = omega (
  arith,
  ap₂ bit_or (let e : a * 2 ^ k + 0 ≡ a * 2 ^ k = omega arith in e)
      (let e : 0 * 2 ^ k + b ≡ b = omega arith in e),
  bit_or_split k a 0 0 b (pow-pos k) h,
  ap (λ (t : ℕ). t * 2 ^ k) (bit_or-zero a),
  bit_or_zero_left b,
)

-- A field of `j` digits above `k` digits.
pub div-div : (j k a : ℕ) → a / 2 ^ (j + k) ≡ a / 2 ^ j / 2 ^ k
div-div j k a = rw (pow-add j k) (sym (div-div-eq-div-mul a (2 ^ j) (2 ^ k)))

pub field-lt : (j k a b : ℕ) → a < 2 ^ j → b < 2 ^ k → a * 2 ^ k + b < 2 ^ (j + k)
field-lt j k a b p q = rw (pow-add j k) (grind arith)

pub div-lt : (j k a : ℕ) → a < 2 ^ (j + k) → a / 2 ^ k < 2 ^ j
div-lt j k a h = grind (arith, pow-add j k, div-mod_field k a)

-- `cur & !mask`, where the word is `x`, `y`, `z` from the top and the mask covers `y`.
clear_digits :
    (r wd s x y z : ℕ)
    → x < 2 ^ r
    → y < 2 ^ wd
    → z < 2 ^ s
    → bit_and ((x * 2 ^ wd + y) * 2 ^ s + z) ((2 ^ r - 1) * 2 ^ wd * 2 ^ s + (2 ^ s - 1))
      ≡ x * 2 ^ wd * 2 ^ s + z
clear_digits r wd s x y z hx hy hz =
    bit_and_split s (x * 2 ^ wd + y) z ((2 ^ r - 1) * 2 ^ wd) (2 ^ s - 1) hz
      (omega (arith, pow-pos s))
    ∙ ap₂ (λ a b. a * 2 ^ s + b) upper (ones_low s z hz)
  where
    upper : bit_and (x * 2 ^ wd + y) ((2 ^ r - 1) * 2 ^ wd) ≡ x * 2 ^ wd
    upper =
        ap (bit_and (x * 2 ^ wd + y)) (sym (add-zero _))
        ∙ bit_and_split wd x y (2 ^ r - 1) 0 hy (pow-pos wd)
        ∙ omega (arith, ap (λ (t : ℕ). t * 2 ^ wd) (ones_low r x hx), bit_and-zero y)

-- `(v << s) | rest`, where `rest` is clear at the field.
fill_digits :
    (wd s x v z : ℕ)
    → v < 2 ^ wd
    → z < 2 ^ s
    → bit_or (v * 2 ^ s) (x * 2 ^ wd * 2 ^ s + z) ≡ (x * 2 ^ wd + v) * 2 ^ s + z
fill_digits wd s x v z hv hz =
    ap (λ a. bit_or a (x * 2 ^ wd * 2 ^ s + z)) (sym (add-zero _))
    ∙ bit_or_split s v 0 (x * 2 ^ wd) z (pow-pos s) hz
    ∙ ap₂ (λ a b. a * 2 ^ s + b) upper (bit_or_zero_left z)
  where
    upper : bit_or v (x * 2 ^ wd) ≡ x * 2 ^ wd + v
    upper =
        ap₂ bit_or (let e : v ≡ 0 * 2 ^ wd + v = omega arith in e) (sym (add-zero _))
        ∙ bit_or_split wd 0 v x 0 hv (pow-pos wd)
        ∙ omega (arith, ap (λ (t : ℕ). t * 2 ^ wd) (bit_or_zero_left x), bit_or-zero v)

-- `(v << s) | (cur & !mask)` replaces the field.
pub replace_digits :
    (r wd s x y v z : ℕ)
    → x < 2 ^ r
    → y < 2 ^ wd
    → v < 2 ^ wd
    → z < 2 ^ s
    → bit_or
        (v * 2 ^ s)
        (bit_and ((x * 2 ^ wd + y) * 2 ^ s + z) ((2 ^ r - 1) * 2 ^ wd * 2 ^ s + (2 ^ s - 1)))
      ≡ (x * 2 ^ wd + v) * 2 ^ s + z
replace_digits r wd s x y v z hx hy hv hz =
    ap (bit_or (v * 2 ^ s)) (clear_digits r wd s x y z hx hy hz) ∙ fill_digits wd s x v z hv hz
