-- ===== src/Words/Bits.antt =====
-- The bitwise operations one digit at a time, and then at any split of the digits.
use original_os_with_rust.Prelude.{ℕ, zero, suc, ◌+◌, ◌*◌, ◌/◌, ◌%◌, ◌^◌, ◌≤◌, ◌<◌, min, max}
use original_os_with_rust.Prelude.{bit_and, bit_or, ◌≡◌, refl, ap₂, arith}
use Prim.Native.Nat.{digits, bit_and-bitwise, bit_or-bitwise}
use native.Mathlib.Nat.{pow-suc}

-- With enough fuel the digit recursion does not read its fuel.
digits_fuel :
    (z : ℕ → ℕ) (g : ℕ → ℕ → ℕ) (n m a b : ℕ) → a ≤ n → a ≤ m → digits z g n a b ≡ digits z g m a b
digits_fuel z g zero zero a b p q = refl
digits_fuel z g zero (suc m) zero b p q = refl
digits_fuel z g zero (suc m) (suc a) b p q = absurd (omega arith)
digits_fuel z g (suc n) zero zero b p q = refl
digits_fuel z g (suc n) zero (suc a) b p q = absurd (omega arith)
digits_fuel z g (suc n) (suc m) zero b p q = refl
digits_fuel z g (suc n) (suc m) (suc a) b p q =
    omega (arith, digits_fuel z g n m (suc a / 2) (b / 2) (omega arith) (omega arith))

zero-bit_and : (b : ℕ) → bit_and 0 b ≡ 0
zero-bit_and b = bit_and-bitwise 0 b

zero-bit_or : (b : ℕ) → bit_or 0 b ≡ b
zero-bit_or b = bit_or-bitwise 0 b

-- The last digits are combined, and so are the rest.
pub bit_or_step : (x y : ℕ) → bit_or x y ≡ bit_or (x / 2) (y / 2) * 2 + max (x % 2) (y % 2)
bit_or_step zero y = omega (arith, zero-bit_or (y / 2), zero-bit_or y)
bit_or_step (suc x) y =
    let fuel =
      digits_fuel (λ c. c) max x (suc x / 2) (suc x / 2) (y / 2) (omega arith) (omega arith) in
    omega (arith, fuel, bit_or-bitwise (suc x / 2) (y / 2), bit_or-bitwise (suc x) y)

pub bit_and_step : (x y : ℕ) → bit_and x y ≡ bit_and (x / 2) (y / 2) * 2 + min (x % 2) (y % 2)
bit_and_step zero y = omega (arith, zero-bit_and (y / 2), zero-bit_and y)
bit_and_step (suc x) y =
    let fuel =
      digits_fuel (λ c. 0) min x (suc x / 2) (suc x / 2) (y / 2) (omega arith) (omega arith) in
    omega (arith, fuel, bit_and-bitwise (suc x / 2) (y / 2), bit_and-bitwise (suc x) y)

-- Strong induction on a bound for the first number.
and_zero_below : (n a : ℕ) → a ≤ n → bit_and a 0 ≡ 0
and_zero_below n zero h = zero-bit_and 0
and_zero_below zero (suc a) h = absurd (omega arith)
and_zero_below (suc n) (suc a) h =
    omega (arith, bit_and_step (suc a) 0, and_zero_below n (suc a / 2) (omega arith))

or_zero_below : (n a : ℕ) → a ≤ n → bit_or a 0 ≡ a
or_zero_below n zero h = zero-bit_or 0
or_zero_below zero (suc a) h = absurd (omega arith)
or_zero_below (suc n) (suc a) h =
    omega (arith, bit_or_step (suc a) 0, or_zero_below n (suc a / 2) (omega arith))

pub bit_and-zero : (a : ℕ) → bit_and a 0 ≡ 0
bit_and-zero a = and_zero_below a a (omega arith)

pub bit_or-zero : (a : ℕ) → bit_or a 0 ≡ a
bit_or-zero a = or_zero_below a a (omega arith)

and_comm_below : (n a b : ℕ) → a ≤ n → bit_and a b ≡ bit_and b a
and_comm_below n zero b h = omega (arith, zero-bit_and b, bit_and-zero b)
and_comm_below zero (suc a) b h = absurd (omega arith)
and_comm_below (suc n) (suc a) b h = omega (
  arith,
  bit_and_step (suc a) b,
  bit_and_step b (suc a),
  and_comm_below n (suc a / 2) (b / 2) (omega arith),
)

pub bit_and_comm : (a b : ℕ) → bit_and a b ≡ bit_and b a
bit_and_comm a b = and_comm_below a a b (omega arith)

or_comm_below : (n a b : ℕ) → a ≤ n → bit_or a b ≡ bit_or b a
or_comm_below n zero b h = omega (arith, zero-bit_or b, bit_or-zero b)
or_comm_below zero (suc a) b h = absurd (omega arith)
or_comm_below (suc n) (suc a) b h = omega (
  arith,
  bit_or_step (suc a) b,
  bit_or_step b (suc a),
  or_comm_below n (suc a / 2) (b / 2) (omega arith),
)

pub bit_or_comm : (a b : ℕ) → bit_or a b ≡ bit_or b a
bit_or_comm a b = or_comm_below a a b (omega arith)

pub bit_and_zero_left : (a : ℕ) → bit_and 0 a ≡ 0
bit_and_zero_left a = zero-bit_and a

pub bit_or_zero_left : (a : ℕ) → bit_or 0 a ≡ a
bit_or_zero_left a = zero-bit_or a

half : (k a b : ℕ) → (a * 2 ^ suc k + b) / 2 ≡ a * 2 ^ k + b / 2
half k a b = rw (pow-suc 2 k) (omega arith)

low : (k a b : ℕ) → (a * 2 ^ suc k + b) % 2 ≡ b % 2
low k a b = rw (pow-suc 2 k) (omega arith)

twice : (k x : ℕ) → x * 2 ^ suc k ≡ x * 2 ^ k * 2
twice k x = rw (pow-suc 2 k) (omega arith)

half-lt : (k b : ℕ) → b < 2 ^ suc k → b / 2 < 2 ^ k
half-lt k b h = omega (arith, pow-suc 2 k)

-- An operation that works digit by digit, lowest first, works on the low `k` digits and on the
-- rest apart.
module _ (op g : ℕ → ℕ → ℕ) (step : (a b : ℕ) → op a b ≡ op (a / 2) (b / 2) * 2 + g (a % 2) (b % 2))
    (op-zero : op 0 0 ≡ 0) where
  split_digits :
      (k a b c d : ℕ)
      → b < 2 ^ k
      → d < 2 ^ k
      → op (a * 2 ^ k + b) (c * 2 ^ k + d) ≡ op a c * 2 ^ k + op b d
  split_digits zero a b c d p q = omega (
    arith,
    op-zero,
    ap₂ op (let e : a * 2 ^ 0 + b ≡ a = omega arith in e)
        (let e : c * 2 ^ 0 + d ≡ c = omega arith in e),
    ap₂ op (let e : b ≡ 0 = omega arith in e) (let e : d ≡ 0 = omega arith in e),
  )
  split_digits (suc k) a b c d p q = omega (
    arith,
    step (a * 2 ^ suc k + b) (c * 2 ^ suc k + d),
    step b d,
    ap₂ op (half k a b) (half k c d),
    ap₂ g (low k a b) (low k c d),
    twice k (op a c),
    split_digits k a (b / 2) c (d / 2) (half-lt k b p) (half-lt k d q),
  )

pub bit_and_split :
    (k a b c d : ℕ)
    → b < 2 ^ k
    → d < 2 ^ k
    → bit_and (a * 2 ^ k + b) (c * 2 ^ k + d) ≡ bit_and a c * 2 ^ k + bit_and b d
bit_and_split = split_digits bit_and min bit_and_step (bit_and_zero_left 0)

pub bit_or_split :
    (k a b c d : ℕ)
    → b < 2 ^ k
    → d < 2 ^ k
    → bit_or (a * 2 ^ k + b) (c * 2 ^ k + d) ≡ bit_or a c * 2 ^ k + bit_or b d
bit_or_split = split_digits bit_or max bit_or_step (bit_or_zero_left 0)
