-- ===== src/Words/Powers.antt =====
-- Powers of two: sums of exponents, and bounds.
use original_os_with_rust.Prelude.{ℕ, zero, suc, ◌+◌, ◌*◌, ◌^◌, ◌≤◌, ◌<◌, ◌≡◌, arith}
use native.Mathlib.Decide.{dec_lt}
use native.Mathlib.Nat.{pow-suc, add-zero, pow-le-pow_right}

pub pow-pos : (k : ℕ) → 0 < 2 ^ k
pow-pos zero = omega arith
pow-pos (suc k) = omega (arith, pow-suc 2 k, pow-pos k)

add_suc : (j k : ℕ) → j + suc k ≡ suc (j + k)
add_suc j k = omega arith

pub pow-add : (j k : ℕ) → 2 ^ (j + k) ≡ 2 ^ j * 2 ^ k
pow-add j zero = rw (add-zero j) (omega arith)
pow-add j (suc k) = rw (add_suc, pow-suc 2 (j + k), pow-suc 2 k) (omega (arith, pow-add j k))

pub pow-lt : (j k : ℕ) → j < k → 2 ^ j < 2 ^ k
pow-lt j zero h = absurd (omega arith)
pow-lt j (suc k) h = elim (dec_lt j k) [
  | yes below ↦ omega (arith, pow-suc 2 k, pow-lt j k below)
  | no last ↦ let e : j ≡ k = omega arith in rw e (omega (arith, pow-suc 2 k, pow-pos k))
]

pub pow-le : (j k : ℕ) → j ≤ k → 2 ^ j ≤ 2 ^ k
pow-le j k h = pow-le-pow_right (omega arith) h
