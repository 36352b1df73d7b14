-- ===== src/Words/Ops.antt =====
-- Operators of a `w`-bit unsigned integer, as a release build computes them: a sum wraps, and a
-- shift takes its amount modulo the width.
use original_os_with_rust.Prelude.{ℕ, ◌+◌, ◌-◌, ◌*◌, ◌/◌, ◌%◌, ◌^◌, ◌<◌, ◌≡◌, ap, ◌∙◌}
use native.Mathlib.Nat.{mod-eq_of_lt}

abbrev pub wrap : ℕ → ℕ → ℕ
wrap w x = x % 2 ^ w

abbrev pub add_word : ℕ → ℕ → ℕ → ℕ
add_word w x y = wrap w (x + y)

-- `x.wrapping_sub(y)`, for `y` below the modulus.
abbrev pub sub_word : ℕ → ℕ → ℕ → ℕ
sub_word w x y = wrap w (x + 2 ^ w - y)

abbrev pub shl : ℕ → ℕ → ℕ → ℕ
shl w x k = wrap w (x * 2 ^ (k % w))

abbrev pub shr : ℕ → ℕ → ℕ → ℕ
shr w x k = x / 2 ^ (k % w)

-- `!x`.
abbrev pub not_word : ℕ → ℕ → ℕ
not_word w x = 2 ^ w - 1 - x

pub shl_lem : (w x k : ℕ) → k < w → x * 2 ^ k < 2 ^ w → shl w x k ≡ x * 2 ^ k
shl_lem w x k h b = ap (λ j. x * 2 ^ j % 2 ^ w) (mod-eq_of_lt h) ∙ mod-eq_of_lt b

pub shr_lem : (w x k : ℕ) → k < w → shr w x k ≡ x / 2 ^ k
shr_lem w x k h = ap (λ j. x / 2 ^ j) (mod-eq_of_lt h)
