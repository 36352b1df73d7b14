-- ===== src/Allocator/RoundUp.antt =====
-- `round_up_to_nearest_pow2` of allocator.rs.
use original_os_with_rust.Prelude.{ℕ, zero, suc, ◌+◌, ◌-◌, ◌*◌, ◌^◌, ◌≤◌, ◌<◌, ◌≡◌, ◌⊎◌}
use original_os_with_rust.Prelude.{
  inl, inr, refl, arith, ok, err, out_of_range, leb, leb→le, ok_or, some, none,
}
use native.Mathlib.Decide.{dec_lt}
use original_os_with_rust.Prelude.{lt→ltb, le→ltb, Bool-cases, if◌then◌else◌, ltb}
use original_os_with_rust.Words.Powers.{pow-le}
use original_os_with_rust.Words.Ops.{sub_word}
use original_os_with_rust.Allocator.{leading_zeros, round_up_to_nearest_pow2}
use native.Mathlib.Nat.{pow-suc}

-- The word less its leading zeros has just the number's digits.
record HasDigits (w x zeros : ℕ) : Type 0 where
  digits : ℕ
  total : zeros + digits ≡ w
  below : x < 2 ^ digits
  tight : 2 ^ digits ≤ 2 * x + 1

leading_zeros_lem : (w x : ℕ) → x < 2 ^ w → HasDigits w x (leading_zeros w x)
unfolding leading_zeros
leading_zeros_lem zero x h = record { digits = 0; total = refl; below = h; tight = omega arith }
leading_zeros_lem (suc k) x h = elim (Bool-cases (leb (2 ^ k) x)) [
  | inl big ↦ rw big (record {
    digits = suc k;
    total = omega arith;
    below = h;
    tight = omega (arith, pow-suc 2 k, leb→le (2 ^ k) x big);
  })
  | inr small ↦
      let ih = leading_zeros_lem k x (ground arith) in
      rw small (record {
        digits = ih.digits;
        total = omega (arith, ih.total);
        below = ih.below;
        tight = ih.tight;
      })
]

-- The shift amount of the source, as a number of digits.
shift_amount : (v : ℕ) → 0 < v → v < 2 ^ 64 → sub_word 64 v 1 ≡ v - 1
shift_amount v pos h = omega arith

round_up_digits :
    (v m : ℕ)
    → 0 < v
    → v < 2 ^ 64
    → leading_zeros 64 (v - 1) + m ≡ 64
    → round_up_to_nearest_pow2 v ≡ ok_or (if ltb m 64 then some (2 ^ m) else none) out_of_range
unfolding round_up_to_nearest_pow2
round_up_digits v m pos h e =
    let amount : 64 - leading_zeros 64 (v - 1) ≡ m = omega arith in
    rw (shift_amount v pos h, amount)

few_digits : (v m : ℕ) → v ≤ 2 ^ 63 → 0 < v → 2 ^ m ≤ 2 * (v - 1) + 1 → m < 64
few_digits v m small pos h = elim (dec_lt m 64) [
  | yes lt ↦ lt
  | no ge ↦ absurd (omega (arith, pow-le 64 m (omega arith)))
]

-- For a size from 1 to 2^63 the result is the least power of two that is not below it.
pub round_up-IsNextPow2 :
    (v : ℕ)
    → 0 < v
    → v ≤ 2 ^ 63
    → (k : ℕ) × (round_up_to_nearest_pow2 v ≡ ok (2 ^ k)) × (k < 64) × (v ≤ 2 ^ k) × (2 ^ k < 2 * v)
round_up-IsNextPow2 v pos small = from (leading_zeros_lem 64 (v - 1) (omega arith))
  where
    from :
        HasDigits 64 (v - 1) (leading_zeros 64 (v - 1))
        → (k : ℕ) × (round_up_to_nearest_pow2 v ≡ ok (2 ^ k))
          × (k < 64)
          × (v ≤ 2 ^ k)
          × (2 ^ k < 2 * v)
    from d =
        let few = few_digits v d.digits small pos d.tight in
        (
          d.digits,
          rw (round_up_digits v d.digits pos (omega arith) d.total) (rw (lt→ltb d.digits 64 few)),
          few,
          omega (arith, d.below),
          omega (arith, d.tight),
        )

round_up_zero : round_up_to_nearest_pow2 0 ≡ err out_of_range
unfolding round_up_to_nearest_pow2 leading_zeros
round_up_zero = refl

many_digits : (x m : ℕ) → 2 ^ 63 ≤ x → x < 2 ^ m → 64 ≤ m
many_digits x m large below = elim (dec_lt m 64) [
  | yes lt ↦ absurd (omega (arith, pow-le m 63 (omega arith)))
  | no ge ↦ omega arith
]

-- Outside that range the function fails.
pub round_up_out_of_range :
    (v : ℕ) → v < 2 ^ 64 → (v ≡ 0) ⊎ (2 ^ 63 < v) → round_up_to_nearest_pow2 v ≡ err out_of_range
round_up_out_of_range v h (inl e) = rw e round_up_zero
round_up_out_of_range v h (inr large) = from (leading_zeros_lem 64 (v - 1) (omega arith))
  where
    from :
        HasDigits 64 (v - 1) (leading_zeros 64 (v - 1))
        → round_up_to_nearest_pow2 v ≡ err out_of_range
    from d =
        rw (round_up_digits v d.digits (omega arith) h d.total)
          (rw (le→ltb d.digits 64 (many_digits (v - 1) d.digits (omega arith) d.below)))
