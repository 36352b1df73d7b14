-- ===== src/Volatile/Extract.antt =====
-- bits.rs: the field that `extract_bits` reads.
use original_os_with_rust.Prelude.{ℕ, ◌/◌, ◌%◌, ◌^◌, ◌≤◌, ◌<◌, ◌≡◌, min, arith, ◌∙◌, sym, true}
use original_os_with_rust.Prelude.{ltb, lt→ltb, le→ltb, if◌then◌else◌}
use original_os_with_rust.Words.Powers.{pow-pos, pow-le}
use original_os_with_rust.Words.Masks.{bit_and_ones}
use original_os_with_rust.Volatile.{extract_bits}
use original_os_with_rust.Volatile.Fields.{field, mask_lem}
use native.Mathlib.Nat.{mod-eq_of_lt, div-eq_of_lt, le_trans}
use native.Mathlib.Decide.{dec_lt}

shifted : (w x s : ℕ) → w ≤ 64 → x < 2 ^ w → (if ltb s 64 then x / 2 ^ s else 0) ≡ x / 2 ^ s
shifted w x s hw hx = elim (dec_lt s 64) [
  | yes small ↦ rw (lt→ltb s 64 small)
  | no large ↦
      rw (le→ltb s 64 (omega arith))
        (sym (div-eq_of_lt (le_trans hx (le_trans (pow-le w 64 hw) (pow-le 64 s (omega arith))))))
]

in_type : (w x s k : ℕ) → x < 2 ^ w → ltb (x / 2 ^ s % 2 ^ k) (2 ^ w) ≡ true
in_type w x s k hx = lt→ltb _ _ (grind (arith, pow-pos s, pow-pos k))

-- For a value of the type, and any shift that a `u32` holds, the result is the field of
-- `min(63, width)` digits from digit `shift` on.
pub extract_bits_lem :
    (w value shift width : ℕ)
    → w ≤ 64
    → value < 2 ^ w
    → shift < 2 ^ 32
    → extract_bits w value shift width ≡ field shift (min 63 width) value
unfolding extract_bits field
extract_bits_lem w x s wd hw hx hs =
    rw (mod-eq_of_lt hs, shifted w x s hw hx, mask_lem 64 (min 63 wd) (omega arith))
      (rw (bit_and_ones (min 63 wd) (x / 2 ^ s), in_type w x s (min 63 wd) hx))

-- A width of 64 loses the top digit.
pub extract_bits_top_lost :
    (value : ℕ) → value < 2 ^ 64 → extract_bits 64 value 0 64 ≡ value % 2 ^ 63
unfolding field
extract_bits_top_lost x h = extract_bits_lem 64 x 0 64 (omega arith) h (omega arith) ∙ omega arith
