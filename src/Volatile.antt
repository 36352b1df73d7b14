-- ===== src/Volatile.antt =====
-- volatile.rs: `Volatile<T>` over an unsigned `T` of `w` bits; the register's content is passed in
-- and the new content is returned. bits.rs: `extract_bits`.
pub mod Fields
pub mod Extract
pub mod ReadWrite
pub mod Tests
use original_os_with_rust.Prelude.{ℕ, ◌-◌, ◌/◌, ◌^◌, ◌%◌, min, ltb, bit_and, bit_or, ◌==◌}
use original_os_with_rust.Prelude.{if◌then◌else◌, Result, ok, err, value_out_of_range}
use original_os_with_rust.Words.Ops.{shl, shr, not_word}

-- `Volatile::write_bits`; the result is what `self.write` stores.
unfoldable pub write_bits : ℕ → ℕ → ℕ → ℕ → ℕ → Result ℕ
write_bits w cur shift width value =
    let mask = shl w 1 width - 1 in
    if bit_and mask value == value
    then ok (bit_or (shl w value shift) (bit_and cur (not_word w (shl w mask shift))))
    else err value_out_of_range

-- `Volatile::read_bits`.
unfoldable pub read_bits : ℕ → ℕ → ℕ → ℕ → ℕ
read_bits w cur shift width = bit_and (shr w cur shift) (shl w 1 width - 1)

-- `x.checked_shr(k).unwrap_or(0)` of a `u64`.
abbrev checked_shr_or_zero : ℕ → ℕ → ℕ
checked_shr_or_zero x k = if ltb k 64 then x / 2 ^ k else 0

-- `extract_bits::<T>` for a `T` of `w` bits; `shift as u32` keeps 32 bits of the shift.
unfoldable pub extract_bits : ℕ → ℕ → ℕ → ℕ → ℕ
extract_bits w value shift width =
    let mask = shl 64 1 (min 63 width) - 1 in
    let bits = bit_and (checked_shr_or_zero value (shift % 2 ^ 32)) mask in
    if ltb bits (2 ^ w) then bits else 0
