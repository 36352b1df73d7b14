-- ===== src/Volatile/Tests.antt =====
-- The theorems on registers at concrete inputs.
use original_os_with_rust.Prelude.{ℕ, ◌^◌, ◌<◌, ◌≡◌, arith, ok, min}
use original_os_with_rust.Volatile.{write_bits, read_bits, extract_bits}
use original_os_with_rust.Volatile.Fields.{field}
use original_os_with_rust.Volatile.ReadWrite.{IsApart, read-write_bits}
use original_os_with_rust.Volatile.Extract.{extract_bits_lem}

read-write_bits_example :
    (y : ℕ) × (write_bits 32 0x2401 10 6 33 ≡ ok y)
    × (y < 2 ^ 32)
    × (read_bits 32 y 10 6 ≡ 33)
    × ((s' wd' : ℕ) → IsApart 32 10 6 s' wd' → read_bits 32 y s' wd' ≡ read_bits 32 0x2401 s' wd')
read-write_bits_example =
    read-write_bits 32 0x2401 10 6 33 (omega arith) (omega arith) (omega arith) (omega arith)
      (omega arith)

extract_bits_lem_example : extract_bits 16 0xabcd 4 8 ≡ field 4 (min 63 8) 0xabcd
extract_bits_lem_example = extract_bits_lem 16 0xabcd 4 8 (omega arith) (omega arith) (omega arith)
