-- ===== src/Paging.antt =====
-- x86.rs: an entry of a page table, and the index that an address has at a level.
pub mod Entries
pub mod Mapping
pub mod Tests
use original_os_with_rust.Prelude.{
  ℕ, ◌+◌, ◌-◌, ◌*◌, Bool, not, ◌==◌, if◌then◌else◌, bit_and, bit_or,
}
use original_os_with_rust.Prelude.{Result, ok, err, page_not_found, page_unaligned, page_populated}
use original_os_with_rust.Words.Ops.{shr, not_word}

abbrev pub attr_mask : ℕ
attr_mask = 0xfff

pub data PageAttr : Type 0 where
  not_present read_write_kernel read_write_io : PageAttr

-- `attr as u64`.
unfoldable pub attr_bits : PageAttr → ℕ
attr_bits not_present = 0
attr_bits read_write_kernel = 3
attr_bits read_write_io = 27

pub record Entry : Type 0 where
  pub value : ℕ

unfoldable pub is_present : Entry → Bool
is_present e = not (bit_and e.value 1 == 0)

unfoldable pub is_writable : Entry → Bool
is_writable e = not (bit_and e.value 2 == 0)

unfoldable pub is_user : Entry → Bool
is_user e = not (bit_and e.value 4 == 0)

-- `table` and `table_mut`: the address of the next table.
unfoldable pub table : Entry → Result ℕ
table e = if is_present e then ok (bit_and e.value (not_word 64 attr_mask)) else err page_not_found

unfoldable pub set_page : Entry → ℕ → PageAttr → Result Entry
set_page e phys attr =
    if not (bit_and phys attr_mask == 0)
    then err page_unaligned
    else ok (record { value = bit_or phys (attr_bits attr) })

-- `populate`, with the address of the new table.
unfoldable pub populate : Entry → ℕ → Result Entry
populate e next =
    if is_present e
    then err page_populated
    else ok (record { value = bit_or next (attr_bits read_write_kernel) })

unfoldable pub ensure_populated : Entry → ℕ → Result Entry
ensure_populated e next = if is_present e then ok e else populate e next

abbrev pub index_shift : ℕ → ℕ
index_shift level = (level - 1) * 9 + 12

unfoldable pub calc_index : ℕ → ℕ → ℕ
calc_index level addr = bit_and (shr 64 addr (index_shift level)) 0x1ff
