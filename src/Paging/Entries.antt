-- ===== src/Paging/Entries.antt =====
-- x86.rs: what is written into a page table's entry, and the parts of an address.
use original_os_with_rust.Prelude.{
  ℕ, ◌+◌, ◌-◌, ◌*◌, ◌/◌, ◌%◌, ◌^◌, ◌<◌, ◌≡◌, refl, arith, ap, ◌∙◌, ok, true, false,
}
use original_os_with_rust.Prelude.{bit_and, bit_or, not, ◌==◌}
use original_os_with_rust.Words.Bits.{bit_and_split, bit_and-zero}
use original_os_with_rust.Words.Masks.{bit_or_fields, bit_and_ones, ones_low}
use original_os_with_rust.Words.Ops.{not_word}
use original_os_with_rust.Paging.{
  Entry, ensure_populated, populate, is_present, table, attr_bits, calc_index,
}

-- A page's address with attribute bits.
with_attr : (page attr : ℕ) → attr < 2 ^ 12 → bit_or (page * 2 ^ 12) attr ≡ page * 2 ^ 12 + attr
with_attr page attr h = bit_or_fields 12 page attr h

clear_attr :
    (page attr : ℕ)
    → page < 2 ^ 52
    → attr < 2 ^ 12
    → bit_and (page * 2 ^ 12 + attr) (not_word 64 0xfff) ≡ page * 2 ^ 12
clear_attr page attr hp h =
    ap (bit_and (page * 2 ^ 12 + attr))
      (let e : 2 ^ 64 - 1 - 0xfff ≡ (2 ^ 52 - 1) * 2 ^ 12 + 0 = omega arith in e)
    ∙ bit_and_split 12 page attr (2 ^ 52 - 1) 0 h (omega arith)
    ∙ omega (arith, ap (λ (t : ℕ). t * 2 ^ 12) (ones_low 52 page hp), bit_and-zero attr)

-- An entry that is absent is populated with a table at a page's address, and then leads to that table.
pub ensure_populated-table :
    (e : Entry) (page : ℕ)
    → page < 2 ^ 52
    → is_present e ≡ false
    → (e' : Entry) × (ensure_populated e (page * 2 ^ 12) ≡ ok e')
      × (is_present e' ≡ true)
      × (table e' ≡ ok (page * 2 ^ 12))
unfolding ensure_populated populate is_present table attr_bits
ensure_populated-table e page h absent = (
  record { value = page * 2 ^ 12 + 3 },
  made,
  present,
  rw (table, present, clear_attr page 3 h (omega arith)) refl,
)
  where
    made : ensure_populated e (page * 2 ^ 12) ≡ ok (record { value = page * 2 ^ 12 + 3 })
    made = rw (ensure_populated, absent, with_attr page 3 (omega arith)) refl

    low : bit_and (page * 2 ^ 12 + 3) 1 ≡ 1
    low = omega (arith, bit_and_ones 1 (page * 2 ^ 12 + 3))

    present : is_present (record { value = page * 2 ^ 12 + 3 }) ≡ true
    present = ap (λ x. not (x == 0)) low

-- An address below 2^48 is made of its indices at the four levels and its offset in the page.
pub calc_index-address :
    (addr : ℕ)
    → addr < 2 ^ 48
    → (((calc_index 4 addr * 512 + calc_index 3 addr) * 512 + calc_index 2 addr) * 512
            + calc_index 1 addr)
          * 4096
        + addr % 4096
      ≡ addr
unfolding calc_index
calc_index-address addr h = omega (
  arith,
  bit_and_ones 9 (addr / 2 ^ 39),
  bit_and_ones 9 (addr / 2 ^ 30),
  bit_and_ones 9 (addr / 2 ^ 21),
  bit_and_ones 9 (addr / 2 ^ 12),
)
