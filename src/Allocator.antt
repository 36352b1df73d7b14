-- ===== src/Allocator.antt =====
-- allocator.rs: a first-fit allocator over a chain of headers. The chain is the list of the
-- headers that `first_header` and `next_header` link, each with the address that it stands at.
pub mod RoundUp
pub mod Align
pub mod Provide
pub mod Chain
pub mod Init
pub mod Blocks
mod Tests
use original_os_with_rust.Prelude.{ℕ, zero, suc, ◌+◌, ◌-◌, ◌*◌, ◌^◌, max, Bool, true, false, not}
use original_os_with_rust.Prelude.{◌&&◌, ◌||◌, ltb, leb, ◌==◌, if◌then◌else◌, bit_and}
use original_os_with_rust.Prelude.{Option, none, some, List, [], ◌∷◌, ◌++◌}
use original_os_with_rust.Prelude.{Result, ok, err, ◌>>=◌, to_option, ok_or, out_of_range, panic}
use original_os_with_rust.Words.Ops.{add_word, sub_word, not_word}

-- `x.leading_zeros()` of a word of that many bits.
unfoldable pub leading_zeros : ℕ → ℕ → ℕ
leading_zeros zero x = 0
leading_zeros (suc k) x = let rest = leading_zeros k x in if leb (2 ^ k) x then 0 else suc rest

-- `1usize.checked_shl(k)`.
abbrev pub checked_shl_one : ℕ → Option ℕ
checked_shl_one k = if ltb k 64 then some (2 ^ k) else none

unfoldable pub round_up_to_nearest_pow2 : ℕ → Result ℕ
round_up_to_nearest_pow2 v =
    ok_or (checked_shl_one (64 - leading_zeros 64 (sub_word 64 v 1))) out_of_range

-- `_reserved` is never read, and `next_header` is the next element of the chain.
pub record Header : Type 0 where
  pub addr : ℕ
  pub size : ℕ
  pub is_allocated : Bool

abbrev pub header_size : ℕ
header_size = 32

unfoldable pub can_provide : Header → ℕ → ℕ → Bool
can_provide h size align = leb (add_word 64 (add_word 64 size (header_size * 2)) align) h.size

abbrev pub end_addr : Header → ℕ
end_addr h = add_word 64 h.addr h.size

-- `Header::new_from_addr`.
abbrev pub new_from_addr : ℕ → Header
new_from_addr a = record { addr = a; size = 0; is_allocated = false }

-- What a header hands out: the address, and the headers that stand in its place.
pub record Provided : Type 0 where
  pub addr : ℕ
  pub headers : List Header

-- `header_for_padding`, made where the block does not reach the end of the region.
unfoldable pub padding : Header → Header → List Header
padding h block =
    if end_addr block == end_addr h
    then []
    else record (new_from_addr (end_addr block)) {
      size = sub_word 64 (end_addr h) (end_addr block);
    }
      ∷ []

abbrev pub sizes : List Header → ℕ
sizes [] = 0
sizes (h ∷ hs) = h.size + sizes hs

-- The part of `Header::provide` from the computed address on: the headers of the block and of the
-- padding are made, and the region's own header shrinks.
unfoldable pub place : Header → ℕ → ℕ → Result (Option Provided)
unfolding padding
place h size allocated_addr =
    let block : Header = record (new_from_addr (sub_word 64 allocated_addr header_size)) {
      size = add_word 64 size header_size;
      is_allocated = true;
    } in
    let pads = padding h block in
    let size_used = add_word 64 block.size (sizes pads) in
    if leb (add_word 64 size_used header_size) h.size
    then ok (
        some (record {
          addr = allocated_addr;
          headers = record h { size = h.size - size_used } ∷ block ∷ pads;
        }))
    else err panic

-- The body of `Header::provide` after `size` and `align` are rounded up.
unfoldable pub provide_rounded : Header → ℕ → ℕ → Result (Option Provided)
unfolding can_provide
provide_rounded h size align =
    if h.is_allocated || not (can_provide h size align)
    then ok none
    else place h size (bit_and (sub_word 64 (end_addr h) size) (not_word 64 (align - 1)))

-- `Header::provide`.
unfoldable pub provide : Header → ℕ → ℕ → Result (Option Provided)
provide h size align = elim (to_option (round_up_to_nearest_pow2 size)) [
  | none ↦ ok none
  | some rounded ↦ provide_rounded h (max rounded header_size) (max align header_size)
]

-- `alloc_with_options`: the address, 0 for a null pointer, and the chain that it leaves.
pub record Allocation : Type 0 where
  pub addr : ℕ
  pub chain : List Header

unfoldable pub alloc_with_options : List Header → ℕ → ℕ → Result Allocation
alloc_with_options [] size align = ok (record { addr = 0; chain = [] })
alloc_with_options (h ∷ rest) size align =
    let later = alloc_with_options rest size align in
    provide h size align >>= λ r. elim r [
      | some p ↦ ok (record { addr = p.addr; chain = p.headers ++ rest })
      | none ↦ later >>= λ a. ok (record { addr = a.addr; chain = h ∷ a.chain })
    ]

-- `dealloc`: the header that stands just below the pointer is marked free.
unfoldable pub dealloc : List Header → ℕ → List Header
dealloc [] ptr = []
dealloc (h ∷ rest) ptr =
    (if h.addr == sub_word 64 ptr header_size then record h { is_allocated = false } else h)
    ∷ dealloc rest ptr
