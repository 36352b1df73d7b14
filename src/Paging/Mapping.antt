-- ===== src/Paging/Mapping.antt =====
-- x86.rs: `PML4::create_mapping`. A table is a function from its indices; the entry of an upper table
-- holds the table it leads to, since `populate` gives each entry a table of its own.
pub mod Pages
pub mod Loop
pub mod Level
pub mod Create
pub mod Tests
use original_os_with_rust.Prelude.{
  ℕ, zero, suc, ◌+◌, ◌-◌, ◌*◌, ◌/◌, ◌%◌, Bool, ◌||◌, leb, ◌==◌, if◌then◌else◌,
}
use original_os_with_rust.Prelude.{Result, ok, err, Option, none, some}
use original_os_with_rust.Words.Ops.{add_word, sub_word}
use original_os_with_rust.Paging.{
  Entry, PageAttr, attr_bits, set_page, calc_index, read_write_kernel,
}

-- An entry of an upper table: absent, or present with its attribute bits and the table it leads to.
pub data Slot (T : Type 0) : Type 0 where
  absent : Slot T
  present : ℕ → T → Slot T

-- An entry of a page table, of a page directory, and so on.
abbrev pub Cell : ℕ → Type 0
Cell zero = Entry
Cell (suc l) = Slot (ℕ → Cell l)

-- `MaybeUninit::zeroed()`.
abbrev pub zeroed : (l : ℕ) → Cell l
zeroed zero = record { value = 0 }
zeroed (suc l) = absent

-- The arguments of `create_mapping`.
pub record Request : Type 0 where
  pub virt_start : ℕ
  pub virt_end : ℕ
  pub phys : ℕ
  pub attr : PageAttr

-- A value, the address reached, and whether an error ended the loops; none when the fuel ends first.
abbrev pub Outcome : Type 0 → Type 0
Outcome T = Option (T × ℕ × Result (Unit {0}))

abbrev pub put : {C : Type 0} → (ℕ → C) → ℕ → C → ℕ → C
put t i c k = if i == k then c else t k

-- A loop over the indices of one table: `visit` is its body, between the computation of the index
-- and the test of the end. The four nested loops have this one shape.
unfoldable pub level_loop :
    {C : Type 0} → ℕ → ℕ → ℕ → (C → ℕ → Outcome C) → (ℕ → C) → ℕ → Outcome (ℕ → C)
level_loop zero level virt_end visit t addr = none
level_loop (suc fuel) level virt_end visit t addr =
    let index = calc_index level addr in
    elim (visit (t index) addr) [
      | none ↦ none
      | some (c, addr', err e) ↦ some (put t index c, addr', err e)
      | some (c, addr', ok _) ↦
          let rest = level_loop fuel level virt_end visit (put t index c) addr' in
          if leb 512 (index + 1) || leb virt_end addr'
          then some (put t index c, addr', ok tt)
          else rest
    ]

-- The body of the innermost loop.
unfoldable pub map_page : Request → Entry → ℕ → Outcome Entry
map_page q pte addr =
    elim (set_page pte (sub_word 64 (add_word 64 q.phys addr) q.virt_start) q.attr) [
      | err e ↦ some (pte, addr, err e)
      | ok pte' ↦ some (pte', add_word 64 addr 4096, ok tt)
    ]

abbrev into : {T : Type 0} → ℕ → Outcome T → Outcome (Slot T)
into attr none = none
into attr (some (t, addr, r)) = some (present attr t, addr, r)

-- `ensure_populated()?.table_mut()?` and the loop over the table; neither fails, since an entry is
-- present once it is populated.
unfoldable pub descend : {T : Type 0} → T → (T → ℕ → Outcome T) → Slot T → ℕ → Outcome (Slot T)
descend zeros loop absent addr = into (attr_bits read_write_kernel) (loop zeros addr)
descend zeros loop (present attr t) addr = into attr (loop t addr)

-- The body of the loop over the tables of entries of level `l`.
unfoldable pub visit : Request → (l : ℕ) → Cell l → ℕ → Outcome (Cell l)
visit q zero = map_page q
visit q (suc l) = descend (λ _. zeroed l) (level_loop 512 (suc l) q.virt_end (visit q l))

unfoldable pub create_mapping : (ℕ → Cell 3) → Request → Outcome (ℕ → Cell 3)
create_mapping pml4 q = level_loop 512 4 q.virt_end (visit q 3) pml4 q.virt_start
