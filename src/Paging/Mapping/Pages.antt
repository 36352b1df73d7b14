-- ===== src/Paging/Mapping/Pages.antt =====
-- Page numbers, and the blocks that they lie in at each level.
use original_os_with_rust.Prelude.{
  ℕ, zero, suc, ◌+◌, ◌-◌, ◌*◌, ◌/◌, ◌%◌, ◌^◌, ◌≤◌, ◌<◌, ◌≡◌, ◌⊎◌, refl, arith, max, ap, sym, ◌∙◌,
  bit_and, bit_or,
}
use original_os_with_rust.Words.Masks.{div-div, bit_and_ones}
use original_os_with_rust.Paging.{calc_index, attr_bits}
use original_os_with_rust.Paging.Mapping.{Request, Cell, absent, present}

-- The number of a page's block of 512^l pages.
unfoldable pub up : ℕ → ℕ → ℕ
up zero x = x
up (suc l) x = up l x / 512

pub up_mono : (l x y : ℕ) → x ≤ y → up l x ≤ up l y
unfolding up
up_mono zero x y h = h
up_mono (suc l) x y h = omega (arith, up_mono l x y h)

-- `x` is the first page of its block.
abbrev pub IsFirst : ℕ → ℕ → Type 0
IsFirst l x = (r : ℕ) → up l x ≤ up l r → x ≤ r

up-div : (l addr : ℕ) → up l (addr / 4096) ≡ addr / 2 ^ (l * 9 + 12)
unfolding up
up-div zero addr = refl
up-div (suc l) addr =
    ap (λ t. t / 512) (up-div l addr)
    ∙ sym (div-div (l * 9 + 12) 9 addr)
    ∙ ap (λ k. addr / 2 ^ k) (let e : l * 9 + 12 + 9 ≡ suc l * 9 + 12 = omega arith in e)

-- The index of an address in a table whose entries are of level `l`.
pub calc_index-up : (l addr : ℕ) → l < 4 → calc_index (suc l) addr ≡ up l (addr / 4096) % 512
unfolding calc_index
calc_index-up l addr h =
    ap (λ k. bit_and (addr / 2 ^ (k % 64)) 511)
      (let e : (suc l - 1) * 9 + 12 ≡ l * 9 + 12 = omega arith in e)
    ∙ ap (λ k. bit_and (addr / 2 ^ k) 511)
        (let e : (l * 9 + 12) % 64 ≡ l * 9 + 12 = omega arith in e)
    ∙ bit_and_ones 9 (addr / 2 ^ (l * 9 + 12))
    ∙ ap (λ t. t % 512) (sym (up-div l addr))

-- The number of pages that `create_mapping` maps: one at least.
unfoldable pub pages : Request → ℕ
pages q = max 1 ((q.virt_end - q.virt_start + 4095) / 4096)

-- The page after `j` pages, and its address.
abbrev pub page : Request → ℕ → ℕ
page q j = q.virt_start / 4096 + j

abbrev pub addr_of : Request → ℕ → ℕ
addr_of q j = q.virt_start + j * 4096

-- What the entry of a mapped page holds.
abbrev pub page_value : Request → ℕ → ℕ
page_value q r = bit_or (q.phys + (r - q.virt_start / 4096) * 4096) (attr_bits q.attr)

-- The value that the tables hold for a page, 0 where a table is absent.
unfoldable pub look : (l : ℕ) → Cell l → ℕ → ℕ
look zero c r = c.value
look (suc l) absent r = 0
look (suc l) (present a t) r = look l (t (up l r % 512)) r

abbrev pub look_in : (l : ℕ) → (ℕ → Cell l) → ℕ → ℕ
look_in l t r = look l (t (up l r % 512)) r

-- What a visit has written at level `l`, from `j` pages on: it has gone on to `j'` pages within the
-- block, these pages have their values, and the other pages of the block are as before.
pub record Wrote (q : Request) (l j j' : ℕ) (before after : ℕ → ℕ) : Type 0 where
  pub more : j < j'
  pub within : j' ≤ pages q
  pub stay : up l (page q (j' - 1)) ≡ up l (page q j)
  pub covers :
      (r : ℕ) → up l r ≡ up l (page q j) → page q j ≤ r → r < page q j' → after r ≡ page_value q r
  pub others :
      (r : ℕ) → up l r ≡ up l (page q j) → (r < page q j) ⊎ (page q j' ≤ r) → after r ≡ before r

-- Where a visit stops: at the end of the request or of the block.
abbrev pub Stops : Request → ℕ → ℕ → ℕ → Type 0
Stops q l j j' =
    (j' ≡ pages q) ⊎ ((up l (page q j') ≡ suc (up l (page q j))) × IsFirst l (page q j'))
