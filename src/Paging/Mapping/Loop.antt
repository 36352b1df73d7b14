-- ===== src/Paging/Mapping/Loop.antt =====
-- x86.rs: the body of the innermost loop of `create_mapping`.
use original_os_with_rust.Prelude.{
  ℕ, suc, ◌+◌, ◌-◌, ◌*◌, ◌/◌, ◌%◌, ◌^◌, ◌≤◌, ◌<◌, ◌≡◌, inr, refl, arith,
}
use original_os_with_rust.Prelude.{ap, ap₂, bit_or, sym, ◌∙◌, some, ok, leb, le→leb, true, false}
use original_os_with_rust.Prelude.{bit_and}
use original_os_with_rust.Words.Masks.{bit_and_ones}
use original_os_with_rust.Words.Ops.{add_word, sub_word}
use original_os_with_rust.Paging.{Entry, set_page, attr_bits}
use original_os_with_rust.Paging.Mapping.{Request, Cell, Outcome, map_page}
use original_os_with_rust.Paging.Mapping.Pages.{up, pages, page, addr_of, page_value}
use original_os_with_rust.Paging.Mapping.Pages.{look, Wrote, Stops}

-- A request for aligned physical pages, within 48 bits of virtual addresses and 64 of physical ones.
pub record IsRequest (q : Request) : Type 0 where
  pub aligned : q.phys % 4096 ≡ 0
  pub physical : q.phys + pages q * 4096 < 2 ^ 64
  pub virtual : q.virt_start / 4096 + pages q ≤ 2 ^ 36

-- A body that maps pages from any page of the request on.
abbrev pub Maps : (q : Request) (l : ℕ) → (Cell l → ℕ → Outcome (Cell l)) → Type 0
Maps q l body =
    (c : Cell l) (j : ℕ)
    → j < pages q
    → (c' : Cell l) × (j' : ℕ) × (body c (addr_of q j) ≡ some (c', addr_of q j', ok tt))
      × Wrote q l j j' (look l c) (look l c')
      × Stops q l j j'

module _ (q : Request) where
  pub addr-page : (j : ℕ) → addr_of q j / 4096 ≡ page q j
  addr-page j = omega arith

  pub ended : (j : ℕ) → pages q ≤ j → leb q.virt_end (addr_of q j) ≡ true
  unfolding pages
  ended j h = le→leb q.virt_end (addr_of q j) (omega arith)

  pub going : (j : ℕ) → 0 < j → j < pages q → leb q.virt_end (addr_of q j) ≡ false
  unfolding pages
  going j pos h = ground arith

  phys_word :
      (j : ℕ)
      → IsRequest q
      → j < pages q
      → sub_word 64 (add_word 64 q.phys (addr_of q j)) q.virt_start ≡ q.phys + j * 4096
  phys_word j fit h = omega (arith, fit.physical, fit.virtual)

  phys_aligned : (j : ℕ) → IsRequest q → bit_and (q.phys + j * 4096) 0xfff ≡ 0
  phys_aligned j fit = omega (arith, fit.aligned, bit_and_ones 12 (q.phys + j * 4096))

  next_addr :
      (j : ℕ) → IsRequest q → j < pages q → add_word 64 (addr_of q j) 4096 ≡ addr_of q (suc j)
  next_addr j fit h = omega (arith, fit.virtual)

  page_back : (j : ℕ) → page q j - q.virt_start / 4096 ≡ j
  page_back j = omega arith

  set_page-aligned :
      (c : Entry) (x : ℕ)
      → bit_and x 0xfff ≡ 0
      → set_page c x q.attr ≡ ok (record { value = bit_or x (attr_bits q.attr) })
  unfolding set_page
  set_page-aligned c x low = rw low refl

  map_page-ok :
      (c e : Entry) (addr : ℕ)
      → set_page c (sub_word 64 (add_word 64 q.phys addr) q.virt_start) q.attr ≡ ok e
      → map_page q c addr ≡ some (e, add_word 64 addr 4096, ok tt)
  unfolding map_page
  map_page-ok c e addr set = rw (map_page, set) refl

  map_page-made :
      (c : Entry) (j : ℕ)
      → IsRequest q
      → j < pages q
      → map_page q c (addr_of q j)
        ≡ some (record { value = page_value q (page q j) }, addr_of q (suc j), ok tt)
  map_page-made c j fit h =
      map_page-ok c _ (addr_of q j) (
        ap (λ x. set_page c x q.attr) (phys_word j fit h)
        ∙ set_page-aligned c (q.phys + j * 4096) (phys_aligned j fit))
      ∙ ap₂
          (λ k a. some (record { value = bit_or (q.phys + k * 4096) (attr_bits q.attr) }, a, ok tt))
          (sym (page_back j)) (next_addr j fit h)

  pub map_page-Maps : IsRequest q → Maps q 0 (map_page q)
  unfolding look up
  map_page-Maps fit c j h = (
    record { value = page_value q (page q j) },
    suc j,
    map_page-made c j fit h,
    record {
      more = omega arith;
      within = omega arith;
      stay = omega arith;
      covers = λ r e a b. ap (page_value q) (sym e);
      others = λ r e ends. absurd (omega arith);
    },
    inr (omega arith, λ r k. k),
  )
