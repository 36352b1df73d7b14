-- ===== src/Paging/Mapping/Create.antt =====
-- x86.rs: what `create_mapping` writes.
use original_os_with_rust.Prelude.{
  ℕ, zero, suc, ◌+◌, ◌%◌, ◌^◌, ◌≤◌, ◌<◌, ◌≡◌, ◌⊎◌, inl, inr, refl, arith,
}
use original_os_with_rust.Prelude.{ap, sym, ◌∙◌, some, ok, subst}
use original_os_with_rust.Paging.{calc_index, attr_bits, read_write_kernel}
use original_os_with_rust.Paging.Mapping.{
  Request, Cell, absent, present, zeroed, Outcome, put, level_loop, descend, visit, create_mapping,
}
use original_os_with_rust.Paging.Mapping.Pages.{
  up, pages, page, addr_of, page_value, look, look_in, Wrote, Stops,
}
use original_os_with_rust.Paging.Mapping.Loop.{IsRequest, Maps, map_page-Maps}
use original_os_with_rust.Paging.Mapping.Level.{LoopMaps, at_the_end, in_the_last, goes_on}
use native.Mathlib.Decide.{dec_lt, ℕ_discrete}

module _ (q : Request) (l : ℕ) (small : l < 4) (body : Cell l → ℕ → Outcome (Cell l))
    (maps : Maps q l body) where
  -- With fuel for the slots that are left, the loop over a table ends.
  level_loop-Maps :
      (fuel : ℕ) (t : ℕ → Cell l) (j : ℕ)
      → j < pages q
      → 512 ≤ fuel + up l (page q j) % 512
      → LoopMaps q l body fuel t j
  level_loop-Maps zero t j h enough = absurd (omega (arith, enough))
  level_loop-Maps (suc fuel) t j h enough =
      let i = calc_index (suc l) (addr_of q j) in
      let (c, j1, visited, w, stop) = maps (t i) j h in
      elim stop [
        | inl end ↦ at_the_end q l small body t c j j1 visited w fuel end
        | inr (next, first) ↦ elim (ℕ_discrete (up l (page q j) % 512) 511) [
          | yes last ↦ in_the_last q l small body t c j j1 visited w fuel last (next, first)
          | no apart ↦ elim (dec_lt j1 (pages q)) [
            | yes less ↦
                goes_on q l small body t c j j1 visited w fuel apart less next
                  (level_loop-Maps fuel (put t i c) j1 less (omega (arith, enough, apart, next)))
            | no done ↦
                at_the_end q l small body t c j j1 visited w fuel (omega (arith, done, w.within))
          ]
        ]
      ]

look-zeroed : (l r : ℕ) → look l (zeroed l) r ≡ 0
unfolding look
look-zeroed zero r = refl
look-zeroed (suc l) r = refl

-- The value of an absent page table is that of a table of zeros.
from_absent :
    (q : Request) (l j j' : ℕ) (t : ℕ → Cell l)
    → Wrote q (suc l) j j' (look_in l (λ _. zeroed l)) (look_in l t)
    → Wrote q
        (suc l)
        j
        j'
        (look (suc l) absent)
        (look (suc l) (present (attr_bits read_write_kernel) t))
unfolding look
from_absent q l j j' t w = record {
  more = w.more;
  within = w.within;
  stay = w.stay;
  covers = w.covers;
  others = λ r e ends. w.others r e ends ∙ look-zeroed l r;
}

from_present :
    (q : Request) (l j j' a : ℕ) (t t' : ℕ → Cell l)
    → Wrote q (suc l) j j' (look_in l t) (look_in l t')
    → Wrote q (suc l) j j' (look (suc l) (present a t)) (look (suc l) (present a t'))
unfolding look
from_present q l j j' a t t' w = record {
  more = w.more;
  within = w.within;
  stay = w.stay;
  covers = w.covers;
  others = w.others;
}

descend-some :
    {T : Type 0} (zeros : T) (loop : T → ℕ → Outcome T) (addr addr' : ℕ) (t : T)
    → loop zeros addr ≡ some (t, addr', ok tt)
    → descend zeros loop absent addr ≡ some (present (attr_bits read_write_kernel) t, addr', ok tt)
unfolding descend
descend-some zeros loop addr addr' t run = rw run refl

descend-present :
    {T : Type 0} (zeros : T) (loop : T → ℕ → Outcome T) (a addr addr' : ℕ) (t0 t : T)
    → loop t0 addr ≡ some (t, addr', ok tt)
    → descend zeros loop (present a t0) addr ≡ some (present a t, addr', ok tt)
unfolding descend
descend-present zeros loop a addr addr' t0 t run = rw run refl

-- A body that maps pages makes one of the level above.
next-Maps :
    (q : Request) (l : ℕ) (body : Cell l → ℕ → Outcome (Cell l))
    → l < 4
    → Maps q l body
    → Maps q (suc l) (descend (λ _. zeroed l) (level_loop 512 (suc l) q.virt_end body))
next-Maps q l body small maps absent j h =
    let loop = level_loop 512 (suc l) q.virt_end body in
    let (t', j', run, w, stop) =
      level_loop-Maps q l small body maps 512 (λ _. zeroed l) j h (omega arith) in
    (
      present (attr_bits read_write_kernel) t',
      j',
      descend-some (λ _. zeroed l) loop (addr_of q j) (addr_of q j') t' run,
      from_absent q l j j' t' w,
      stop,
    )
next-Maps q l body small maps (present a t) j h =
    let loop = level_loop 512 (suc l) q.virt_end body in
    let (t', j', run, w, stop) = level_loop-Maps q l small body maps 512 t j h (omega arith) in
    (
      present a t',
      j',
      descend-present (λ _. zeroed l) loop a (addr_of q j) (addr_of q j') t t' run,
      from_present q l j j' a t t' w,
      stop,
    )

visit-Maps : (q : Request) (l : ℕ) → l < 4 → IsRequest q → Maps q l (visit q l)
unfolding visit
visit-Maps q zero small fit = map_page-Maps q fit
visit-Maps q (suc l) small fit =
    next-Maps q l (visit q l) (omega (arith, small)) (visit-Maps q l (omega (arith, small)) fit)

-- The outermost loop ends with the request: 2^36 pages are all that its table has.
all_pages :
    (q : Request) (j' : ℕ) (a b : ℕ → ℕ)
    → IsRequest q
    → Wrote q 4 0 j' a b
    → Stops q 4 0 j'
    → j' ≡ pages q
unfolding up
all_pages q j' a b fit w (inl e) = e
all_pages q j' a b fit w (inr (next, _)) = omega (arith, fit.virtual, next, w.within, w.more)

first_addr : (q : Request) → q.virt_start ≡ addr_of q 0
first_addr q = omega arith

-- For a request of pages whose physical addresses are aligned and below 2^64 and whose virtual
-- addresses are below 2^48, `create_mapping` ends without an error, and the tables then hold for each
-- requested page (one page for an empty request) the physical page at the same distance with the
-- attribute bits, and for every other page below 2^36 what they held before.
pub create_mapping-maps :
    (q : Request) (pml4 : ℕ → Cell 3)
    → IsRequest q
    → (pml4' : ℕ → Cell 3) × (addr : ℕ) × (create_mapping pml4 q ≡ some (pml4', addr, ok tt))
      × ((r : ℕ) → page q 0 ≤ r → r < page q (pages q) → look_in 3 pml4' r ≡ page_value q r)
      × ((r : ℕ)
          → r < 2 ^ 36
          → (r < page q 0) ⊎ (page q (pages q) ≤ r)
          → look_in 3 pml4' r ≡ look_in 3 pml4 r)
unfolding create_mapping up pages
create_mapping-maps q pml4 fit =
    let (t', j', run, w, stop) =
      level_loop-Maps q 3 (omega arith) (visit q 3) (visit-Maps q 3 (omega arith) fit) 512 pml4 0
        (omega arith) (omega arith) in
    let all = all_pages q j' (look_in 3 pml4) (look_in 3 t') fit w stop in
    (
      t',
      addr_of q j',
      ap (level_loop 512 4 q.virt_end (visit q 3) pml4) (first_addr q) ∙ run,
      λ r low high.
          w.covers r (omega (arith, low, high, fit.virtual)) low
            (subst (λ k. r < page q k) (sym all) high),
      λ r small ends.
          w.others r (omega (arith, small, fit.virtual))
            (subst (λ k. (r < page q 0) ⊎ (page q k ≤ r)) (sym all) ends),
    )
