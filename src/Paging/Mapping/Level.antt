-- ===== src/Paging/Mapping/Level.antt =====
-- One loop of `create_mapping` over a table, from what its body does.
use original_os_with_rust.Prelude.{
  ℕ, suc, ◌+◌, ◌-◌, ◌/◌, ◌%◌, ◌≤◌, ◌<◌, ◌≡◌, ◌≢◌, ◌⊎◌, inl, inr, refl, arith,
}
use original_os_with_rust.Prelude.{
  ap, ap₂, subst, sym, ◌∙◌, some, ok, leb, le→leb, true, false, ≡→==, ≢→==, ◌||◌,
}
use original_os_with_rust.Paging.{calc_index}
use original_os_with_rust.Paging.Mapping.{Request, Cell, Outcome, put, level_loop}
use original_os_with_rust.Paging.Mapping.Pages.{
  up, up_mono, calc_index-up, pages, page, addr_of, IsFirst,
}
use original_os_with_rust.Paging.Mapping.Pages.{look, look_in, Wrote, Stops}
use original_os_with_rust.Paging.Mapping.Loop.{addr-page, ended, going}
use mathlib.Core.Bool.{or-true}
use native.Mathlib.Decide.{dec_lt, ℕ_discrete}

lt→leb : (a b : ℕ) → b < a → leb a b ≡ false
lt→leb a b h = ground arith

put-same : {C : Type 0} (t : ℕ → C) (i : ℕ) (c : C) (k : ℕ) → k ≡ i → put t i c k ≡ c
put-same t i c k e = rw (≡→== i k (sym e)) refl

put-other : {C : Type 0} (t : ℕ → C) (i : ℕ) (c : C) (k : ℕ) → k ≢ i → put t i c k ≡ t k
put-other t i c k ne = rw (≢→== i k (λ e. ne (sym e))) refl

-- Two spans of pages, one after the other, in one block.
append :
    (q : Request) (l j j1 j2 : ℕ) (a b c : ℕ → ℕ)
    → up l (page q j1) ≡ up l (page q j)
    → Wrote q l j j1 a b
    → Wrote q l j1 j2 b c
    → Wrote q l j j2 a c
append q l j j1 j2 a b c same first second = record {
  more = omega (arith, first.more, second.more);
  within = second.within;
  stay = second.stay ∙ same;
  covers = λ r e low high. elim (dec_lt r (page q j1)) [
    | yes lt ↦ second.others r (e ∙ sym same) (inl lt) ∙ first.covers r e low lt
    | no ge ↦ second.covers r (e ∙ sym same) (omega (arith, ge)) high
  ];
  others = λ r e ends. elim ends [
    | inl lt ↦
        second.others r (e ∙ sym same) (inl (omega (arith, lt, first.more)))
        ∙ first.others r e (inl lt)
    | inr ge ↦
        second.others r (e ∙ sym same) (inr ge)
        ∙ first.others r e (inr (omega (arith, ge, second.more)))
  ];
}

module _ (q : Request) (l : ℕ) where
  -- The pages of a span lie in one block.
  Wrote-block :
      (j j1 : ℕ) (a b : ℕ → ℕ)
      → Wrote q l j j1 a b
      → (r : ℕ) → page q j ≤ r
      → r < page q j1
      → up l r ≡ up l (page q j)
  Wrote-block j j1 a b w r low high = omega (
    arith,
    up_mono l (page q j) r low,
    up_mono l r (page q (j1 - 1)) (omega (arith, high, w.more)),
    w.stay,
  )

  -- What a visit of one slot writes, seen from the table.
  slot-Wrote :
      (t : ℕ → Cell l) (c : Cell l) (i j j1 : ℕ)
      → i ≡ up l (page q j) % 512
      → Wrote q l j j1 (look l (t i)) (look l c)
      → Wrote q (suc l) j j1 (look_in l t) (look_in l (put t i c))
  unfolding up
  slot-Wrote t c i j j1 index w = record {
    more = w.more;
    within = w.within;
    stay = ap (λ x. x / 512) w.stay;
    covers = λ r e low high.
        let block = Wrote-block j j1 (look l (t i)) (look l c) w r low high in
        ap (λ d. look l d r) (put-same t i c (up l r % 512) (ap (λ x. x % 512) block ∙ sym index))
        ∙ w.covers r block low high;
    others = λ r e ends. elim (ℕ_discrete (up l r) (up l (page q j))) [
      | yes block ↦
          ap (λ d. look l d r) (put-same t i c (up l r % 512) (ap (λ x. x % 512) block ∙ sym index))
          ∙ w.others r block ends
          ∙ ap (λ k. look l (t k) r) (index ∙ ap (λ x. x % 512) (sym block))
      | no apart ↦
          ap (λ d. look l d r)
            (put-other t i c (up l r % 512) (λ h. apart (omega (arith, e, h, index))))
    ];
  }

  -- Where a visit of a slot stops, seen from the table: the last slot is the block's end.
  last-Stops :
      (j j1 : ℕ)
      → up l (page q j) % 512 ≡ 511
      → (up l (page q j1) ≡ suc (up l (page q j))) × IsFirst l (page q j1)
      → Stops q (suc l) j j1
  unfolding up
  last-Stops j j1 last (next, first) =
      inr (omega (arith, last, next), λ r le. first r (omega (arith, le, last, next)))

  abbrev pub LoopMaps : (Cell l → ℕ → Outcome (Cell l)) → ℕ → (ℕ → Cell l) → ℕ → Type 0
  LoopMaps body fuel t j =
      (t' : ℕ → Cell l) × (j' : ℕ) × (level_loop fuel (suc l) q.virt_end body t (addr_of q j)
        ≡ some (t', addr_of q j', ok tt))
      × Wrote q (suc l) j j' (look_in l t) (look_in l t')
      × Stops q (suc l) j j'

  module _ (small : l < 4) (body : Cell l → ℕ → Outcome (Cell l)) where
    index-up : (j : ℕ) → calc_index (suc l) (addr_of q j) ≡ up l (page q j) % 512
    index-up j = calc_index-up l (addr_of q j) small ∙ ap (λ x. up l x % 512) (addr-page q j)

    loop-ends :
        (fuel : ℕ) (t : ℕ → Cell l) (c : Cell l) (addr addr' : ℕ)
        → body (t (calc_index (suc l) addr)) addr ≡ some (c, addr', ok tt)
        → (leb 512 (calc_index (suc l) addr + 1) || leb q.virt_end addr') ≡ true
        → level_loop (suc fuel) (suc l) q.virt_end body t addr
          ≡ some (put t (calc_index (suc l) addr) c, addr', ok tt)
    unfolding level_loop
    loop-ends fuel t c addr addr' visited end = rw (level_loop, visited, end) refl

    loop-goes :
        (fuel : ℕ) (t : ℕ → Cell l) (c : Cell l) (addr addr' : ℕ)
        → body (t (calc_index (suc l) addr)) addr ≡ some (c, addr', ok tt)
        → (leb 512 (calc_index (suc l) addr + 1) || leb q.virt_end addr') ≡ false
        → level_loop (suc fuel) (suc l) q.virt_end body t addr
          ≡ level_loop fuel (suc l) q.virt_end body (put t (calc_index (suc l) addr) c) addr'
    unfolding level_loop
    loop-goes fuel t c addr addr' visited end = rw (level_loop, visited, end) refl

    module _ (t : ℕ → Cell l) (c : Cell l) (j j1 : ℕ)
        (visited : body (t (calc_index (suc l) (addr_of q j))) (addr_of q j)
          ≡ some (c, addr_of q j1, ok tt))
        (w : Wrote q l j j1 (look l (t (calc_index (suc l) (addr_of q j)))) (look l c)) where
      wrote :
          Wrote q
            (suc l)
            j
            j1
            (look_in l t)
            (look_in l (put t (calc_index (suc l) (addr_of q j)) c))
      wrote = slot-Wrote t c (calc_index (suc l) (addr_of q j)) j j1 (index-up j) w

      pub at_the_end : (fuel : ℕ) → j1 ≡ pages q → LoopMaps body (suc fuel) t j
      at_the_end fuel end = (
        put t (calc_index (suc l) (addr_of q j)) c,
        j1,
        loop-ends fuel t c (addr_of q j) (addr_of q j1) visited (
            ap (λ b. leb 512 (calc_index (suc l) (addr_of q j) + 1) || b)
              (ended q j1 (omega (arith, end)))
            ∙ or-true (leb 512 (calc_index (suc l) (addr_of q j) + 1))),
        wrote,
        inl end,
      )

      pub in_the_last :
          (fuel : ℕ)
          → up l (page q j) % 512 ≡ 511
          → (up l (page q j1) ≡ suc (up l (page q j))) × IsFirst l (page q j1)
          → LoopMaps body (suc fuel) t j
      in_the_last fuel last next = (
        put t (calc_index (suc l) (addr_of q j)) c,
        j1,
        loop-ends fuel t c (addr_of q j) (addr_of q j1) visited (
            ap (λ b. b || leb q.virt_end (addr_of q j1))
              (le→leb 512 (calc_index (suc l) (addr_of q j) + 1)
                (omega (arith, last, index-up j)))),
        wrote,
        last-Stops j j1 last next,
      )

      same_block :
          up l (page q j) % 512 ≢ 511
          → up l (page q j1) ≡ suc (up l (page q j))
          → up (suc l) (page q j1) ≡ up (suc l) (page q j)
      unfolding up
      same_block apart next = omega (arith, apart, next)

      pub goes_on :
          (fuel : ℕ)
          → up l (page q j) % 512 ≢ 511
          → j1 < pages q
          → up l (page q j1) ≡ suc (up l (page q j))
          → LoopMaps body fuel (put t (calc_index (suc l) (addr_of q j)) c) j1
          → LoopMaps body (suc fuel) t j
      goes_on fuel apart less next (t', j', run, rest, stop) = (
        t',
        j',
        loop-goes fuel t c (addr_of q j) (addr_of q j1) visited (
              ap₂ (λ a b. a || b)
                (lt→leb 512 (calc_index (suc l) (addr_of q j) + 1)
                  (omega (arith, apart, index-up j)))
                (going q j1 (omega (arith, w.more)) less))
            ∙ run,
        append q (suc l) j j1 j' _ _ _ (same_block apart next) wrote rest,
        subst
            (λ b. (j' ≡ pages q) ⊎ ((up (suc l) (page q j') ≡ suc b) × IsFirst (suc l) (page q j')))
            (same_block apart next) stop,
      )
