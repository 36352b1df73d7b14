-- ===== src/Xhci/Ring/Push.antt =====
-- What `CommandRing::push` does.
use original_os_with_rust.Prelude.{ℕ, suc, ◌%◌, ◌<◌, ◌≡◌, ◌≢◌, refl, arith, Bool, true, false, not}
use original_os_with_rust.Prelude.{
  ok, List, length, set, get_or, lt→ltb, same, ap, ≢→==, sym, ◌∙◌, subst,
}
use original_os_with_rust.Prelude.{length-set, get_or-set_self, get_or-set_ne}
use original_os_with_rust.Xhci.Trb.{GenericTrbEntry, default_trb, code, trb_type, cycle_state}
use original_os_with_rust.Xhci.Trb.Fields.{IsTrb, with_cycle, set_cycle_state_lem, with_cycle-IsTrb}
use original_os_with_rust.Xhci.Trb.Fields.{cycle_state-with}
use original_os_with_rust.Xhci.Ring.{
  TrbRing, CommandRing, current, write, write_current, advance_index,
}
use original_os_with_rust.Xhci.Ring.{skip_link, write_and_advance, push, current_ptr}
use original_os_with_rust.Xhci.Ring.Inv.{at, IsRing, current-at}
use native.Mathlib.Decide.{ℕ_discrete}

same_self : (b : Bool) → same b b ≡ true
same_self true = refl
same_self false = refl

same-not : (b : Bool) → same b (not b) ≡ false
same-not true = refl
same-not false = refl

-- The ring with TRB `i` replaced and the index moved to `k`.
abbrev pub moved : TrbRing → ℕ → GenericTrbEntry → ℕ → TrbRing
moved r i t k = record r { trb = set r.trb i t; current_index = k }

write_current_lem :
    (r : TrbRing) (t : GenericTrbEntry)
    → r.current_index < length r.trb
    → write_current r t ≡ ok (moved r r.current_index t r.current_index)
unfolding write_current write
write_current_lem r t h = rw (write_current, lt→ltb r.current_index (length r.trb) h)

advance_index_lem :
    (r : TrbRing) (b : Bool)
    → r.current_index < length r.trb
    → IsTrb (at r r.current_index)
    → cycle_state (at r r.current_index) ≡ b
    → advance_index r (not b)
      ≡ ok (
          moved r r.current_index
            (with_cycle (not b) (at r r.current_index))
            (suc r.current_index % length r.trb))
unfolding advance_index
advance_index_lem r b h ht hb =
    rw (current-at r h, hb, same-not b, set_cycle_state_lem (at r r.current_index) (not b) ht)

module _ (xs : List GenericTrbEntry) (i : ℕ) (a b : GenericTrbEntry) (h : i < length xs) where
  -- A list written twice at one index, at each index.
  pub twice-cases :
      (P : GenericTrbEntry → Type 0) (j : ℕ)
      → (j ≡ i → P b)
      → (j ≢ i → P (get_or xs j default_trb))
      → P (get_or (set (set xs i a) i b) j default_trb)
  twice-cases P j here other = elim (ℕ_discrete j i) [
    | yes e ↦
        subst P
          (sym (
            ap (λ k. get_or (set (set xs i a) i b) k default_trb) e
            ∙ get_or-set_self (set xs i a) i b default_trb (rw (length-set xs i a) h)))
          (here e)
    | no ne ↦
        subst P
          (sym (
            get_or-set_ne (set xs i a) i j b default_trb (λ e. ne (sym e))
            ∙ get_or-set_ne xs i j a default_trb (λ e. ne (sym e))))
          (other ne)
  ]

  pub length-twice : length (set (set xs i a) i b) ≡ length xs
  length-twice = length-set (set xs i a) i b ∙ length-set xs i a

  pub twice-at : get_or (set (set xs i a) i b) i default_trb ≡ b
  twice-at = get_or-set_self (set xs i a) i b default_trb (rw (length-set xs i a) h)

  pub twice-ne :
      (j : ℕ) → j ≢ i → get_or (set (set xs i a) i b) j default_trb ≡ get_or xs j default_trb
  twice-ne j ne =
      get_or-set_ne (set xs i a) i j b default_trb (λ e. ne (sym e))
      ∙ get_or-set_ne xs i j a default_trb (λ e. ne (sym e))

-- The TRB as written, and the ring after a write and after the Link TRB was skipped.
module _ (c : CommandRing) (src : GenericTrbEntry) where
  abbrev pub i : ℕ
  i = c.ring.current_index

  abbrev pub src1 : GenericTrbEntry
  src1 = with_cycle c.cycle_state_ours src

  abbrev pub src2 : GenericTrbEntry
  src2 = with_cycle (not c.cycle_state_ours) src1

  abbrev pub advanced : ℕ → TrbRing
  advanced k = moved (moved c.ring i src1 i) i src2 k

  abbrev pub wrapped : TrbRing
  wrapped = moved (advanced 15) 15 (with_cycle (not c.cycle_state_ours) (at c.ring 15)) 0

  module _ (ring : IsRing c) (word : IsTrb src) where
    pub start-lt : i < length c.ring.trb
    start-lt = omega (arith, ring.size, ring.in_range)

    pub src1-IsTrb : IsTrb src1
    src1-IsTrb = with_cycle-IsTrb src c.cycle_state_ours word

    written-at : at (moved c.ring i src1 i) i ≡ src1
    written-at = get_or-set_self c.ring.trb i src1 default_trb start-lt

    advance_start :
        advance_index (moved c.ring i src1 i) (not c.cycle_state_ours) ≡ ok (advanced (suc i % 16))
    advance_start =
        advance_index_lem (moved c.ring i src1 i) c.cycle_state_ours
          (rw (length-set c.ring.trb i src1) start-lt) (subst IsTrb (sym written-at) src1-IsTrb)
          (ap cycle_state written-at ∙ cycle_state-with src c.cycle_state_ours)
        ∙ rw (written-at, length-set c.ring.trb i src1, ring.size) refl

    push_start :
        push c src ≡ skip_link (record c { ring = advanced (suc i % 16) }) (current_ptr c.ring)
    unfolding push write_and_advance
    push_start =
        rw
          (
            push,
            current-at c.ring start-lt,
            ring.free i (omega arith) (omega (arith, ring.in_range)),
            same_self c.cycle_state_ours,
            set_cycle_state_lem src c.cycle_state_ours word,
          )
          (rw (write_current_lem c.ring src1 start-lt, write_and_advance)
            (rw (advance_start, write_and_advance) refl))

    pub advanced-length : length (advanced 0).trb ≡ 16
    advanced-length = length-twice c.ring.trb i src1 src2 start-lt ∙ ring.size

    current-advanced : (k : ℕ) → k < 16 → current (advanced k) ≡ ok (at (advanced k) k)
    current-advanced k h = current-at (advanced k) (omega (arith, advanced-length))

    -- The index goes up by one.
    pub push_small :
        trb_type src ≢ 6
        → i < 14
        → push c src ≡ (record c { ring = advanced (suc i) }, ok (current_ptr c.ring))
    unfolding skip_link code
    push_small kind small =
        push_start
        ∙ ap (λ k. skip_link (record c { ring = advanced k }) (current_ptr c.ring)) step
        ∙ rw
            (
              skip_link,
              current-advanced (suc i) (omega arith),
              twice-ne c.ring.trb i src1 src2 start-lt (suc i) (λ e. absurd (omega arith)),
              ≢→== _ 6 (ring.others (suc i) (omega arith)),
            )
            refl
      where
        step : suc i % 16 ≡ suc i
        step = omega arith

    -- Past the last command, the Link TRB is skipped.
    pub push_last :
        i ≡ 14
        → push c src ≡ (
          record { ring = wrapped; cycle_state_ours = not c.cycle_state_ours },
          ok (current_ptr c.ring),
        )
    unfolding skip_link code
    push_last e =
        push_start
        ∙ ap (λ k. skip_link (record c { ring = advanced k }) (current_ptr c.ring)) step
        ∙ rw (skip_link, current-advanced 15 (omega arith), last-at, ring.last)
            (rw (skip_advance, skip_link) refl)
      where
        step : suc i % 16 ≡ 15
        step = omega arith

        last-at : at (advanced 15) 15 ≡ at c.ring 15
        last-at = twice-ne c.ring.trb i src1 src2 start-lt 15 (λ e'. absurd (omega arith))

        skip_advance : advance_index (advanced 15) (not c.cycle_state_ours) ≡ ok wrapped
        skip_advance =
            advance_index_lem (advanced 15) c.cycle_state_ours (omega (arith, advanced-length))
              (subst IsTrb (sym last-at) (ring.words 15 (omega arith)))
              (ap cycle_state last-at ∙ ring.free 15 (omega arith) (omega arith))
            ∙ rw (last-at, advanced-length) refl
