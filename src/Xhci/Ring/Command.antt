-- ===== src/Xhci/Ring/Command.antt =====
-- What `CommandRing::push` and `CommandRing::default` do to a ring as a whole.
use original_os_with_rust.Prelude.{ℕ, suc, ◌+◌, ◌*◌, ◌<◌, ◌≡◌, ◌≢◌, ◌⊎◌, inl, inr, refl, arith, not}
use original_os_with_rust.Prelude.{ok, ap, sym, ◌∙◌, subst}
use original_os_with_rust.Prelude.{length-set, get_or-set_self, get_or-set_ne}
use original_os_with_rust.Xhci.Trb.{GenericTrbEntry, default_trb, trb_type, cycle_state}
use original_os_with_rust.Xhci.Trb.Fields.{IsTrb, with_cycle, with_field, with_cycle-IsTrb}
use original_os_with_rust.Xhci.Trb.Fields.{cycle_state-with, trb_type-with_cycle}
use original_os_with_rust.Xhci.Ring.{CommandRing, push, current_ptr}
use original_os_with_rust.Xhci.Ring.Inv.{at, IsRing}
use original_os_with_rust.Xhci.Ring.Push.{twice-cases, twice-at, twice-ne, src1, src2, advanced}
use original_os_with_rust.Xhci.Ring.Push.{
  wrapped, push_small, push_last, start-lt, src1-IsTrb, advanced-length,
}
use native.Mathlib.Decide.{dec_lt, ℕ_discrete}

-- What `push` leaves in the ring: at the index, the command with the cycle the controller takes for
-- its own; elsewhere, but for the Link TRB, what was there. The index goes up by one; past the last
-- command it goes to 0, and the cycle changes.
pub record Pushed (c c' : CommandRing) (src : GenericTrbEntry) : Type 0 where
  pub «data» : (at c'.ring c.ring.current_index).data ≡ src.data
  pub option : (at c'.ring c.ring.current_index).option ≡ src.option
  pub kind : trb_type (at c'.ring c.ring.current_index) ≡ trb_type src
  pub cycle : cycle_state (at c'.ring c.ring.current_index) ≡ not c.cycle_state_ours
  pub kept : (j : ℕ) → j < 15 → j ≢ c.ring.current_index → at c'.ring j ≡ at c.ring j
  pub place : c'.ring.phys_addr ≡ c.ring.phys_addr
  pub next :
      ((c.ring.current_index < 14)
        × (c'.ring.current_index ≡ suc c.ring.current_index)
        × (c'.cycle_state_ours ≡ c.cycle_state_ours))
      ⊎ ((c.ring.current_index ≡ 14)
          × (c'.ring.current_index ≡ 0)
          × (c'.cycle_state_ours ≡ not c.cycle_state_ours))

module _ (c : CommandRing) (src : GenericTrbEntry) (ring : IsRing c) (word : IsTrb src) where
  abbrev i : ℕ
  i = c.ring.current_index

  abbrev new : GenericTrbEntry
  new = src2 c src

  new-IsTrb : IsTrb new
  new-IsTrb = with_cycle-IsTrb (src1 c src) (not c.cycle_state_ours) (src1-IsTrb c src ring word)

  new-at : at (advanced c src 0) i ≡ new
  new-at = twice-at c.ring.trb i (src1 c src) new (start-lt c src ring word)

  new_type : trb_type new ≡ trb_type src
  new_type =
      trb_type-with_cycle (src1 c src) (not c.cycle_state_ours)
      ∙ trb_type-with_cycle src c.cycle_state_ours

  new_cycle : cycle_state new ≡ not c.cycle_state_ours
  new_cycle = cycle_state-with (src1 c src) (not c.cycle_state_ours)

  -- The slot `j` after the write.
  cases :
      (P : GenericTrbEntry → Type 0) (j : ℕ)
      → (j ≡ i → P new)
      → (j ≢ i → P (at c.ring j))
      → P (at (advanced c src 0) j)
  cases = twice-cases c.ring.trb i (src1 c src) new (start-lt c src ring word)

  module _ (kind : trb_type src ≢ 6) where
    small-IsRing : i < 14 → IsRing (record c { ring = advanced c src (suc i) })
    small-IsRing small = record {
      size = advanced-length c src ring word;
      in_range = omega arith;
      words = λ j h. cases IsTrb j (λ e. new-IsTrb) (λ ne. ring.words j h);
      last = cases (λ t. trb_type t ≡ 6) 15 (λ e. absurd (omega arith)) (λ ne. ring.last);
      others = λ j h.
          cases (λ t. trb_type t ≢ 6) j (λ e e'. kind (sym new_type ∙ e')) (λ ne. ring.others j h);
      given = λ j h.
          cases (λ t. cycle_state t ≡ not c.cycle_state_ours) j (λ e. new_cycle)
            (λ ne. ring.given j (omega arith));
      free = λ j h lt.
          cases (λ t. cycle_state t ≡ c.cycle_state_ours) j (λ e. absurd (omega arith))
            (λ ne. ring.free j (omega arith) lt);
    }

    -- The slot `j` after the Link TRB was skipped.
    wrapped-cases :
        (P : GenericTrbEntry → Type 0) (j : ℕ)
        → (j ≡ 15 → P (with_cycle (not c.cycle_state_ours) (at c.ring 15)))
        → (j ≢ 15 → P (at (advanced c src 0) j))
        → P (at (wrapped c src) j)
    wrapped-cases P j here other = elim (ℕ_discrete j 15) [
      | yes e ↦
          subst P
            (sym (
              ap (at (wrapped c src)) e
              ∙ get_or-set_self (advanced c src 0).trb 15 _ default_trb
                  (omega (arith, advanced-length c src ring word))))
            (here e)
      | no ne ↦
          subst P (sym (get_or-set_ne (advanced c src 0).trb 15 j _ default_trb (λ e. ne (sym e))))
            (other ne)
    ]

    wrapped-IsRing :
        i ≡ 14 → IsRing (record { ring = wrapped c src; cycle_state_ours = not c.cycle_state_ours })
    wrapped-IsRing full = record {
      size = length-set (advanced c src 0).trb 15 _ ∙ advanced-length c src ring word;
      in_range = omega arith;
      words = λ j h.
          wrapped-cases IsTrb j
            (λ e. with_cycle-IsTrb (at c.ring 15) _ (ring.words 15 (omega arith)))
            (λ ne. cases IsTrb j (λ e. new-IsTrb) (λ ne'. ring.words j h));
      last =
          wrapped-cases (λ t. trb_type t ≡ 6) 15
            (λ e. trb_type-with_cycle (at c.ring 15) (not c.cycle_state_ours) ∙ ring.last)
            (λ ne. absurd (ne refl));
      others = λ j h.
          wrapped-cases (λ t. trb_type t ≢ 6) j (λ e. absurd (omega arith))
            (λ ne.
              cases (λ t. trb_type t ≢ 6) j (λ e e'. kind (sym new_type ∙ e'))
                (λ ne'. ring.others j h));
      given = λ j h. absurd (omega arith);
      free = λ j h lt.
          wrapped-cases (λ t. cycle_state t ≡ not c.cycle_state_ours) j
            (λ e. cycle_state-with (at c.ring 15) (not c.cycle_state_ours))
            (λ ne.
              cases (λ t. cycle_state t ≡ not c.cycle_state_ours) j (λ e. new_cycle)
                (λ ne'. ring.given j (omega arith)));
    }

    push_small-Pushed : i < 14 → Pushed c (record c { ring = advanced c src (suc i) }) src
    unfolding with_field
    push_small-Pushed small = record {
      «data» = ap (λ t. t.data) new-at;
      option = ap (λ t. t.option) new-at;
      kind = ap trb_type new-at ∙ new_type;
      cycle = ap cycle_state new-at ∙ new_cycle;
      kept = λ j h ne. twice-ne c.ring.trb i (src1 c src) new (start-lt c src ring word) j ne;
      place = refl;
      next = inl (small, refl, refl);
    }

    wrapped-kept : (j : ℕ) → j < 15 → at (wrapped c src) j ≡ at (advanced c src 0) j
    wrapped-kept j h =
        get_or-set_ne (advanced c src 0).trb 15 j _ default_trb (λ e. absurd (omega arith))

    push_last-Pushed :
        i ≡ 14
        → Pushed c (record { ring = wrapped c src; cycle_state_ours = not c.cycle_state_ours }) src
    unfolding with_field
    push_last-Pushed full = record {
      «data» = ap (λ t. t.data) here;
      option = ap (λ t. t.option) here;
      kind = ap trb_type here ∙ new_type;
      cycle = ap cycle_state here ∙ new_cycle;
      kept = λ j h ne.
          wrapped-kept j h ∙ twice-ne c.ring.trb i (src1 c src) new (start-lt c src ring word) j ne;
      place = refl;
      next = inr (full, refl, refl);
    }
      where
        here : at (wrapped c src) i ≡ new
        here = wrapped-kept i (omega arith) ∙ new-at

    -- On a well-formed ring, a command that is not a Link TRB is accepted, at the current index, whose
    -- address is the result; the ring left behind is well formed, and `Pushed` says what is in it.
    pub push-Pushed :
        (c' : CommandRing) × (push c src ≡ (c', ok (c.ring.phys_addr + i * 16)))
        × IsRing c'
        × Pushed c c' src
    unfolding current_ptr
    push-Pushed = elim (dec_lt i 14) [
      | yes small ↦
          (_, push_small c src ring word kind small, small-IsRing small, push_small-Pushed small)
      | no large ↦
          let full : i ≡ 14 = omega (arith, ring.in_range) in
          (_, push_last c src ring word full, wrapped-IsRing full, push_last-Pushed full)
    ]
