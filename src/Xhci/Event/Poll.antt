-- ===== src/Xhci/Event/Poll.antt =====
-- What `EventRing::pop` and `EventRing::poll` do.
use original_os_with_rust.Prelude.{
  ℕ, suc, ◌+◌, ◌*◌, ◌%◌, ◌/◌, ◌^◌, ◌<◌, ◌≡◌, ◌≢◌, refl, arith, Bool, not, ap, ap₂, ◌∙◌,
}
use original_os_with_rust.Prelude.{
  ok, some, none, length, map, if◌then◌else◌, ◌==◌, bit_or, bit_and, same, true, false,
}
use original_os_with_rust.Words.Masks.{bit_or_fields, bit_and_ones}
use original_os_with_rust.Xhci.Trb.{cycle_state, GenericTrbEntry}
use original_os_with_rust.Xhci.Ring.{current, current_ptr, advance_index_notoggle}
use original_os_with_rust.Xhci.Ring.Inv.{at, current-at}
use original_os_with_rust.Xhci.Event.{EventRing, pop, poll, handle, deliver}
use original_os_with_rust.Xhci.Event.Stale.{live, give, stale-live, live-deliver}

-- An event ring has 16 TRBs at a multiple of 16, and the dequeue pointer's register is known.
pub record IsEventRing (c : EventRing) (old : ℕ) : Type 0 where
  pub size : length c.ring.trb ≡ 16
  pub in_range : c.ring.current_index < 16
  pub aligned : c.ring.phys_addr % 16 ≡ 0
  pub register : c.erdp ≡ some old

-- The TRB at the current index.
abbrev pub head : EventRing → GenericTrbEntry
head c = at c.ring c.ring.current_index

-- The ring after an event was taken: the index went round by one, the cycle changed when the index
-- came back to 0, and the register has the address of the slot with its own low four bits.
unfoldable pub taken : EventRing → ℕ → EventRing
taken c old = record c {
  ring = record c.ring { current_index = suc c.ring.current_index % 16 };
  erdp = some (c.ring.phys_addr + c.ring.current_index * 16 + old % 16);
  cycle_state_ours =
      if suc c.ring.current_index % 16 == 0 then not c.cycle_state_ours else c.cycle_state_ours;
}

same_self : (b : Bool) → same b b ≡ true
same_self true = refl
same_self false = refl

different : (a b : Bool) → a ≢ b → same a b ≡ false
different true true h = absurd (h refl)
different true false h = refl
different false true h = refl
different false false h = absurd (h refl)

module _ (c : EventRing) (old : ℕ) (ring : IsEventRing c old) where
  pointer :
      bit_or (current_ptr c.ring) (bit_and old 15)
      ≡ c.ring.phys_addr + c.ring.current_index * 16 + old % 16
  unfolding current_ptr
  pointer =
      let k = c.ring.phys_addr / 16 + c.ring.current_index in
      let e : c.ring.phys_addr + c.ring.current_index * 16 ≡ k * 2 ^ 4 =
        omega (arith, ring.aligned) in
      ap₂ bit_or e (bit_and_ones 4 old)
      ∙ bit_or_fields 4 k (old % 16) (omega arith)
      ∙ omega (arith, e)

  current-head : current c.ring ≡ ok (head c)
  current-head = current-at c.ring (omega (arith, ring.size, ring.in_range))

  advance_lem :
      cycle_state (head c) ≡ c.cycle_state_ours
      → advance_index_notoggle c.ring c.cycle_state_ours
        ≡ ok (record c.ring { current_index = suc c.ring.current_index % 16 })
  unfolding advance_index_notoggle
  advance_lem ours =
      rw (advance_index_notoggle, current-head, ours, same_self c.cycle_state_ours, ring.size) refl

  pop-some : cycle_state (head c) ≡ c.cycle_state_ours → pop c ≡ (taken c old, ok (some (head c)))
  unfolding pop taken
  pop-some ours =
      rw (pop, current-head, ours, same_self c.cycle_state_ours)
        (rw (advance_lem ours, ring.register, pointer) refl)

  pop-none : cycle_state (head c) ≢ c.cycle_state_ours → pop c ≡ (c, ok none)
  unfolding pop
  pop-none theirs = rw (pop, current-head, different _ _ theirs) refl

  -- On a well-formed event ring whose dequeue pointer is set: when the current TRB has our cycle
  -- state, `poll` takes it: the ring moves on, every live waiter that waits for such an event has it
  -- at the end of its queue, the other live waiters are as they were, in their order, and the stale
  -- ones are gone. Otherwise `poll` changes nothing.
  pub poll_lem :
      (cycle_state (head c) ≡ c.cycle_state_ours
        → poll c
          ≡ (record (taken c old) { wait_list = map (give (head c)) (live c.wait_list) }, ok tt))
      × (cycle_state (head c) ≢ c.cycle_state_ours → poll c ≡ (c, ok tt))
  unfolding poll handle taken
  poll_lem = (
    λ ours.
        ap handle (pop-some ours)
        ∙ ap (λ ws. (record (taken c old) { wait_list = ws }, ok tt))
            (stale-live (deliver (head c) c.wait_list) ∙ live-deliver (head c) c.wait_list),
    λ theirs. ap handle (pop-none theirs),
  )
