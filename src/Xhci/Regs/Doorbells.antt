-- ===== src/Xhci/Regs/Doorbells.antt =====
-- Which slots have a doorbell, and the number of scratchpad buffers.
use original_os_with_rust.Prelude.{
  ℕ, zero, suc, ◌+◌, ◌*◌, ◌^◌, ◌≤◌, ◌<◌, ◌≡◌, refl, arith, ap, ◌∙◌, some, none, err, get_elem?,
}
use original_os_with_rust.Prelude.{invalid_slot}
use original_os_with_rust.Words.Ops.{shl_lem}
use original_os_with_rust.Words.Masks.{bit_or_fields}
use original_os_with_rust.Volatile.Fields.{field, field-lt}
use original_os_with_rust.Volatile.Extract.{extract_bits_lem}
use original_os_with_rust.Xhci.Port.{notify_ep}
use original_os_with_rust.Xhci.Regs.{
  CapabilityRegisters, num_of_ports, doorbells_from, doorbell_regs, num_scratchpad_bufs,
}

doorbell-at :
    (base i n k : ℕ) → k < n → get_elem? (doorbells_from base i n) k ≡ some (base + 4 * (i + k))
unfolding doorbells_from
doorbell-at base i zero k h = absurd (omega arith)
doorbell-at base i (suc n) zero h = ap some (omega arith)
doorbell-at base i (suc n) (suc k) h =
    doorbell-at base (suc i) n k (omega arith) ∙ ap some (omega arith)

no_doorbell : (base i n k : ℕ) → n ≤ k → get_elem? (doorbells_from base i n) k ≡ none
unfolding doorbells_from
no_doorbell base i zero k h = refl
no_doorbell base i (suc n) zero h = absurd (omega arith)
no_doorbell base i (suc n) (suc k) h = no_doorbell base (suc i) n k (omega arith)

-- A slot up to the number of ports has its doorbell 4 bytes per slot past the offset, and a slot
-- above the number of ports is refused by `notify_ep`.
pub doorbell_regs-slots :
    (bar0 slot dci : ℕ) (r : CapabilityRegisters)
    → (slot ≤ num_of_ports r
        → get_elem? (doorbell_regs bar0 r) slot ≡ some (bar0 + r.dboff + 4 * slot))
      × (num_of_ports r < slot → notify_ep (doorbell_regs bar0 r) slot dci ≡ err invalid_slot)
unfolding doorbell_regs notify_ep
doorbell_regs-slots bar0 slot dci r = (
  λ h.
      doorbell-at (bar0 + r.dboff) 0 (suc (num_of_ports r)) slot (omega arith)
      ∙ ap some (omega arith),
  λ h. rw (no_doorbell (bar0 + r.dboff) 0 (suc (num_of_ports r)) slot (omega arith)) refl,
)

-- For a 32-bit HCSPARAMS2, the number of scratchpad buffers has its high five digits from digit 21
-- of the register and its low five from digit 27.
pub num_scratchpad_bufs-fields :
    (r : CapabilityRegisters)
    → r.hcsparams2 < 2 ^ 32
    → num_scratchpad_bufs r ≡ field 21 5 r.hcsparams2 * 32 + field 27 5 r.hcsparams2
unfolding num_scratchpad_bufs
num_scratchpad_bufs-fields r h =
    rw
      (
        extract_bits_lem 32 r.hcsparams2 21 5 (omega arith) h (omega arith),
        extract_bits_lem 32 r.hcsparams2 27 5 (omega arith) h (omega arith),
        shl_lem 32 (field 21 5 r.hcsparams2) 5 (omega arith)
            (omega (arith, field-lt 21 5 r.hcsparams2)),
      )
      (bit_or_fields 5 (field 21 5 r.hcsparams2) (field 27 5 r.hcsparams2)
        (field-lt 27 5 r.hcsparams2))
