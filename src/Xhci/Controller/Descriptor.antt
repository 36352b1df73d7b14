-- ===== src/Xhci/Controller/Descriptor.antt =====
-- The TRBs of the requests, and the request for a descriptor as a whole.
use original_os_with_rust.Prelude.{ℕ, ◌+◌, ◌*◌, ◌^◌, ◌<◌, ◌≡◌, refl, arith, ap, ap₂}
use original_os_with_rust.Prelude.{
  ok, length, Bool, true, false, bit_and, bit_or, not, ◌==◌, if◌then◌else◌, ≢→==,
}
use original_os_with_rust.Words.Bits.{bit_and_split, bit_and_zero_left, bit_and-zero}
use original_os_with_rust.Words.Ops.{shl, wrap}
use original_os_with_rust.Volatile.{read_bits}
use original_os_with_rust.Xhci.Trb.{
  GenericTrbEntry, new_setup, from_setup, data_stage_in, trb_type, code,
}
use original_os_with_rust.Xhci.Trb.{status_stage_out, TrbType, req_type_dir_device_to_host}
use original_os_with_rust.Xhci.Ring.Inv.{IsRing}
use original_os_with_rust.Xhci.Controller.{Session, request_descriptor}
use original_os_with_rust.Xhci.Controller.Requests.{
  IsStage, Requested, submit_in-Requested, next_index,
}

-- `control` of a Setup Stage TRB, from the two tests of `SetupStageTrb::new`.
abbrev setup_word : Bool → Bool → ℕ
setup_word empty to_host =
    bit_or
      (bit_or (shl 32 (if empty then 0 else if to_host then 3 else 2) 16)
        (shl 32 (code TrbType.setup_stage) 10))
      (2 ^ 6)

abbrev word_trb : ℕ → GenericTrbEntry
word_trb c = record { «data» = 0; option = 8; control = c }

setup_word-IsStage :
    (empty to_host : Bool) (d : ℕ)
    → IsStage (record (word_trb (setup_word empty to_host)) { «data» = d })
unfolding code trb_type read_bits
setup_word-IsStage true to_host d = record { word = omega arith; kind = λ e. absurd (omega arith) }
setup_word-IsStage false true d = record { word = omega arith; kind = λ e. absurd (omega arith) }
setup_word-IsStage false false d = record { word = omega arith; kind = λ e. absurd (omega arith) }

pub setup-IsStage :
    (request_type request value index length : ℕ)
    → IsStage (from_setup (new_setup request_type request value index length))
unfolding from_setup new_setup
setup-IsStage request_type request value index length =
    setup_word-IsStage (length == 0) (not (bit_and request 128 == 0)) _

pub data-IsStage : (buf len size : ℕ) → IsStage (data_stage_in buf len size)
unfolding data_stage_in code trb_type read_bits
data-IsStage buf len size = record { word = omega arith; kind = λ e. absurd (omega arith) }

-- On a well-formed endpoint ring and a slot that has a doorbell, the request queues its setup, data
-- and status TRBs in this order, rings the slot's doorbell, registers a waiter for the address of
-- the data stage, and waits for just that address.
pub request_descriptor-Requested :
    (s : Session) (slot desc_type desc_index lang_id buf len size : ℕ)
    → IsRing s.ctrl_ep_ring
    → slot < length s.doorbells
    → (s' : Session) × (request_descriptor s slot desc_type desc_index lang_id buf len size
        ≡ (s', ok (s.ctrl_ep_ring.ring.phys_addr + next_index s.ctrl_ep_ring * 16)))
      × Requested s s' slot
          (s.ctrl_ep_ring.ring.phys_addr + next_index s.ctrl_ep_ring * 16)
          (from_setup (
            new_setup req_type_dir_device_to_host 6
              (bit_or (shl 16 desc_type 8) desc_index)
              lang_id
              (wrap 16 (wrap 64 (len * size)))))
          (data_stage_in buf len size)
          status_stage_out
unfolding request_descriptor
request_descriptor-Requested s slot desc_type desc_index lang_id buf len size ring h =
    submit_in-Requested s slot _ _ ring h (setup-IsStage _ _ _ _ _) (data-IsStage buf len size)

no_top_bit : (request : ℕ) → request < 2 ^ 7 → bit_and request 128 ≡ 0
no_top_bit request h = omega (
  arith,
  ap₂ bit_and (let e : request ≡ 0 * 2 ^ 7 + request = omega arith in e)
      (let e : 128 ≡ 1 * 2 ^ 7 + 0 = omega arith in e),
  bit_and_split 7 0 request 1 0 h (omega arith),
  ap (λ (t : ℕ). t * 2 ^ 7) (bit_and_zero_left 1),
  bit_and-zero request,
)

-- Whatever the request type says of the direction, a request with data and a number below 128 is
-- marked as one that sends data to the device.
pub new_setup-out :
    (request_type request value index length : ℕ)
    → request < 2 ^ 7
    → 0 < length
    → read_bits 32 (new_setup request_type request value index length).control 16 2 ≡ 2
unfolding new_setup read_bits code
new_setup-out request_type request value index length h pos =
    rw (≢→== length 0 (λ e. absurd (omega arith)), no_top_bit request h) refl
