-- ===== src/Xhci/Context/Fields.antt =====
-- What the driver's setters put into the contexts.
use original_os_with_rust.Prelude.{
  ℕ, ◌+◌, ◌-◌, ◌*◌, ◌/◌, ◌^◌, ◌≤◌, ◌<◌, ◌≡◌, inr, refl, arith, ap, ◌∙◌,
}
use original_os_with_rust.Prelude.{ok, bit_and, lt→ltb}
use original_os_with_rust.Words.Bits.{bit_or_comm}
use original_os_with_rust.Words.Ops.{shl, shr, not_word}
use original_os_with_rust.Volatile.{write_bits}
use original_os_with_rust.Volatile.Fields.{
  field, replace_field, field_value, write_bits_lem, field-replace_self,
}
use original_os_with_rust.Volatile.Fields.{field-replace_ne, replace_field-lt}
use original_os_with_rust.Xhci.Context.{
  EndpointContext, new_control_endpoint, clear_and_set, set_ep_type, psi,
}
use original_os_with_rust.Xhci.Context.{
  set_dequeue_cycle_state, set_error_count, set_ring_dequeue_pointer,
}
use original_os_with_rust.Xhci.Context.{
  set_max_packet_size, raw_ep_type, DeviceContext, UsbMode, set_port_speed,
}
use native.Mathlib.Nat.{div-eq_of_lt}

pub clear_and_set_lem :
    (x s wd v : ℕ)
    → s < 32
    → s + wd ≤ 32
    → x < 2 ^ 32
    → v < 2 ^ wd
    → clear_and_set x (2 ^ wd - 1) s (shl 32 v s) ≡ replace_field s wd v x
unfolding clear_and_set
clear_and_set_lem x s wd v hs hsw hx hv =
    bit_or_comm (bit_and x (not_word 32 (shl 32 (2 ^ wd - 1) s))) (shl 32 v s)
    ∙ field_value 32 x s wd v hs hsw hx hv

-- A control endpoint of at most 4095 bytes per packet: its type, its error count, its packet size, its
-- average TRB length, and the address of its ring, of which the low digits are those of a cycle state 1.
pub record IsControl (ep : EndpointContext) (size ptr : ℕ) : Type 0 where
  pub kind : field 3 3 ep.data1 ≡ 4
  pub error_count : field 1 2 ep.data1 ≡ 3
  pub packet : field 16 12 ep.data1 ≡ size
  pub pointer : ep.tr_dequeue_ptr ≡ ptr / 16 * 16 + 1
  pub average : ep.average_trb_length ≡ 8

abbrev word1 : ℕ
word1 = replace_field 3 3 4 0

abbrev word2 : ℕ
word2 = replace_field 1 2 3 word1

word2_lem : word2 ≡ 38
unfolding replace_field
word2_lem = refl

pointer_lem : (ptr : ℕ) → replace_field 4 60 (ptr / 16) (replace_field 0 1 1 0) ≡ ptr / 16 * 16 + 1
unfolding replace_field
pointer_lem ptr = omega arith

low_kind : field 3 3 word2 ≡ 4
unfolding field replace_field
low_kind = refl

low_error : field 1 2 word2 ≡ 3
unfolding field replace_field
low_error = refl

pointed :
    (ptr : ℕ)
    → ptr < 2 ^ 64
    → write_bits 64 (replace_field 0 1 1 0) 4 60 (shr 64 ptr 4)
      ≡ ok (replace_field 4 60 (ptr / 16) (replace_field 0 1 1 0))
pointed ptr hp =
    write_bits_lem 64 (replace_field 0 1 1 0) 4 60 (ptr / 16) (omega arith) (omega arith)
      (omega arith) (replace_field-lt 64 0 1 1 0 (omega arith) (omega arith) (omega arith))
      (omega arith)

made :
    (size ptr : ℕ)
    → size < 2 ^ 12
    → ptr < 2 ^ 64
    → new_control_endpoint size ptr
      ≡ ok (record {
        data0 = 0;
        data1 = replace_field 16 12 size word2;
        tr_dequeue_ptr = replace_field 4 60 (ptr / 16) (replace_field 0 1 1 0);
        average_trb_length = 8;
        max_esit_payload_low = 0;
      })
unfolding new_control_endpoint set_ep_type set_dequeue_cycle_state set_error_count
    set_ring_dequeue_pointer set_max_packet_size raw_ep_type
made size ptr hs hp =
    rw (clear_and_set_lem 0 3 3 4 (omega arith) (omega arith) (omega arith) (omega arith)) (
      rw
        (write_bits_lem 64 0 0 1 1 (omega arith) (omega arith) (omega arith) (omega arith)
          (omega arith))
        (rw
          (
            clear_and_set_lem word1 1 2 3 (omega arith) (omega arith)
                (replace_field-lt 32 3 3 4 0 (omega arith) (omega arith) (omega arith))
                (omega arith),
            clear_and_set_lem word2 16 12 size (omega arith) (omega arith)
                (omega (arith, word2_lem)) hs,
            pointed ptr hp,
          )
          refl))

-- The driver's control endpoint is made, for a packet size below 4096 and any 64-bit ring address.
pub new_control_endpoint-IsControl :
    (size ptr : ℕ)
    → size < 2 ^ 12
    → ptr < 2 ^ 64
    → (ep : EndpointContext) × (new_control_endpoint size ptr ≡ ok ep) × IsControl ep size ptr
new_control_endpoint-IsControl size ptr hs hp = (
  record {
    data0 = 0;
    data1 = replace_field 16 12 size word2;
    tr_dequeue_ptr = replace_field 4 60 (ptr / 16) (replace_field 0 1 1 0);
    average_trb_length = 8;
    max_esit_payload_low = 0;
  },
  made size ptr hs hp,
  record {
    kind = field-replace_ne 16 12 3 3 size word2 hs (inr (omega arith)) ∙ low_kind;
    error_count = field-replace_ne 16 12 1 2 size word2 hs (inr (omega arith)) ∙ low_error;
    packet = field-replace_self 16 12 size word2 hs;
    pointer = pointer_lem ptr;
    average = refl;
  },
)

-- For every speed identifier below 16, `set_port_speed` on a 32-bit slot word succeeds and leaves 0
-- in the speed field.
pub set_port_speed-lost :
    (c : DeviceContext) (mode : UsbMode)
    → psi mode < 16
    → c.slot_ctx0 < 2 ^ 32
    → (c' : DeviceContext) × (set_port_speed c mode ≡ ok c') × (field 20 4 c'.slot_ctx0 ≡ 0)
unfolding set_port_speed
set_port_speed-lost c mode h hc = (
  record c { slot_ctx0 = replace_field 20 4 0 c.slot_ctx0 },
  rw
      (
        set_port_speed,
        lt→ltb (psi mode) 16 h,
        div-eq_of_lt (let e : psi mode < 1048576 = omega arith in e),
      )
      (ap (λ x. ok (record c { slot_ctx0 = x })) cleared),
  field-replace_self 20 4 0 c.slot_ctx0 (omega arith),
)
  where
    cleared : clear_and_set c.slot_ctx0 0xf 20 0 ≡ replace_field 20 4 0 c.slot_ctx0
    cleared = clear_and_set_lem c.slot_ctx0 20 4 0 (omega arith) (omega arith) hc (omega arith)
