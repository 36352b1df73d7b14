-- ===== src/Xhci/Context.antt =====
-- xhci.rs: the device, endpoint and input contexts that the driver fills in for the controller.
pub mod Fields
use original_os_with_rust.Prelude.{
  ℕ, suc, ◌-◌, ◌^◌, ◌/◌, Bool, true, bit_of, ltb, leb, ◌&&◌, ◌==◌, if◌then◌else◌,
}
use original_os_with_rust.Prelude.{
  Result, ok, err, ◌>>=◌, bad_argument, out_of_range, panic, bit_and, bit_or,
}
use original_os_with_rust.Prelude.{List, set, length}
use original_os_with_rust.Words.Ops.{shl, shr, not_word}
use original_os_with_rust.Volatile.{write_bits}

pub data EndpointType : Type 0 where
  isoch_out bulk_out interrupt_out control isoch_in bulk_in interrupt_in : EndpointType

-- `ep_type as u32`.
unfoldable pub raw_ep_type : EndpointType → ℕ
raw_ep_type isoch_out = 1
raw_ep_type bulk_out = 2
raw_ep_type interrupt_out = 3
raw_ep_type control = 4
raw_ep_type isoch_in = 5
raw_ep_type bulk_in = 6
raw_ep_type interrupt_in = 7

pub data UsbMode : Type 0 where
  unknown : ℕ → UsbMode
  full_speed low_speed high_speed super_speed : UsbMode

unfoldable pub psi : UsbMode → ℕ
psi full_speed = 1
psi low_speed = 2
psi high_speed = 3
psi super_speed = 4
psi (unknown v) = v

-- `data[0]` and `data[1]` of the source.
pub record EndpointContext : Type 0 where
  pub data0 : ℕ
  pub data1 : ℕ
  pub tr_dequeue_ptr : ℕ
  pub average_trb_length : ℕ
  pub max_esit_payload_low : ℕ

abbrev pub new_endpoint : EndpointContext
new_endpoint = record {
  data0 = 0;
  data1 = 0;
  tr_dequeue_ptr = 0;
  average_trb_length = 0;
  max_esit_payload_low = 0;
}

-- `word &= !(mask << shift); word |= value` of a `u32`.
unfoldable pub clear_and_set : ℕ → ℕ → ℕ → ℕ → ℕ
clear_and_set word mask shift value = bit_or (bit_and word (not_word 32 (shl 32 mask shift))) value

unfoldable pub set_ring_dequeue_pointer : EndpointContext → ℕ → Result EndpointContext
set_ring_dequeue_pointer ep ptr = write_bits 64 ep.tr_dequeue_ptr 4 60 (shr 64 ptr 4) >>= λ v.
    ok (record ep { tr_dequeue_ptr = v })

unfoldable pub set_max_packet_size : EndpointContext → ℕ → EndpointContext
set_max_packet_size ep size = record ep { data1 = clear_and_set ep.data1 0xfff 16 (shl 32 size 16) }

unfoldable pub set_error_count : EndpointContext → ℕ → Result EndpointContext
set_error_count ep error_count =
    if bit_and error_count (not_word 32 3) == 0
    then ok (record ep { data1 = clear_and_set ep.data1 3 1 (shl 32 error_count 1) })
    else err bad_argument

unfoldable pub set_dequeue_cycle_state : EndpointContext → Bool → Result EndpointContext
set_dequeue_cycle_state ep dcs =
    write_bits 64 ep.tr_dequeue_ptr 0 1 (bit_of dcs) >>= λ v. ok (record ep { tr_dequeue_ptr = v })

unfoldable pub set_ep_type : EndpointContext → EndpointType → Result EndpointContext
set_ep_type ep ep_type =
    if ltb (raw_ep_type ep_type) 8
    then ok (record ep { data1 = clear_and_set ep.data1 7 3 (shl 32 (raw_ep_type ep_type) 3) })
    else err bad_argument

unfoldable pub new_control_endpoint : ℕ → ℕ → Result EndpointContext
new_control_endpoint max_packet_size tr_dequeue_ptr = set_ep_type new_endpoint control >>= λ ep1.
    set_dequeue_cycle_state ep1 true >>= λ ep2. set_error_count ep2 3 >>= λ ep3.
    set_ring_dequeue_pointer (set_max_packet_size ep3 max_packet_size) tr_dequeue_ptr >>= λ ep4.
    ok (record ep4 { average_trb_length = 8 })

-- The two words of `slot_ctx` that the driver sets, and the 31 endpoint contexts.
pub record DeviceContext : Type 0 where
  pub slot_ctx0 : ℕ
  pub slot_ctx1 : ℕ
  pub ep_ctx : List EndpointContext

-- The speed is shifted to the right, as in the source.
unfoldable pub set_port_speed : DeviceContext → UsbMode → Result DeviceContext
set_port_speed c mode =
    if ltb (psi mode) 16
    then ok (record c { slot_ctx0 = clear_and_set c.slot_ctx0 0xf 20 (shr 32 (psi mode) 20) })
    else err bad_argument

unfoldable pub set_last_valid_dci : DeviceContext → ℕ → Result DeviceContext
set_last_valid_dci c dci =
    if leb dci 31
    then ok (record c { slot_ctx0 = clear_and_set c.slot_ctx0 31 27 (shl 32 dci 27) })
    else err bad_argument

unfoldable pub set_root_hub_port_number : DeviceContext → ℕ → Result DeviceContext
set_root_hub_port_number c port =
    if ltb 0 port && ltb port 256
    then ok (record c { slot_ctx1 = clear_and_set c.slot_ctx1 0xff 16 (shl 32 port 16) })
    else err bad_argument

pub record InputControlContext : Type 0 where
  pub drop_context_bitmap : ℕ
  pub add_context_bitmap : ℕ

unfoldable pub add_context : InputControlContext → ℕ → Result InputControlContext
add_context c ici =
    if ltb ici 32
    then ok (record c { add_context_bitmap = bit_or c.add_context_bitmap (shl 32 1 ici) })
    else err out_of_range

pub record InputContext : Type 0 where
  pub input_ctrl_ctx : InputControlContext
  pub device_ctx : DeviceContext

-- `InputContext::set_ep_ctx`; `dci - 1` wraps in a release build, so 0 is out of the array.
unfoldable pub set_ep_ctx : InputContext → ℕ → EndpointContext → Result InputContext
set_ep_ctx c dci ep =
    if ltb 0 dci && leb dci (length c.device_ctx.ep_ctx)
    then ok (record c {
      device_ctx = record c.device_ctx { ep_ctx = set c.device_ctx.ep_ctx (dci - 1) ep };
    })
    else err panic
