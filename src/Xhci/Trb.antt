-- ===== src/Xhci/Trb.antt =====
-- xhci.rs: `TrbType`, `GenericTrbEntry` and the TRBs of a control transfer. A failed `unwrap` is the
-- error `panic`.
pub mod Fields
use original_os_with_rust.Prelude.{
  ℕ, ◌+◌, ◌-◌, ◌*◌, ◌^◌, Bool, true, false, not, ◌&&◌, ◌==◌, bit_of, if◌then◌else◌,
}
use original_os_with_rust.Prelude.{Result, ok, err, ◌>>=◌, bit_and, bit_or, panic}
use original_os_with_rust.Prelude.{not_completion, not_transfer, not_success}
use original_os_with_rust.Words.Ops.{shl, wrap}
use original_os_with_rust.Volatile.{write_bits, read_bits}

pub data TrbType : Type 0 where
  normal setup_stage data_stage status_stage link enable_slot_command : TrbType
  address_device_command configure_endpoint_command evaluate_context_command : TrbType
  no_op_command transfer_event command_completion_event : TrbType
  port_status_change_event host_controller_event : TrbType

-- `trb_type as u32`.
unfoldable pub code : TrbType → ℕ
code normal = 1
code setup_stage = 2
code data_stage = 3
code status_stage = 4
code link = 6
code enable_slot_command = 9
code address_device_command = 11
code configure_endpoint_command = 12
code evaluate_context_command = 13
code no_op_command = 23
code transfer_event = 32
code command_completion_event = 33
code port_status_change_event = 34
code host_controller_event = 37

pub record GenericTrbEntry : Type 0 where
  pub «data» : ℕ
  pub option : ℕ
  pub control : ℕ

abbrev pub default_trb : GenericTrbEntry
default_trb = record { «data» = 0; option = 0; control = 0 }

-- `self.control.write_bits(shift, width, value).unwrap()`.
unfoldable pub write_control : GenericTrbEntry → ℕ → ℕ → ℕ → Result GenericTrbEntry
write_control t shift width value = elim (write_bits 32 t.control shift width value) [
  | ok c ↦ ok (record t { control = c })
  | err e ↦ err panic
]

unfoldable pub set_trb_type : GenericTrbEntry → TrbType → Result GenericTrbEntry
set_trb_type t trb_type = write_control t 10 6 (code trb_type)

unfoldable pub set_cycle_state : GenericTrbEntry → Bool → Result GenericTrbEntry
set_cycle_state t cycle = write_control t 0 1 (bit_of cycle)

unfoldable pub set_toggle_cycle : GenericTrbEntry → Bool → Result GenericTrbEntry
set_toggle_cycle t value = write_control t 1 1 (bit_of value)

unfoldable pub set_slot_id : GenericTrbEntry → ℕ → Result GenericTrbEntry
set_slot_id t slot = write_control t 24 8 slot

unfoldable pub slot_id : GenericTrbEntry → ℕ
slot_id t = read_bits 32 t.control 24 8

unfoldable pub trb_type : GenericTrbEntry → ℕ
trb_type t = read_bits 32 t.control 10 6

unfoldable pub cycle_state : GenericTrbEntry → Bool
cycle_state t = not (read_bits 32 t.control 0 1 == 0)

unfoldable pub completion_code : GenericTrbEntry → ℕ
completion_code t = read_bits 32 t.option 24 8

-- `trb_link(ring)`, from the ring's address.
unfoldable pub trb_link : ℕ → Result GenericTrbEntry
trb_link phys_addr =
    set_trb_type default_trb link >>= λ t. set_toggle_cycle (record t { «data» = phys_addr }) true

unfoldable pub cmd_enable_slot : Result GenericTrbEntry
cmd_enable_slot = set_trb_type default_trb enable_slot_command

-- `cmd_address_device(input_context, slot)`, from the context's address.
unfoldable pub cmd_address_device : ℕ → ℕ → Result GenericTrbEntry
cmd_address_device input_context slot = set_trb_type default_trb address_device_command >>= λ t.
    set_slot_id (record t { «data» = input_context }) slot

unfoldable pub cmd_result_ok : GenericTrbEntry → Result (Unit {0})
cmd_result_ok t =
    if not (trb_type t == code command_completion_event)
    then err not_completion
    else if not (completion_code t == 1)
    then err not_success
    else ok tt

unfoldable pub transfer_result_ok : GenericTrbEntry → Result (Unit {0})
transfer_result_ok t =
    if not (trb_type t == code transfer_event)
    then err not_transfer
    else if not (completion_code t == 1) && not (completion_code t == 13)
    then err not_success
    else ok tt

pub record SetupStageTrb : Type 0 where
  pub request_type : ℕ
  pub request : ℕ
  pub value : ℕ
  pub index : ℕ
  pub length : ℕ
  pub option : ℕ
  pub control : ℕ

abbrev pub req_type_dir_device_to_host : ℕ
req_type_dir_device_to_host = 128

-- `SetupStageTrb::new`: the transfer type comes from `request`, as in the source.
unfoldable pub new_setup : ℕ → ℕ → ℕ → ℕ → ℕ → SetupStageTrb
new_setup request_type request value index length =
    let transfer_type =
      if length == 0
      then 0
      else if not (bit_and request req_type_dir_device_to_host == 0)
      then 3
      else 2 in
    record {
      request_type = request_type;
      request = request;
      value = value;
      index = index;
      length = length;
      option = 8;
      control = bit_or (bit_or (shl 32 transfer_type 16) (shl 32 (code setup_stage) 10)) (2 ^ 6);
    }

-- `transmute` of a `SetupStageTrb`: its fields in little-endian order.
unfoldable pub from_setup : SetupStageTrb → GenericTrbEntry
from_setup t = record {
  «data» =
      t.request_type + t.request * 2 ^ 8 + t.value * 2 ^ 16 + t.index * 2 ^ 32 + t.length * 2 ^ 48;
  option = t.option;
  control = t.control;
}

-- `DataStageTrb::new_in`, as the TRB it is sent as, from the buffer's address, its length and the
-- size of an element.
unfoldable pub data_stage_in : ℕ → ℕ → ℕ → GenericTrbEntry
data_stage_in buf len size = record {
  «data» = buf;
  option = wrap 32 (wrap 64 (len * size));
  control = bit_or (bit_or (bit_or (shl 32 (code data_stage) 10) (2 ^ 16)) (2 ^ 5)) (2 ^ 2);
}

-- `StatusStageTrb::new_out` and `new_in`, as the TRBs they are sent as.
unfoldable pub status_stage_out : GenericTrbEntry
status_stage_out = record { «data» = 0; option = 0; control = shl 32 (code status_stage) 10 }

unfoldable pub status_stage_in : GenericTrbEntry
status_stage_in = record {
  «data» = 0;
  option = 0;
  control = bit_or (bit_or (bit_or (shl 32 (code status_stage) 10) (2 ^ 16)) (2 ^ 5)) (2 ^ 2);
}
