-- ===== src/Xhci/Controller.antt =====
-- xhci.rs: the control requests of `Controller`, up to the point where each waits for its event; with
-- the event, `transfer_result_ok` is the result.
pub mod Requests
pub mod Descriptor
use original_os_with_rust.Prelude.{ℕ, ◌+◌, ◌*◌, Result, ok, err, List, none, some, bit_or, []}
use original_os_with_rust.Words.Ops.{shl, wrap}
use original_os_with_rust.Xhci.Trb.{
  GenericTrbEntry, SetupStageTrb, new_setup, from_setup, data_stage_in,
}
use original_os_with_rust.Xhci.Trb.{status_stage_in, status_stage_out, req_type_dir_device_to_host}
use original_os_with_rust.Xhci.Ring.{CommandRing, push}
use original_os_with_rust.Xhci.Event.{EventRing, EventWaitInfo, register_waiter}
use original_os_with_rust.Xhci.Port.{notify_ep}

-- What a request changes: the doorbells, the primary event ring and the endpoint's ring.
pub record Session : Type 0 where
  pub doorbells : List ℕ
  pub event_ring : EventRing
  pub ctrl_ep_ring : CommandRing

-- `EventFuture::new_for_trb`: what it registers.
unfoldable pub waiter_for_trb : ℕ → EventWaitInfo
waiter_for_trb trb_addr = record {
  cond = record { trb_type = none; trb_addr = some trb_addr; slot = none };
  trbs = [];
}

abbrev pub with_pushed :
    Session → CommandRing × Result ℕ → (Session → ℕ → Session × Result ℕ) → Session × Result ℕ
with_pushed s (ring, ok ptr) next = next (record s { ctrl_ep_ring = ring }) ptr
with_pushed s (ring, err e) next = (record s { ctrl_ep_ring = ring }, err e)

-- `ctrl_ep_ring.push(trb)?` and what follows.
abbrev pub push_then :
    Session → GenericTrbEntry → (Session → ℕ → Session × Result ℕ) → Session × Result ℕ
push_then s trb next = with_pushed s (push s.ctrl_ep_ring trb) next

-- `notify_ep(slot, 1)?` and the future; the result is the address it waits for.
unfoldable pub wait_for : Session → ℕ → ℕ → Session × Result ℕ
wait_for s slot ptr = elim (notify_ep s.doorbells slot 1) [
  | err e ↦ (s, err e)
  | ok doorbells ↦ (
    record s {
      doorbells = doorbells;
      event_ring = register_waiter s.event_ring (waiter_for_trb ptr);
    },
    ok ptr,
  )
]

-- The three stages of a request that reads from the device.
unfoldable pub submit_in : Session → ℕ → SetupStageTrb → GenericTrbEntry → Session × Result ℕ
submit_in s slot setup data_stage = push_then s (from_setup setup) (λ s1 _.
    push_then s1 data_stage (λ s2 trb_ptr_waiting.
      push_then s2 status_stage_out (λ s3 _. wait_for s3 slot trb_ptr_waiting)))

-- The two stages of a request without data.
unfoldable pub submit_no_data : Session → ℕ → SetupStageTrb → Session × Result ℕ
submit_no_data s slot setup =
    push_then s (from_setup setup) (λ s1 _.
      push_then s1 status_stage_in (λ s2 trb_ptr_waiting. wait_for s2 slot trb_ptr_waiting))

-- The buffer is given by its address, its length and the size of an element.
unfoldable pub request_descriptor : Session → ℕ → ℕ → ℕ → ℕ → ℕ → ℕ → ℕ → Session × Result ℕ
request_descriptor s slot desc_type desc_index lang_id buf len size =
    submit_in s slot
      (new_setup req_type_dir_device_to_host 6 (bit_or (shl 16 desc_type 8) desc_index) lang_id
        (wrap 16 (wrap 64 (len * size))))
      (data_stage_in buf len size)

unfoldable pub request_report_bytes : Session → ℕ → ℕ → ℕ → Session × Result ℕ
request_report_bytes s slot buf len =
    submit_in s slot
      (new_setup (bit_or (bit_or req_type_dir_device_to_host 32) 1) 1 0x0200 0 (wrap 16 len))
      (data_stage_in buf len 1)

unfoldable pub request_set_config : Session → ℕ → ℕ → Session × Result ℕ
request_set_config s slot config_value = submit_no_data s slot (new_setup 0 9 config_value 0 0)

unfoldable pub request_set_interface : Session → ℕ → ℕ → ℕ → Session × Result ℕ
request_set_interface s slot interface_number alt_setting =
    submit_no_data s slot (new_setup 1 11 alt_setting interface_number 0)

unfoldable pub request_set_protocol : Session → ℕ → ℕ → ℕ → Session × Result ℕ
request_set_protocol s slot interface_number protocol =
    submit_no_data s slot (new_setup 1 11 protocol interface_number 0)

unfoldable pub request_descriptor_for_interface :
    Session → ℕ → ℕ → ℕ → ℕ → ℕ → ℕ → ℕ → Session × Result ℕ
request_descriptor_for_interface s slot desc_type desc_index w_index buf len size =
    submit_in s slot
      (new_setup (bit_or req_type_dir_device_to_host 1) 6 (bit_or (shl 16 desc_type 8) desc_index)
        w_index (wrap 16 (wrap 64 (len * size))))
      (data_stage_in buf len size)
