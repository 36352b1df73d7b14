-- ===== src/Enumeration/Tests.antt =====
-- The enumeration of a keyboard at port 2, from the reset of the port to its first reports.
use original_os_with_rust.Prelude.{
  ℕ, ◌≡◌, ◌==◌, if◌then◌else◌, refl, true, Result, ok, err, no_response, List, [], ◌∷◌,
}
use original_os_with_rust.Xhci.Trb.{GenericTrbEntry}
use original_os_with_rust.Keyboard.{from_usb_key_id, char}
use original_os_with_rust.Keyboard.Driver.{KeyChange, contains, serve_reports}
use original_os_with_rust.Keyboard.Driver.Replay.{replay, last_keys}
use original_os_with_rust.Enumeration.{
  Device, trace, result, read_register, write_register, read_portsc, write_portsc, command,
  own_context, control, show, get_descriptor, get_interface_descriptor, get_report, set_protocol,
}
use original_os_with_rust.Enumeration.Drivers.{keyboard_loop}
use original_os_with_rust.Enumeration.Attach.{Setting, run_xhc}
use original_os_with_rust.Enumeration.Keys.{log_lines, reports, Rounds, keyboard_loop-log}
use original_os_with_rust.Enumeration.{◌>>=◌, on_result}
use original_os_with_rust.Enumeration.Attach.{
  init_port, attach_device, address_device, identify, describe, string_at, start_drivers,
}
use original_os_with_rust.Enumeration.Port.{
  scan_ports, reset_port, assert_port_bit, wait_while, is_port_enabled,
}
use original_os_with_rust.Xhci.Port.{bit, get_port, port_speed, max_packet_size, assert_bit}
use original_os_with_rust.Xhci.Trb.{
  cmd_enable_slot, set_trb_type, write_control, code, slot_id, trb_link, set_toggle_cycle,
  cmd_address_device, set_slot_id, cmd_result_ok, trb_type, completion_code,
}
use original_os_with_rust.Volatile.{write_bits, read_bits, extract_bits}
use original_os_with_rust.Enumeration.Contexts.{context_for_port, with_speed, with_endpoint}
use original_os_with_rust.Xhci.Context.{
  add_context, set_root_hub_port_number, set_last_valid_dci, clear_and_set, set_port_speed, psi,
  new_control_endpoint, set_ep_type, raw_ep_type, set_dequeue_cycle_state, set_error_count,
  set_max_packet_size, set_ring_dequeue_pointer, set_ep_ctx,
}
use original_os_with_rust.Xhci.Ring.{default_command_ring, write}
use original_os_with_rust.Enumeration.Requests.{
  request_device_descriptor, device_descriptor_of, request_string_descriptor_zero,
  request_config_descriptor_and_rest, request_hid_report, buffer,
}
use original_os_with_rust.Usb.{
  collect_descriptors, next_descriptor, step_at, read_descriptor, copy_config, copy_interface,
  copy_endpoint, pick_interface_with_triple, pick_loop, both,
}
use original_os_with_rust.Enumeration.Drivers.{start_usb_keyboard}
use original_os_with_rust.Keyboard.Driver.{
  pressed_keys, from_bytes, insert, changes, change_of, symmetric_difference,
}

-- A command completion event: success, for slot 1.
abbrev completed : GenericTrbEntry
completed = record { «data» = 0; option = 0x1000000; control = 0x1008400 }

-- A configuration with one interface, of a keyboard in boot protocol, and its endpoint.
abbrev configuration : List ℕ
configuration =
    9 ∷ 2 ∷ 25 ∷ 0 ∷ 1 ∷ 1 ∷ 0 ∷ 0xa0 ∷ 50 ∷ 9 ∷ 4 ∷ 0 ∷ 0 ∷ 1 ∷ 3 ∷ 1 ∷ 1 ∷ 0 ∷ 7 ∷ 5 ∷ 0x81 ∷ 3
    ∷ 8 ∷ 0 ∷ 10 ∷ []

abbrev described : (desc_type : ℕ) → Result (List ℕ)
described desc_type =
    if desc_type == 1
    then ok (18 ∷ 1 ∷ 0 ∷ 2 ∷ [])
    else if desc_type == 2
    then ok configuration
    else ok (4 ∷ 3 ∷ 9 ∷ 4 ∷ [])

-- The device behind a high-speed port; the key `a` is held.
abbrev keyboard : Device
keyboard past (read_register r) = 0
keyboard past (write_register r value) = tt
keyboard past (read_portsc port) = if port == 2 then 0xe03 else 0x200
keyboard past (write_portsc port value) = tt
keyboard past (command trb memory) = ok completed
keyboard past (own_context slot output_context) = tt
keyboard past (control slot (get_descriptor desc_type desc_index lang_id bytes)) =
    described desc_type
keyboard past (control slot (get_interface_descriptor desc_type desc_index w_index bytes)) =
    err no_response
keyboard past (control slot (get_report bytes)) = ok (0 ∷ 0 ∷ 4 ∷ [])
keyboard past (control slot (set_protocol interface_number protocol)) = ok []
keyboard past (show changes) = tt

abbrev two_ports : Setting
two_ports = record {
  ports = 0x1000 ∷ 0x1010 ∷ [];
  output_context = 0x20000;
  input_context = 0x30000;
  ctrl_ep_ring = 0x40000;
  rounds = 2;
}

keyboard_loop-log_example :
    let es = trace keyboard [] (keyboard_loop 3 1 []) in
    (log_lines es ≡ serve_reports [] (reports es))
    × ((k : ℕ) → replay (contains []) (log_lines es) k ≡ contains (last_keys [] (reports es)) k)
    × Rounds 3 (reports es) (result keyboard [] (keyboard_loop 3 1 []))
keyboard_loop-log_example = keyboard_loop-log keyboard 1 3 []

abbrev logged : List KeyChange
logged = log_lines (trace keyboard [] (run_xhc two_ports))

run_xhc_test : logged ≡ record { id = 4; event = char 97; down = true } ∷ []
unfolding log_lines trace run_xhc ◌>>=◌ scan_ports bit init_port get_port reset_port assert_port_bit
    wait_while is_port_enabled cmd_enable_slot set_trb_type write_control write_bits code slot_id
    read_bits attach_device address_device context_for_port add_context set_root_hub_port_number
    set_last_valid_dci clear_and_set with_speed port_speed extract_bits set_port_speed psi
    default_command_ring trb_link set_toggle_cycle write with_endpoint max_packet_size
    new_control_endpoint set_ep_type raw_ep_type set_dequeue_cycle_state set_error_count
    set_max_packet_size set_ring_dequeue_pointer set_ep_ctx cmd_address_device set_slot_id
    cmd_result_ok trb_type completion_code identify request_device_descriptor device_descriptor_of
    on_result request_string_descriptor_zero describe string_at request_config_descriptor_and_rest
    collect_descriptors next_descriptor step_at read_descriptor copy_config copy_interface
    copy_endpoint start_drivers start_usb_keyboard pick_interface_with_triple pick_loop both
    keyboard_loop request_hid_report buffer pressed_keys from_bytes insert changes change_of
    symmetric_difference contains from_usb_key_id assert_bit result
run_xhc_test = refl
