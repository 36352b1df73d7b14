-- ===== src/Usb/Tests.antt =====
-- The theorems on USB descriptors and keys at concrete inputs.
use original_os_with_rust.Prelude.{◌≡◌, ◌↔◌, refl, arith, some, none, List, [], ◌∷◌}
use original_os_with_rust.Usb.{
  ConfigDescriptor, InterfaceDescriptor, EndpointDescriptor, UsbDescriptor, config, interface,
}
use original_os_with_rust.Usb.{
  endpoint, unknown_descriptor, pick_interface_with_triple, pick_loop, both,
}
use original_os_with_rust.Usb.{collect_descriptors}
use original_os_with_rust.Keyboard.{from_usb_key_id, to_char}
use original_os_with_rust.Usb.Endless.{collect_descriptors-endless}
use original_os_with_rust.Usb.Pick.{IsPick}
use original_os_with_rust.Usb.Pick.Made.{pick_interface_with_triple-IsPick}

abbrev config0 : ConfigDescriptor
config0 = record {
  desc_length = 9;
  desc_type = 2;
  total_length = 34;
  num_of_interfaces = 1;
  config_value = 1;
  config_string_index = 0;
  attribute = 160;
  max_power = 50;
}

-- A keyboard with the boot protocol.
abbrev keyboard : InterfaceDescriptor
keyboard = record {
  desc_length = 9;
  desc_type = 4;
  interface_number = 0;
  alt_setting = 0;
  num_of_endpoints = 1;
  interface_class = 3;
  interface_subclass = 1;
  interface_protocol = 1;
  interface_index = 0;
}

abbrev interrupt_in : EndpointDescriptor
interrupt_in = record {
  desc_length = 7;
  desc_type = 5;
  endpoint_address = 0x81;
  attributes = 3;
  max_packet_size = 8;
  interval = 7;
}

abbrev descriptors : List UsbDescriptor
descriptors =
    config config0 ∷ interface keyboard ∷ unknown_descriptor 9 33 ∷ endpoint interrupt_in ∷ []

picks :
    pick_interface_with_triple descriptors (3, 1, 1) ≡ some (config0, keyboard, interrupt_in ∷ [])
unfolding pick_interface_with_triple pick_loop both
picks = refl

pick_interface_with_triple-IsPick_example :
    (pick_interface_with_triple descriptors (3, 1, 1) ≡ some (config0, keyboard, interrupt_in ∷ []))
    ↔ IsPick (3, 1, 1) descriptors config0 keyboard (interrupt_in ∷ [])
pick_interface_with_triple-IsPick_example =
    pick_interface_with_triple-IsPick descriptors (3, 1, 1) config0 keyboard (interrupt_in ∷ [])

key_five : to_char (from_usb_key_id 34) ≡ some 53
unfolding to_char from_usb_key_id
key_five = refl

collect_descriptors-endless_example : collect_descriptors 1000 (0 ∷ 33 ∷ []) 0 ≡ none
collect_descriptors-endless_example =
    collect_descriptors-endless 1000 33 [] (λ e. absurd (omega arith)) (λ e. absurd (omega arith))
      (λ e. absurd (omega arith))
