-- ===== src/Enumeration/Drivers.antt =====
-- keyboard.rs and tablet.rs: the drivers of the two devices.
use original_os_with_rust.Prelude.{ℕ, zero, suc, ok_or, no_interface, List, []}
use original_os_with_rust.Usb.{
  UsbDescriptor, UsbDeviceDescriptor, pick_interface_with_triple, check_tablet,
}
use original_os_with_rust.Keyboard.Driver.{pressed_keys, changes}
use original_os_with_rust.Enumeration.{
  Io, done, running, pure, send, request, ◌>>=◌, ◌>>◌, show, set_protocol,
}
use original_os_with_rust.Enumeration.Requests.{request_hid_report, request_hid_report_descriptor}

-- `n` rounds of the loop of `start_usb_keyboard`; the loop has no end but an error.
unfoldable pub keyboard_loop : ℕ → ℕ → List ℕ → Io (Unit {0})
keyboard_loop zero slot prev_pressed = running
keyboard_loop (suc n) slot prev_pressed = do
  report ← request_hid_report slot
  let pressed = pressed_keys report
  send (show (changes pressed prev_pressed))
  keyboard_loop n slot pressed

unfoldable pub start_usb_keyboard : ℕ → ℕ → List UsbDescriptor → Io (Unit {0})
start_usb_keyboard n slot descriptors = do
  picked ← done (ok_or (pick_interface_with_triple descriptors (3, 1, 1)) no_interface)
  request slot (set_protocol picked.0.config_value 0)
  keyboard_loop n slot []

unfoldable pub start_usb_tablet : ℕ → UsbDeviceDescriptor → List UsbDescriptor → Io (Unit {0})
start_usb_tablet slot device_descriptor descriptors = do
  done (check_tablet device_descriptor)
  picked ← done (ok_or (pick_interface_with_triple descriptors (3, 0, 0)) no_interface)
  request_hid_report_descriptor slot picked.1.interface_number
  pure tt
